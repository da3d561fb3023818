-- ===== src/Worker/Room/Members/Invariant.antt =====
-- Everyone in the room is listed once and holds at most one slot, and only participants hold slots.
use vks.Common.{
  ap, ℕ, ◌+◌, ◌-◌, ◌≤◌, ◌<◌, ◌≡◌, ◌≢◌, ◌∙◌, true, false, List, [], ◌∷◌, ◌++◌, Option, none, some,
  arith, if◌then◌else◌, ◌==◌, ◌||◌, length, count, count-append, contains, inl, ◌⊎◌, ltb,
}
use vks.Common.GoString.{GoString, string_eq, is_empty}
use vks.Common.Int.{ℤ, pos, negsuc}
use vks.Common.Dict.{Dict, lookup, lookup-insert, lookup-erase}
use vks.Worker.Room.Slots.{slot_count, take_free, release, assign_slot, assign_slots}
use vks.Worker.Room.Slots.Exclusive.{
  IsExclusive, count-take_free_ne, count-take_free_self, count-release_self, count-release_ne,
  length-release, length-take_free, assign_slots-IsExclusive, count-assign_slot_le,
}
use vks.Worker.Room.Slots.Assign.{length-assign_slots}
use vks.Worker.Room.State.{Room, SipPeer}
use vks.Worker.Room.Members.{remove_id, enter, leave, enter_sip, leave_sip}

-- 1 if the key is in the map.
abbrev pub present {ℓ} : {V : Type ℓ} → GoString → Dict GoString V → ℕ
present p d = elim (lookup p d) [ none ↦ 0 | some _ ↦ 1 ]

pub record IsWellFormed {F : Type 0} (r : Room F) : Type 0 where
  pub sized : length r.slots ≡ slot_count
  pub joined : (p : GoString) → count p r.join_order ≡ present p r.peers + present p r.sip_peers
  pub once : (p : GoString) → count p r.join_order ≤ 1
  pub seated : (p : GoString) → p ≢ [] → count p r.slots ≤ count p r.join_order

-- The peer has an id and is not in the room.
pub record IsNew {F : Type 0} (peer : GoString) (r : Room F) : Type 0 where
  pub has_id : peer ≢ []
  pub not_peer : lookup peer r.peers ≡ none
  pub not_sip : lookup peer r.sip_peers ≡ none

count-remove_id :
    (p q : GoString) (s : List GoString)
    → count p (remove_id s q) ≡ (if q == p then count p s - 1 else count p s)
unfolding remove_id
count-remove_id p q [] = ground arith
count-remove_id p q (v ∷ s) = ground (arith, count-remove_id p q s)

seated_take :
    (peer p : GoString) (ss js : List GoString)
    → peer ≢ []
    → p ≢ []
    → count peer ss ≡ 0
    → count p ss ≤ count p js
    → count p (take_free peer ss) ≤ count p (js ++ peer ∷ [])
seated_take peer p ss js h k none_yet le = ground (
  arith,
  count-append p js (peer ∷ []),
  count-take_free_ne peer p ss,
  count-take_free_self peer ss h,
)

seated_leave :
    (peer p : GoString) (ss js : List GoString)
    → peer ≢ []
    → p ≢ []
    → count p ss ≤ count p js
    → count p (release peer ss) ≤ count p (remove_id js peer)
seated_leave peer p ss js h k le =
    ground
      (arith, count-remove_id p peer js, count-release_self peer ss h, count-release_ne peer p ss)

module _ {F : Type 0} where
  pub enter-IsWellFormed :
      (peer name : GoString) (channels : Option (ℕ × ℕ)) (r : Room F)
      → IsNew peer r
      → IsWellFormed r
      → IsWellFormed (enter peer name channels r)
  unfolding enter
  enter-IsWellFormed peer name channels r new wf = record {
    sized = length-take_free peer r.slots ∙ wf.sized;
    joined = λ p. ground (
      arith,
      wf.joined p,
      new.not_peer,
      count-append p r.join_order (peer ∷ []),
      lookup-insert p peer (record { closed = false }) r.peers,
    );
    once = λ p. ground (
      arith,
      wf.once p,
      wf.joined p,
      new.not_peer,
      new.not_sip,
      count-append p r.join_order (peer ∷ []),
    );
    seated = λ p h.
        seated_take peer p r.slots r.join_order new.has_id h
          (ground (arith, wf.seated peer new.has_id, wf.joined peer, new.not_peer, new.not_sip))
          (wf.seated p h);
  }

  pub enter_sip-IsWellFormed :
      (peer name : GoString) (sp : SipPeer) (r : Room F)
      → IsNew peer r
      → IsWellFormed r
      → IsWellFormed (enter_sip peer name sp r)
  unfolding enter_sip
  enter_sip-IsWellFormed peer name sp r new wf = record {
    sized = length-take_free peer r.slots ∙ wf.sized;
    joined = λ p. ground (
      arith,
      wf.joined p,
      new.not_sip,
      count-append p r.join_order (peer ∷ []),
      lookup-insert p peer sp r.sip_peers,
    );
    once = λ p. ground (
      arith,
      wf.once p,
      wf.joined p,
      new.not_peer,
      new.not_sip,
      count-append p r.join_order (peer ∷ []),
    );
    seated = λ p h.
        seated_take peer p r.slots r.join_order new.has_id h
          (ground (arith, wf.seated peer new.has_id, wf.joined peer, new.not_peer, new.not_sip))
          (wf.seated p h);
  }

  pub leave-IsWellFormed :
      (peer : GoString) (r : Room F)
      → peer ≢ []
      → lookup peer r.sip_peers ≡ none
      → IsWellFormed r
      → IsWellFormed (leave peer r)
  unfolding leave
  leave-IsWellFormed peer r h not_sip wf = record {
    sized = length-release peer r.slots ∙ wf.sized;
    joined = λ p. ground (
      arith,
      wf.joined p,
      wf.once p,
      count-remove_id p peer r.join_order,
      lookup-erase p peer r.peers,
    );
    once = λ p. ground (arith, wf.once p, count-remove_id p peer r.join_order);
    seated = λ p k. seated_leave peer p r.slots r.join_order h k (wf.seated p k);
  }

  pub leave_sip-IsWellFormed :
      (peer : GoString) (r : Room F)
      → peer ≢ []
      → lookup peer r.peers ≡ none
      → IsWellFormed r
      → IsWellFormed (leave_sip peer r)
  unfolding leave_sip
  leave_sip-IsWellFormed peer r h not_peer wf = record {
    sized = length-release peer r.slots ∙ wf.sized;
    joined = λ p. ground (
      arith,
      wf.joined p,
      wf.once p,
      count-remove_id p peer r.join_order,
      lookup-erase p peer r.sip_peers,
    );
    once = λ p. ground (arith, wf.once p, count-remove_id p peer r.join_order);
    seated = λ p k. seated_leave peer p r.slots r.join_order h k (wf.seated p k);
  }

-- So nobody holds two slots.
pub IsWellFormed-IsExclusive : {F : Type 0} (r : Room F) → IsWellFormed r → IsExclusive r.slots
IsWellFormed-IsExclusive r wf p h = omega (arith, wf.once p, wf.seated p h)

-- An operator assigns slots only to participants.
abbrev pub AllJoined : Dict ℤ GoString → List GoString → Type 0
AllJoined [] js = Unit {0}
AllJoined ((n, p) ∷ rest) js = ((is_empty p || contains js p) ≡ true) × AllJoined rest js

contains-pos : (p : GoString) (js : List GoString) → contains js p ≡ true → 0 < count p js
contains-pos p [] h = cc
contains-pos p (q ∷ js) h = ground (arith, contains-pos p js)

seated_round :
    (q p : GoString) (n : ℕ) (ss js : List GoString)
    → q ≢ []
    → (is_empty p || contains js p) ≡ true
    → count q (if ltb n (length ss) then assign_slot n p ss else ss) ≤ count q ss ⊎ (0 < count q js)
seated_round q p n ss js k in_room =
    ground (arith, count-assign_slot_le q n p ss, contains-pos q js)

seated_assign :
    (a : Dict ℤ GoString) (ss js : List GoString) (q : GoString)
    → AllJoined a js
    → q ≢ []
    → (count q (assign_slots a ss) ≤ count q ss) ⊎ (0 < count q js)
unfolding assign_slots
seated_assign [] ss js q h k = inl (omega arith)
seated_assign ((negsuc n, p) ∷ rest) ss js q h k = seated_assign rest ss js q h.1 k
seated_assign ((pos n, p) ∷ rest) ss js q h k =
    let later =
      seated_assign rest (if ltb n (length ss) then assign_slot n p ss else ss) js q h.1 k in
    ground (arith, later, seated_round q p n ss js k h.0)

pub assign-IsWellFormed :
    {F : Type 0} (a : Dict ℤ GoString) (r : Room F)
    → AllJoined a r.join_order
    → IsWellFormed r
    → IsWellFormed (record r { slots = assign_slots a r.slots })
assign-IsWellFormed a r h wf = record {
  sized = length-assign_slots a r.slots ∙ wf.sized;
  joined = wf.joined;
  once = wf.once;
  seated = λ p k. ground (
    arith,
    wf.once p,
    wf.seated p k,
    seated_assign a r.slots r.join_order p h k,
    assign_slots-IsExclusive a r.slots (IsWellFormed-IsExclusive r wf) p k,
  );
}

-- The invariant reads four fields.
pub IsWellFormed-same :
    {F : Type 0} (r t : Room F)
    → t.slots ≡ r.slots
    → t.join_order ≡ r.join_order
    → t.peers ≡ r.peers
    → t.sip_peers ≡ r.sip_peers
    → IsWellFormed r
    → IsWellFormed t
IsWellFormed-same r t e f g h wf = record {
  sized = ap length e ∙ wf.sized;
  joined = λ p. rw (f, g, h) (wf.joined p);
  once = λ p. rw f (wf.once p);
  seated = λ p k. rw (e, f) (wf.seated p k);
}
