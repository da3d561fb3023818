-- ===== src/Worker/Room/Forward/MixMinus.antt =====
-- Sound goes to everyone but the one who makes it, and video to whom it can.
use vks.Common.{
  ℕ, zero, suc, ◌+◌, ◌≤◌, ◌<◌, ◌≡◌, refl, List, [], ◌∷◌, ◌++◌, none, some, arith, if◌then◌else◌,
  ◌==◌, length, All, All-append, Bool-cases, inl, inr, get_elem?,
}
use vks.Common.GoString.{GoString, string_eq}
use vks.Common.Dict.{Dict, lookup, NodupKeys}
use vks.Worker.Room.Slots.{slot_of, slot_count}
use vks.Worker.Room.State.{Room, Peer}
use vks.Worker.Room.Forward.{
  Write, write_slot, to_others, forward, forward_audio, forward_video, video_slot_count,
}

-- The slot found holds the peer, and is a slot of the table.
pub slot_of_lem :
    (p : GoString) (ss : List GoString) (i : ℕ)
    → slot_of p ss ≡ some i
    → (get_elem? ss i ≡ some p) × (i < length ss)
unfolding slot_of
slot_of_lem p [] i h = cc
slot_of_lem p (s ∷ ss) zero h = ground arith
slot_of_lem p (s ∷ ss) (suc i) h = ground (arith, slot_of_lem p ss i)

-- How many writes go to `q`.
abbrev pub writes_to : GoString → List Write → ℕ
writes_to q [] = 0
writes_to q (w ∷ ws) = if w.to == q then suc (writes_to q ws) else writes_to q ws

writes_to-append :
    (q : GoString) (xs ys : List Write) → writes_to q (xs ++ ys) ≡ writes_to q xs + writes_to q ys
writes_to-append q [] ys = omega arith
writes_to-append q (w ∷ xs) ys = ground (arith, writes_to-append q xs ys)

-- 1 for a peer that is there and open.
abbrev pub listening : GoString → Dict GoString Peer → ℕ
listening q d = elim (lookup q d) [ none ↦ 0 | some p ↦ if p.closed then 0 else 1 ]

writes_to-write_slot :
    (tracks : ℕ) (q id : GoString) (p : Peer) (slot : ℕ) (pkt : GoString)
    → slot < tracks
    → writes_to q (write_slot tracks id p slot pkt)
      ≡ (if id == q then (if p.closed then 0 else 1) else 0)
unfolding write_slot
writes_to-write_slot tracks q id p slot pkt h = ground arith

writes_to-to_others :
    (tracks : ℕ) (sender q : GoString) (slot : ℕ) (pkt : GoString) (d : Dict GoString Peer)
    → slot < tracks
    → NodupKeys d
    → writes_to q (to_others tracks sender slot pkt d) ≡ (if q == sender then 0 else listening q d)
unfolding to_others lookup
writes_to-to_others tracks sender q slot pkt [] h k = ground arith
writes_to-to_others tracks sender q slot pkt ((id, p) ∷ d) h k = ground (
  arith,
  writes_to-append q (if id == sender then [] else write_slot tracks id p slot pkt)
      (to_others tracks sender slot pkt d),
  writes_to-write_slot tracks q id p slot pkt h,
  writes_to-to_others tracks sender q slot pkt d h k.1,
  k.0,
)

-- Each write carries the packet on the track of the sender's slot.
abbrev pub OnTrack : ℕ → GoString → List Write → Type 0
OnTrack slot pkt = All (λ w. (w.slot ≡ slot) × (w.pkt ≡ pkt))

write_slot-OnTrack :
    (tracks : ℕ) (id : GoString) (p : Peer) (slot : ℕ) (pkt : GoString)
    → OnTrack slot pkt (write_slot tracks id p slot pkt)
unfolding write_slot
write_slot-OnTrack tracks id p slot pkt = ground arith

to_others-OnTrack :
    (tracks : ℕ) (sender : GoString) (slot : ℕ) (pkt : GoString) (d : Dict GoString Peer)
    → OnTrack slot pkt (to_others tracks sender slot pkt d)
unfolding to_others
to_others-OnTrack tracks sender slot pkt [] = tt
to_others-OnTrack tracks sender slot pkt ((id, p) ∷ d) =
    All-append _ (if id == sender then [] else write_slot tracks id p slot pkt) _
      (elim (Bool-cases (id == sender)) [
        | inl own ↦ rw own tt
        | inr other ↦ rw other (write_slot-OnTrack tracks id p slot pkt)
      ])
      (to_others-OnTrack tracks sender slot pkt d)

-- A packet of sound reaches every other participant whose connection is open exactly once, on the
-- track of the sender's slot, and never the sender itself; nobody who is not in the room gets it.
pub forward_audio_lem :
    {F : Type 0} (sender pkt : GoString) (r : Room F) (slot : ℕ)
    → NodupKeys r.peers
    → length r.slots ≡ slot_count
    → slot_of sender r.slots ≡ some slot
    → OnTrack slot pkt (forward_audio sender pkt r)
      × ((q : GoString)
          → writes_to q (forward_audio sender pkt r)
            ≡ (if q == sender then 0 else listening q r.peers))
unfolding forward_audio
forward_audio_lem sender pkt r slot k size at_slot =
    let within : slot < slot_count = omega (arith, (slot_of_lem sender r.slots slot at_slot).1) in
    (
      rw (at_slot, forward) (to_others-OnTrack slot_count sender slot pkt r.peers),
      λ q.
          rw (at_slot, forward) (writes_to-to_others slot_count sender q slot pkt r.peers within k),
    )

-- Sound of somebody without a slot is heard by nobody.
pub forward_audio_unseated :
    {F : Type 0} (sender pkt : GoString) (r : Room F)
    → slot_of sender r.slots ≡ none
    → forward_audio sender pkt r ≡ []
unfolding forward_audio forward
forward_audio_unseated sender pkt r h = ground arith

to_others_beyond :
    (tracks : ℕ) (sender : GoString) (slot : ℕ) (pkt : GoString) (d : Dict GoString Peer)
    → tracks ≤ slot
    → to_others tracks sender slot pkt d ≡ []
unfolding to_others
to_others_beyond tracks sender slot pkt [] h = refl
to_others_beyond tracks sender slot pkt ((id, p) ∷ d) h =
    ground (arith, to_others_beyond tracks sender slot pkt d h)

-- In SFU mode only the video of slot 0 is forwarded: a peer has one video track, so that the packets
-- of a sender in any other slot are dropped for everyone.
pub forward_video_dropped :
    {F : Type 0} (sender pkt : GoString) (r : Room F) (n : ℕ)
    → slot_of sender r.slots ≡ some (suc n)
    → forward_video sender pkt r ≡ []
unfolding forward_video
forward_video_dropped sender pkt r n h =
    rw (h, forward) (to_others_beyond video_slot_count sender (suc n) pkt r.peers (omega arith))
