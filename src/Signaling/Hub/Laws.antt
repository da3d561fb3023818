-- ===== src/Signaling/Hub/Laws.antt =====
-- Whom a broadcast reaches, and what entering and leaving do to a room.
use vks.Common.{
  ℕ, suc, ◌+◌, ◌≡◌, refl, Bool, true, false, List, [], ◌∷◌, ◌++◌, none, some, arith, if◌then◌else◌,
  ◌==◌, Option-cases, inl, inr,
}
use mathlib.Core.List.{append-nil}
use vks.Common.GoString.{GoString, string_eq}
use vks.Common.Dict.{
  lookup, insert, erase, NodupKeys, lookup-insert, lookup-erase, insert-NodupKeys, erase-NodupKeys,
}
use vks.Signaling.Protocol.{Envelope}
use vks.Signaling.Hub.{
  Members, Rooms, Sessions, Frame, members, add, keep_or_drop, remove, write, to_members, broadcast,
}

-- How many frames go to `q`.
abbrev pub frames_to : GoString → List Frame → ℕ
frames_to q [] = 0
frames_to q (f ∷ fs) = if f.to == q then suc (frames_to q fs) else frames_to q fs

pub frames_to-append :
    (q : GoString) (xs ys : List Frame) → frames_to q (xs ++ ys) ≡ frames_to q xs + frames_to q ys
frames_to-append q [] ys = omega arith
frames_to-append q (f ∷ xs) ys = ground (arith, frames_to-append q xs ys)

-- What goes to `q`, in its order.
abbrev pub envelopes_to : GoString → List Frame → List Envelope
envelopes_to q [] = []
envelopes_to q (f ∷ fs) = if f.to == q then f.env ∷ envelopes_to q fs else envelopes_to q fs

pub envelopes_to-append :
    (q : GoString) (xs ys : List Frame)
    → envelopes_to q (xs ++ ys) ≡ envelopes_to q xs ++ envelopes_to q ys
envelopes_to-append q [] ys = refl
envelopes_to-append q (f ∷ xs) ys = ground (arith, envelopes_to-append q xs ys)

-- 1 for a session that is in the store and open.
abbrev pub open_session : GoString → Sessions → ℕ
open_session q ss = elim (lookup q ss) [ none ↦ 0 | some s ↦ if s.closed then 0 else 1 ]

-- Whether a session is in a room of the hub.
abbrev pub is_member : GoString → GoString → Rooms → Bool
is_member room q h = elim (lookup q (members room h)) [ none ↦ false | some _ ↦ true ]

frames_to-write :
    (q id : GoString) (env : Envelope) (ss : Sessions)
    → frames_to q (write ss id env) ≡ (if id == q then open_session q ss else 0)
unfolding write
frames_to-write q id env ss = ground arith

frames_to-to_members :
    (q except : GoString) (env : Envelope) (ss : Sessions) (r : Members)
    → NodupKeys r
    → frames_to q (to_members ss except env r)
      ≡ (if q == except then 0 else elim (lookup q r) [ none ↦ 0 | some _ ↦ open_session q ss ])
unfolding to_members lookup
frames_to-to_members q except env ss [] h = ground arith
frames_to-to_members q except env ss ((id, _) ∷ r) h = ground (
  arith,
  frames_to-append q (if id == except then [] else write ss id env) (to_members ss except env r),
  frames_to-write q id env ss,
  frames_to-to_members q except env ss r h.1,
  h.0,
)

-- A broadcast to a room whose list names nobody twice writes one frame to every open session of the room
-- but the excepted one, and none to anybody else.
pub broadcast_lem :
    (room except q : GoString) (env : Envelope) (ss : Sessions) (h : Rooms)
    → NodupKeys (members room h)
    → frames_to q (broadcast room except env ss h)
      ≡ (if q == except then 0 else if is_member room q h then open_session q ss else 0)
unfolding broadcast
broadcast_lem room except q env ss h k =
    ground (arith, frames_to-to_members q except env ss (members room h) k)

members-add :
    (room id other : GoString) (h : Rooms)
    → members other (add room id h)
      ≡ (if room == other then insert id tt (members room h) else members other h)
unfolding members add
members-add room id other h =
    ground (arith, lookup-insert other room (insert id tt (members room h)) h)

pub is_member-add :
    (room id other q : GoString) (h : Rooms)
    → is_member other q (add room id h) ≡ (
        if room == other
        then (if id == q then true else is_member other q h)
        else is_member other q h)
is_member-add room id other q h =
    ground (arith, members-add room id other h, lookup-insert q id tt (members room h))

members-keep_or_drop :
    (room other : GoString) (r : Members) (h : Rooms)
    → members other (keep_or_drop room r h) ≡ (if room == other then r else members other h)
unfolding members keep_or_drop
members-keep_or_drop room other [] h = ground (arith, lookup-erase other room h)
members-keep_or_drop room other (m ∷ r) h = ground (arith, lookup-insert other room (m ∷ r) h)

members-there :
    (room : GoString) (r : Members) (h : Rooms) → lookup room h ≡ some r → members room h ≡ r
unfolding members
members-there room r h there = rw (there, members)

members-remove :
    (room id other : GoString) (h : Rooms)
    → members other (remove room id h)
      ≡ (if room == other then erase id (members room h) else members other h)
unfolding remove
members-remove room id other h = elim (Option-cases (lookup room h)) [
  | inl gone ↦ rw (gone, remove) (unfold members erase in ground arith)
  | inr (r, there) ↦
      rw (there, remove)
        (ground
          (arith, members-keep_or_drop room other (erase id r) h, members-there room r h there))
]

pub is_member-remove :
    (room id other q : GoString) (h : Rooms)
    → is_member other q (remove room id h) ≡ (
        if room == other
        then (if id == q then false else is_member other q h)
        else is_member other q h)
is_member-remove room id other q h =
    ground (arith, members-remove room id other h, lookup-erase q id (members room h))

if_NodupKeys :
    (b : Bool) (r t : Members) → NodupKeys r → NodupKeys t → NodupKeys (if b then r else t)
if_NodupKeys true r t h k = h
if_NodupKeys false r t h k = k

pub add-NodupKeys :
    (room id other : GoString) (h : Rooms)
    → ((o : GoString) → NodupKeys (members o h))
    → NodupKeys (members other (add room id h))
add-NodupKeys room id other h k =
    rw (members-add room id other h) (
      if_NodupKeys (room == other) _ _ (insert-NodupKeys id tt (members room h) (k room)) (k other))

pub remove-NodupKeys :
    (room id other : GoString) (h : Rooms)
    → ((o : GoString) → NodupKeys (members o h))
    → NodupKeys (members other (remove room id h))
remove-NodupKeys room id other h k =
    rw (members-remove room id other h)
      (if_NodupKeys (room == other) _ _ (erase-NodupKeys id (members room h) (k room)) (k other))

-- What a message says to a session: itself, if it is in the store and open.
abbrev pub if_open : GoString → Envelope → Sessions → List Envelope
if_open q env ss = elim (lookup q ss) [ none ↦ [] | some s ↦ if s.closed then [] else env ∷ [] ]

envelopes_to-write :
    (q id : GoString) (env : Envelope) (ss : Sessions)
    → envelopes_to q (write ss id env) ≡ (if id == q then if_open q env ss else [])
unfolding write
envelopes_to-write q id env ss = ground arith

envelopes_to-to_members :
    (q except : GoString) (env : Envelope) (ss : Sessions) (r : Members)
    → NodupKeys r
    → envelopes_to q (to_members ss except env r)
      ≡ (if q == except then [] else elim (lookup q r) [ none ↦ [] | some _ ↦ if_open q env ss ])
unfolding to_members lookup
envelopes_to-to_members q except env ss [] h = ground arith
envelopes_to-to_members q except env ss ((id, _) ∷ r) h = ground (
  arith,
  envelopes_to-append q (if id == except then [] else write ss id env) (to_members ss except env r),
  envelopes_to-write q id env ss,
  envelopes_to-to_members q except env ss r h.1,
  h.0,
  append-nil (if_open q env ss),
)

-- What a broadcast says to each session.
pub envelopes_to-broadcast :
    (room except q : GoString) (env : Envelope) (ss : Sessions) (h : Rooms)
    → NodupKeys (members room h)
    → envelopes_to q (broadcast room except env ss h)
      ≡ (if q == except then [] else if is_member room q h then if_open q env ss else [])
unfolding broadcast
envelopes_to-broadcast room except q env ss h k =
    ground (arith, envelopes_to-to_members q except env ss (members room h) k)
