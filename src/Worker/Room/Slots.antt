-- ===== src/Worker/Room/Slots.antt =====
-- The slot table of a room (room.go): `slots[i]` is the peer in slot i, or "" for a free slot. A peer's
-- slot is the audio track of the others into which its sound is forwarded.
pub mod Exclusive
pub mod Assign
use vks.Common.{
  ℕ, zero, suc, ◌+◌, ◌≤◌, ◌<◌, ◌≡◌, refl, Bool, true, false, not, ◌&&◌, ◌||◌, List, [], ◌∷◌, Option,
  none, some, arith, ltb, if◌then◌else◌, ◌==◌, length, set, replicate, count,
}
use vks.Common.GoString.{GoString, string_eq, is_empty}
use vks.Common.Int.{ℤ, pos, negsuc}
use vks.Common.Dict.{Dict}
use mathlib.Core.Option

-- peer.AudioSlotCount
abbrev pub slot_count : ℕ
slot_count = 20

abbrev pub no_slots : List GoString
no_slots = replicate slot_count []

-- The loop of AddPeer and AddSIPPeer that takes the first free slot; a full table stays as it is.
unfoldable pub take_free : GoString → List GoString → List GoString
take_free peer [] = []
take_free peer (s ∷ ss) = if is_empty s then peer ∷ ss else s ∷ take_free peer ss

-- The loop of RemovePeer and RemoveSIPPeer that frees every slot of a peer.
unfoldable pub release : GoString → List GoString → List GoString
release peer [] = []
release peer (s ∷ ss) = (if s == peer then [] else s) ∷ release peer ss

-- `slot := -1; for i, id := range slots { if id == peer { slot = i; break } }`; `none` is -1.
unfoldable pub slot_of : GoString → List GoString → Option ℕ
slot_of peer [] = none
slot_of peer (s ∷ ss) =
    if s == peer then some 0 else (elim (slot_of peer ss) [ none ↦ none | some i ↦ some (suc i) ])

-- The inner loop of AssignSlots: `peer` leaves every slot but number `slot`.
unfoldable pub release_others : GoString → ℕ → List GoString → List GoString
unfolding release
release_others peer slot [] = []
release_others peer zero (s ∷ ss) = s ∷ release peer ss
release_others peer (suc n) (s ∷ ss) = (if s == peer then [] else s) ∷ release_others peer n ss

-- One round of AssignSlots, for a slot in range.
unfoldable pub assign_slot : ℕ → GoString → List GoString → List GoString
unfolding release_others
assign_slot slot peer ss = set (if is_empty peer then ss else release_others peer slot ss) slot peer

-- AssignSlots on the table. Pairs come in the order of the range over the map; a slot out of range is
-- skipped.
unfoldable pub assign_slots : Dict ℤ GoString → List GoString → List GoString
unfolding assign_slot
assign_slots [] ss = ss
assign_slots ((negsuc n, peer) ∷ rest) ss = assign_slots rest ss
assign_slots ((pos n, peer) ∷ rest) ss =
    assign_slots rest (if ltb n (length ss) then assign_slot n peer ss else ss)

-- Roster: the peer of each slot that is taken, by rising slot number.
unfoldable pub roster_from : ℕ → List GoString → Dict ℕ GoString
roster_from i [] = []
roster_from i (s ∷ ss) =
    let rest = roster_from (suc i) ss in if is_empty s then rest else (i, s) ∷ rest
