-- ===== src/Worker/Room/Slots/Exclusive.antt =====
-- No peer holds two slots: which operations on the slot table keep this, and which do not.
use vks.Common.{
  ℕ, zero, suc, ◌≤◌, ◌≡◌, ◌≢◌, refl, true, false, List, [], ◌∷◌, arith, if◌then◌else◌, length,
  length-set, set, count, contains, ltb,
}
use vks.Common.GoString.{GoString, string_eq, is_empty}
use vks.Common.Int.{ℤ, pos, negsuc}
use vks.Common.Dict.{Dict}
use vks.Worker.Room.Slots.{take_free, release, release_others, assign_slot, assign_slots}

abbrev pub IsExclusive : List GoString → Type 0
IsExclusive ss = (p : GoString) → p ≢ [] → count p ss ≤ 1

pub count-take_free_ne :
    (p q : GoString) (ss : List GoString) → p ≢ q → q ≢ [] → count q (take_free p ss) ≡ count q ss
unfolding take_free
count-take_free_ne p q [] h k = refl
count-take_free_ne p q (s ∷ ss) h k = ground (arith, count-take_free_ne p q ss h k)

pub count-take_free_self :
    (p : GoString) (ss : List GoString)
    → p ≢ []
    → count p (take_free p ss) ≡ (if contains ss [] then suc (count p ss) else count p ss)
unfolding take_free
count-take_free_self p [] h = refl
count-take_free_self p (s ∷ ss) h = ground (arith, count-take_free_self p ss h)

-- A peer that holds no slot takes a free one, and no peer holds two slots after it.
pub take_free-IsExclusive :
    (p : GoString) (ss : List GoString)
    → p ≢ []
    → count p ss ≡ 0
    → IsExclusive ss
    → IsExclusive (take_free p ss)
take_free-IsExclusive p ss h fresh ex q k =
    ground (arith, ex q k, count-take_free_ne p q ss, count-take_free_self p ss h)

pub count-release_self : (p : GoString) (ss : List GoString) → p ≢ [] → count p (release p ss) ≡ 0
unfolding release
count-release_self p [] h = refl
count-release_self p (s ∷ ss) h = ground (arith, count-release_self p ss h)

pub count-release_ne :
    (p q : GoString) (ss : List GoString) → p ≢ q → q ≢ [] → count q (release p ss) ≡ count q ss
unfolding release
count-release_ne p q [] h k = refl
count-release_ne p q (s ∷ ss) h k = ground (arith, count-release_ne p q ss h k)

pub release-IsExclusive :
    (p : GoString) (ss : List GoString) → p ≢ [] → IsExclusive ss → IsExclusive (release p ss)
release-IsExclusive p ss h ex q k =
    ground (arith, ex q k, count-release_self p ss h, count-release_ne p q ss)

pub length-release : (p : GoString) (ss : List GoString) → length (release p ss) ≡ length ss
unfolding release
length-release p [] = refl
length-release p (s ∷ ss) = omega (arith, length-release p ss)

pub length-take_free : (p : GoString) (ss : List GoString) → length (take_free p ss) ≡ length ss
unfolding take_free
length-take_free p [] = refl
length-take_free p (s ∷ ss) = ground (arith, length-take_free p ss)

pub length-release_others :
    (p : GoString) (n : ℕ) (ss : List GoString) → length (release_others p n ss) ≡ length ss
unfolding release_others
length-release_others p n [] = refl
length-release_others p zero (s ∷ ss) = omega (arith, length-release p ss)
length-release_others p (suc n) (s ∷ ss) = omega (arith, length-release_others p n ss)

pub length-assign_slot :
    (n : ℕ) (p : GoString) (ss : List GoString) → length (assign_slot n p ss) ≡ length ss
unfolding assign_slot
length-assign_slot n p ss = ground (
  arith,
  length-set (if is_empty p then ss else release_others p n ss) n p,
  length-release_others p n ss,
)

count-set_le :
    (q p : GoString) (n : ℕ) (ss : List GoString) → q ≢ p → count q (set ss n p) ≤ count q ss
count-set_le q p n [] h = omega arith
count-set_le q p zero (s ∷ ss) h = ground arith
count-set_le q p (suc n) (s ∷ ss) h = ground (arith, count-set_le q p n ss h)

count-release_others_ne :
    (p q : GoString) (n : ℕ) (ss : List GoString)
    → p ≢ q
    → q ≢ []
    → count q (release_others p n ss) ≡ count q ss
unfolding release_others
count-release_others_ne p q n [] h k = refl
count-release_others_ne p q zero (s ∷ ss) h k = ground (arith, count-release_ne p q ss h k)
count-release_others_ne p q (suc n) (s ∷ ss) h k =
    ground (arith, count-release_others_ne p q n ss h k)

count-set-release_others :
    (p : GoString) (n : ℕ) (ss : List GoString)
    → p ≢ []
    → count p (set (release_others p n ss) n p) ≤ 1
unfolding release_others
count-set-release_others p n [] h = omega arith
count-set-release_others p zero (s ∷ ss) h = ground (arith, count-release_self p ss h)
count-set-release_others p (suc n) (s ∷ ss) h = ground (arith, count-set-release_others p n ss h)

pub assign_slot-IsExclusive :
    (n : ℕ) (p : GoString) (ss : List GoString) → IsExclusive ss → IsExclusive (assign_slot n p ss)
unfolding assign_slot
assign_slot-IsExclusive n p ss ex q k = ground (
  arith,
  ex q k,
  count-set-release_others p n ss,
  count-set_le q p n ss,
  count-set_le q p n (release_others p n ss),
  count-release_others_ne p q n ss,
)

-- Whatever an operator assigns, in whatever order the map is ranged over, no peer that held at most one
-- slot before holds two after.
pub assign_slots-IsExclusive :
    (assign : Dict ℤ GoString) (ss : List GoString)
    → IsExclusive ss
    → IsExclusive (assign_slots assign ss)
unfolding assign_slots
assign_slots-IsExclusive [] ss ex = ex
assign_slots-IsExclusive ((negsuc n, p) ∷ rest) ss ex = assign_slots-IsExclusive rest ss ex
assign_slots-IsExclusive ((pos n, p) ∷ rest) ss ex =
    assign_slots-IsExclusive rest (if ltb n (length ss) then assign_slot n p ss else ss) kept
  where
    kept : IsExclusive (if ltb n (length ss) then assign_slot n p ss else ss)
    kept = elim (ltb n (length ss)) as (λ b. IsExclusive (if b then assign_slot n p ss else ss)) [
      | true ↦ assign_slot-IsExclusive n p ss ex
      | false ↦ ex
    ]

-- A peer that an operator has put into a slot before it joined gets a second slot when it joins while
-- some slot is free.
pub take_free_twice :
    (p : GoString) (ss : List GoString)
    → p ≢ []
    → 1 ≤ count p ss
    → contains ss [] ≡ true
    → ¬ IsExclusive (take_free p ss)
take_free_twice p ss h held room ex = ground (arith, ex p h, count-take_free_self p ss h)

-- Assigning one peer gives no other peer a slot.
pub count-assign_slot_le :
    (q : GoString) (n : ℕ) (p : GoString) (ss : List GoString)
    → q ≢ []
    → q ≢ p
    → count q (assign_slot n p ss) ≤ count q ss
unfolding assign_slot
count-assign_slot_le q n p ss k h = ground (
  arith,
  count-set_le q p n ss,
  count-set_le q p n (release_others p n ss),
  count-release_others_ne p q n ss,
)
