-- ===== src/Worker/Room/Slots/Assign.antt =====
-- What AssignSlots makes of the table, slot by slot, and that the order in which Go ranges over the map
-- of assignments does not show in it.
use vks.Common.{
  ℕ, zero, suc, ◌≡◌, refl, sym, ◌∙◌, ap, true, not, ◌||◌, List, [], ◌∷◌, none, some, arith,
  if◌then◌else◌, ◌==◌, ℕ_eq, length, set, contains, get_elem?, ltb, Bool-cases, inl, inr,
}
use vks.Common.GoString.{GoString, GoString-discrete, string_eq, is_empty}
use vks.Common.Int.{ℤ_eq}
use vks.Common.Int.{ℤ, pos, negsuc}
use vks.Common.Dict.{Dict, lookup, values}
use vks.Worker.Room.Slots.{release, release_others, assign_slot, assign_slots}
use vks.Worker.Room.Slots.Exclusive.{length-assign_slot}

get_elem?-release :
    (p s : GoString) (ss : List GoString) (j : ℕ)
    → get_elem? ss j ≡ some s
    → get_elem? (release p ss) j ≡ some (if s == p then [] else s)
unfolding release
get_elem?-release p s [] j h = cc
get_elem?-release p s (x ∷ ss) zero h = ground arith
get_elem?-release p s (x ∷ ss) (suc j) h = get_elem?-release p s ss j h

get_elem?-release_others :
    (p s : GoString) (n : ℕ) (ss : List GoString) (j : ℕ)
    → get_elem? ss j ≡ some s
    → get_elem? (release_others p n ss) j ≡ some (if j == n then s else if s == p then [] else s)
unfolding release_others
get_elem?-release_others p s n [] j h = cc
get_elem?-release_others p s zero (x ∷ ss) zero h = ground arith
get_elem?-release_others p s zero (x ∷ ss) (suc j) h = ground (arith, get_elem?-release p s ss j h)
get_elem?-release_others p s (suc n) (x ∷ ss) zero h = ground arith
get_elem?-release_others p s (suc n) (x ∷ ss) (suc j) h =
    ground (arith, get_elem?-release_others p s n ss j h)

get_elem?-set :
    (p s : GoString) (n : ℕ) (ss : List GoString) (j : ℕ)
    → get_elem? ss j ≡ some s
    → get_elem? (set ss n p) j ≡ some (if j == n then p else s)
get_elem?-set p s n [] j h = cc
get_elem?-set p s zero (x ∷ ss) zero h = ground arith
get_elem?-set p s zero (x ∷ ss) (suc j) h = ground arith
get_elem?-set p s (suc n) (x ∷ ss) zero h = ground arith
get_elem?-set p s (suc n) (x ∷ ss) (suc j) h = ground (arith, get_elem?-set p s n ss j h)

-- What one round leaves in slot `j` that held `s`.
abbrev after_round : ℕ → GoString → ℕ → GoString → GoString
after_round n p j s = if j == n then p else if is_empty p then s else if s == p then [] else s

get_elem?-assign_slot :
    (n : ℕ) (p s : GoString) (ss : List GoString) (j : ℕ)
    → get_elem? ss j ≡ some s
    → get_elem? (assign_slot n p ss) j ≡ some (after_round n p j s)
unfolding assign_slot
get_elem?-assign_slot n p s ss j h = ground (
  arith,
  get_elem?-set p s n ss j h,
  get_elem?-release_others p s n ss j h,
  get_elem?-set p (if j == n then s else if s == p then [] else s) n (release_others p n ss) j,
)

-- The pairs of an assignment whose slot exists in a table of `size` slots.
unfoldable pub in_range : ℕ → Dict ℤ GoString → Dict ℕ GoString
in_range size [] = []
in_range size ((negsuc n, p) ∷ rest) = in_range size rest
in_range size ((pos n, p) ∷ rest) =
    let others = in_range size rest in if ltb n size then (n, p) ∷ others else others

-- Keys are distinct, as in every map, and no peer is assigned to two slots.
abbrev pub IsAssignment : Dict ℕ GoString → Type 0
IsAssignment [] = Unit {0}
IsAssignment ((n, p) ∷ rest) =
    (lookup n rest ≡ none)
    × ((is_empty p || not (contains (values rest) p)) ≡ true)
    × IsAssignment rest

-- What the assignment as a whole leaves in slot `j` that held `s`.
unfoldable pub settled : Dict ℕ GoString → ℕ → GoString → GoString
settled assign j s = elim (lookup j assign) [
  | some p ↦ p
  | none ↦ if is_empty s then [] else if contains (values assign) s then [] else s
]

settled-cons :
    (n : ℕ) (p : GoString) (rest : Dict ℕ GoString) (j : ℕ) (s : GoString)
    → IsAssignment ((n, p) ∷ rest)
    → settled rest j (after_round n p j s) ≡ settled ((n, p) ∷ rest) j s
unfolding settled lookup
settled-cons n [] rest j [] (fresh, once, h) = ground arith
settled-cons n [] rest j (b ∷ s) (fresh, once, h) = ground arith
settled-cons n (c ∷ p) rest j [] (fresh, once, h) = ground arith
settled-cons n (c ∷ p) rest j (b ∷ s) (fresh, once, h) = ground arith

assign_slots_from :
    (assign : Dict ℤ GoString) (size : ℕ) (ss : List GoString) (j : ℕ) (s : GoString)
    → length ss ≡ size
    → IsAssignment (in_range size assign)
    → get_elem? ss j ≡ some s
    → get_elem? (assign_slots assign ss) j ≡ some (settled (in_range size assign) j s)
unfolding assign_slots in_range
assign_slots_from [] size ss j s e h k = unfold settled lookup in ground arith
assign_slots_from ((negsuc n, p) ∷ rest) size ss j s e h k =
    assign_slots_from rest size ss j s e h k
assign_slots_from ((pos n, p) ∷ rest) size ss j s e h k = elim (Bool-cases (ltb n size)) [
  | inl within ↦
      rw (e, within)
        (assign_slots_from rest size (assign_slot n p ss) j (after_round n p j s)
            (length-assign_slot n p ss ∙ e) (rw within at h).2 (get_elem?-assign_slot n p s ss j k)
          ∙ ap some (settled-cons n p (in_range size rest) j s (rw within at h)))
  | inr beyond ↦ rw (e, beyond) (assign_slots_from rest size ss j s e (rw beyond at h) k)
]

-- If the map names no peer twice, then AssignSlots puts into each slot of the map the peer that the map
-- gives it, frees every other slot whose peer the map places elsewhere, and leaves the rest alone.
pub assign_slots_lem :
    (assign : Dict ℤ GoString) (ss : List GoString) (j : ℕ) (s : GoString)
    → IsAssignment (in_range (length ss) assign)
    → get_elem? ss j ≡ some s
    → get_elem? (assign_slots assign ss) j ≡ some (settled (in_range (length ss) assign) j s)
assign_slots_lem assign ss j s h k = assign_slots_from assign (length ss) ss j s refl h k

pub length-assign_slots :
    (assign : Dict ℤ GoString) (ss : List GoString) → length (assign_slots assign ss) ≡ length ss
unfolding assign_slots
length-assign_slots [] ss = refl
length-assign_slots ((negsuc n, p) ∷ rest) ss = length-assign_slots rest ss
length-assign_slots ((pos n, p) ∷ rest) ss =
    length-assign_slots rest (if ltb n (length ss) then assign_slot n p ss else ss)
    ∙ ground (arith, length-assign_slot n p ss)

lookup-in_range :
    (size n : ℕ) (assign : Dict ℤ GoString)
    → lookup n (in_range size assign) ≡ (if ltb n size then lookup (pos n) assign else none)
unfolding in_range lookup
lookup-in_range size n [] = ground arith
lookup-in_range size n ((negsuc m, p) ∷ rest) = ground (arith, lookup-in_range size n rest)
lookup-in_range size n ((pos m, p) ∷ rest) = ground (arith, lookup-in_range size n rest)

contains_of_lookup :
    (n : ℕ) (p : GoString) (d : Dict ℕ GoString)
    → lookup n d ≡ some p
    → contains (values d) p ≡ true
unfolding lookup
contains_of_lookup n p [] h = cc
contains_of_lookup n p ((m, q) ∷ d) h = ground (arith, contains_of_lookup n p d)

lookup_of_contains :
    (p : GoString) (d : Dict ℕ GoString)
    → IsAssignment d
    → contains (values d) p ≡ true
    → (n : ℕ) × (lookup n d ≡ some p)
unfolding lookup
lookup_of_contains p [] h c = cc
lookup_of_contains p ((m, q) ∷ d) (fresh, once, h) c = elim (GoString-discrete q p) [
  | yes here ↦ (m, ground arith)
  | no there ↦ let (n, e) = lookup_of_contains p d h (ground arith) in (n, ground arith)
]

contains_le :
    (p : GoString) (d d' : Dict ℕ GoString)
    → IsAssignment d
    → ((n : ℕ) → lookup n d ≡ lookup n d')
    → contains (values d) p ≡ true
    → contains (values d') p ≡ true
contains_le p d d' h same c =
    let (n, e) = lookup_of_contains p d h c in contains_of_lookup n p d' (sym (same n) ∙ e)

contains_same :
    (p : GoString) (d d' : Dict ℕ GoString)
    → IsAssignment d
    → IsAssignment d'
    → ((n : ℕ) → lookup n d ≡ lookup n d')
    → contains (values d) p ≡ contains (values d') p
contains_same p d d' h h' same =
    ground (arith, contains_le p d d' h same, contains_le p d' d h' (λ n. sym (same n)))

settled_same :
    (d d' : Dict ℕ GoString)
    → IsAssignment d
    → IsAssignment d'
    → ((n : ℕ) → lookup n d ≡ lookup n d')
    → (j : ℕ) (s : GoString) → settled d j s ≡ settled d' j s
unfolding settled
settled_same d d' h h' same j s = ground (arith, same j, contains_same s d d' h h' same)

list_ext :
    (ss xs ys : List GoString)
    → length xs ≡ length ss
    → length ys ≡ length ss
    → ((j : ℕ) (s : GoString) → get_elem? ss j ≡ some s → get_elem? xs j ≡ get_elem? ys j)
    → xs ≡ ys
list_ext [] [] [] e e' h = refl
list_ext [] [] (y ∷ ys) e e' h = absurd (omega arith)
list_ext [] (x ∷ xs) ys e e' h = absurd (omega arith)
list_ext (s ∷ ss) [] ys e e' h = absurd (omega arith)
list_ext (s ∷ ss) (x ∷ xs) [] e e' h = absurd (omega arith)
list_ext (s ∷ ss) (x ∷ xs) (y ∷ ys) e e' h =
    cc (h 0 s refl, list_ext ss xs ys (omega arith) (omega arith) (λ j. h (suc j)))

-- The outcome does not depend on the order in which Go ranges over the map: two listings of one map,
-- which names no peer twice, give the same table.
pub assign_slots_order :
    (a b : Dict ℤ GoString) (ss : List GoString)
    → IsAssignment (in_range (length ss) a)
    → IsAssignment (in_range (length ss) b)
    → ((k : ℤ) → lookup k a ≡ lookup k b)
    → assign_slots a ss ≡ assign_slots b ss
assign_slots_order a b ss h h' same =
    list_ext ss (assign_slots a ss) (assign_slots b ss) (length-assign_slots a ss)
      (length-assign_slots b ss)
      (λ j s k.
        assign_slots_lem a ss j s h k
        ∙ ap some (settled_same d d' h h' same_range j s)
        ∙ sym (assign_slots_lem b ss j s h' k))
  where
    d : Dict ℕ GoString
    d = in_range (length ss) a

    d' : Dict ℕ GoString
    d' = in_range (length ss) b

    same_range : (n : ℕ) → lookup n d ≡ lookup n d'
    same_range n =
        lookup-in_range (length ss) n a
        ∙ ap (λ o. if ltb n (length ss) then o else none) (same (pos n))
        ∙ sym (lookup-in_range (length ss) n b)
