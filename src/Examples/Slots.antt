-- ===== src/Examples/Slots.antt =====
-- The slot table of a room.
use vks.Common.{
  ℕ, true, ◌&&◌, not, if◌then◌else◌, ◌≤◌, ◌≡◌, ◌≢◌, refl, List, [], ◌∷◌, some, arith, count,
  get_elem?, replicate,
}
use vks.Common.GoString.{GoString, GoString-discrete, lit, string_eq, is_empty}
use vks.Common.Int.{ℤ, pos, ℤ_eq, ℤ-discrete}
use vks.Common.Dict.{Dict, lookup}
use mathlib.Core.Path.{subst}
use native.Mathlib.Decide.{ℕ_discrete}
use vks.Worker.Room.Slots.{take_free, assign_slots}
use vks.Worker.Room.Slots.Exclusive.{
  IsExclusive, take_free-IsExclusive, assign_slots-IsExclusive, take_free_twice,
}
use vks.Worker.Room.Slots.Assign.{in_range, settled, assign_slots_lem, assign_slots_order}
use vks.Worker.Room.State.{CustomCell}
use vks.Worker.Room.Picture.{place, slot_at}
use vks.Worker.Room.Picture.Laws.{slot_id, place-slot_id}

abbrev pub alice : GoString
alice = lit "a"

abbrev pub bob : GoString
bob = lit "b"

abbrev table : List GoString
table = alice ∷ [] ∷ bob ∷ []

abbrev swap : Dict ℤ GoString
swap = (pos 0, bob) ∷ (pos 2, alice) ∷ []

abbrev swap_back : Dict ℤ GoString
swap_back = (pos 2, alice) ∷ (pos 0, bob) ∷ []

table_others : (p : GoString) → p ≢ [] → alice ≢ p → bob ≢ p → count p table ≤ 1
table_others p h k l = ground arith

table-IsExclusive : IsExclusive table
unfolding GoString-discrete ℕ_discrete
table-IsExclusive p h = elim (GoString-discrete alice p) [
  | yes e ↦ subst (λ q. count q table ≤ 1) e (omega arith)
  | no not_alice ↦ elim (GoString-discrete bob p) [
    | yes e ↦ subst (λ q. count q table ≤ 1) e (omega arith)
    | no not_bob ↦ table_others p h not_alice not_bob
  ]
]

take_free_example : IsExclusive (take_free (lit "c") table)
unfolding GoString-discrete ℕ_discrete
take_free_example = take_free-IsExclusive (lit "c") table (λ e. cc) refl table-IsExclusive

assign_example : IsExclusive (assign_slots swap table)
assign_example = assign_slots-IsExclusive swap table table-IsExclusive

take_free_twice_example : ¬ IsExclusive (take_free alice table)
unfolding GoString-discrete ℕ_discrete
take_free_twice_example = take_free_twice alice table (λ e. cc) (omega arith) refl

swap_example : get_elem? (assign_slots swap table) 0 ≡ some bob
unfolding in_range settled GoString-discrete ℕ_discrete lookup
swap_example = assign_slots_lem swap table 0 alice (refl, refl, (refl, refl, tt)) refl

same_map : (k : ℤ) → lookup k swap ≡ lookup k swap_back
unfolding lookup ℤ-discrete ℕ_discrete
same_map k = elim (ℤ-discrete (pos 0) k) [
  | yes e ↦ subst (λ j. lookup j swap ≡ lookup j swap_back) e refl
  | no other ↦ ground arith
]

order_example : assign_slots swap table ≡ assign_slots swap_back table
unfolding in_range GoString-discrete ℕ_discrete lookup
order_example =
    assign_slots_order swap swap_back table (refl, refl, (refl, refl, tt))
      (refl, refl, (refl, refl, tt)) same_map

abbrev vad_cell : CustomCell ℕ
vad_cell = record { id = slot_id 1; x = 0; y = 0; w = 1; h = 1; z = pos 0; vad = true }

resolve_example : place (alice ∷ bob ∷ replicate 18 []) alice vad_cell ≡ record {
  peer_id =
      if vad_cell.vad && not (is_empty alice)
      then alice
      else slot_at (alice ∷ bob ∷ replicate 18 []) 1;
  x = 0;
  y = 0;
  w = 1;
  h = 1;
  z = pos 0;
  slot_index = pos 1;
}
resolve_example =
    place-slot_id (alice ∷ bob ∷ replicate 18 []) alice vad_cell 1 refl (omega arith) refl
