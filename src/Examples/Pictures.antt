-- ===== src/Examples/Pictures.antt =====
-- The picture of small rooms.
use vks.Common.{
  ◌-◌, ◌*◌, ◌/◌, ◌%◌, ◌≤◌, ◌<◌, ◌≡◌, ◌≢◌, refl, List, [], ◌∷◌, some, arith, count, get_elem?,
}
use vks.Common.GoString.{GoString, GoString-discrete, lit, string_eq}
use vks.Common.Int.{pos, negsuc}
use mathlib.Core.Path.{subst}
use native.Mathlib.Decide.{ℕ_discrete}
use vks.Worker.Asd
use vks.Worker.Layout.{
  Spec, compute, grid, grid_cell, grid_cols, grid_rows, mode_lecture, mode_active_speaker,
}
use vks.Worker.Layout.Everyone.{shown, compute_shows_everyone}
use vks.Worker.Layout.Grid.{grid_in_range, grid_tight}
use vks.Worker.Room.State.{Room, new}
use vks.Worker.Room.Picture.{picture}
use vks.Worker.Room.Picture.Laws.{picture_shows_everyone, picture_shows_departed}
use vks.Examples.Numbers.{Num, num, num-HasExactCeilings}
use vks.Examples.Slots.{alice, bob}
use vks.Examples.Speakers.{options}

abbrev three : List GoString
three = alice ∷ bob ∷ lit "c" ∷ []

abbrev lecture_spec : Spec Num
lecture_spec = record {
  mode = mode_lecture;
  width = pos 1280;
  height = pos 720;
  cells = [];
  speaker = [];
  presenter = bob;
}

everyone_example : count bob (shown (compute num lecture_spec three)) ≡ count bob three
unfolding GoString-discrete ℕ_discrete
everyone_example =
    compute_shows_everyone num lecture_spec three bob
      (λ _. record { speaker_once = refl; presenter_once = refl }) refl refl

in_range_example :
    let cols = grid_cols num 3 in
    let rows = grid_rows num 3 in
    let w = num.div (num.of_int (pos 1280)) (num.of_int (pos cols)) in
    let h = num.div (num.of_int (pos 720)) (num.of_int (pos rows)) in
    (get_elem? (grid num lecture_spec three) 2
      ≡ some (grid_cell num w h (2 % cols) (2 / cols) (lit "c")))
    × (2 % cols < cols)
    × (2 / cols < rows)
in_range_example =
    grid_in_range num 3 lecture_spec three 2 (lit "c") num-HasExactCeilings (omega arith)
      (omega arith) refl

tight_example :
    (3 ≤ grid_rows num 3 * grid_cols num 3)
    × ((grid_cols num 3 - 1) * (grid_cols num 3 - 1) < 3)
    × ((grid_rows num 3 - 1) * grid_cols num 3 < 3)
tight_example = grid_tight num 3 3 num-HasExactCeilings (omega arith) (omega arith)

abbrev spoken : Room Num
spoken =
    let r = new num options in
    record r {
      join_order = alice ∷ bob ∷ [];
      mode = mode_active_speaker;
      det = record (Asd.new (num.of_int (negsuc 44)) 800_000_000) { current = bob };
    }

without_alice : (p : GoString) → alice ≢ p → count p (alice ∷ bob ∷ []) ≤ 1
without_alice p ne = ground arith

two_once : (p : GoString) → count p (alice ∷ bob ∷ []) ≤ 1
unfolding GoString-discrete ℕ_discrete
two_once p = elim (GoString-discrete alice p) [
  | yes e ↦ subst (λ q. count q (alice ∷ bob ∷ []) ≤ 1) e (omega arith)
  | no ne ↦ without_alice p ne
]

picture_example : count alice (shown (picture num spoken)) ≡ count alice spoken.join_order
unfolding GoString-discrete ℕ_discrete
picture_example = picture_shows_everyone num spoken alice two_once (λ _. refl) refl refl

departed_example :
    let left = record spoken { join_order = alice ∷ [] } in count bob (shown (picture num left)) ≡ 1
unfolding GoString-discrete ℕ_discrete
departed_example =
    picture_shows_departed num (record spoken { join_order = alice ∷ [] }) (λ e. cc) refl refl refl
      refl
