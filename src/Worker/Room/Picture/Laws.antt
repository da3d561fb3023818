-- ===== src/Worker/Room/Picture/Laws.antt =====
-- Who appears in the picture of a room.
use vks.Common.{
  ◌&&◌, not, ℕ, zero, suc, ◌≤◌, ◌<◌, ◌≡◌, ◌∙◌, ◌≢◌, refl, ap, Bool, true, false, List, [], ◌∷◌,
  ◌++◌, Option, none, some, arith, if◌then◌else◌, ◌==◌, ℕ_eq, length, count,
}
use native.Mathlib.Decide.{ℕ_discrete}
use vks.Common.GoString.{GoString-discrete, GoString, lit, string_eq, is_empty, itoa}
use vks.Common.Int.{ℤ, pos, negsuc}
use vks.Common.Float.{Float64}
use vks.Worker.Layout.{Cell, Spec, mode_custom, mode_pip, mode_active_speaker, first}
use vks.Worker.Layout.Everyone.{shown, compute_shows_everyone, compute_shows_departed}
use vks.Worker.Room.Slots.{slot_count}
use vks.Worker.Room.State.{Room, CustomCell}
use vks.Worker.Room.Picture.{picture, place, cell_slot_index, resolve_cell_id, slot_number, slot_at}

-- The main cells of `compute` in a room: whoever speaks, else who came first.
abbrev room_spec : {F : Type 0} → Room F → Spec F
room_spec r = record {
  mode = r.mode;
  width = r.width;
  height = r.height;
  cells = [];
  speaker = r.det.current;
  presenter = [];
}

first_once :
    (js : List GoString) → js ≢ [] → ((p : GoString) → count p js ≤ 1) → count (first js) js ≡ 1
first_once [] h once = absurd (h refl)
first_once (p ∷ js) h once = ground (arith, once p)

module _ {F : Type 0} (fl : Float64 F) where
  -- In a computed mode other than picture in picture each participant has exactly one cell and nobody
  -- else has one, if the order of joining names nobody twice (which AddSIPPeer does not check) and the
  -- speaker of the detector is a participant or nobody.
  pub picture_shows_everyone :
      (r : Room F) (p : GoString)
      → ((q : GoString) → count q r.join_order ≤ 1)
      → (is_empty r.det.current ≡ false → count r.det.current r.join_order ≡ 1)
      → (r.mode == mode_custom) ≡ false
      → (r.mode == mode_pip) ≡ false
      → count p (shown (picture fl r)) ≡ count p r.join_order
  unfolding picture
  picture_shows_everyone r p once there h k = rw h (
      compute_shows_everyone fl (room_spec r) r.join_order p
        (λ some_here. record {
          speaker_once = ground (arith, there, first_once r.join_order some_here once);
          presenter_once = first_once r.join_order some_here once;
        })
        h k)

  -- In the active speaker mode a speaker who has left but is still the detector's keeps its cell.
  pub picture_shows_departed :
      (r : Room F)
      → r.join_order ≢ []
      → (r.mode == mode_active_speaker) ≡ true
      → (r.mode == mode_custom) ≡ false
      → is_empty r.det.current ≡ false
      → count r.det.current r.join_order ≡ 0
      → count r.det.current (shown (picture fl r)) ≡ 1
  unfolding picture
  picture_shows_departed r some_here a h k gone =
      rw h (compute_shows_departed fl (room_spec r) r.join_order some_here a h k gone)

-- The id of the cell that the layout editor binds to slot `n`.
abbrev pub slot_id : ℕ → GoString
slot_id n = lit "slot-" ++ itoa (pos n)

names_slot : ℕ → Bool
names_slot n = elim (slot_number slot_count (slot_id n)) [
  | some (some m) ↦ m == n
  | some none ↦ false
  | none ↦ false
]

-- Whether the ids of the first `k` slots name their slots.
first_named : ℕ → Bool
first_named zero = true
first_named (suc k) = if names_slot k then first_named k else false

first_named_all : first_named slot_count ≡ true
unfolding first_named names_slot slot_number itoa ℕ_discrete
first_named_all = refl

names_slot-of_first : (k : ℕ) → first_named k ≡ true → (m : ℕ) → m < k → names_slot m ≡ true
unfolding first_named
names_slot-of_first zero table m below = elim below [ ]
names_slot-of_first (suc k) table m below =
    ground (arith, λ (t : first_named k ≡ true). names_slot-of_first k t m)

slot_number-slot_id : (n : ℕ) → n < slot_count → slot_number slot_count (slot_id n) ≡ some (some n)
unfolding names_slot
slot_number-slot_id n h = ground (arith, names_slot-of_first slot_count first_named_all n h)

second_byte : GoString → ℕ
second_byte (x ∷ y ∷ s) = y
second_byte (x ∷ []) = 0
second_byte [] = 0

slot_id-ne-speaker : (n : ℕ) → (slot_id n == lit "speaker") ≡ false
unfolding second_byte
slot_id-ne-speaker n = elim (GoString-discrete (slot_id n) (lit "speaker")) [
  | yes e ↦ absurd (let e' : 108 ≡ 112 = ap second_byte e in omega arith)
  | no h ↦ ground arith
]

-- An id "slot-N" is resolved to the peer of slot N.
resolve_slot :
    (slots : List GoString) (speaker : GoString) (n : ℕ)
    → length slots ≡ slot_count
    → n < slot_count
    → resolve_cell_id (slot_id n) slots speaker ≡ slot_at slots n
unfolding resolve_cell_id
resolve_slot slots speaker n size h = rw (slot_id-ne-speaker n, size, slot_number-slot_id n h)

number_or_none : Option (Option ℕ) → ℤ
number_or_none o = elim o [ none ↦ negsuc 0 | some none ↦ negsuc 0 | some (some n) ↦ pos n ]

indexed_lem :
    (slots : List GoString) (id : GoString) (n : ℕ)
    → length slots ≡ slot_count
    → n < slot_count
    → id ≡ slot_id n
    → cell_slot_index (length slots) id ≡ pos n
unfolding cell_slot_index number_or_none
indexed_lem slots id n size below e =
    ap (λ i. cell_slot_index (length slots) i) e
    ∙ ap (λ m. cell_slot_index m (slot_id n)) size
    ∙ ap number_or_none (slot_number-slot_id n below)

-- A cell of a custom layout with the id "slot-N" shows the peer of slot N, for each of the twenty slots,
-- unless it is marked VAD and somebody speaks: then it shows the speaker. Either way it is bound to slot N
-- and keeps its place.
pub place-slot_id :
    {F : Type 0} (slots : List GoString) (speaker : GoString) (c : CustomCell F) (n : ℕ)
    → length slots ≡ slot_count
    → n < slot_count
    → c.id ≡ slot_id n
    → place slots speaker c ≡ record {
      peer_id = if c.vad && not (is_empty speaker) then speaker else slot_at slots n;
      x = c.x;
      y = c.y;
      w = c.w;
      h = c.h;
      z = c.z;
      slot_index = pos n;
    }
unfolding place
place-slot_id slots speaker c n size below id =
    let shown_by : GoString → ℤ → Cell _ = λ peer slot. record {
      peer_id = if c.vad && not (is_empty speaker) then speaker else peer;
      x = c.x;
      y = c.y;
      w = c.w;
      h = c.h;
      z = c.z;
      slot_index = slot;
    } in
    ap (λ peer. shown_by peer (cell_slot_index (length slots) c.id))
      (ap (λ i. resolve_cell_id i slots speaker) id ∙ resolve_slot slots speaker n size below)
    ∙ ap (shown_by (slot_at slots n)) (indexed_lem slots c.id n size below id)
