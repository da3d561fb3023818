-- ===== src/Control/Sql.antt =====
-- The UPDATE statements that Rooms.Update and LayoutTemplates.Update put together (services/control-plane/
-- internal/adapters/repo/postgres: rooms.go, layouts.go): their text, their arguments, and what they do.
pub mod Refines
pub mod Numerals
use vks.Common.{
  ℕ, zero, suc, ◌+◌, ◌-◌, ◌/◌, ◌%◌, Bool, true, false, ◌||◌, ◌&&◌, ltb, List, [], ◌∷◌, ◌++◌, map,
  Option, none, some, if◌then◌else◌, ◌==◌, get_elem?,
}
use vks.Common.Tests.{ℕ_eq}
use vks.Common.GoString.{GoString, lit, string_eq}
use vks.Common.Int.{ℤ, pos, negsuc}
use vks.Common.Dict.{Dict, insert}
use vks.Control.Store.{Value, text, Row, text_of}

-- The `allowed` of Rooms.Update
unfoldable pub room_column : GoString → Bool
room_column k =
    k == lit "name"
    || (k == lit "description"
        || (k == lit "mode"
            || (k == lit "max_participants"
                || (k == lit "waiting_room"
                    || (k == lit "default_layout"
                        || (k == lit "locked" || k == lit "recording"))))))

-- The `switch` of LayoutTemplates.Update
unfoldable pub template_column : GoString → Bool
template_column k =
    k == lit "name"
    || (k == lit "width"
        || (k == lit "height"
            || (k == lit "cells"
                || (k == lit "background"
                    || (k == lit "name_bg_alpha"
                        || (k == lit "name_bg_color"
                            || (k == lit "name_font_size" || k == lit "name_font_color")))))))

-- `rune('0' + i)`, as its 32 bits
abbrev pub digit_rune : ℤ → ℕ
digit_rune (pos n) = (b'0' + n) % 4_294_967_296
digit_rune (negsuc n) = (b'0' + (4_294_967_295 - n % 4_294_967_296)) % 4_294_967_296

-- U+FFFD, which stands for what is no rune
abbrev pub replacement : GoString
replacement = 239 ∷ 191 ∷ 189 ∷ []

-- `string(r)`: the UTF-8 of a rune with these 32 bits
unfoldable pub utf8 : ℕ → GoString
utf8 r =
    if ltb r 128
    then r ∷ []
    else if ltb r 2_048
    then (192 + r / 64) ∷ (128 + r % 64) ∷ []
    else if ltb 1_114_111 r || (ltb 55_295 r && ltb r 57_344)
    then replacement
    else if ltb r 65_536
    then (224 + r / 4_096) ∷ (128 + r / 64 % 64) ∷ (128 + r % 64) ∷ []
    else (240 + r / 262_144) ∷ (128 + r / 4_096 % 64) ∷ (128 + r / 64 % 64) ∷ (128 + r % 64) ∷ []

-- itoa of rooms.go
unfoldable pub itoa : ℤ → GoString
unfolding utf8
itoa (pos n) =
    if ltb n 10
    then utf8 (digit_rune (pos n))
    else utf8 (digit_rune (pos (n / 10))) ++ utf8 (digit_rune (pos (n % 10)))
itoa (negsuc n) = utf8 (digit_rune (negsuc n))

-- The loop of itoaN, in at most `fuel` rounds
unfoldable pub itoa_loop : ℕ → ℕ → GoString → GoString
itoa_loop zero n s = s
itoa_loop (suc fuel) n s =
    let rest = itoa_loop fuel (n / 10) ((b'0' + n % 10) ∷ s) in if ltb 0 n then rest else s

-- itoaN of layouts.go; `n` rounds are enough.
unfoldable pub itoa_n : ℤ → GoString
unfolding itoa_loop utf8
itoa_n (pos n) = if ltb n 10 then utf8 (digit_rune (pos n)) else itoa_loop n n []
itoa_n (negsuc n) = utf8 (digit_rune (negsuc n))

-- A statement: each column with the number of its placeholder, the number of the id's, and the
-- arguments from number 1 on.
pub record Statement : Type 0 where
  pub columns : List (GoString × ℕ)
  pub key : ℕ
  pub args : List Value

-- The loop over the map from placeholder `i` on: the columns, and the next placeholder
unfoldable pub number_columns :
    (GoString → Bool) → ℕ → Dict GoString Value → List (GoString × ℕ) × ℕ
number_columns allowed i [] = ([], i)
number_columns allowed i ((k, v) ∷ fields) =
    let ok = allowed k in
    let (rest, next) = number_columns allowed (if ok then suc i else i) fields in
    (if ok then (k, i) ∷ rest else rest, next)

-- The same loop: the arguments
unfoldable pub collect_args : (GoString → Bool) → Dict GoString Value → List Value
collect_args allowed [] = []
collect_args allowed ((k, v) ∷ fields) =
    let rest = collect_args allowed fields in if allowed k then v ∷ rest else rest

unfoldable pub build : (GoString → Bool) → Dict GoString Value → GoString → Statement
unfolding number_columns collect_args
build allowed fields id =
    let (columns, next) = number_columns allowed 1 fields in
    record { columns = columns; key = next; args = collect_args allowed fields ++ text id ∷ [] }

unfoldable pub room_columns_text : List (GoString × ℕ) → GoString
unfolding itoa
room_columns_text [] = []
room_columns_text ((k, i) ∷ cs) =
    lit ", " ++ (k ++ (lit "=$" ++ (itoa (pos i) ++ room_columns_text cs)))

-- The text that Rooms.Update sends
unfoldable pub room_text : Statement → GoString
unfolding room_columns_text
room_text st =
    lit "UPDATE rooms SET updated_at=now()"
    ++ (room_columns_text st.columns ++ (lit " WHERE id=$" ++ itoa (pos st.key)))

-- joinComma
unfoldable pub join_comma : List GoString → GoString
join_comma [] = []
join_comma (s ∷ []) = s
join_comma (s ∷ t ∷ ss) = s ++ (lit ", " ++ join_comma (t ∷ ss))

-- The text that LayoutTemplates.Update sends, if there is a column
unfoldable pub template_text : Statement → GoString
unfolding join_comma itoa_n
template_text st =
    lit "UPDATE layout_templates SET "
    ++ (join_comma (
          map (λ (k, i). k ++ (lit "=$" ++ itoa_n (pos i))) st.columns
          ++ lit "updated_at=now()" ∷ [])
        ++ (lit " WHERE id=$" ++ itoa_n (pos st.key)))

-- The argument of placeholder `i`
unfoldable pub argument : ℕ → List Value → Value
argument i args = elim (get_elem? args (i - 1)) [ none ↦ text [] | some v ↦ v ]

unfoldable pub assign : List Value → List (GoString × ℕ) → Dict GoString Value → Dict GoString Value
unfolding argument
assign args [] columns = columns
assign args ((k, i) ∷ cs) columns = assign args cs (insert k (argument i args) columns)

-- What PostgreSQL does with a statement: both set updated_at to now().
unfoldable pub execute : Value → Statement → List Row → List Row
unfolding assign
execute now st [] = []
execute now st (r ∷ rs) =
    (if r.id == text_of (some (argument st.key st.args))
      then record r {
        columns = insert (lit "updated_at") now (assign st.args st.columns r.columns);
      }
      else r)
    ∷ execute now st rs
