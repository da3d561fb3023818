-- ===== src/Control/Sql/Refines.antt =====
-- The statement that is put together does the update that is asked for.
use vks.Common.{
  ℕ, suc, ◌+◌, ◌-◌, ◌≡◌, ◌∙◌, ap, sym, refl, Bool, true, false, List, [], ◌∷◌, ◌++◌, some, arith,
  if◌then◌else◌, ◌==◌, get_elem?, length, Bool-cases, inl, inr,
}
use vks.Common.GoString.{GoString, lit, string_eq}
use vks.Common.Dict.{Dict, insert}
use vks.Control.Store.{Value, text, Row}
use vks.Control.Sql.{number_columns, collect_args, build, argument, assign, execute}

-- The fields that are columns, in the order of the map, put into a row.
abbrev pub set_columns :
    (GoString → Bool) → Dict GoString Value → Dict GoString Value → Dict GoString Value
set_columns allowed [] columns = columns
set_columns allowed ((k, v) ∷ fields) columns =
    set_columns allowed fields (if allowed k then insert k v columns else columns)

-- The update that is meant: of the row with the id, the columns among the fields, and when.
abbrev pub updated :
    (GoString → Bool) → Value → Dict GoString Value → GoString → List Row → List Row
updated allowed now fields id [] = []
updated allowed now fields id (r ∷ rs) =
    (if r.id == id
      then record r {
        columns = insert (lit "updated_at") now (set_columns allowed fields r.columns);
      }
      else r)
    ∷ updated allowed now fields id rs

get_elem?-append :
    (pre : List Value) (v : Value) (post : List Value)
    → get_elem? (pre ++ v ∷ post) (length pre) ≡ some v
get_elem?-append [] v post = refl
get_elem?-append (x ∷ pre) v post = get_elem?-append pre v post

-- The argument behind `pre` has the number after those of `pre`.
argument_lem :
    (pre : List Value) (v : Value) (post args : List Value) (i : ℕ)
    → args ≡ pre ++ v ∷ post
    → i ≡ suc (length pre)
    → argument i args ≡ v
unfolding argument
argument_lem pre v post args i e f =
    let at : i - 1 ≡ length pre = omega arith in
    rw (at, argument) (rw e (rw (get_elem?-append pre v post) refl))

length-snoc : (pre : List Value) (v : Value) → length (pre ++ v ∷ []) ≡ suc (length pre)
length-snoc [] v = refl
length-snoc (x ∷ pre) v = ap suc (length-snoc pre v)

snoc-append :
    (pre : List Value) (v : Value) (post : List Value) → (pre ++ v ∷ []) ++ post ≡ pre ++ v ∷ post
snoc-append [] v post = refl
snoc-append (x ∷ pre) v post = ap (λ l. x ∷ l) (snoc-append pre v post)

collect_args_yes :
    (allowed : GoString → Bool) (k : GoString) (v : Value) (fields : Dict GoString Value)
    → allowed k ≡ true
    → collect_args allowed ((k, v) ∷ fields) ≡ v ∷ collect_args allowed fields
unfolding collect_args
collect_args_yes allowed k v fields h = rw h refl

collect_args_no :
    (allowed : GoString → Bool) (k : GoString) (v : Value) (fields : Dict GoString Value)
    → allowed k ≡ false
    → collect_args allowed ((k, v) ∷ fields) ≡ collect_args allowed fields
unfolding collect_args
collect_args_no allowed k v fields h = rw h refl

-- From placeholder `i` on, behind the arguments `pre`, each column gets the value of its own field.
assign-number_columns :
    (allowed : GoString → Bool) (fields : Dict GoString Value) (pre post args : List Value) (i : ℕ)
    (cs : Dict GoString Value)
    → args ≡ pre ++ (collect_args allowed fields ++ post)
    → i ≡ suc (length pre)
    → assign args (number_columns allowed i fields).0 cs ≡ set_columns allowed fields cs
unfolding assign number_columns
assign-number_columns allowed [] pre post args i cs e f = refl
assign-number_columns allowed ((k, v) ∷ fields) pre post args i cs e f =
    elim (Bool-cases (allowed k)) [
      | inl is ↦
          let e' = e ∙ ap (λ l. pre ++ (l ++ post)) (collect_args_yes allowed k v fields is) in
          let later : assign args (number_columns allowed (suc i) fields).0
                (insert k (argument i args) cs)
              ≡ set_columns allowed fields (insert k v cs) =
            rw (argument_lem pre v (collect_args allowed fields ++ post) args i e' f) (
              assign-number_columns allowed fields (pre ++ v ∷ []) post args (suc i) (insert k v cs)
                (e' ∙ sym (snoc-append pre v (collect_args allowed fields ++ post)))
                (ap suc f ∙ ap suc (sym (length-snoc pre v)))) in
          rw is later
      | inr not ↦ rw not (
          assign-number_columns allowed fields pre post args i cs
            (e ∙ ap (λ l. pre ++ (l ++ post)) (collect_args_no allowed k v fields not)) f)
    ]

next-number_columns :
    (allowed : GoString → Bool) (fields : Dict GoString Value) (i : ℕ)
    → (number_columns allowed i fields).1 ≡ i + length (collect_args allowed fields)
unfolding number_columns collect_args
next-number_columns allowed [] i = omega arith
next-number_columns allowed ((k, v) ∷ fields) i =
    ground (arith, next-number_columns allowed fields i, next-number_columns allowed fields (suc i))

-- The arguments of the columns, and then the id.
build_lem :
    (allowed : GoString → Bool) (fields : Dict GoString Value) (id : GoString)
    (cs : Dict GoString Value)
    → let st = build allowed fields id in
      (assign st.args st.columns cs ≡ set_columns allowed fields cs)
      × (argument st.key st.args ≡ text id)
unfolding build
build_lem allowed fields id cs = (
  assign-number_columns allowed fields [] (text id ∷ []) _ 1 cs refl refl,
  argument_lem (collect_args allowed fields) (text id) [] _ _ refl
      (next-number_columns allowed fields 1 ∙ omega arith),
)

-- Whatever fields a request brings, the statement that is put together sets those among them that are
-- columns, each to its own value, and updated_at to the time of the statement, in the row with the id, and
-- changes no other row and no other column.
pub execute-build :
    (allowed : GoString → Bool) (now : Value) (fields : Dict GoString Value) (id : GoString)
    (rows : List Row)
    → execute now (build allowed fields id) rows ≡ updated allowed now fields id rows
unfolding execute
execute-build allowed now fields id [] = refl
execute-build allowed now fields id (r ∷ rs) =
    let (columns, key) = build_lem allowed fields id r.columns in
    rw (key, columns, execute-build allowed now fields id rs) refl
