-- ===== src/Control/Templates.antt =====
-- services/control-plane/internal/usecase/layouts.go, with the statements of repo/postgres/layouts.go.
use vks.Common.{[], ◌∷◌, none, some, Result, ok, err, if◌then◌else◌}
use vks.Common.GoString.{GoString, lit, string_eq, is_empty}
use vks.Common.Int.{ℤ, pos, ltb_ℤ}
use vks.Common.Dict.{Dict, lookup, insert, erase}
use vks.Control.Errors.{AppError, invalid_argument, not_found}
use vks.Control.Sql.{template_column, build, execute}
use vks.Control.Store.{Value, text, json, other, Row, Store, Env, stamp, note, find_row, delete_row}
use vks.Control.Rooms.{app_error, db_error, Done, marshalled}

-- The input of Create: the name and the size, and the other columns as their values go to the INSERT,
-- the cells and the background in their JSON.
pub record CreateTemplateInput : Type 0 where
  pub name : GoString
  pub width : ℤ
  pub height : ℤ
  pub cells : Value
  pub background : Value
  pub style : Dict GoString Value

abbrev positive_or : ℤ → ℤ → ℤ
positive_or n i = if ltb_ℤ (pos 0) i then i else n

-- A field under its name as a column
unfoldable pub renamed : GoString → GoString → Dict GoString Value → Dict GoString Value
renamed k column fields = elim (lookup k fields) [
  | none ↦ fields
  | some v ↦ erase k (insert column v fields)
]

module _ {F : Type 0} where
  unfoldable pub get_template : Env F → GoString → Store F → Result AppError Row
  get_template e id s = elim e.query [
    | some x ↦ err db_error
    | none ↦ elim (find_row id s.templates) [
      | none ↦ err (app_error not_found (lit "layout template not found"))
      | some r ↦ ok r
    ]
  ]

  unfoldable pub create_template :
      Env F → GoString → CreateTemplateInput → Store F → Result AppError Row × Store F
  unfolding note
  create_template e actor in_ s =
      if is_empty in_.name
      then (err (app_error invalid_argument (lit "name required")), s)
      else elim e.command [
        | some x ↦ (err db_error, s)
        | none ↦
            let row : Row = record {
              id = e.new_id;
              columns =
                  (lit "name", text in_.name)
                  ∷ (lit "width", other (e.to_text (positive_or (pos 1280) in_.width)))
                  ∷ (lit "height", other (e.to_text (positive_or (pos 720) in_.height)))
                  ∷ (lit "cells", json (e.marshal_value in_.cells))
                  ∷ (lit "background", json (e.marshal_value in_.background))
                  ∷ (lit "created_by", text actor)
                  ∷ in_.style;
            } in
            (
              ok row,
              note e actor (lit "layouts.create") row.id
                  (record s { templates = row ∷ s.templates }),
            )
      ]

  -- What Update does to the fields before the statement
  unfoldable pub template_fields : Env F → Dict GoString Value → Dict GoString Value
  unfolding marshalled renamed
  template_fields e fields = renamed (lit "nameBgAlpha") (lit "name_bg_alpha") (
      renamed (lit "nameBgColor") (lit "name_bg_color") (
        renamed (lit "nameFontSize") (lit "name_font_size") (
          renamed (lit "nameFontColor") (lit "name_font_color")
            (marshalled e (lit "background") (marshalled e (lit "cells") fields)))))

  -- LayoutTemplates.Update of the repository: no column, no statement
  unfoldable pub update_template_row :
      Env F → GoString → Dict GoString Value → Store F → Result AppError Done × Store F
  unfolding build execute template_column
  update_template_row e id fields s =
      let st = build template_column fields id in
      elim st.columns [
        | [] ↦ (ok tt, s)
        | c ∷ cs ↦ elim e.command [
          | some x ↦ (err db_error, s)
          | none ↦ (ok tt, record s { templates = execute (stamp e) st s.templates })
        ]
      ]

  unfoldable pub after_template :
      Env F → GoString → GoString → Result AppError Done × Store F → Result AppError Row × Store F
  unfolding note get_template
  after_template e actor id (err x, s) = (err x, s)
  after_template e actor id (ok _, s) =
      let noted = note e actor (lit "layouts.update") id s in (get_template e id noted, noted)

  unfoldable pub update_template :
      Env F → GoString → GoString → Dict GoString Value → Store F → Result AppError Row × Store F
  unfolding template_fields update_template_row after_template
  update_template e actor id fields s =
      after_template e actor id (update_template_row e id (template_fields e fields) s)

  unfoldable pub delete_template :
      Env F → GoString → GoString → Store F → Result AppError Done × Store F
  unfolding delete_row note
  delete_template e actor id s = elim e.command [
    | some x ↦ (err db_error, s)
    | none ↦ (
      ok tt,
      note e actor (lit "layouts.delete") id (record s { templates = delete_row id s.templates }),
    )
  ]
