-- ===== src/Control/Domain.antt =====
-- services/control-plane/internal/domain/models.go: roles and layouts. A float64 is a parameter.
use vks.Common.{Bool, ◌||◌, List, Option, ◌==◌}
use vks.Common.GoString.{GoString, lit, string_eq}
use vks.Common.Int.{ℤ}

abbrev pub role_admin : GoString
role_admin = lit "admin"

abbrev pub role_operator : GoString
role_operator = lit "operator"

abbrev pub role_moderator : GoString
role_moderator = lit "moderator"

abbrev pub role_viewer : GoString
role_viewer = lit "viewer"

-- Role.Valid
unfoldable pub valid : GoString → Bool
valid r = r == role_admin || r == role_operator || r == role_moderator || r == role_viewer

pub record LayoutCell (F : Type 0) : Type 0 where
  pub id : GoString
  pub x : F
  pub y : F
  pub w : F
  pub h : F
  pub z_index : ℤ
  pub vad : Bool

pub record LayoutBackground : Type 0 where
  pub color : GoString
  pub url : GoString

pub record LayoutLogo (F : Type 0) : Type 0 where
  pub url : GoString
  pub x : F
  pub y : F
  pub w : F
  pub h : F

pub record Layout (F : Type 0) : Type 0 where
  pub mode : GoString
  pub width : ℤ
  pub height : ℤ
  pub background : LayoutBackground
  pub logo : LayoutLogo F
  pub cells : List (LayoutCell F)
  pub show_names : Option Bool
  pub name_bg_alpha : Option F
  pub name_bg_color : Option GoString
  pub name_font_size : Option ℤ
  pub name_font_color : Option GoString
