-- ===== src/Worker/Room/Names.antt =====
-- The captions of the participants in the mixed picture (room.go: buildOverlayMarkup, SetNameStyle,
-- SetShowNames, refreshAllOverlays).
pub mod Escape
use vks.Common.{
  ℕ, Bool, true, false, not, ◌&&◌, List, [], ◌∷◌, ◌++◌, Option, none, some, if◌then◌else◌,
}
use vks.Common.GoString.{GoString, lit, is_empty, replace_all, itoa}
use vks.Common.Int.{ℤ, pos}
use vks.Common.Float.{Float64}
use vks.Common.Dict.{Dict}
use vks.Worker.Room.State.{Room, NameStyle, World, Call, pipeline_overlay, emit, update}

-- Pango's escapes, `&` first.
unfoldable pub escape : GoString → GoString
unfolding replace_all
escape s =
    replace_all b'>' (lit "&gt;") (replace_all b'<' (lit "&lt;") (replace_all b'&' (lit "&amp;") s))

abbrev or_else {ℓ} : {A : Type ℓ} → Option A → A → A
or_else none d = d
or_else (some a) _ = a

abbrev or_color : GoString → GoString → GoString
or_color s d = if is_empty s then d else s

module _ {F : Type 0} (fl : Float64 F) where
  open fl use {of_int, to_int, mul, lt}

  -- Into the range from 0 to 1.
  abbrev pub clamp_alpha : F → F
  clamp_alpha a =
      let low = if lt a (of_int (pos 0)) then of_int (pos 0) else a in
      if lt (of_int (pos 1)) low then of_int (pos 1) else low

  unfoldable pub build_overlay_markup : GoString → GoString → F → GoString → GoString
  unfolding escape itoa
  build_overlay_markup name bg_hex bg_alpha fg_hex =
      lit "<span background=\""
      ++ (or_color bg_hex (lit "#000000")
          ++ (lit "\" bgalpha=\""
              ++ (itoa (to_int (mul (clamp_alpha bg_alpha) (of_int (pos 100))))
                  ++ (lit "%\" foreground=\""
                      ++ (or_color fg_hex (lit "#FFFFFF")
                          ++ (lit "\"> " ++ (escape name ++ lit " </span>")))))))

  -- The caption of a participant; "" hides it.
  unfoldable pub markup_for : Room F → GoString → GoString
  markup_for r name =
      if r.show_names && not (is_empty name)
      then build_overlay_markup name r.style.bg_color r.style.bg_alpha r.style.font_color
      else []

  unfoldable pub refresh_overlays : Room F → Dict GoString GoString → World F → World F
  refresh_overlays r [] s = s
  refresh_overlays r ((peer, name) ∷ rest) s =
      refresh_overlays r rest (emit (pipeline_overlay peer (markup_for r name) r.style.font_size) s)

  unfoldable pub refresh_all_overlays : World F → World F
  unfolding refresh_overlays
  refresh_all_overlays s = refresh_overlays s.room s.room.display_names s

  -- `none` is a nil pointer: the value stays.
  unfoldable pub set_name_style :
      Option F → Option GoString → Option ℤ → Option GoString → World F → World F
  set_name_style alpha bg_color font_size font_color s = refresh_all_overlays (
      update
        (λ r. record r {
          style = record {
            bg_alpha = or_else alpha r.style.bg_alpha;
            bg_color = or_else bg_color r.style.bg_color;
            font_size = or_else font_size r.style.font_size;
            font_color = or_else font_color r.style.font_color;
          };
        })
        s)

  unfoldable pub set_show_names : Bool → World F → World F
  set_show_names on s = refresh_all_overlays (update (λ r. record r { show_names = on }) s)
