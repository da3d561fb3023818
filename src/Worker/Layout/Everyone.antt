-- ===== src/Worker/Layout/Everyone.antt =====
-- Who appears in a computed layout.
use vks.Common.{
  Bool-cases, inl, inr, ℕ, suc, ◌≡◌, ◌≢◌, refl, true, false, List, [], ◌∷◌, map, arith,
  if◌then◌else◌, ◌==◌, count,
}
use vks.Common.GoString.{GoString, string_eq, is_empty}
use vks.Common.Float.{Float64}
use vks.Common.Sort.{sort, count-sort}
use vks.Worker.Layout.{
  Cell, Spec, first, or_default, others, mode_custom, mode_pip, mode_active_speaker, mode_lecture,
  grid_from, grid, thumb_row, audience, active_speaker, lecture, compute_mode, compute,
}

-- The peers shown, cell by cell.
abbrev pub shown : {F : Type 0} → List (Cell F) → List GoString
shown = map (λ c. c.peer_id)

count-others :
    (main p : GoString) (ps : List GoString)
    → count p (others main ps) ≡ (if p == main then 0 else count p ps)
unfolding others
count-others main p [] = ground arith
count-others main p (q ∷ ps) = ground (arith, count-others main p ps)

-- The peer that the mode puts into the large cell is in the room, once.
pub record HasMain {F : Type 0} (spec : Spec F) (ps : List GoString) : Type 0 where
  pub speaker_once : count (or_default spec.speaker (first ps)) ps ≡ 1
  pub presenter_once : count (or_default spec.presenter (first ps)) ps ≡ 1

module _ {F : Type 0} (fl : Float64 F) where
  shown-grid_from :
      (cols : ℕ) (w h : F) (i : ℕ) (ps : List GoString) → shown (grid_from fl cols w h i ps) ≡ ps
  unfolding grid_from
  shown-grid_from cols w h i [] = refl
  shown-grid_from cols w h i (p ∷ ps) = cc (shown-grid_from cols w h (suc i) ps)

  shown-thumb_row : (y w h : F) (i : ℕ) (ps : List GoString) → shown (thumb_row fl y w h i ps) ≡ ps
  unfolding thumb_row
  shown-thumb_row y w h i [] = refl
  shown-thumb_row y w h i (p ∷ ps) = cc (shown-thumb_row y w h (suc i) ps)

  shown-audience : (x w h : F) (i : ℕ) (ps : List GoString) → shown (audience fl x w h i ps) ≡ ps
  unfolding audience
  shown-audience x w h i [] = refl
  shown-audience x w h i (p ∷ ps) = cc (shown-audience x w h (suc i) ps)

  shown-grid : (spec : Spec F) (ps : List GoString) → shown (grid fl spec ps) ≡ ps
  unfolding grid
  shown-grid spec ps = shown-grid_from _ _ _ 0 ps

  shown-active_speaker :
      (spec : Spec F) (ps : List GoString)
      → let main = or_default spec.speaker (first ps) in
        shown (active_speaker fl spec ps) ≡ main ∷ sort (others main ps)
  unfolding active_speaker
  shown-active_speaker spec ps = cc (shown-thumb_row _ _ _ 0 _)

  shown-lecture :
      (spec : Spec F) (ps : List GoString)
      → let main = or_default spec.presenter (first ps) in
        shown (lecture fl spec ps) ≡ main ∷ others main ps
  unfolding lecture
  shown-lecture spec ps = cc (shown-audience _ _ _ 0 _)

  count-main-others :
      (main p : GoString) (ps : List GoString)
      → count main ps ≡ 1
      → count p (main ∷ others main ps) ≡ count p ps
  count-main-others main p ps once = ground (arith, count-others main p ps)

  count-main-sorted :
      (main p : GoString) (ps : List GoString)
      → count main ps ≡ 1
      → count p (main ∷ sort (others main ps)) ≡ count p ps
  count-main-sorted main p ps once =
      ground (arith, count-others main p ps, count-sort p (others main ps))

  shows_mode :
      (spec : Spec F) (ps : List GoString) (p : GoString)
      → HasMain spec ps
      → (spec.mode == mode_custom) ≡ false
      → (spec.mode == mode_pip) ≡ false
      → count p (shown (compute_mode fl spec ps)) ≡ count p ps
  unfolding compute_mode
  shows_mode spec ps p m h k = elim (Bool-cases (spec.mode == mode_active_speaker)) [
    | inl a ↦ rw (h, a, shown-active_speaker spec ps) (count-main-sorted _ p ps m.speaker_once)
    | inr a ↦ elim (Bool-cases (spec.mode == mode_lecture)) [
      | inl b ↦ rw (h, a, b, shown-lecture spec ps) (count-main-others _ p ps m.presenter_once)
      | inr b ↦ rw (h, a, b, k, shown-grid spec ps)
    ]
  ]

  -- In every mode but the custom one and the picture in picture, each participant has exactly one cell
  -- and nobody else has one, if those whom the mode enlarges are participants.
  pub compute_shows_everyone :
      (spec : Spec F) (ps : List GoString) (p : GoString)
      → (ps ≢ [] → HasMain spec ps)
      → (spec.mode == mode_custom) ≡ false
      → (spec.mode == mode_pip) ≡ false
      → count p (shown (compute fl spec ps)) ≡ count p ps
  unfolding compute
  compute_shows_everyone spec [] p m h k = refl
  compute_shows_everyone spec (q ∷ ps) p m h k = shows_mode spec (q ∷ ps) p (m (λ e. cc)) h k

  -- A speaker who is no longer in the room keeps the large cell.
  pub compute_shows_departed :
      (spec : Spec F) (ps : List GoString)
      → ps ≢ []
      → (spec.mode == mode_active_speaker) ≡ true
      → (spec.mode == mode_custom) ≡ false
      → is_empty spec.speaker ≡ false
      → count spec.speaker ps ≡ 0
      → count spec.speaker (shown (compute fl spec ps)) ≡ 1
  unfolding compute compute_mode
  compute_shows_departed spec [] h a k s gone = absurd (h refl)
  compute_shows_departed spec (q ∷ ps) h a k s gone =
      rw (k, a, shown-active_speaker spec (q ∷ ps), s)
        (ground (
          arith,
          count-sort spec.speaker (others spec.speaker (q ∷ ps)),
          count-others spec.speaker spec.speaker (q ∷ ps),
        ))
