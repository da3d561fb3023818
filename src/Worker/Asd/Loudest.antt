-- ===== src/Worker/Asd/Loudest.antt =====
-- Whom the detector makes the speaker, and when it keeps the one it has.
use vks.Common.{
  ℕ, ◌+◌, ◌<◌, ◌≡◌, ◌≢◌, refl, true, false, [], ◌∷◌, none, some, arith, ◌∙◌, ◌&&◌, Bool-cases, inl,
  inr, ◌⊎◌, ℕ_eq,
}
use vks.Common.GoString.{GoString, string_eq}
use vks.Common.Float.{Float64, IsStrictOrder}
use vks.Common.Dict.{Dict}
use vks.Worker.Asd.{
  LevelEntry, Sample, Detector, is_recent, effective_level, loudest, louder, time_of, heard, settle,
  push,
}

module _ {F : Type 0} (fl : Float64 F) where
  open fl use {lt}

  -- Nobody of the table who spoke lately is louder than `level`.
  abbrev pub Quieter : ℕ → F → Dict GoString (LevelEntry F) → Type 0
  Quieter now level [] = Unit {0}
  Quieter now level ((id, e) ∷ rest) =
      ((is_recent now e && lt level (effective_level fl e now)) ≡ false) × Quieter now level rest

  lt_below : (x y z : F) → IsStrictOrder fl → lt x y ≡ true → lt x z ≡ false → lt y z ≡ false
  lt_below x y z o h k = elim (Bool-cases (lt y z)) [
    | inl e ↦ absurd (ground (arith, o.lt_trans x y z h e))
    | inr e ↦ e
  ]

  louder_up :
      (now : ℕ) (id : GoString) (e : LevelEntry F) (best : GoString × F) (x : F)
      → IsStrictOrder fl
      → lt best.1 x ≡ false
      → lt (louder fl now id e best).1 x ≡ false
  unfolding louder
  louder_up now id e best x o h = ground (arith, lt_below best.1 (effective_level fl e now) x o)

  louder_covers :
      (now : ℕ) (id : GoString) (e : LevelEntry F) (best : GoString × F)
      → IsStrictOrder fl
      → (is_recent now e && lt (louder fl now id e best).1 (effective_level fl e now)) ≡ false
  unfolding louder
  louder_covers now id e best o = ground (arith, o.lt_irrefl (effective_level fl e now))

  -- The search never lowers the level, and ends at one that nobody in the table exceeds.
  loudest_up :
      (now : ℕ) (d : Dict GoString (LevelEntry F)) (best : GoString × F) (x : F)
      → IsStrictOrder fl
      → lt best.1 x ≡ false
      → lt (loudest fl now d best).1 x ≡ false
  unfolding loudest
  loudest_up now [] best x o h = h
  loudest_up now ((id, e) ∷ rest) best x o h =
      loudest_up now rest (louder fl now id e best) x o (louder_up now id e best x o h)

  loudest-Quieter :
      (now : ℕ) (d : Dict GoString (LevelEntry F)) (best : GoString × F)
      → IsStrictOrder fl
      → Quieter now (loudest fl now d best).1 d
  unfolding loudest
  loudest-Quieter now [] best o = tt
  loudest-Quieter now ((id, e) ∷ rest) best o = (
    ground (
      arith,
      louder_covers now id e best o,
      loudest_up now rest (louder fl now id e best) (effective_level fl e now) o,
    ),
    loudest-Quieter now rest (louder fl now id e best) o,
  )

  -- The search gives what it started from, or a peer of the table who spoke lately with its level.
  abbrev pub Found : ℕ → Dict GoString (LevelEntry F) → GoString × F → Type 0
  Found now [] best = ⊥
  Found now ((id, e) ∷ rest) best =
      ((is_recent now e ≡ true) × (best ≡ (id, effective_level fl e now))) ⊎ Found now rest best

  louder-cases :
      (now : ℕ) (id : GoString) (e : LevelEntry F) (best : GoString × F)
      → (louder fl now id e best ≡ best)
        ⊎ ((is_recent now e ≡ true) × (louder fl now id e best ≡ (id, effective_level fl e now)))
  unfolding louder
  louder-cases now id e best =
      elim (Bool-cases (is_recent now e && lt best.1 (effective_level fl e now))) [
        | inl up ↦ inr (ground arith, rw (louder, up))
        | inr same ↦ inl (rw (louder, same))
      ]

  loudest-Found :
      (now : ℕ) (d : Dict GoString (LevelEntry F)) (best : GoString × F)
      → (loudest fl now d best ≡ best) ⊎ Found now d (loudest fl now d best)
  unfolding loudest
  loudest-Found now [] best = inl refl
  loudest-Found now ((id, e) ∷ rest) best =
      elim (loudest-Found now rest (louder fl now id e best)) [
        | inl p ↦ elim (louder-cases now id e best) [
          | inl q ↦ inl (p ∙ q)
          | inr (r, q) ↦ inr (inl (r, p ∙ q))
        ]
        | inr q ↦ inr (inr q)
      ]

  settle_speaker :
      (wall now : ℕ) (best : GoString × F) (d : Detector F) (p : GoString)
      → (settle fl wall now best d).1 ≡ some p
      → (best.0 ≡ p)
        × (p ≢ d.current)
        × ((settle fl wall now best d).0.current ≡ p)
        × (lt best.1 d.threshold_dbfs ≡ false)
        × ((settle fl wall now best d).0.levels ≡ d.levels)
  unfolding settle
  settle_speaker wall now best d p h = ground arith

  -- The peer that Push finds loudest, with its level.
  abbrev pub winner : ℕ → Sample F → Detector F → GoString × F
  winner wall s d = loudest fl (time_of fl wall s) (heard fl wall s d).levels ([], fl.lowest)

  -- When Push names a new speaker, it is another than the one before and becomes the current one; its
  -- level reaches the threshold; nobody who spoke within two seconds is louder; and it did speak in
  -- that time, unless the winning level is still the lowest float, with which the search begins.
  pub push_speaker :
      (wall : ℕ) (s : Sample F) (d : Detector F) (p : GoString)
      → IsStrictOrder fl
      → (push fl wall s d).1 ≡ some p
      → let best = winner wall s d in
        let table = (push fl wall s d).0.levels in
        (best.0 ≡ p)
        × (p ≢ d.current)
        × ((push fl wall s d).0.current ≡ p)
        × (lt best.1 d.threshold_dbfs ≡ false)
        × Quieter (time_of fl wall s) best.1 table
        × ((best ≡ ([], fl.lowest)) ⊎ Found (time_of fl wall s) table best)
  unfolding push
  push_speaker wall s d p o h =
      let now = time_of fl wall s in
      let t = (heard fl wall s d).levels in
      let (named, other, current, loud, same) =
        settle_speaker wall now (winner wall s d) (heard fl wall s d) p h in
      (
        named,
        unfold heard in other,
        current,
        unfold heard in loud,
        rw same (loudest-Quieter now t ([], fl.lowest) o),
        rw same (loudest-Found now t ([], fl.lowest)),
      )

  -- A call of Push that names nobody leaves the speaker as it was, and so does every call within the
  -- hysteresis of the last change.
  pub push_keeps :
      (wall : ℕ) (s : Sample F) (d : Detector F)
      → ((push fl wall s d).1 ≡ none)
        ⊎ ((d.current_since ≢ 0) × (wall < d.current_since + d.hysteresis))
      → ((push fl wall s d).1 ≡ none) × ((push fl wall s d).0.current ≡ d.current)
  unfolding push settle heard
  push_keeps wall s d h = ground arith
