-- ===== src/Worker/Asd.antt =====
-- services/media-worker/internal/asd/asd.go: the active speaker detector. Times and durations are
-- nanoseconds; 0 is the zero `time.Time`. The mutex makes every call atomic.
pub mod Loudest
use vks.Common.{
  not, ℕ, ◌+◌, ◌-◌, ◌/◌, Bool, true, false, List, [], ◌∷◌, Option, none, some, if◌then◌else◌, ◌==◌,
  ◌&&◌, ltb, leb, ℕ_eq,
}
use vks.Common.GoString.{GoString, string_eq}
use vks.Common.Int.{ℤ, pos}
use vks.Common.Float.{Float64}
use vks.Common.Dict.{Dict, insert, erase}

pub record LevelEntry (F : Type 0) : Type 0 where
  pub dbfs : F
  pub when : ℕ

pub record Sample (F : Type 0) : Type 0 where
  pub peer_id : GoString
  pub dbfs : F
  pub when : ℕ

pub record Detector (F : Type 0) : Type 0 where
  pub levels : Dict GoString (LevelEntry F)
  pub current : GoString
  pub current_since : ℕ
  pub threshold_dbfs : F
  pub hysteresis : ℕ

unfoldable pub new : {F : Type 0} → F → ℕ → Detector F
new threshold hysteresis = record {
  levels = [];
  current = [];
  current_since = 0;
  threshold_dbfs = threshold;
  hysteresis = hysteresis;
}

abbrev pub millisecond : ℕ
millisecond = 1_000_000

-- 2*time.Second
abbrev pub speech_window : ℕ
speech_window = 2_000_000_000

-- `now.Sub(e.when) > 2*time.Second`, negated
abbrev pub is_recent : {F : Type 0} → ℕ → LevelEntry F → Bool
is_recent now e = leb now (e.when + speech_window)

module _ {F : Type 0} (fl : Float64 F) where
  open fl use {of_int, decimal, sub, mul, lt, lowest}

  -- A difference that is negative or under a millisecond leaves the level as it is.
  unfoldable pub effective_level : LevelEntry F → ℕ → F
  effective_level e now =
      let silent_ms = (now - e.when) / millisecond in
      if silent_ms == 0
      then e.dbfs
      else sub e.dbfs (mul (of_int (pos silent_ms)) (decimal (pos 3) 2))

  -- One round of the loop of Push that looks for the loudest of those who spoke lately.
  unfoldable pub louder : ℕ → GoString → LevelEntry F → GoString × F → GoString × F
  louder now id e best =
      if is_recent now e && lt best.1 (effective_level e now)
      then (id, effective_level e now)
      else best

  unfoldable pub loudest : ℕ → Dict GoString (LevelEntry F) → GoString × F → GoString × F
  loudest now [] best = best
  loudest now ((id, e) ∷ rest) best = loudest now rest (louder now id e best)

  -- The samples of Push with the new one, and the time of the call.
  abbrev pub time_of : ℕ → Sample F → ℕ
  time_of wall s = if s.when == 0 then wall else s.when

  unfoldable pub heard : ℕ → Sample F → Detector F → Detector F
  heard wall s d = record d {
    levels = insert s.peer_id (record { dbfs = s.dbfs; when = time_of wall s }) d.levels;
  }

  -- The end of Push, where the loudest peer and its level are known.
  unfoldable pub settle : ℕ → ℕ → GoString × F → Detector F → Detector F × Option GoString
  settle wall now best d =
      if lt best.1 d.threshold_dbfs
      then (d, none)
      else if best.0 == d.current
      then (d, none)
      else if not (d.current_since == 0) && ltb wall (d.current_since + d.hysteresis)
      then (d, none)
      else (record d { current = best.0; current_since = now }, some best.0)

  -- `wall` is what time.Now() gives during the call.
  unfoldable pub push : ℕ → Sample F → Detector F → Detector F × Option GoString
  push wall s d =
      let h = heard wall s d in
      settle wall (time_of wall s) (loudest (time_of wall s) h.levels ([], lowest)) h

unfoldable pub forget : {F : Type 0} → ℕ → GoString → Detector F → Detector F
forget wall peer d =
    let gone = record d { levels = erase peer d.levels } in
    if d.current == peer then record gone { current = []; current_since = wall } else gone
