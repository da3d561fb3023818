-- ===== src/Worker/Pipelines.antt =====
-- services/media-worker/internal/pipeline/pipeline.go: the registry of the rooms' GStreamer pipelines.
-- A pipeline is named by the spec that it was made from.
use vks.Common.{ℕ, Option, none, some, Result, ok, err, length}
use vks.Common.GoString.{GoString, string_eq}
use vks.Common.Int.{ℤ}
use vks.Common.Dict.{Dict, lookup, insert, erase}

pub record Spec : Type 0 where
  pub room_id : GoString
  pub width : ℤ
  pub height : ℤ
  pub fps : ℤ
  pub video_bitrate : ℤ
  pub audio_bitrate : ℤ
  pub video_codec : GoString

-- What the factory and Start answer: an error or nil.
pub record Answers : Type 0 where
  pub factory : Option GoString
  pub start : Option GoString

-- GetOrCreate; between its two tests of the map no other call is modelled.
unfoldable pub get_or_create :
    Spec → Answers → Dict GoString Spec → Result GoString Spec × Dict GoString Spec
get_or_create spec a pipes = elim (lookup spec.room_id pipes) [
  | some p ↦ (ok p, pipes)
  | none ↦ elim a.factory [
    | some e ↦ (err e, pipes)
    | none ↦ elim a.start [
      | some e ↦ (err e, pipes)
      | none ↦ (ok spec, insert spec.room_id spec pipes)
    ]
  ]
]

unfoldable pub get : GoString → Dict GoString Spec → Option Spec
get room pipes = lookup room pipes

-- Destroy; the first part is the pipeline on which it calls Stop.
unfoldable pub destroy : GoString → Dict GoString Spec → Option Spec × Dict GoString Spec
destroy room pipes = (lookup room pipes, erase room pipes)

unfoldable pub count : Dict GoString Spec → ℕ
count pipes = length pipes
