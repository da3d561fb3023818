-- ===== src/Worker/Rooms.antt =====
-- services/media-worker/internal/room/registry.go: the rooms of a worker and their pipelines.
pub mod Laws
use vks.Common.{
  ℕ, Bool, true, false, List, [], ◌∷◌, ◌++◌, map, Option, none, some, Result, ok, err, length,
}
use vks.Common.GoString.{GoString, string_eq}
use vks.Common.Int.{ℤ}
use vks.Common.Float.{Float64}
use vks.Common.Dict.{Dict, values, lookup, insert, erase}
use vks.Worker.Pipelines.{Spec, Answers}
use vks.Worker.Pipelines
use vks.Worker.Room.State.{World, Options, new, emit, pipeline_stop}
use vks.Worker.Room.Recording.{Snapshot, snapshot, close}

-- The fields of Registry that GetOrCreate reads.
pub record Config : Type 0 where
  pub video_codec : GoString
  pub width : ℤ
  pub height : ℤ
  pub fps : ℤ
  pub video_bitrate : ℤ
  pub audio_bitrate : ℤ
  pub sfu : Bool
  pub has_notifier : Bool

-- `ended` are the rooms that Destroy took out, with what was asked for them.
pub record Registry (F : Type 0) : Type 0 where
  pub config : Config
  pub rooms : Dict GoString (World F)
  pub pipes : Dict GoString Spec
  pub ended : List (World F)

unfoldable pub spec_of : Config → GoString → Spec
spec_of c room = record {
  room_id = room;
  width = c.width;
  height = c.height;
  fps = c.fps;
  video_bitrate = c.video_bitrate;
  audio_bitrate = c.audio_bitrate;
  video_codec = c.video_codec;
}

unfoldable pub options_of : Config → GoString → Options
options_of c room = record {
  id = room;
  video_codec = c.video_codec;
  width = c.width;
  height = c.height;
  sfu = c.sfu;
  has_notifier = c.has_notifier;
}

module _ {F : Type 0} where
  unfoldable pub new_registry : Config → Registry F
  new_registry c = record { config = c; rooms = []; pipes = []; ended = [] }

  -- SetNotifier; the rooms that exist keep theirs.
  unfoldable pub set_notifier : Bool → Registry F → Registry F
  set_notifier on r = record r { config = record r.config { has_notifier = on } }

  unfoldable pub get : GoString → Registry F → Option (World F)
  get room r = lookup room r.rooms

  -- What Destroy does with the room that it took out, which nobody has closed before, and with the
  -- pipeline that is left.
  unfoldable pub end_room : Option Spec → World F → World F
  end_room none s = close s
  end_room (some p) s = emit pipeline_stop (close s)

  -- What Destroy does when the room is out of the map. It stops the pipeline through the room and
  -- again through the registry of pipelines.
  unfoldable pub end_there : GoString → Option (World F) → Registry F → Registry F
  end_there room none r = r
  end_there room (some s) r =
      let (p, pipes) = Pipelines.destroy room r.pipes in
      record r { pipes = pipes; ended = r.ended ++ end_room p s ∷ [] }

  unfoldable pub destroy : GoString → Registry F → Registry F
  destroy room r = end_there room (lookup room r.rooms) (record r { rooms = erase room r.rooms })

  unfoldable pub snapshots : Registry F → List Snapshot
  snapshots r = map (λ s. snapshot s.room) (values r.rooms)

  unfoldable pub count : Registry F → ℕ
  count r = length r.rooms

  -- A handler writes back the room that it changed.
  unfoldable pub put : GoString → World F → Registry F → Registry F
  put room s r = record r { rooms = insert room s r.rooms }

module _ {F : Type 0} (fl : Float64 F) where
  -- The part of GetOrCreate behind the pipeline's answer.
  unfoldable pub enter_room :
      GoString
      → Result GoString Spec × Dict GoString Spec
      → Registry F
      → Result GoString (World F) × Registry F
  enter_room room (err e, pipes) r = (err e, record r { pipes = pipes })
  enter_room room (ok p, pipes) r =
      let s : World F = record { room = new fl (options_of r.config room); calls = [] } in
      (ok s, record r { pipes = pipes; rooms = insert room s r.rooms })

  unfoldable pub existing_or_new :
      GoString → Answers → Option (World F) → Registry F → Result GoString (World F) × Registry F
  existing_or_new room a (some s) r = (ok s, r)
  existing_or_new room a none r =
      enter_room room (Pipelines.get_or_create (spec_of r.config room) a r.pipes) r

  unfoldable pub get_or_create :
      GoString → Answers → Registry F → Result GoString (World F) × Registry F
  get_or_create room a r = existing_or_new room a (lookup room r.rooms) r
