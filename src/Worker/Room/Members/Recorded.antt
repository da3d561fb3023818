-- ===== src/Worker/Room/Members/Recorded.antt =====
-- Recording and the rounds of the detector of speakers leave the members of a room as they are.
use vks.Common.{ℕ, Option, arith, Result}
use vks.Common.GoString.{GoString}
use vks.Common.Int.{ℤ}
use vks.Common.Float.{Float64}
use vks.Worker.Room.State.{World}
use vks.Worker.Room.Picture.{apply_layout}
use vks.Worker.Room.Forward.{asd_round}
use vks.Worker.Room.Recording.{start_recording, stop_recording}
use vks.Worker.Room.Members.Invariant.{IsWellFormed, IsWellFormed-same}

module _ {F : Type 0} where
  pub start_recording-IsWellFormed :
      (join : GoString → GoString → GoString) (dir : GoString) (answer : Option GoString)
      (s : World F)
      → IsWellFormed s.room
      → IsWellFormed (start_recording join dir answer s).0.room
  unfolding start_recording
  start_recording-IsWellFormed join dir answer s wf =
      IsWellFormed-same s.room (start_recording join dir answer s).0.room (ground arith)
        (ground arith) (ground arith) (ground arith) wf

  pub stop_recording-IsWellFormed :
      (answer : Result GoString (GoString × ℤ)) (s : World F)
      → IsWellFormed s.room
      → IsWellFormed (stop_recording answer s).0.room
  unfolding stop_recording
  stop_recording-IsWellFormed answer s wf =
      IsWellFormed-same s.room (stop_recording answer s).0.room (ground arith) (ground arith)
        (ground arith) (ground arith) wf

module _ {F : Type 0} (fl : Float64 F) where
  pub asd_round-IsWellFormed :
      (wall : ℕ) (p : GoString) (dbfs : F) (s : World F)
      → IsWellFormed s.room
      → IsWellFormed (asd_round fl wall p dbfs s).room
  unfolding asd_round apply_layout
  asd_round-IsWellFormed wall p dbfs s wf =
      IsWellFormed-same s.room (asd_round fl wall p dbfs s).room (ground arith) (ground arith)
        (ground arith) (ground arith) wf
