-- ===== src/Control/Recordings.antt =====
-- services/control-plane/internal/usecase/recordings.go, with the statements of
-- repo/postgres/recordings.go.
pub mod Running
use vks.Common.{
  ℕ, Bool, true, false, ◌&&◌, leb, List, [], ◌∷◌, ◌++◌, Option, none, some, Result, ok, err,
  if◌then◌else◌, ◌==◌,
}
use vks.Common.GoString.{GoString, lit, string_eq}
use vks.Common.Int.{ℤ}
use vks.Control.Errors.{AppError, not_found, unavailable}
use vks.Control.Tables.{Failure}
use vks.Control.Store.{RecordingRow, Store, Env, ask, note, start_recording, stop_recording}
use vks.Control.Rooms.{app_error, db_error, Done, noted}

abbrev pub running : GoString
running = lit "running"

abbrev pub finished : GoString
finished = lit "finished"

abbrev pub failed : GoString
failed = lit "failed"

-- The later of two rows, as `ORDER BY started_at DESC LIMIT 1` picks it
abbrev later : RecordingRow → Option RecordingRow → RecordingRow
later r none = r
later r (some t) = if leb t.started_at r.started_at then r else t

-- FindRunning
unfoldable pub find_running : GoString → List RecordingRow → Option RecordingRow
find_running room [] = none
find_running room (r ∷ rs) =
    let rest = find_running room rs in
    if r.room_id == room && r.status == running then some (later r rest) else rest

unfoldable pub find_recording : GoString → List RecordingRow → Option RecordingRow
find_recording id [] = none
find_recording id (r ∷ rs) = let rest = find_recording id rs in if r.id == id then some r else rest

-- `UPDATE recordings SET … WHERE id=$1`
unfoldable pub change_recording :
    GoString → (RecordingRow → RecordingRow) → List RecordingRow → List RecordingRow
change_recording id f [] = []
change_recording id f (r ∷ rs) = (if r.id == id then f r else r) ∷ change_recording id f rs

unfoldable pub delete_recording : GoString → List RecordingRow → List RecordingRow
delete_recording id [] = []
delete_recording id (r ∷ rs) =
    let rest = delete_recording id rs in if r.id == id then rest else r ∷ rest

abbrev pub as_failed : ℕ → RecordingRow → RecordingRow
as_failed now r = record r { status = failed; ended_at = some now }

abbrev pub as_finished : ℕ → ℤ → GoString → RecordingRow → RecordingRow
as_finished now size url r = record r {
  status = finished;
  ended_at = some now;
  size_bytes = some size;
  url = some url;
}

module _ {F : Type 0} where
  abbrev with_recordings : (List RecordingRow → List RecordingRow) → Store F → Store F
  with_recordings f s = record s { recordings = f s.recordings }

  -- Recordings.Fail, whose error is dropped
  unfoldable pub fail : Env F → Failure → GoString → Store F → Store F
  unfolding change_recording
  fail e (some x) id s = s
  fail e none id s = with_recordings (change_recording id (as_failed e.now)) s

  -- Recordings.Create
  unfoldable pub new_recording : Env F → GoString → RecordingRow
  new_recording e room = record {
    id = e.new_id;
    room_id = room;
    status = running;
    started_at = e.now;
    ended_at = none;
    size_bytes = none;
    url = none;
  }

  -- Start where no recording is known to run
  unfoldable pub begin :
      Env F → GoString → GoString → Store F → Result AppError RecordingRow × Store F
  unfolding new_recording fail note
  begin e actor room s = elim e.command [
    | some x ↦ (err db_error, s)
    | none ↦
        let row = new_recording e room in
        let asked = ask (start_recording room) (with_recordings (λ rs. row ∷ rs) s) in
        elim e.media [
          | some x ↦ (
            err (app_error unavailable (lit "media start")),
            fail e e.second_command row.id asked,
          )
          | none ↦ (ok row, note e actor (lit "rec.start") room asked)
        ]
  ]

  -- Start; an error of FindRunning counts as no recording.
  unfoldable pub start :
      Env F → GoString → GoString → Store F → Result AppError RecordingRow × Store F
  unfolding begin find_running
  start e actor room s = elim e.query [
    | some x ↦ begin e actor room s
    | none ↦ elim (find_running room s.recordings) [
      | none ↦ begin e actor room s
      | some cur ↦ (ok cur, s)
    ]
  ]

  unfoldable pub get_recording : Env F → GoString → Store F → Result AppError RecordingRow
  unfolding find_recording
  get_recording e id s = elim e.first_query [
    | some x ↦ err db_error
    | none ↦ elim (find_recording id s.recordings) [
      | none ↦ err (app_error not_found (lit "not found"))
      | some r ↦ ok r
    ]
  ]

  -- Stop of the recording `cur`
  unfoldable pub finish :
      Env F
      → GoString
      → GoString
      → RecordingRow
      → Result GoString (GoString × ℤ)
      → Store F
      → Result AppError RecordingRow × Store F
  unfolding fail change_recording note get_recording
  finish e actor room cur (err x) s =
      (err (app_error unavailable (lit "media stop")), fail e e.second_command cur.id s)
  finish e actor room cur (ok (url, size)) s = elim e.command [
    | some x ↦ (err db_error, s)
    | none ↦
        let ended =
          note e actor (lit "rec.stop") room
            (with_recordings (change_recording cur.id (as_finished e.now size url)) s) in
        (get_recording e cur.id ended, ended)
  ]

  -- Stop behind FindRunning
  unfoldable pub stop_found :
      Env F
      → GoString
      → GoString
      → Option RecordingRow
      → Store F
      → Result AppError RecordingRow × Store F
  unfolding finish
  stop_found e actor room none s = (err (app_error not_found (lit "no running recording")), s)
  stop_found e actor room (some cur) s =
      finish e actor room cur e.stopped (ask (stop_recording room) s)

  unfoldable pub stop :
      Env F → GoString → GoString → Store F → Result AppError RecordingRow × Store F
  unfolding stop_found find_running
  stop e actor room s = elim e.query [
    | some x ↦ (err db_error, s)
    | none ↦ stop_found e actor room (find_running room s.recordings) s
  ]

  unfoldable pub delete_rec : Env F → GoString → GoString → Store F → Result AppError Done × Store F
  unfolding delete_recording note
  delete_rec e actor id s = elim e.command [
    | some x ↦ (err db_error, s)
    | none ↦ (ok tt, note e actor (lit "rec.delete") id (with_recordings (delete_recording id) s))
  ]
