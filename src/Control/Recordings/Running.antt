-- ===== src/Control/Recordings/Running.antt =====
-- services/control-plane/internal/usecase/recordings.go: how many recordings of a room run.
use vks.Common.{
  ◌≡◌, refl, ℕ, false, ◌&&◌, ◌+◌, ◌≤◌, List, [], ◌∷◌, Option, none, some, Result, ok, err, arith,
  if◌then◌else◌, ◌==◌,
}
use native.Mathlib.Decide.{ℕ_discrete}
use vks.Common.GoString.{GoString-discrete, GoString, string_eq}
use vks.Common.Int.{ℤ}
use vks.Control.Store.{RecordingRow, Store, Env, ask, note}
use vks.Control.Store
use vks.Control.Tables.{Failure}
use vks.Control.Rooms.{without_room}
use vks.Control.Recordings.{
  running, find_running, change_recording, delete_recording, as_failed, as_finished, fail,
  new_recording, begin, start, finish, stop_found, stop, delete_rec,
}

-- The rows of a room that are running
unfoldable pub count_running : GoString → List RecordingRow → ℕ
count_running room [] = 0
count_running room (r ∷ rs) =
    let rest = count_running room rs in
    if r.room_id == room && r.status == running then rest + 1 else rest

none_running :
    (room : GoString) (rs : List RecordingRow)
    → find_running room rs ≡ none
    → count_running room rs ≡ 0
unfolding find_running count_running
none_running room [] empty = refl
none_running room (r ∷ rs) empty = ground (arith, none_running room rs)

count_running-delete :
    (room id : GoString) (rs : List RecordingRow)
    → count_running room (delete_recording id rs) ≤ count_running room rs
unfolding count_running delete_recording
count_running-delete room id [] = omega arith
count_running-delete room id (r ∷ rs) = ground (arith, count_running-delete room id rs)

count_running-change :
    (room id : GoString) (f : RecordingRow → RecordingRow) (rs : List RecordingRow)
    → ((r : RecordingRow) → ((f r).status == running) ≡ false)
    → count_running room (change_recording id f rs) ≤ count_running room rs
unfolding count_running change_recording
count_running-change room id f [] ended = omega arith
count_running-change room id f (r ∷ rs) ended =
    ground (arith, count_running-change room id f rs ended, ended r)

pub count_running-without :
    (room id : GoString) (rs : List RecordingRow)
    → count_running room (without_room id rs) ≤ count_running room rs
unfolding count_running without_room
count_running-without room id [] = omega arith
count_running-without room id (r ∷ rs) = ground (arith, count_running-without room id rs)

-- A new row counts in its own room only.
count_running-new :
    (room : GoString) (r : RecordingRow) (rs : List RecordingRow)
    → count_running room rs ≤ 1
    → find_running r.room_id rs ≡ none
    → count_running room (r ∷ rs) ≤ 1
unfolding count_running
count_running-new room r rs most fresh = ground (arith, none_running r.room_id rs fresh)

-- In each room at most one recording runs.
abbrev pub OneRunning : List RecordingRow → Type 0
OneRunning rs = (room : GoString) → count_running room rs ≤ 1

module _ {F : Type 0} (e : Env F) where
  fail-fewer :
      (x : Failure) (id : GoString) (s : Store F) (room : GoString)
      → count_running room (fail e x id s).recordings ≤ count_running room s.recordings
  unfolding fail GoString-discrete ℕ_discrete
  fail-fewer (some x) id s room = omega arith
  fail-fewer none id s room =
      count_running-change room id (as_failed e.now) s.recordings (λ r. refl)

  begin-OneRunning :
      (actor id : GoString) (s : Store F)
      → find_running id s.recordings ≡ none
      → OneRunning s.recordings
      → OneRunning (begin e actor id s).1.recordings
  unfolding begin note new_recording
  begin-OneRunning actor id s fresh most room =
      let row = new_recording e id in
      let now_one = count_running-new room row s.recordings (most room) fresh in
      ground (
        arith,
        now_one,
        most room,
        fail-fewer e.second_command row.id
            (ask (Store.start_recording id) (record s { recordings = row ∷ s.recordings })) room,
      )

  pub start-OneRunning :
      (actor id : GoString) (s : Store F)
      → e.query ≡ none
      → OneRunning s.recordings
      → OneRunning (start e actor id s).1.recordings
  unfolding start
  start-OneRunning actor id s read most room = ground (
    arith,
    λ (fresh : find_running id s.recordings ≡ none). begin-OneRunning actor id s fresh most room,
    most room,
  )

  finish-fewer :
      (actor id : GoString) (cur : RecordingRow) (r : Result GoString (GoString × ℤ)) (s : Store F)
      (room : GoString)
      → count_running room (finish e actor id cur r s).1.recordings
        ≤ count_running room s.recordings
  unfolding finish note GoString-discrete ℕ_discrete
  finish-fewer actor id cur (err x) s room = fail-fewer e.second_command cur.id s room
  finish-fewer actor id cur (ok (url, size)) s room = ground (
    arith,
    count_running-change room cur.id (as_finished e.now size url) s.recordings (λ r. refl),
  )

  stop_found-fewer :
      (actor id : GoString) (o : Option RecordingRow) (s : Store F) (room : GoString)
      → count_running room (stop_found e actor id o s).1.recordings
        ≤ count_running room s.recordings
  unfolding stop_found
  stop_found-fewer actor id none s room = omega arith
  stop_found-fewer actor id (some cur) s room =
      finish-fewer actor id cur e.stopped (ask (Store.stop_recording id) s) room

  pub stop-fewer :
      (actor id : GoString) (s : Store F) (room : GoString)
      → count_running room (stop e actor id s).1.recordings ≤ count_running room s.recordings
  unfolding stop
  stop-fewer actor id s room =
      ground (arith, stop_found-fewer actor id (find_running id s.recordings) s room)

  pub delete_rec-fewer :
      (actor id : GoString) (s : Store F) (room : GoString)
      → count_running room (delete_rec e actor id s).1.recordings ≤ count_running room s.recordings
  unfolding delete_rec note
  delete_rec-fewer actor id s room = ground (arith, count_running-delete room id s.recordings)
