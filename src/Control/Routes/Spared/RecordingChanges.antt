-- ===== src/Control/Routes/Spared/RecordingChanges.antt =====
-- services/control-plane/internal/usecase/recordings.go spares accounts, rooms and recordings.
use vks.Common.{refl, ◌∷◌, Option, none, some, Result, ok, err, arith}
use vks.Common.GoString.{GoString, string_eq}
use vks.Common.Int.{ℤ}
use vks.Control.Tables.{Failure}
use vks.Control.Store.{Value, Row, RecordingRow, Store, Env, ask, note, set_alias, delete_alias}
use vks.Control.Store
use vks.Control.Recordings.{
  as_failed, as_finished, fail, begin, start, finish, stop_found, stop, find_running, new_recording,
}
use vks.Control.Routes.Spared.{has_recording-change, Spared, spared, both}

module _ {F : Type 0} (e : Env F) where
  pub fail-Spared : (x : Failure) (id : GoString) (s : Store F) → Spared s (fail e x id s)
  unfolding fail
  fail-Spared (some x) id s = spared s
  fail-Spared none id s = record {
    users = refl;
    tokens = refl;
    rooms = λ x there. there;
    recordings =
        λ x there. rw (has_recording-change x id (as_failed e.now) s.recordings (λ r. refl)) there;
  }

  pub begin-Spared : (actor id : GoString) (s : Store F) → Spared s (begin e actor id s).1
  unfolding begin note fail new_recording
  begin-Spared actor id s = record {
    users = ground arith;
    tokens = ground arith;
    rooms = λ x there. ground arith;
    recordings = λ x there. ground (
      arith,
      has_recording-change x e.new_id (as_failed e.now) (new_recording e id ∷ s.recordings)
          (λ r. refl),
    );
  }

  pub start-Spared : (actor id : GoString) (s : Store F) → Spared s (start e actor id s).1
  unfolding start
  start-Spared actor id s = record {
    users = ground (arith, (begin-Spared actor id s).users);
    tokens = ground (arith, (begin-Spared actor id s).tokens);
    rooms = λ x there. ground (arith, (begin-Spared actor id s).rooms x there);
    recordings = λ x there. ground (arith, (begin-Spared actor id s).recordings x there);
  }

  pub finish-Spared :
      (actor id : GoString) (cur : RecordingRow) (r : Result GoString (GoString × ℤ)) (s : Store F)
      → Spared s (finish e actor id cur r s).1
  unfolding finish note
  finish-Spared actor id cur (err x) s = fail-Spared e.second_command cur.id s
  finish-Spared actor id cur (ok (url, size)) s = record {
    users = ground arith;
    tokens = ground arith;
    rooms = λ x there. ground arith;
    recordings = λ x there. ground (
      arith,
      has_recording-change x cur.id (as_finished e.now size url) s.recordings (λ r. refl),
    );
  }

  pub asked-Spared : (a : Store.Ask F) (s : Store F) → Spared s (ask a s)
  asked-Spared a s = record { users = refl; tokens = refl; rooms = λ x h. h; recordings = λ x h. h }

  pub stop_found-Spared :
      (actor id : GoString) (o : Option RecordingRow) (s : Store F)
      → Spared s (stop_found e actor id o s).1
  unfolding stop_found
  stop_found-Spared actor id none s = spared s
  stop_found-Spared actor id (some cur) s =
      both (asked-Spared (Store.stop_recording id) s)
        (finish-Spared actor id cur e.stopped (ask (Store.stop_recording id) s))

  pub stop-Spared : (actor id : GoString) (s : Store F) → Spared s (stop e actor id s).1
  unfolding stop
  stop-Spared actor id s =
      let found = stop_found-Spared actor id (find_running id s.recordings) s in
      record {
        users = ground (arith, found.users);
        tokens = ground (arith, found.tokens);
        rooms = λ x there. ground (arith, found.rooms x there);
        recordings = λ x there. ground (arith, found.recordings x there);
      }
