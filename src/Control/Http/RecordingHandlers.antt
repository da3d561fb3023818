-- ===== src/Control/Http/RecordingHandlers.antt =====
-- services/control-plane/internal/adapters/httpapi/handlers_recordings.go, but for List
use vks.Common.{none, some, ok, err, if◌then◌else◌}
use vks.Common.GoString.{GoString, lit, string_eq, is_empty}
use vks.Common.Int.{ℤ_eq}
use vks.Control.Errors.{not_found}
use vks.Control.Store.{RecordingRow, Store, Env}
use vks.Control.Rooms.{app_error}
use vks.Control.Recordings.{start, stop, get_recording, delete_rec}
use vks.Control.Http.{empty, recording, redirect, Response, refuse, reply, replied, with_id}

module _ {F : Type 0} where
  unfoldable pub rec_start : Env F → GoString → GoString → Store F → Response F × Store F
  unfolding with_id replied start
  rec_start e actor text = with_id e text (λ id s. replied 200 recording (start e actor id s))

  unfoldable pub rec_stop : Env F → GoString → GoString → Store F → Response F × Store F
  unfolding with_id replied stop
  rec_stop e actor text = with_id e text (λ id s. replied 200 recording (stop e actor id s))

  unfoldable pub rec_get : Env F → GoString → Store F → Response F × Store F
  unfolding with_id reply get_recording
  rec_get e text = with_id e text (λ id s. (reply 200 recording (get_recording e id s), s))

  unfoldable pub rec_delete : Env F → GoString → GoString → Store F → Response F × Store F
  unfolding with_id replied delete_rec
  rec_delete e actor text =
      with_id e text (λ id s. replied 204 (λ _. empty) (delete_rec e actor id s))

  -- The end of Download: a recording without an address is not finished.
  unfoldable pub location : RecordingRow → Response F
  location r = elim r.url [
    | none ↦ refuse (app_error not_found (lit "recording not yet finalized"))
    | some url ↦
        if is_empty url
        then refuse (app_error not_found (lit "recording not yet finalized"))
        else record { status = 302; body = redirect url }
  ]

  unfoldable pub rec_download : Env F → GoString → Store F → Response F × Store F
  unfolding with_id location get_recording
  rec_download e text =
      with_id e text
        (λ id s. (elim (get_recording e id s) [ err x ↦ refuse x | ok r ↦ location r ], s))
