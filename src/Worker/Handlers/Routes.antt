-- ===== src/Worker/Handlers/Routes.antt =====
-- Router of services/media-worker/internal/httpapi/handlers.go: every request that changes a worker, with
-- what the libraries and services under it answer.
use vks.Common.{ℕ, Bool, true, false, Option, Result}
use vks.Common.GoString.{GoString}
use vks.Common.Int.{ℤ}
use vks.Common.Float.{Float64}
use vks.Common.Dict.{Dict}
use vks.Worker.Pipelines.{Answers}
use vks.Worker.Room.State.{SipPeer}
use vks.Worker.Room.Members.{JoinAnswers}
use vks.Worker.Handlers.{
  Api, Response, AddPeerReq, AddSipPeerReq, LayoutReq, resolve_room_id, destroy_room,
  handle_add_peer, handle_remove_peer, handle_add_sip_peer, handle_remove_sip_peer,
  handle_update_layout, handle_assign_slots, handle_start_recording, handle_stop_recording,
}

-- A route with its {room} and the rest of the request.
pub data Request (F : Type 0) : Type 0 where
  post_peers : GoString → Option AddPeerReq → Answers → JoinAnswers → Request F
  delete_peer : ℕ → GoString → GoString → Request F
  post_sip_peers :
      Option GoString
      → GoString
      → Option AddSipPeerReq
      → Answers
      → Result GoString (ℕ × ℕ)
      → Result GoString SipPeer
      → Request F
  delete_sip_peer : Option GoString → GoString → GoString → Request F
  put_layout : GoString → Option (LayoutReq F) → Request F
  put_slots : GoString → Option (Dict GoString GoString) → Request F
  post_recording : GoString → Answers → Option GoString → Request F
  delete_recording : GoString → Result GoString (GoString × ℤ) → Request F
  delete_room : GoString → Request F

-- The room that a request is about; the SIP gateway may name it by an alias.
unfoldable pub room_of : {F : Type 0} → Api F → Request F → GoString
room_of a (post_peers room _ _ _) = room
room_of a (delete_peer _ room _) = room
room_of a (post_sip_peers alias id _ _ _ _) = resolve_room_id a alias id
room_of a (delete_sip_peer alias id _) = resolve_room_id a alias id
room_of a (put_layout room _) = room
room_of a (put_slots room _) = room
room_of a (post_recording room _ _) = room
room_of a (delete_recording room _) = room
room_of a (delete_room room) = room

-- Whether a request makes the room if it is not there.
unfoldable pub creates : {F : Type 0} → Request F → Bool
creates (post_peers _ _ _ _) = true
creates (delete_peer _ _ _) = false
creates (post_sip_peers _ _ _ _ _ _) = true
creates (delete_sip_peer _ _ _) = false
creates (put_layout _ _) = false
creates (put_slots _ _) = false
creates (post_recording _ _ _) = true
creates (delete_recording _ _) = false
creates (delete_room _) = false

module _ {F : Type 0} (fl : Float64 F) where
  module _ (join : GoString → GoString → GoString) (clean : GoString → GoString) where
    unfoldable pub serve : Request F → Api F → Response × Api F
    serve (post_peers room in_ pipe answers) = handle_add_peer fl room in_ pipe answers
    serve (delete_peer wall room peer) = handle_remove_peer fl wall room peer
    serve (post_sip_peers alias id in_ pipe channels listener) =
        handle_add_sip_peer fl alias id in_ pipe channels listener
    serve (delete_sip_peer alias id peer) = handle_remove_sip_peer fl alias id peer
    serve (put_layout room in_) = handle_update_layout fl room in_
    serve (put_slots room raw) = handle_assign_slots fl room raw
    serve (post_recording room pipe answer) = handle_start_recording fl join clean room pipe answer
    serve (delete_recording room answer) = handle_stop_recording fl room answer
    serve (delete_room room) = destroy_room room
