-- ===== src/Signaling/Session.antt =====
-- services/signaling/internal/session/session.go and Kick of hub.go: what the messages of a client do. A
-- message is handled as one step; the store has each session under its id.
pub mod Outbox
pub mod Effects
pub mod Seats
pub mod Histories
pub mod Leaving
unfoldable pub use Outbox.*
use vks.Common.{
  ℕ, Bool, true, false, ◌||◌, List, [], ◌∷◌, ◌++◌, Option, none, some, Result, ok, err,
  if◌then◌else◌, ◌==◌,
}
use vks.Common.GoString.{GoString, lit, string_eq, is_empty}
use vks.Common.Int.{pos}
use vks.Common.Scan.{scan_int}
use vks.Common.Dict.{Dict, lookup, insert}
use vks.Signaling.Protocol.{
  Participant, Seat, absent, raw, joined, participant, sdp, error, roster, Envelope, JoinPayload,
  Claims, type_join, type_leave, type_offer, type_answer, type_candidate, type_chat, type_control,
  type_ping, type_joined, type_peer_joined, type_peer_left, type_error, type_pong,
}
use vks.Signaling.Hub.{
  Session, Rooms, Sessions, Frame, members, add, remove, to_participant, participants, broadcast,
}

-- The session as onJoin leaves it.
unfoldable pub identified : Answers → Claims → JoinPayload → Session → Session
identified a c p s = record s {
  user_id = c.user_id;
  role = c.role;
  display_name = if is_empty p.display_name then c.email else p.display_name;
  room_id = p.room_id;
  joined_at = a.now;
}

-- The session enters the store anew and the hub.
unfoldable pub seat : Session → Service → Service
seat s svc = record svc {
  sessions = insert s.id s svc.sessions;
  rooms = add s.room_id s.id svc.rooms;
}

unfoldable pub welcome : Answers → Session → Service → Service × Option GoString
unfolding send
welcome a s svc =
    send a.own_write s
      (record {
        kind = type_joined;
        payload = joined s.id (participants s.room_id svc.sessions svc.rooms);
      })
      svc

unfoldable pub enter : Answers → Session → Service → Service × Option GoString
unfolding welcome tell
enter a s svc = welcome a s (
    tell s.room_id s.id
      (record { kind = type_peer_joined; payload = participant (to_participant s) })
      (ask_redis (presence_add s.room_id (to_participant s) s.user_id s.joined_at) (seat s svc)))

unfoldable pub verified :
    Answers → JoinPayload → Result GoString Claims → Session → Service → Service × Option GoString
unfolding send_error
verified a p (err e) s svc = (send_error s (lit "unauthorized") (lit "invalid token") svc, none)
verified a p (ok c) s svc = enter a (identified a c p s) svc

unfoldable pub on_join : Answers → JoinPayload → Session → Service → Service × Option GoString
unfolding verified
on_join a p s svc =
    if is_empty p.token || is_empty p.room_id
    then (svc, some (lit "token/roomId required"))
    else verified a p (a.verify p.token) s svc

-- What onOffer does behind the write of the answer.
unfoldable pub answered : Answers → Session → Service × Option GoString → Service × Option GoString
unfolding broadcast_roster
answered a s (svc, some e) = (svc, some e)
answered a s (svc, none) = (broadcast_roster a s svc, none)

unfoldable pub added :
    Answers → Result GoString GoString → Session → Service → Service × Option GoString
unfolding answered
added a (err e) s svc = (svc, some e)
added a (ok answer) s svc =
    answered a s (send a.own_write s (record { kind = type_answer; payload = sdp answer }) svc)

unfoldable pub on_offer : Answers → GoString → Session → Service → Service × Option GoString
unfolding added
on_offer a offer s svc =
    if is_empty s.room_id
    then (svc, some (lit "not joined"))
    else added a a.add_peer_answer s (ask (add_peer s.room_id s.id s.display_name s.role offer) svc)

-- Chat and control messages go on to the others of the room as they came.
unfoldable pub relay : GoString → GoString → Session → Service → Service
unfolding tell
relay kind payload s svc =
    if is_empty s.room_id
    then svc
    else tell s.room_id s.id (record { kind = kind; payload = raw payload }) svc

unfoldable pub decoded {ℓ} :
    {A : Type ℓ}
    → Result GoString A
    → (A → Service → Service × Option GoString)
    → Service
    → Service × Option GoString
decoded (err e) k svc = (svc, some e)
decoded (ok x) k svc = k x svc

-- The `switch` of handle; the error is what it returns.
unfoldable pub handle : Answers → Session → Message → Service → Service × Option GoString
unfolding decoded relay send_error
handle a s m svc =
    if m.kind == type_join
    then decoded (a.decode_join m.payload) (λ p. on_join a p s) svc
    else if m.kind == type_offer
    then decoded (a.decode_sdp m.payload) (λ offer. on_offer a offer s) svc
    else if m.kind == type_candidate
    then (svc, none)
    else if m.kind == type_chat
    then (relay (lit "chat") m.payload s svc, none)
    else if m.kind == type_control
    then (relay (lit "control") m.payload s svc, none)
    else if m.kind == type_ping
    then send a.own_write s (record { kind = type_pong; payload = absent }) svc
    else if m.kind == type_leave
    then (svc, some (lit "leave"))
    else (send_error s (lit "invalid_argument") (lit "unknown type") svc, none)

-- One round of Run behind a message that was read: an error is told to the client, by the session as it
-- then is, and the loop goes on.
unfoldable pub told : GoString → Service × Option GoString → Service
told id (svc, none) = svc
told id (svc, some e) = elim (lookup id svc.sessions) [
  | none ↦ svc
  | some s ↦ send_error s (lit "internal") e svc
]

unfoldable pub receive : Answers → GoString → Message → Service → Service
unfolding told
receive a id m svc = elim (lookup id svc.sessions) [
  | none ↦ svc
  | some s ↦ told id (handle a s m svc)
]

-- The part of cleanup for a session that is in a room.
unfoldable pub depart : Answers → Session → Service → Service
unfolding tell broadcast_roster
depart a s svc =
    let asked = ask_redis (presence_remove s.room_id s.id) (ask (remove_peer s.room_id s.id) svc) in
    let gone = record asked { rooms = remove s.room_id s.id asked.rooms } in
    broadcast_roster a s (
      tell s.room_id s.id
        (record { kind = type_peer_left; payload = participant (to_participant s) }) gone)

unfoldable pub cleanup : Answers → Session → Service → Service
unfolding depart
cleanup a s svc =
    if s.closed
    then svc
    else let shut = record svc {
      sessions = insert s.id (record s { closed = true }) svc.sessions;
    } in
      ask (close_conn s.id) (if is_empty s.room_id then shut else depart a s shut)

-- The end of Run: a read failed.
unfoldable pub hang_up : Answers → GoString → Service → Service
hang_up a id svc = elim (lookup id svc.sessions) [ none ↦ svc | some s ↦ cleanup a s svc ]

-- Kick of the hub.
unfoldable pub kick : Answers → GoString → GoString → GoString → Service → Service
unfolding send_error hang_up
kick a room id reason svc = elim (lookup id (members room svc.rooms)) [
  | none ↦ svc
  | some _ ↦ elim (lookup id svc.sessions) [
    | none ↦ svc
    | some s ↦ cleanup a s (send_error s (lit "kicked") reason svc)
  ]
]
