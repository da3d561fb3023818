-- ===== src/Signaling/Session/Outbox.antt =====
-- services/signaling/internal/session/session.go: what the service keeps and is asked, and how messages and
-- rosters go out.
use vks.Common.{
  ℕ, Bool, false, List, [], ◌∷◌, ◌++◌, Option, none, some, Result, ok, err, if◌then◌else◌, ◌==◌,
}
use vks.Common.GoString.{GoString, lit, string_eq, is_empty}
use vks.Common.Int.{pos}
use vks.Common.Scan.{scan_int}
use vks.Common.Dict.{Dict, insert}
use vks.Signaling.Protocol.{
  Participant, Seat, error, roster, Envelope, JoinPayload, Claims, type_error,
}
use vks.Signaling.Hub.{Session, Rooms, Sessions, Frame, participants, broadcast}

-- What a session asks of the media worker, of Redis (where every entry has the transport "webrtc") and of its
-- connection.
pub data Ask : Type 0 where
  add_peer : GoString → GoString → GoString → GoString → GoString → Ask
  remove_peer : GoString → GoString → Ask
  get_roster : GoString → Ask
  presence_add : GoString → Participant → GoString → ℕ → Ask
  presence_remove : GoString → GoString → Ask
  close_conn : GoString → Ask

-- The service: the hub, the sessions, and what has been written and asked. Presence is published if
-- there is a Redis.
pub record Service : Type 0 where
  pub rooms : Rooms
  pub sessions : Sessions
  pub has_redis : Bool
  pub sent : List Frame
  pub asked : List Ask

-- What the surroundings answer while one message is handled: the clock, the decoders, the verifier of
-- tokens, the media worker, and the session's own socket (an error of the write, if any).
pub record Answers : Type 0 where
  pub now : ℕ
  pub decode_join : GoString → Result GoString JoinPayload
  pub decode_sdp : GoString → Result GoString GoString
  pub verify : GoString → Result GoString Claims
  pub add_peer_answer : Result GoString GoString
  pub roster_answer : Result GoString (Dict GoString GoString)
  pub own_write : Option GoString

-- A message of a client.
pub record Message : Type 0 where
  pub kind : GoString
  pub payload : GoString

abbrev pub ask : Ask → Service → Service
ask a svc = record svc { asked = svc.asked ++ a ∷ [] }

abbrev pub ask_redis : Ask → Service → Service
ask_redis a svc = if svc.has_redis then ask a svc else svc

-- New
unfoldable pub new : GoString → Session
new id = record {
  id = id;
  room_id = [];
  display_name = [];
  role = [];
  user_id = [];
  joined_at = 0;
  closed = false;
}

unfoldable pub connect : GoString → Service → Service
unfolding new
connect id svc = record svc { sessions = insert id (new id) svc.sessions }

-- send, whose error counts
unfoldable pub send : Option GoString → Session → Envelope → Service → Service × Option GoString
send answer s env svc =
    if s.closed
    then (svc, some (lit "closed"))
    else (record svc { sent = svc.sent ++ record { to = s.id; env = env } ∷ [] }, answer)

-- Write, whose error is dropped
unfoldable pub post : Session → Envelope → Service → Service
unfolding send
post s env svc = (send none s env svc).0

unfoldable pub send_error : Session → GoString → GoString → Service → Service
unfolding post
send_error s code msg svc = post s (record { kind = type_error; payload = error code msg }) svc

-- Broadcast from a session's method
unfoldable pub tell : GoString → GoString → Envelope → Service → Service
tell room except env svc = record svc {
  sent = svc.sent ++ broadcast room except env svc.sessions svc.rooms;
}

unfoldable pub display_of : GoString → List Participant → GoString
display_of id [] = []
display_of id (p ∷ ps) = if p.peer_id == id then p.display_name else display_of id ps

-- The entries of broadcastRoster; a key that is no number counts as slot 0.
unfoldable pub seats : List Participant → Dict GoString GoString → List Seat
unfolding display_of
seats ps [] = []
seats ps ((k, id) ∷ rest) =
    record {
      slot = elim (scan_int k) [ none ↦ pos 0 | some i ↦ i ];
      peer_id = id;
      display_name = display_of id ps;
    }
    ∷ seats ps rest

unfoldable pub roster_read : Session → Result GoString (Dict GoString GoString) → Service → Service
unfolding seats
roster_read s (err e) svc = svc
roster_read s (ok slots) svc =
    let frame : Envelope = record {
      kind = lit "roster";
      payload = roster (seats (participants s.room_id svc.sessions svc.rooms) slots);
    } in
    tell s.room_id [] frame svc

unfoldable pub broadcast_roster : Answers → Session → Service → Service
unfolding roster_read
broadcast_roster a s svc =
    if is_empty s.room_id
    then svc
    else roster_read s a.roster_answer (ask (get_roster s.room_id) svc)
