-- ===== src/Signaling/Protocol.antt =====
-- services/signaling/internal/protocol/messages.go: what goes over a client's WebSocket. A frame that the
-- server makes is kept as the value that it marshals; what a client sent is passed on as its bytes. The
-- envelope's ID is left out, which the server neither reads nor sets.
use vks.Common.{List}
use vks.Common.GoString.{GoString, lit}
use vks.Common.Int.{ℤ}

pub record Participant : Type 0 where
  pub peer_id : GoString
  pub display_name : GoString
  pub role : GoString

-- An entry of the roster frame.
pub record Seat : Type 0 where
  pub slot : ℤ
  pub peer_id : GoString
  pub display_name : GoString

pub data Payload : Type 0 where
  absent : Payload
  raw : GoString → Payload
  joined : GoString → List Participant → Payload
  participant : Participant → Payload
  sdp : GoString → Payload
  error : GoString → GoString → Payload
  roster : List Seat → Payload

pub record Envelope : Type 0 where
  pub kind : GoString
  pub payload : Payload

pub record JoinPayload : Type 0 where
  pub room_id : GoString
  pub token : GoString
  pub display_name : GoString

-- auth.Claims
pub record Claims : Type 0 where
  pub user_id : GoString
  pub role : GoString
  pub email : GoString

abbrev pub type_join : GoString
type_join = lit "join"

abbrev pub type_leave : GoString
type_leave = lit "leave"

abbrev pub type_offer : GoString
type_offer = lit "offer"

abbrev pub type_answer : GoString
type_answer = lit "answer"

abbrev pub type_candidate : GoString
type_candidate = lit "candidate"

abbrev pub type_chat : GoString
type_chat = lit "chat"

abbrev pub type_control : GoString
type_control = lit "control"

abbrev pub type_ping : GoString
type_ping = lit "ping"

abbrev pub type_joined : GoString
type_joined = lit "joined"

abbrev pub type_peer_joined : GoString
type_peer_joined = lit "peer-joined"

abbrev pub type_peer_left : GoString
type_peer_left = lit "peer-left"

abbrev pub type_error : GoString
type_error = lit "error"

abbrev pub type_pong : GoString
type_pong = lit "pong"
