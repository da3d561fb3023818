-- ===== src/Signaling/Hub.antt =====
-- services/signaling/internal/session/hub.go: who is in which room. The sessions themselves, to which
-- Go's hub has pointers, are in the store `sessions` under their ids, which are unique.
pub mod Laws
use vks.Common.{
  ℕ, Bool, true, false, not, ◌&&◌, List, [], ◌∷◌, ◌++◌, map, Option, none, some, if◌then◌else◌,
  ◌==◌,
}
use vks.Common.GoString.{GoString, string_eq}
use vks.Common.Dict.{Dict, lookup, insert, erase}
use vks.Signaling.Protocol.{Envelope, Participant}

-- session.Session without its connection and its services.
pub record Session : Type 0 where
  pub id : GoString
  pub room_id : GoString
  pub display_name : GoString
  pub role : GoString
  pub user_id : GoString
  pub joined_at : ℕ
  pub closed : Bool

-- The sessions of a room: the map's keys, which say which pointers its values are.
abbrev pub Members : Type 0
Members = Dict GoString (Unit {0})

abbrev pub Rooms : Type 0
Rooms = Dict GoString Members

abbrev pub Sessions : Type 0
Sessions = Dict GoString Session

-- A frame written to a session's WebSocket.
pub record Frame : Type 0 where
  pub to : GoString
  pub env : Envelope

-- `h.rooms[room]`, where nil is the empty map
unfoldable pub members : GoString → Rooms → Members
members room h = elim (lookup room h) [ none ↦ [] | some r ↦ r ]

unfoldable pub add : GoString → GoString → Rooms → Rooms
unfolding members
add room id h = insert room (insert id tt (members room h)) h

-- A room without sessions goes.
unfoldable pub keep_or_drop : GoString → Members → Rooms → Rooms
keep_or_drop room [] h = erase room h
keep_or_drop room (m ∷ r) h = insert room (m ∷ r) h

unfoldable pub remove : GoString → GoString → Rooms → Rooms
unfolding keep_or_drop
remove room id h = elim (lookup room h) [ none ↦ h | some r ↦ keep_or_drop room (erase id r) h ]

-- ToParticipant
unfoldable pub to_participant : Session → Participant
to_participant s = record { peer_id = s.id; display_name = s.display_name; role = s.role }

unfoldable pub participants_of : Sessions → Members → List Participant
participants_of ss [] = []
participants_of ss ((id, _) ∷ r) = elim (lookup id ss) [
  | none ↦ participants_of ss r
  | some s ↦ to_participant s ∷ participants_of ss r
]

unfoldable pub participants : GoString → Sessions → Rooms → List Participant
unfolding participants_of members to_participant
participants room ss h = participants_of ss (members room h)

-- Write of one session: a closed one takes no frame, and an error of the socket is dropped.
unfoldable pub write : Sessions → GoString → Envelope → List Frame
write ss id env = elim (lookup id ss) [
  | none ↦ []
  | some s ↦ if s.closed then [] else record { to = id; env = env } ∷ []
]

-- The two loops of Broadcast.
unfoldable pub to_members : Sessions → GoString → Envelope → Members → List Frame
unfolding write
to_members ss except env [] = []
to_members ss except env ((id, _) ∷ r) =
    (if id == except then [] else write ss id env) ++ to_members ss except env r

unfoldable pub broadcast : GoString → GoString → Envelope → Sessions → Rooms → List Frame
unfolding to_members members
broadcast room except env ss h = to_members ss except env (members room h)

unfoldable pub broadcast_all : GoString → Envelope → Sessions → Rooms → List Frame
unfolding broadcast
broadcast_all room = broadcast room []
