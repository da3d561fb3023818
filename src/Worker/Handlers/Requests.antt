-- ===== src/Worker/Handlers/Requests.antt =====
-- services/media-worker/internal/httpapi/handlers.go: the API, requests and responses, the writes to Redis,
-- and the handlers that need no arithmetic.
use Prim.Native.Nat.{ℕ}
use vks.Common.{
  Bool, not, ◌||◌, List, [], ◌∷◌, ◌++◌, Option, none, some, Result, ok, err, if◌then◌else◌, ℕ_eq,
}
use vks.Common.GoString.{GoString, lit, string_eq, is_empty, itoa}
use vks.Common.Scan.{scan_int}
use vks.Common.Int.{ℤ, pos, ℤ_eq}
use vks.Common.Dict.{Dict, insert}
use vks.Worker.Layout.{Mode}
use vks.Worker.Room.State.{World, SipPeer, CustomCell}
use vks.Worker.Room.Members.{roster}
use vks.Worker.Room.Recording.{Snapshot}
use vks.Worker.Rooms.{Registry, get, put, destroy, count, snapshots}

-- A write to the Redis hash room:{id}:participants.
pub data Presence : Type 0 where
  present_sip : GoString → GoString → GoString → Presence
  absent_sip : GoString → GoString → Presence

-- The API: its rooms, whether it has a Redis client, the directory of recordings, and the writes to Redis.
pub record Api (F : Type 0) : Type 0 where
  pub rooms : Registry F
  pub has_redis : Bool
  pub recording_dir : GoString
  pub presence : List Presence

pub data Body : Type 0 where
  no_body : Body
  error_text : GoString → Body
  health_status : ℕ → Body
  room_list : List Snapshot → Body
  slots : Dict GoString GoString → Body
  sdp_answer : GoString → Body
  ports : ℕ → ℕ → Body
  path : GoString → Body
  path_size : GoString → ℤ → Body

pub record Response : Type 0 where
  pub code : ℕ
  pub body : Body

pub record AddPeerReq : Type 0 where
  pub peer_id : GoString
  pub display_name : GoString
  pub role : GoString
  pub sdp_offer : GoString

pub record AddSipPeerReq : Type 0 where
  pub peer_id : GoString
  pub display_name : GoString

pub record LayoutReq (F : Type 0) : Type 0 where
  pub mode : Mode
  pub width : ℤ
  pub height : ℤ
  pub cells : List (CustomCell F)
  pub show_names : Option Bool
  pub name_bg_alpha : Option F
  pub name_bg_color : Option GoString
  pub name_font_size : Option ℤ
  pub name_font_color : Option GoString

abbrev pub bad_json : Response
bad_json = record { code = 400; body = error_text (lit "bad json") }

abbrev pub no_room : Response
no_room = record { code = 404; body = error_text (lit "no room") }

abbrev pub no_content : Response
no_content = record { code = 204; body = no_body }

abbrev pub internal_error : GoString → Response
internal_error e = record { code = 500; body = error_text e }

-- The map of slots that assignSlots reads from the body; a key that is no number is skipped.
unfoldable pub parse_assignment : Dict GoString GoString → Dict ℤ GoString → Dict ℤ GoString
parse_assignment [] d = d
parse_assignment ((k, v) ∷ rest) d =
    parse_assignment rest (elim (scan_int k) [ none ↦ d | some i ↦ insert i v d ])

unfoldable pub string_keys : Dict ℕ GoString → Dict GoString GoString
string_keys [] = []
string_keys ((i, v) ∷ d) = (itoa (pos i), v) ∷ string_keys d

module _ {F : Type 0} where
  -- `alias` is what Redis holds under "vks4:room:alias:" and the id; `none` is an error or no value.
  unfoldable pub resolve_room_id : Api F → Option GoString → GoString → GoString
  resolve_room_id a alias id =
      if not a.has_redis || is_empty id
      then id
      else elim alias [ none ↦ id | some v ↦ if is_empty v then id else v ]

  unfoldable pub presence_add_sip : GoString → GoString → GoString → Api F → Api F
  presence_add_sip room peer name a =
      if a.has_redis
      then record a { presence = a.presence ++ present_sip room peer name ∷ [] }
      else a

  unfoldable pub presence_remove_sip : GoString → GoString → Api F → Api F
  presence_remove_sip room peer a =
      if a.has_redis then record a { presence = a.presence ++ absent_sip room peer ∷ [] } else a

  abbrev pub store : GoString → World F → Api F → Api F
  store room s a = record a { rooms = put room s a.rooms }

  unfoldable pub health : Api F → Response
  health a = record { code = 200; body = health_status (count a.rooms) }

  unfoldable pub list_rooms : Api F → Response
  list_rooms a = record { code = 200; body = room_list (snapshots a.rooms) }

  unfoldable pub show_roster : GoString → Api F → Response
  show_roster room a = elim (get room a.rooms) [
    | none ↦ record { code = 200; body = slots [] }
    | some s ↦ record { code = 200; body = slots (string_keys (roster s.room)) }
  ]

  -- What addSIPPeer answers and writes to Redis.
  unfoldable pub announce_sip :
      GoString → AddSipPeerReq → Result GoString SipPeer → Api F → Response × Api F
  announce_sip room in_ (err e) a = (internal_error e, a)
  announce_sip room in_ (ok sp) a = (
    record { code = 200; body = ports sp.audio_port sp.video_port },
    presence_add_sip room in_.peer_id in_.display_name a,
  )

  unfoldable pub destroy_room : GoString → Api F → Response × Api F
  destroy_room room a = (no_content, record a { rooms = destroy room a.rooms })
