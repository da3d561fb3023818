-- ===== src/Gateway/Sip/Calls.antt =====
-- services/sip-gateway/internal/sipsrv/server.go: the calls of the server, their sockets, and how they end.
use vks.Common.{
  ℕ, zero, suc, ◌+◌, ◌-◌, ◌%◌, ◌^◌, ◌/◌, Bool, not, ◌||◌, List, [], ◌∷◌, ◌++◌, Option, none, some,
  Result, ok, err, if◌then◌else◌, ◌==◌,
}
use vks.Common.Tests.{ℕ_eq}
use vks.Common.GoString.{GoString, lit, string_eq, is_empty}
use vks.Common.Int.{ℤ, ℤ_eq, pos}
use vks.Common.Dict.{Dict, lookup, erase}
use vks.Gateway.Bridge
use vks.Gateway.Bridge.{accept, release}
use vks.Gateway.Sdp.{Endpoint}

-- A socket to one side and the address that it sends to, with the text that net.ParseIP reads.
pub record Leg : Type 0 where
  pub conn : ℕ
  pub remote : Endpoint

-- The media worker's answer to POST /rooms/{room}/sip-peers: an error of the request, or a status and
-- what the body holds.
abbrev pub PeerAnswer : Type 0
PeerAnswer = Result GoString (ℕ × Result GoString (ℤ × ℤ))

pub record Call : Type 0 where
  pub call_id : GoString
  pub room : GoString
  pub caller : GoString
  pub peer_id : GoString
  pub fs : Leg
  pub mw : Leg
  pub fs_video : Option Leg
  pub mw_video : Option Leg

pub record Config : Type 0 where
  pub public_ip : GoString
  pub rtp_min_port : ℕ
  pub rtp_max_port : ℕ
  pub media_worker_url : GoString

-- A request to the media worker: of POST the peer's id and name, and each with its URL.
pub data Ask : Type 0 where
  create_peer : GoString → GoString → GoString → Ask
  delete_peer : GoString → Ask

-- A response on SIP: its status and its body.
abbrev pub Reply : Type 0
Reply = ℕ × GoString

pub record Server : Type 0 where
  pub cfg : Config
  pub calls : Dict GoString Call
  pub bridge : Dict GoString Bridge.Call
  pub opened : List ℕ
  pub next : ℕ
  pub asked : List Ask

-- An INVITE: a `nil` header To or From is `none`.
pub record Invite : Type 0 where
  pub call_id : GoString
  pub headers : Dict GoString GoString
  pub to_user : Option GoString
  pub from_user : Option GoString
  pub body : GoString

-- What rand.Intn draws on a try from a number of ports, and whether a port is free on that try.
pub record Tries : Type 0 where
  pub intn : ℕ → ℕ → ℕ
  pub free : ℕ → ℕ → Bool

-- How openRTPListener ends: `listening` at a port, with the error "no free RTP port", or not.
pub data Listener : Type 0 where
  listening : ℕ → Listener
  none_free panicked : Listener

-- What the surroundings answer during an INVITE: strings.EqualFold, the draws of random ports and
-- whether they were free, the media worker, its address (resolveOnce), and whether ListenUDP gives the sockets to the worker.
pub record Answers : Type 0 where
  pub now : ℕ
  pub equal_fold : GoString → GoString → Bool
  pub audio_tries : Tries
  pub video_tries : Tries
  pub peer : PeerAnswer
  pub media_worker_ip : GoString
  pub mw_audio_free : Bool
  pub mw_video_free : Bool
  pub session : ℕ
  pub version : ℕ

-- getHeaderValue
unfoldable pub get_header_value :
    (GoString → GoString → Bool) → Dict GoString GoString → GoString → GoString
get_header_value fold [] name = []
get_header_value fold ((n, v) ∷ hs) name =
    let rest = get_header_value fold hs name in if fold n name then v else rest

-- int(maxP-minP+1), computed on uint16
unfoldable pub port_count : ℕ → ℕ → ℕ
port_count low high = (high + 2 ^ 16 - low + 1) % 2 ^ 16

-- The tries of openRTPListener from number `i` on, `n` at most. rand.Intn panics if it gets no number to
-- draw from.
unfoldable pub try_ports : ℕ → ℕ → ℕ → ℕ → Tries → Listener
unfolding port_count
try_ports low high zero i t = none_free
try_ports low high (suc n) i t =
    let rest = try_ports low high n (suc i) t in
    let ports = port_count low high in
    let port = (low + t.intn i ports % 2 ^ 16) % 2 ^ 16 in
    if ports == 0 then panicked else if t.free i port then listening port else rest

unfoldable pub open_rtp_listener : ℕ → ℕ → Tries → Listener
unfolding try_ports
open_rtp_listener low high t = try_ports low high 50 0 t

-- A socket that has been opened.
abbrev pub listen : Server → Server
listen s = record s { opened = s.next ∷ s.opened; next = suc s.next }

unfoldable pub remove_socket : ℕ → List ℕ → List ℕ
remove_socket x [] = []
remove_socket x (y ∷ ys) = let rest = remove_socket x ys in if y == x then ys else y ∷ rest

abbrev pub close_socket : ℕ → Server → Server
close_socket x s = record s { opened = remove_socket x s.opened }

abbrev pub close_leg : Option Leg → Server → Server
close_leg none s = s
close_leg (some l) s = close_socket l.conn s

abbrev pub ask : Ask → Server → Server
ask a s = record s { asked = s.asked ++ a ∷ [] }

-- createMWPeer without its request
unfoldable pub peer_ports : PeerAnswer → Result GoString (ℤ × ℤ)
peer_ports (err e) = err e
peer_ports (ok (status, body)) =
    if not (status / 100 == 2) then err (lit "mw status") else elim body [
      | err e ↦ err e
      | ok (a, v) ↦ if a == pos 0 then err (lit "mw returned audioPort=0") else ok (a, v)
    ]

abbrev pub peers_url : Config → GoString → GoString
peers_url cfg room = cfg.media_worker_url ++ lit "/rooms/" ++ room ++ lit "/sip-peers"

-- The four calls of Close in cleanup.
abbrev pub close_sockets : Call → Server → Server
close_sockets c s =
    close_leg c.mw_video (close_leg c.fs_video (close_socket c.mw.conn (close_socket c.fs.conn s)))

-- The request to the worker is taken to be one that net/http can make.
unfoldable pub end_call : GoString → Option Call → Server → Server
end_call id none s = s
end_call id (some c) s =
    let closed = close_sockets c s in
    let told =
      if is_empty c.peer_id || is_empty c.room
      then closed
      else ask (delete_peer (peers_url s.cfg c.room ++ lit "/" ++ c.peer_id)) closed in
    record told { bridge = release id told.bridge }

unfoldable pub cleanup : GoString → Server → Server
unfolding end_call
cleanup id s = end_call id (lookup id s.calls) (record s { calls = erase id s.calls })

-- onBye and onCancel
unfoldable pub on_bye : GoString → Server → Reply × Server
unfolding cleanup
on_bye id s = ((200, []), cleanup id s)

unfoldable pub on_cancel : GoString → Server → Reply × Server
unfolding cleanup
on_cancel id s = ((200, []), cleanup id s)
