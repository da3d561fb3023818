-- ===== src/Gateway/Sip.antt =====
-- The calls of the SIP server (services/sip-gateway/internal/sipsrv/server.go: onInvite, onBye, onCancel,
-- cleanup, createMWPeer, openRTPListener, getHeaderValue). A UDP socket is a number; the relays, which
-- copy packets between the sockets of a call, are no part of the state.
pub mod Calls
pub mod Sockets
pub mod Lifetime
pub mod Offers
unfoldable pub use Calls.*
use vks.Common.{
  ℕ, zero, suc, ◌+◌, ◌%◌, ◌^◌, ◌/◌, Bool, true, false, not, ◌&&◌, ◌||◌, List, [], ◌∷◌, ◌++◌, Option,
  none, some, Result, ok, err, if◌then◌else◌, ◌==◌,
}
use vks.Common.Tests.{ℕ_eq}
use vks.Common.GoString.{GoString, lit, string_eq, is_empty}
use vks.Common.Int.{ℤ, ℤ_eq, pos, ltb_ℤ}
use vks.Common.Dict.{Dict, lookup, insert, erase}
use vks.Gateway.Bridge
use vks.Gateway.Bridge.{accept, release}
use vks.Gateway.Sdp.{Endpoint, parse_sdp, build_sdp_answer}

-- Whom an INVITE is from: the headers that FreeSWITCH adds, or else the addresses.
pub record Party : Type 0 where
  pub call_id : GoString
  pub room : GoString
  pub caller : GoString

abbrev or_user : GoString → Option GoString → GoString
or_user [] none = []
or_user [] (some user) = user
or_user (c ∷ s) user = c ∷ s

unfoldable pub party_of : Answers → Invite → Party
unfolding get_header_value
party_of a m = record {
  call_id = m.call_id;
  room = or_user (get_header_value a.equal_fold m.headers (lit "X-VKS-Room")) m.to_user;
  caller = or_user (get_header_value a.equal_fold m.headers (lit "X-VKS-Caller")) m.from_user;
}

-- The sockets towards the caller and their ports.
pub record Local : Type 0 where
  pub audio : Leg
  pub audio_port : ℕ
  pub video : Option Leg
  pub video_port : ℕ

abbrev is_there : Option Leg → Bool
is_there none = false
is_there (some _) = true

-- The end of onInvite, where all sockets are there.
unfoldable pub enter_call : Answers → Party → Local → Leg → Option Leg → Server → Reply × Server
enter_call a w l mw mw_video s = (
  (
    200,
    build_sdp_answer a.session a.version s.cfg.public_ip l.audio_port l.video_port
        (is_there l.video),
  ),
  record s {
    calls =
        insert w.call_id
          (record {
            call_id = w.call_id;
            room = w.room;
            caller = w.caller;
            peer_id = w.call_id;
            fs = l.audio;
            mw = mw;
            fs_video = l.video;
            mw_video = mw_video;
          })
          s.calls;
    bridge = accept a.now w.call_id w.room w.caller s.bridge;
  },
)

-- The socket for the video to the worker, if there is video on both sides; without it the call goes on
-- without video.
unfoldable pub with_mw_video : Answers → Party → Local → Leg → ℤ → Server → Reply × Server
unfolding enter_call
with_mw_video a w l mw port s = elim l.video [
  | none ↦ enter_call a w l mw none s
  | some v ↦
      if not (ltb_ℤ (pos 0) port)
      then enter_call a w l mw none s
      else if a.mw_video_free
      then enter_call a w l mw
          (some (record { conn = s.next; remote = record { ip = a.media_worker_ip; port = port } }))
          (listen s)
      else enter_call a w (record l { video = none }) mw none (close_socket v.conn s)
]

abbrev pub give_up : ℕ → Local → Server → Reply × Server
give_up status l s = ((status, []), close_leg l.video (close_socket l.audio.conn s))

-- What follows the answer of the media worker.
unfoldable pub with_peer :
    Answers → Party → Local → Result GoString (ℤ × ℤ) → Server → Reply × Server
unfolding with_mw_video
with_peer a w l (err e) s = give_up 503 l s
with_peer a w l (ok (audio, video)) s =
    if a.mw_audio_free
    then with_mw_video a w l
        (record { conn = s.next; remote = record { ip = a.media_worker_ip; port = audio } }) video
        (listen s)
    else give_up 500 l s

unfoldable pub create_mw_peer : Answers → Party → Local → Server → Reply × Server
unfolding with_peer peer_ports
create_mw_peer a w l s =
    with_peer a w l (peer_ports a.peer)
      (ask (create_peer (peers_url s.cfg w.room) w.call_id w.caller) s)

-- The listener for video, if the offer has a port for it; without one the call goes on.
unfoldable pub with_video :
    Answers → Party → Leg → ℕ → Endpoint → Option ℕ → Server → Reply × Server
unfolding create_mw_peer
with_video a w fs audio_port video none s =
    create_mw_peer a w
      (record { audio = fs; audio_port = audio_port; video = none; video_port = 0 }) s
with_video a w fs audio_port video (some port) s =
    create_mw_peer a w
      (record {
        audio = fs;
        audio_port = audio_port;
        video = some (record { conn = s.next; remote = video });
        video_port = port;
      })
      (listen s)

-- The port of a listener for video. It has the same range as the one for sound, so that it does not panic
-- where that one did not.
abbrev pub port_of : Listener → Option ℕ
port_of none_free = none
port_of panicked = none
port_of (listening port) = some port

-- Nothing is answered where the handler panics.
abbrev pub no_reply : Reply
no_reply = (0, [])

unfoldable pub with_audio :
    Answers → Party → Endpoint → Endpoint → Listener → Server → Reply × Server
unfolding with_video open_rtp_listener
with_audio a w audio video none_free s = ((500, []), s)
with_audio a w audio video panicked s = (no_reply, s)
with_audio a w audio video (listening port) s =
    with_video a w (record { conn = s.next; remote = audio }) port video
      (if ltb_ℤ (pos 0) video.port && not (is_empty video.ip)
        then port_of (open_rtp_listener s.cfg.rtp_min_port s.cfg.rtp_max_port a.video_tries)
        else none)
      (listen s)

unfoldable pub on_invite : Answers → Invite → Server → Reply × Server
unfolding with_audio party_of
on_invite a m s =
    let (audio, video) = parse_sdp m.body in
    if audio.port == pos 0 || is_empty audio.ip
    then ((488, []), s)
    else with_audio a (party_of a m) audio video
        (open_rtp_listener s.cfg.rtp_min_port s.cfg.rtp_max_port a.audio_tries) s
