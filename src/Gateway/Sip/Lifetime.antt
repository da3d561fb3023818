-- ===== src/Gateway/Sip/Lifetime.antt =====
-- Every sequence of INVITEs of new calls, BYEs and CANCELs.
use vks.Common.{
  ℕ, ◌+◌, ◌≡◌, refl, Bool, true, false, not, ◌||◌, [], Option, none, some, arith, Result, ok, err,
  if◌then◌else◌, ◌==◌,
}
use vks.Common.GoString.{GoString, string_eq, is_empty}
use vks.Common.Int.{ℤ, ℤ_eq, pos, ltb_ℤ}
use vks.Common.Dict.{lookup}
use vks.Gateway.Sdp.{Endpoint, parse_sdp}
use vks.Gateway.Sip.{
  Leg, Config, Server, Reply, Invite, Answers, Party, Local, create_peer, peers_url, peer_ports,
  ask, listen, close_socket, on_bye, on_cancel, with_mw_video, with_peer, create_mw_peer,
  with_video, with_audio, on_invite, party_of, open_rtp_listener, Listener, listening, none_free,
  panicked,
}
use vks.Gateway.Sip.Sockets.{
  same, at_hand, Holds, IsTight, listen-Holds, close-Holds, Holds-same, Holds-fields,
  give_up-IsTight, enter_call-IsTight, cleanup-IsTight,
}

if_IsTight :
    (b : Bool) (t u : Reply × Server)
    → (b ≡ true → IsTight t.1)
    → (b ≡ false → IsTight u.1)
    → IsTight (if b then t else u).1
if_IsTight true t u h k = h refl
if_IsTight false t u h k = k refl

-- The last step before a call is entered, with or without video.
with_mw_video-IsTight :
    (a : Answers) (w : Party) (l : Local) (mw : Leg) (port : ℤ) (s : Server)
    → lookup w.call_id s.calls ≡ none
    → Holds (λ x. at_hand l x + same x mw.conn) s
    → IsTight (with_mw_video a w l mw port s).1
unfolding with_mw_video
with_mw_video-IsTight a w l mw port s new h = by_video l.video h
  where
    plain : Local
    plain = record l { video = none }

    by_video :
        (o : Option Leg)
        → Holds (λ x. at_hand (record l { video = o }) x + same x mw.conn) s
        → IsTight (with_mw_video a w (record l { video = o }) mw port s).1
    by_video none g =
        enter_call-IsTight a w plain mw none s new (Holds-same _ _ s (λ x. omega arith) g)
    by_video (some v) g =
        let k : Local = record l { video = some v } in
        if_IsTight (not (ltb_ℤ (pos 0) port)) _ _
          (λ _. enter_call-IsTight a w k mw none s new (Holds-same _ _ s (λ x. omega arith) g))
          (λ _.
            if_IsTight a.mw_video_free _ _
              (λ _. enter_call-IsTight a w k mw _ (listen s) new (listen-Holds _ s g))
              (λ _. enter_call-IsTight a w plain mw none (close_socket v.conn s) new (
                close-Holds _ v.conn s (
                  Holds-same _ (λ x. at_hand plain x + same x mw.conn + 0 + same x v.conn) s
                    (λ x. omega arith) g))))

with_peer-IsTight :
    (a : Answers) (w : Party) (l : Local) (r : Result GoString (ℤ × ℤ)) (s : Server)
    → lookup w.call_id s.calls ≡ none
    → Holds (at_hand l) s
    → IsTight (with_peer a w l r s).1
unfolding with_peer
with_peer-IsTight a w l (err e) s new h = give_up-IsTight 503 l s h
with_peer-IsTight a w l (ok (audio, video)) s new h =
    if_IsTight a.mw_audio_free _ _
      (λ _. with_mw_video-IsTight a w l _ video (listen s) new (listen-Holds _ s h))
      (λ _. give_up-IsTight 500 l s h)

create_mw_peer-IsTight :
    (a : Answers) (w : Party) (l : Local) (s : Server)
    → lookup w.call_id s.calls ≡ none
    → Holds (at_hand l) s
    → IsTight (create_mw_peer a w l s).1
unfolding create_mw_peer
create_mw_peer-IsTight a w l s new h =
    let asking = ask (create_peer (peers_url s.cfg w.room) w.call_id w.caller) s in
    with_peer-IsTight a w l (peer_ports a.peer) asking new
      (Holds-fields (at_hand l) s asking refl refl refl h)

with_video-IsTight :
    (a : Answers) (w : Party) (fs : Leg) (port : ℕ) (video : Endpoint) (o : Option ℕ) (s : Server)
    → lookup w.call_id s.calls ≡ none
    → Holds (λ x. 0 + same x fs.conn) s
    → IsTight (with_video a w fs port video o s).1
unfolding with_video
with_video-IsTight a w fs port video none s new h =
    let l : Local = record { audio = fs; audio_port = port; video = none; video_port = 0 } in
    create_mw_peer-IsTight a w l s new (Holds-same _ _ s (λ x. omega arith) h)
with_video-IsTight a w fs port video (some q) s new h =
    let l : Local = record {
      audio = fs;
      audio_port = port;
      video = some (record { conn = s.next; remote = video });
      video_port = q;
    } in
    create_mw_peer-IsTight a w l (listen s) new (listen-Holds _ s h)

with_audio-IsTight :
    (a : Answers) (w : Party) (audio video : Endpoint) (o : Listener) (s : Server)
    → lookup w.call_id s.calls ≡ none
    → IsTight s
    → IsTight (with_audio a w audio video o s).1
unfolding with_audio
with_audio-IsTight a w audio video none_free s new h = h
with_audio-IsTight a w audio video panicked s new h = h
with_audio-IsTight a w audio video (listening port) s new h =
    with_video-IsTight a w _ port video _ (listen s) new (listen-Holds _ s h)

pub on_invite-IsTight :
    (a : Answers) (m : Invite) (s : Server)
    → lookup m.call_id s.calls ≡ none
    → IsTight s
    → IsTight (on_invite a m s).1
unfolding on_invite party_of
on_invite-IsTight a m s new h =
    let audio = (parse_sdp m.body).0 in
    let video = (parse_sdp m.body).1 in
    let port = open_rtp_listener s.cfg.rtp_min_port s.cfg.rtp_max_port a.audio_tries in
    if_IsTight (audio.port == pos 0 || is_empty audio.ip) ((488, []), s)
      (with_audio a (party_of a m) audio video port s) (λ _. h)
      (λ _. with_audio-IsTight a (party_of a m) audio video port s new h)

-- A server that has just started.
abbrev pub start : Config → Server
start cfg = record { cfg = cfg; calls = []; bridge = []; opened = []; next = 0; asked = [] }

-- What arrives on SIP. An INVITE brings a new Call-ID: one within a call is none of these steps.
pub data Step (s : Server) : Server → Type 0 where
  invites :
      (a : Answers) (m : Invite) → lookup m.call_id s.calls ≡ none → Step s (on_invite a m s).1
  says_bye : (id : GoString) → Step s (on_bye id s).1
  cancels : (id : GoString) → Step s (on_cancel id s).1

pub data Reach (s : Server) : Server → Type 0 where
  here : Reach s s
  later : {t u : Server} → Reach s t → Step t u → Reach s u

Step-IsTight : {s t : Server} → Step s t → IsTight s → IsTight t
unfolding on_bye on_cancel
Step-IsTight {s} (invites a m new) h = on_invite-IsTight a m s new h
Step-IsTight {s} (says_bye id) h = cleanup-IsTight id s h
Step-IsTight {s} (cancels id) h = cleanup-IsTight id s h

-- Whatever INVITEs of new calls, BYEs and CANCELs arrive, and however the network and the media worker
-- answer, the open sockets are those of the calls in the table, and each belongs to one of them once.
pub Reach-IsTight : (cfg : Config) (s : Server) → Reach (start cfg) s → IsTight s
Reach-IsTight cfg _ here = record { each = λ x. refl; once = λ x. ground arith; keyed = tt }
Reach-IsTight cfg _ (later r step) = Step-IsTight step (Reach-IsTight cfg _ r)
