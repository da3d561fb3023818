-- ===== src/Gateway/Sip/Offers.antt =====
-- The ports that the SIP server offers, and what it asks of the media worker for a call that fails.
use vks.Common.{
  true, if◌then◌else◌, ◌+◌, ◌%◌, ℕ, zero, suc, ◌-◌, ◌≤◌, ◌<◌, ◌≡◌, refl, Bool, false, ◌||◌, [], ◌∷◌,
  ◌++◌, Option, none, some, arith, ok, ◌==◌,
}
use vks.Common.Tests.{ℕ_eq}
use vks.Common.GoString.{string_eq, is_empty}
use vks.Common.Int.{ℤ, ℤ_eq, pos}
use vks.Gateway.Sdp.{Endpoint, parse_sdp}
use vks.Gateway.Sip.{
  Leg, Local, Party, Server, Reply, Answers, Invite, create_peer, peers_url, peer_ports, try_ports,
  port_count, Tries, Listener, listening, none_free, panicked, open_rtp_listener, with_peer,
  create_mw_peer, with_video, with_audio, on_invite, party_of, listen, ask, give_up,
}

-- A listener within the range, or none since no port was free, but no panic.
abbrev pub InRange : ℕ → ℕ → Listener → Type 0
InRange low high panicked = ⊥
InRange low high none_free = Unit
InRange low high (listening port) = (low ≤ port) × (port ≤ high)

port_count_lem :
    (low high : ℕ) → 0 < low → low ≤ high → high < 65536 → port_count low high ≡ suc high - low
unfolding port_count
port_count_lem low high some_port le top = omega arith

if_InRange :
    (low high : ℕ) (p free : Bool) (port : ℕ) (l : Listener)
    → p ≡ false
    → (low ≤ port) × (port ≤ high)
    → InRange low high l
    → InRange low high (if p then panicked else if free then listening port else l)
if_InRange low high true free port l h within rest = absurd (cc)
if_InRange low high false true port l h within rest = within
if_InRange low high false false port l h within rest = rest

try_ports-InRange :
    (low high n i : ℕ) (t : Tries)
    → 0 < low
    → low ≤ high
    → high < 65536
    → ((j m : ℕ) → 0 < m → t.intn j m < m)
    → InRange low high (try_ports low high n i t)
unfolding try_ports
try_ports-InRange low high zero i t some_port le top draws = tt
try_ports-InRange low high (suc n) i t some_port le top draws =
    let rest = try_ports-InRange low high n (suc i) t some_port le top draws in
    let m = port_count low high in
    let size = port_count_lem low high some_port le top in
    let drawn = draws i m (omega arith) in
    if_InRange low high (m == 0) (t.free i ((low + t.intn i m % 65536) % 65536)) _ _
      (ground (arith, size)) (omega arith, omega arith) rest

-- With a lowest port other than 0, which New sees to, and a highest of 16 bits that is not below it,
-- openRTPListener never panics, and the port that it listens on lies between the two, if rand.Intn draws
-- below its argument.
pub open_rtp_listener-InRange :
    (low high : ℕ) (t : Tries)
    → 0 < low
    → low ≤ high
    → high < 65536
    → ((j m : ℕ) → 0 < m → t.intn j m < m)
    → InRange low high (open_rtp_listener low high t)
unfolding open_rtp_listener
open_rtp_listener-InRange low high t = try_ports-InRange low high 50 0 t

-- The worker's peer has been made, and its socket for the sound cannot be opened.
abbrev pub Forgotten : Answers → Party → Server → Reply × Server → Type 0
Forgotten a w s r =
    (r.0 ≡ (500, []))
    × (r.1.calls ≡ s.calls)
    × (r.1.asked ≡ s.asked ++ create_peer (peers_url s.cfg w.room) w.call_id w.caller ∷ [])

create_mw_peer-forgets :
    (a : Answers) (w : Party) (l : Local) (ports : ℤ × ℤ) (s : Server)
    → peer_ports a.peer ≡ ok ports
    → a.mw_audio_free ≡ false
    → Forgotten a w s (create_mw_peer a w l s)
unfolding create_mw_peer with_peer
create_mw_peer-forgets a w l ports s made full =
    rw (made, create_mw_peer) (rw (full, with_peer) (by_video l.video))
  where
    by_video :
        (o : Option Leg)
        → Forgotten a w s (
            give_up 500
              (record l { video = o })
              (ask (create_peer (peers_url s.cfg w.room) w.call_id w.caller) s))
    by_video none = (refl, refl, refl)
    by_video (some v) = (refl, refl, refl)

with_video-forgets :
    (a : Answers) (w : Party) (fs : Leg) (audio_port : ℕ) (video : Endpoint) (o : Option ℕ)
    (ports : ℤ × ℤ) (s : Server)
    → peer_ports a.peer ≡ ok ports
    → a.mw_audio_free ≡ false
    → Forgotten a w s (with_video a w fs audio_port video o s)
unfolding with_video
with_video-forgets a w fs audio_port video none ports s made full =
    create_mw_peer-forgets a w
      (record { audio = fs; audio_port = audio_port; video = none; video_port = 0 }) ports s made
      full
with_video-forgets a w fs audio_port video (some q) ports s made full =
    create_mw_peer-forgets a w
      (record {
        audio = fs;
        audio_port = audio_port;
        video = some (record { conn = s.next; remote = video });
        video_port = q;
      })
      ports (listen s) made full

-- If the media worker has made the peer of a call and the socket for its sound to the worker cannot be
-- opened, the INVITE is answered with 500 and the table of calls stays, and the worker is asked to make
-- the peer but never to delete it.
pub on_invite-forgets :
    (a : Answers) (m : Invite) (port : ℕ) (ports : ℤ × ℤ) (s : Server)
    → ((parse_sdp m.body).0.port == pos 0 || is_empty (parse_sdp m.body).0.ip) ≡ false
    → open_rtp_listener s.cfg.rtp_min_port s.cfg.rtp_max_port a.audio_tries ≡ listening port
    → peer_ports a.peer ≡ ok ports
    → a.mw_audio_free ≡ false
    → Forgotten a (party_of a m) s (on_invite a m s)
unfolding on_invite with_audio
on_invite-forgets a m port ports s sound free made full =
    let audio = (parse_sdp m.body).0 in
    let video = (parse_sdp m.body).1 in
    rw (sound, on_invite)
      (rw (free, with_audio)
        (with_video-forgets a (party_of a m) _ port video _ ports (listen s) made full))
