-- ===== src/Examples/Phones.antt =====
-- A phone that calls the SIP server, with sound only.
use vks.Common.{
  ltb, if◌then◌else◌, ◌<◌, ℕ, ◌≡◌, refl, Bool, true, false, [], ◌∷◌, ◌++◌, some, arith, ok,
}
use native.Mathlib.Decide.{ℕ_discrete}
use vks.Common.GoString.{GoString-discrete, lit, strip_prefix, itoa}
use vks.Common.Int.{ℤ-discrete, pos}
use vks.Common.Dict.{lookup}
use vks.Common.Scan.{scan_int, scan_digits}
use vks.Gateway.Sdp.{
  parse_sdp, parse_lines, parse_line, parse_m_port, first_field, until_space, trim_left, trim_right,
  trim_space, split_lines, build_sdp_answer, video_lines,
}
use vks.Gateway.Sip.{
  Config, Server, Invite, Answers, peer_ports, open_rtp_listener, try_ports, port_count, Tries,
  party_of, on_invite, on_bye,
}
use vks.Gateway.Sip.Sockets.{IsTight}
use vks.Gateway.Sip.Lifetime.{start, invites, says_bye, here, later, Reach-IsTight}
use vks.Gateway.Sip.Offers.{Forgotten, InRange, open_rtp_listener-InRange, on_invite-forgets}

abbrev config : Config
config = record {
  public_ip = lit "10.0.0.1";
  rtp_min_port = 17000;
  rtp_max_port = 17200;
  media_worker_url = lit "http://w";
}

-- The first random port is taken, the second is free.
abbrev tries : Tries
tries = record { intn = λ i n. if ltb i n then i else 0; free = λ i port. ltb 0 i }

draw_in_range : (i n : ℕ) → 0 < n → tries.intn i n < n
draw_in_range i n h = ground arith

abbrev answers : Bool → Answers
answers free = record {
  now = 7;
  equal_fold = λ s t. true;
  audio_tries = tries;
  video_tries = tries;
  peer = ok (200, ok (pos 5000, pos 0));
  media_worker_ip = lit "10.0.0.2";
  mw_audio_free = free;
  mw_video_free = true;
  session = 1;
  version = 2;
}

abbrev invite : Invite
invite = record {
  call_id = lit "c1";
  headers = [];
  to_user = some (lit "room1");
  from_user = some (lit "phone");
  body = lit "c=IN IP4 10.0.0.9" ++ 10 ∷ lit "m=audio 40 RTP/AVP 0" ++ 10 ∷ [];
}

abbrev answered : Server
answered = (on_invite (answers true) invite (start config)).1

abbrev hung_up : Server
hung_up = (on_bye (lit "c1") answered).1

sockets_example : IsTight hung_up
unfolding lookup
sockets_example =
    Reach-IsTight config hung_up
      (later (later here (invites (answers true) invite refl)) (says_bye (lit "c1")))

port_example : InRange 17000 17200 (open_rtp_listener 17000 17200 tries)
port_example =
    open_rtp_listener-InRange 17000 17200 tries (omega arith) (omega arith) (omega arith)
      draw_in_range

forgets_example :
    Forgotten
      (answers false)
      (party_of (answers false) invite)
      (start config)
      (on_invite (answers false) invite (start config))
unfolding parse_sdp parse_lines parse_line parse_m_port first_field until_space trim_left trim_right
    trim_space split_lines strip_prefix scan_int scan_digits open_rtp_listener try_ports port_count
    peer_ports GoString-discrete ℕ_discrete ℤ-discrete
forgets_example =
    on_invite-forgets (answers false) invite 17001 (pos 5000, pos 0) (start config) refl refl refl
      refl

-- The SDP that the server answers with reads back as the ports that it names.
answer_read_back : parse_sdp (build_sdp_answer 1 2 (lit "10.0.0.1") 17002 17004 true) ≡ (
  record { ip = lit "10.0.0.1"; port = pos 17002 },
  record { ip = lit "10.0.0.1"; port = pos 17004 },
)
unfolding parse_sdp parse_lines parse_line parse_m_port first_field until_space trim_left trim_right
    trim_space split_lines strip_prefix scan_int scan_digits build_sdp_answer video_lines itoa
    ℕ_discrete
answer_read_back = refl
