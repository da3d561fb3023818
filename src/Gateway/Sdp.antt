-- ===== src/Gateway/Sdp.antt =====
-- The SDP of a call (services/sip-gateway/internal/sipsrv/server.go: parseSDP, parseMPort,
-- buildSDPAnswer). Text is ASCII, so that a blank is one byte.
use vks.Common.{ℕ, Bool, ◌||◌, ◌&&◌, leb, List, [], ◌∷◌, ◌++◌, none, some, if◌then◌else◌, ◌==◌}
use vks.Common.Tests.{ℕ_eq}
use vks.Common.GoString.{GoString, lit, string_eq, strip_prefix, itoa}
use vks.Common.Int.{ℤ, pos}
use vks.Common.Scan.{scan_int}

-- sdpEndpoint
pub record Endpoint : Type 0 where
  pub ip : GoString
  pub port : ℤ

abbrev pub no_endpoint : Endpoint
no_endpoint = record { ip = []; port = pos 0 }

abbrev is_space : ℕ → Bool
is_space c = c == b' ' || leb 9 c && leb c 13

-- The first text put before the first of the lines.
abbrev glue : ℕ → List GoString → List GoString
glue c [] = (c ∷ []) ∷ []
glue c (l ∷ ls) = (c ∷ l) ∷ ls

-- `strings.Split(s, "\n")`
unfoldable pub split_lines : GoString → List GoString
split_lines [] = [] ∷ []
split_lines (c ∷ s) = let rest = split_lines s in if c == 10 then [] ∷ rest else glue c rest

unfoldable pub trim_left : GoString → GoString
trim_left [] = []
trim_left (c ∷ s) = let rest = trim_left s in if is_space c then rest else c ∷ s

-- A blank before an end that has been trimmed away goes too.
abbrev unless_end : ℕ → GoString → GoString
unless_end c [] = if is_space c then [] else c ∷ []
unless_end c (d ∷ s) = c ∷ d ∷ s

unfoldable pub trim_right : GoString → GoString
trim_right [] = []
trim_right (c ∷ s) = unless_end c (trim_right s)

-- `strings.TrimSpace`
unfoldable pub trim_space : GoString → GoString
unfolding trim_left trim_right
trim_space s = trim_left (trim_right s)

unfoldable pub until_space : GoString → GoString
until_space [] = []
until_space (c ∷ s) = let rest = until_space s in if is_space c then [] else c ∷ rest

-- `strings.Fields(s)[0]`, or "" where there is none: that is no number either.
unfoldable pub first_field : GoString → GoString
unfolding until_space trim_left
first_field s = until_space (trim_left s)

-- parseMPort of a line, of which `rest` stands behind the prefix
unfoldable pub parse_m_port : GoString → ℤ
unfolding first_field
parse_m_port rest = elim (scan_int (first_field rest)) [ none ↦ pos 0 | some n ↦ n ]

-- What parseSDP knows so far: the session's address and the two endpoints.
pub record Parsed : Type 0 where
  pub global_ip : GoString
  pub audio : Endpoint
  pub video : Endpoint

-- One round of the loop of parseSDP: the first prefix that fits.
unfoldable pub parse_line : GoString → Parsed → Parsed
unfolding parse_m_port
parse_line line p = elim (strip_prefix (lit "c=IN IP4 ") line) [
  | some ip ↦ record p { global_ip = ip }
  | none ↦ elim (strip_prefix (lit "m=audio ") line) [
    | some rest ↦ record p { audio = record { ip = p.global_ip; port = parse_m_port rest } }
    | none ↦ elim (strip_prefix (lit "m=video ") line) [
      | some rest ↦ record p { video = record { ip = p.global_ip; port = parse_m_port rest } }
      | none ↦ p
    ]
  ]
]

unfoldable pub parse_lines : List GoString → Parsed → Parsed
unfolding parse_line trim_space
parse_lines [] p = p
parse_lines (l ∷ ls) p = parse_lines ls (parse_line (trim_space l) p)

-- parseSDP: the endpoints of the sound and of the video
unfoldable pub parse_sdp : GoString → Endpoint × Endpoint
unfolding parse_lines split_lines
parse_sdp sdp =
    let p =
      parse_lines (split_lines sdp)
        (record { global_ip = []; audio = no_endpoint; video = no_endpoint }) in
    (p.audio, p.video)

abbrev line : GoString → GoString
line s = s ++ 10 ∷ []

unfoldable pub video_lines : ℕ → GoString
video_lines port =
    line (lit "m=video " ++ itoa (pos port) ++ lit " RTP/AVP 109")
    ++ line (lit "a=rtpmap:109 H264/90000")
    ++ line
        (lit "a=fmtp:109 profile-level-id=42e01f;packetization-mode=1;level-asymmetry-allowed=1")
    ++ line (lit "a=sendrecv")

-- buildSDPAnswer; `session` and `version` are what rand.Int31 draws.
unfoldable pub build_sdp_answer : ℕ → ℕ → GoString → ℕ → ℕ → Bool → GoString
unfolding video_lines
build_sdp_answer session version public_ip audio_port video_port with_video =
    line (lit "v=0")
    ++ line (
        lit "o=vks4 "
        ++ itoa (pos session)
        ++ lit " "
        ++ itoa (pos version)
        ++ lit " IN IP4 "
        ++ public_ip)
    ++ line (lit "s=vks4-sipgw")
    ++ line (lit "c=IN IP4 " ++ public_ip)
    ++ line (lit "t=0 0")
    ++ line (lit "m=audio " ++ itoa (pos audio_port) ++ lit " RTP/AVP 0")
    ++ line (lit "a=rtpmap:0 PCMU/8000")
    ++ line (lit "a=ptime:20")
    ++ line (lit "a=sendrecv")
    ++ (if with_video then video_lines video_port else [])
