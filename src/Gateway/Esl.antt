-- ===== src/Gateway/Esl.antt =====
-- services/sip-gateway/internal/esl/client.go: what the client reads from FreeSWITCH's event socket
-- (readBody, parseEventBody, urlDecode, hexDigit).
pub mod Escapes
use vks.Common.{
  ℕ, zero, suc, ◌+◌, ◌-◌, ◌*◌, ◌%◌, ◌^◌, Bool, true, false, not, ◌&&◌, ◌||◌, List, [], ◌∷◌, ◌++◌,
  Option, none, some, Result, ok, err, if◌then◌else◌, ◌==◌, ℕ_eq, leb, ltb, length,
}
use vks.Common.GoString.{GoString, lit, string_eq, is_empty}
use vks.Common.Dict.{Dict, insert}

-- `none` is -1.
unfoldable pub hex_digit : ℕ → Option ℕ
hex_digit c =
    if leb b'0' c && leb c b'9'
    then some (c - b'0')
    else if leb b'a' c && leb c b'f'
    then some (c - b'a' + 10)
    else if leb b'A' c && leb c b'F'
    then some (c - b'A' + 10)
    else none

-- The byte that three characters spell, if they are an escape.
unfoldable pub escape : ℕ → ℕ → ℕ → Option ℕ
escape c h l =
    if c == b'%'
    then (elim (hex_digit h) [
      | none ↦ none
      | some hi ↦ elim (hex_digit l) [ none ↦ none | some lo ↦ some (hi * 16 + lo) ]
    ])
    else none

-- The loop over the string; the last two bytes begin no escape.
unfoldable pub url_decode : GoString → GoString
url_decode [] = []
url_decode (c ∷ []) = c ∷ []
url_decode (c ∷ d ∷ []) = c ∷ d ∷ []
url_decode (c ∷ h ∷ l ∷ s) = elim (escape c h l) [
  | some b ↦ b ∷ url_decode s
  | none ↦ c ∷ url_decode (h ∷ l ∷ s)
]

-- The 64-bit sum of the digits of a Content-Length; other characters are skipped.
unfoldable pub content_length : GoString → ℕ → ℕ
content_length [] n = n
content_length (c ∷ s) n =
    content_length s (if leb b'0' c && leb c b'9' then (n * 10 + (c - b'0')) % 2 ^ 64 else n)

-- io.ReadFull on a connection that will still deliver `input`: the bytes read and what is left.
unfoldable pub read_full : ℕ → GoString → Option (GoString × GoString)
read_full zero input = some ([], input)
read_full (suc n) [] = none
read_full (suc n) (c ∷ input) = elim (read_full n input) [
  | none ↦ none
  | some (s, rest) ↦ some (c ∷ s, rest)
]

-- readBody. A number whose sign bit is set counts as negative; `none` is the error of ReadFull.
unfoldable pub read_body : GoString → GoString → Option (GoString × GoString)
read_body header input =
    let n = content_length header 0 in
    if is_empty header || n == 0 || leb (2 ^ 63) n then some ([], input) else read_full n input

abbrev is_space : ℕ → Bool
is_space c = c == 32 || leb 9 c && leb c 13

unfoldable pub trim_left : GoString → GoString
trim_left [] = []
trim_left (c ∷ s) = let rest = trim_left s in if is_space c then rest else c ∷ s

unfoldable pub trim_right : GoString → GoString
trim_right [] = []
trim_right (c ∷ s) = let rest = trim_right s in if is_empty rest && is_space c then [] else c ∷ rest

-- strings.TrimSpace on ASCII, to which FreeSWITCH escapes its values.
abbrev trim_space : GoString → GoString
trim_space s = trim_right (trim_left s)

-- strings.Split(s, "\n"): the first line and the others.
unfoldable pub split_lines : GoString → GoString × List GoString
split_lines [] = ([], [])
split_lines (c ∷ s) =
    let (line, lines) = split_lines s in if c == 10 then ([], line ∷ lines) else (c ∷ line, lines)

-- A line cut at its first ':'; `none` if it has none.
unfoldable pub cut : GoString → Option (GoString × GoString)
cut [] = none
cut (c ∷ s) =
    let rest = cut s in
    if c == b':' then some ([], s) else (elim rest [ none ↦ none | some (k, v) ↦ some (c ∷ k, v) ])

-- One line of parseEventBody; a line without ':' or without a key is skipped.
unfoldable pub parse_line : GoString → Dict GoString GoString → Dict GoString GoString
unfolding trim_left trim_right
parse_line line out = elim (cut line) [
  | none ↦ out
  | some (k, v) ↦ if is_empty k then out else insert (trim_space k) (url_decode (trim_space v)) out
]

unfoldable pub parse_lines : List GoString → Dict GoString GoString → Dict GoString GoString
parse_lines [] out = out
parse_lines (line ∷ lines) out = parse_lines lines (parse_line line out)

unfoldable pub parse_event_body : GoString → Dict GoString GoString
parse_event_body body = let (line, lines) = split_lines body in parse_lines (line ∷ lines) []
