-- ===== src/Gateway/Esl/Escapes.antt =====
-- urlDecode undoes the escapes of FreeSWITCH.
use vks.Common.{
  ℕ, ◌+◌, ◌-◌, ◌/◌, ◌%◌, ◌<◌, ◌≡◌, ◌∙◌, refl, ap, Bool, true, false, [], ◌∷◌, none, some, arith,
  All, if◌then◌else◌, ◌==◌, ℕ_eq, ltb, Bool-cases, inl, inr,
}
use native.Mathlib.Decide.{ℕ_discrete}
use vks.Common.GoString.{GoString}
use vks.Gateway.Esl.{hex_digit, escape, url_decode}

-- The digit of a number below 16, in capitals.
abbrev pub to_hex : ℕ → ℕ
to_hex n = if ltb n 10 then b'0' + n else b'A' + (n - 10)

-- A text in which every byte that `keep` does not spare is written as an escape.
unfoldable pub url_encode : (ℕ → Bool) → GoString → GoString
url_encode keep [] = []
url_encode keep (b ∷ s) =
    if keep b
    then b ∷ url_encode keep s
    else b'%' ∷ to_hex (b / 16) ∷ to_hex (b % 16) ∷ url_encode keep s

hex_digit-to_hex : (n : ℕ) → n < 16 → hex_digit (to_hex n) ≡ some n
unfolding hex_digit
hex_digit-to_hex n h = ground arith

escape-encoded : (b : ℕ) → b < 256 → escape b'%' (to_hex (b / 16)) (to_hex (b % 16)) ≡ some b
unfolding escape
escape-encoded b h =
    rw (hex_digit-to_hex (b / 16) (omega arith), hex_digit-to_hex (b % 16) (omega arith))
      (ground arith)

url_decode-escape :
    (c h l b : ℕ) (s : GoString)
    → escape c h l ≡ some b
    → url_decode (c ∷ h ∷ l ∷ s) ≡ b ∷ url_decode s
unfolding url_decode
url_decode-escape c h l b s e = rw (url_decode, e) refl

escape-plain : (c h l : ℕ) → (c == b'%') ≡ false → escape c h l ≡ none
unfolding escape
escape-plain c h l ne = rw ne refl

url_decode-keep :
    (c : ℕ) (s : GoString) → (c == b'%') ≡ false → url_decode (c ∷ s) ≡ c ∷ url_decode s
unfolding url_decode
url_decode-keep c [] h = refl
url_decode-keep c (d ∷ []) h = refl
url_decode-keep c (d ∷ l ∷ s) h = rw (url_decode, escape-plain c d l h) refl

percent_kept : (keep : ℕ → Bool) (b : ℕ) → keep b'%' ≡ false → keep b ≡ true → (b == b'%') ≡ false
percent_kept keep b h spared = elim (ℕ_discrete b b'%') [
  | yes e ↦ absurd (cc (ap keep e))
  | no ne ↦ ground arith
]

-- Whatever bytes the sender spares, '%' excepted, decoding gives the text back.
pub url_decode-url_encode :
    (keep : ℕ → Bool) (s : GoString)
    → keep b'%' ≡ false
    → All (λ b. b < 256) s
    → url_decode (url_encode keep s) ≡ s
unfolding url_encode
url_decode-url_encode keep [] h bytes = unfold url_decode in refl
url_decode-url_encode keep (b ∷ s) h bytes =
    let rest = url_decode-url_encode keep s h bytes.1 in
    elim (Bool-cases (keep b)) [
      | inl spared ↦
          rw spared (url_decode-keep b _ (percent_kept keep b h spared) ∙ ap (λ t. b ∷ t) rest)
      | inr escaped ↦ rw escaped (
          url_decode-escape b'%' (to_hex (b / 16)) (to_hex (b % 16)) b _ (escape-encoded b bytes.0)
          ∙ ap (λ t. b ∷ t) rest)
    ]
