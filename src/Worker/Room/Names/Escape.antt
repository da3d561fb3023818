-- ===== src/Worker/Room/Names/Escape.antt =====
-- What the escapes do to a name.
use vks.Common.{
  ℕ, ◌≡◌, ◌≢◌, ◌∙◌, refl, false, [], ◌∷◌, ◌++◌, arith, if◌then◌else◌, ◌==◌, ℕ_eq, All, All-append,
}
use mathlib.Core.List.{append_assoc}
use native.Mathlib.Decide.{ℕ_discrete}
use vks.Common.GoString.{GoString, lit, replace_all}
use vks.Worker.Room.Names.{escape}

-- Each byte by itself.
abbrev pub escaped_byte : ℕ → GoString
escaped_byte c =
    if c == b'&'
    then lit "&amp;"
    else if c == b'<'
    then lit "&lt;"
    else if c == b'>'
    then lit "&gt;"
    else c ∷ []

unfoldable pub escaped : GoString → GoString
escaped [] = []
escaped (c ∷ s) = escaped_byte c ++ escaped s

replace_all-append :
    (c : ℕ) (t xs ys : GoString)
    → replace_all c t (xs ++ ys) ≡ replace_all c t xs ++ replace_all c t ys
unfolding replace_all
replace_all-append c t [] ys = refl
replace_all-append c t (d ∷ xs) ys =
    ground (
      arith,
      replace_all-append c t xs ys,
      append_assoc t (replace_all c t xs) (replace_all c t ys),
    )

test_false : (c d : ℕ) → c ≢ d → (c == d) ≡ false
test_false c d h = ground arith

escape-cons : (c : ℕ) (s : GoString) → escape (c ∷ s) ≡ escaped_byte c ++ escape s
unfolding escape ℕ_discrete
escape-cons c s = elim (ℕ_discrete c b'&') [
  | yes amp ↦ rw amp refl
  | no not_amp ↦ elim (ℕ_discrete c b'<') [
    | yes less ↦ rw less refl
    | no not_less ↦ elim (ℕ_discrete c b'>') [
      | yes greater ↦ rw greater refl
      | no not_greater ↦
          rw (test_false c b'&' not_amp, test_false c b'<' not_less, test_false c b'>' not_greater)
    ]
  ]
]

escape-escaped : (s : GoString) → escape s ≡ escaped s
unfolding escaped
escape-escaped [] = unfold escape replace_all in refl
escape-escaped (c ∷ s) = escape-cons c s ∙ ground (arith, escape-escaped s)

abbrev pub NoBracket : ℕ → Type 0
NoBracket c = (c ≢ b'<') × (c ≢ b'>')

escaped_byte-NoBracket : (c : ℕ) → All NoBracket (escaped_byte c)
escaped_byte-NoBracket c = ground arith

escaped-NoBracket : (s : GoString) → All NoBracket (escaped s)
unfolding escaped
escaped-NoBracket [] = tt
escaped-NoBracket (c ∷ s) =
    All-append NoBracket (escaped_byte c) (escaped s) (escaped_byte-NoBracket c)
      (escaped-NoBracket s)

-- The three replacements one after the other escape each byte once, so that no `&` which they write is
-- escaped again, and the result has no angle bracket: no markup of a name survives in its caption.
pub escape_lem : (s : GoString) → (escape s ≡ escaped s) × All NoBracket (escape s)
escape_lem s = (escape-escaped s, rw (escape-escaped s) (escaped-NoBracket s))
