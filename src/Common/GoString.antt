-- ===== src/Common/GoString.antt =====
-- Go's strings: sequences of bytes, with the calls of `strings` and `strconv` that the program makes.
use Prim.Native.Nat.{ℕ, zero, suc, ◌+◌, ◌-◌, ◌*◌, ◌/◌, ◌%◌, ◌^◌}
use Prim.Native.Char.{code}
use Prim.Native.String.{String}
use mathlib.Core.Path.{◌≡◌, refl}
use mathlib.Core.Bool.{Bool, true, false, ◌&&◌}
use mathlib.Core.Option
use mathlib.Core.Option.{Option, none, some}
use vks.Common.Int.{ℤ, pos, negsuc}
use mathlib.Core.Logic.{◌↔◌, ◌≢◌}
use native.Mathlib.Omega.{arith}
use mathlib.Core.List.{List, [], ◌∷◌, ◌++◌}
use native.Mathlib.Decide.{ℕ_discrete}
use vks.Common.Tests.{Eq, ◌==◌, ℕ_eq, if◌then◌else◌, leb, ltb}

abbrev pub GoString : Type 0
GoString = List ℕ

-- The bytes of a literal of the source (all are ASCII).
abbrev pub lit : String → GoString
lit String.[] = []
lit (String.◌∷◌ c s) = code c ∷ lit s

unfoldable pub GoString-discrete : Discrete GoString
GoString-discrete = hlevel ℕ_discrete

instance abbrev pub string_eq : Eq GoString
string_eq = record { dec = GoString-discrete }

-- `s == ""`
abbrev pub is_empty : GoString → Bool
is_empty [] = true
is_empty (c ∷ s) = false

pub is_empty_iff : (s : GoString) → (is_empty s ≡ true) ↔ (s ≡ [])
is_empty_iff [] = (λ h. refl, λ h. refl)
is_empty_iff (c ∷ s) = (λ h. cc, λ h. cc)

pub ne_of_nonempty : (s : GoString) → is_empty s ≡ false → s ≢ []
ne_of_nonempty s h e = ground (arith, (is_empty_iff s).1 e)

-- `strings.HasPrefix(s, prefix)` together with the rest of `s` behind it.
unfoldable pub strip_prefix : GoString → GoString → Option GoString
strip_prefix [] s = some s
strip_prefix (c ∷ p) [] = none
strip_prefix (c ∷ p) (d ∷ s) = if c == d then strip_prefix p s else none

abbrev is_digit : ℕ → Bool
is_digit c = leb b'0' c && leb c b'9'

-- The number that decimal digits spell behind `n`.
digits_value : GoString → ℕ → Option ℕ
digits_value [] n = some n
digits_value (c ∷ s) n =
    let rest = digits_value s (n * 10 + (c - b'0')) in if is_digit c then rest else none

-- One or more digits that spell at most `top`.
bounded_value : ℕ → GoString → Option ℕ
bounded_value top [] = none
bounded_value top (c ∷ s) = elim (digits_value (c ∷ s) 0) [
  | none ↦ none
  | some n ↦ if leb n top then some n else none
]

-- `n` as an integer with its sign turned
abbrev pub negated : ℕ → ℤ
negated zero = pos 0
negated (suc n) = negsuc n

-- `strconv.Atoi` on a 64-bit machine; `none` is the error.
unfoldable pub atoi : GoString → Option ℤ
unfolding bounded_value digits_value
atoi [] = none
atoi (c ∷ s) =
    if c == b'-'
    then Option.map negated (bounded_value (2 ^ 63) s)
    else if c == b'+'
    then Option.map pos (bounded_value (2 ^ 63 - 1) s)
    else Option.map pos (bounded_value (2 ^ 63 - 1) (c ∷ s))

-- The decimal digits of `n` before `out`, in at most `fuel` rounds; `suc n` rounds are enough.
unfoldable pub itoa_from : ℕ → ℕ → GoString → GoString
itoa_from zero n out = out
itoa_from (suc fuel) n out =
    let digit = b'0' + n % 10 in
    let rest = itoa_from fuel (n / 10) (digit ∷ out) in if ltb n 10 then digit ∷ out else rest

-- `fmt.Sprintf("%d", n)`
unfoldable pub itoa : ℤ → GoString
unfolding itoa_from
itoa (pos n) = itoa_from (suc n) n []
itoa (negsuc n) = b'-' ∷ itoa_from (suc (suc n)) (suc n) []

-- `strings.ReplaceAll(s, c, t)` for a text of one byte.
unfoldable pub replace_all : ℕ → GoString → GoString → GoString
replace_all c t [] = []
replace_all c t (d ∷ s) = if d == c then t ++ replace_all c t s else d ∷ replace_all c t s
