-- ===== src/Common/Scan.antt =====
-- `fmt.Sscanf` with "%d".
use Prim.Native.Nat.{ℕ, ◌+◌, ◌-◌, ◌*◌, ◌^◌}
use mathlib.Core.Bool.{Bool, ◌&&◌, ◌||◌}
use mathlib.Core.Option
use mathlib.Core.Option.{Option, none, some}
use mathlib.Core.List.{[], ◌∷◌}
use vks.Common.Int.{ℤ, pos}
use vks.Common.GoString.{GoString, negated}
use vks.Common.Tests.{◌==◌, ℕ_eq, if◌then◌else◌, leb}

-- The digits at the front of a string as a number behind `n`.
unfoldable pub scan_digits : GoString → ℕ → ℕ
scan_digits [] n = n
scan_digits (c ∷ s) n =
    let rest = scan_digits s (n * 10 + (c - b'0')) in if leb b'0' c && leb c b'9' then rest else n

-- strconv.ParseInt's bound on what was scanned
abbrev within : ℕ → Option ℕ → Option ℕ
within top none = none
within top (some n) = if leb n top then some n else none

abbrev pub scan_digits_at_front : GoString → Option ℕ
scan_digits_at_front [] = none
scan_digits_at_front (c ∷ s) =
    if leb b'0' c && leb c b'9' then some (scan_digits (c ∷ s) 0) else none

-- The ASCII blanks that a scan skips; a line end is none of them.
abbrev is_blank : ℕ → Bool
is_blank c = c == b' ' || c == 9 || leb 11 c && leb c 13

-- `fmt.Sscanf(s, "%d", &i)`: blanks, a sign and digits; what follows the digits is left unread, and no
-- digit or a number of more than 64 bits is an error.
unfoldable pub scan_int : GoString → Option ℤ
unfolding scan_digits
scan_int [] = none
scan_int (c ∷ s) =
    let rest = scan_int s in
    if is_blank c
    then rest
    else if c == b'-'
    then Option.map negated (within (2 ^ 63) (scan_digits_at_front s))
    else if c == b'+'
    then Option.map pos (within (2 ^ 63 - 1) (scan_digits_at_front s))
    else Option.map pos (within (2 ^ 63 - 1) (scan_digits_at_front (c ∷ s)))
