-- ===== src/Common/Decimal.antt =====
-- "%d" of fmt reads back what "%d" prints.
use vks.Common.{ℕ, zero, suc, ◌≡◌, ◌<◌, ◌+◌, ◌/◌, ◌%◌, ◌^◌, [], ◌∷◌, some, arith}
use vks.Common.GoString.{GoString, itoa_from, itoa}
use vks.Common.Int.{ℤ, pos, negsuc}
use vks.Common.Scan.{scan_digits, scan_int, scan_digits_at_front}

scan-itoa_from :
    (fuel n : ℕ) (out : GoString)
    → n < fuel
    → scan_digits_at_front (itoa_from fuel n out) ≡ some (scan_digits out n)
unfolding itoa_from scan_digits
scan-itoa_from zero n out enough = ground arith
scan-itoa_from (suc fuel) n out enough =
    ground
      (arith, λ (more : n / 10 < fuel). scan-itoa_from fuel (n / 10) ((b'0' + n % 10) ∷ out) more)

-- Where digits stand in front, a scan reads them.
scan_int-digits :
    (s : GoString) (n : ℕ)
    → scan_digits_at_front s ≡ some n
    → n < 2 ^ 63
    → scan_int s ≡ some (pos n)
unfolding scan_int
scan_int-digits [] n front small = ground arith
scan_int-digits (c ∷ s) n front small = ground arith

-- The numbers of a 64-bit int
abbrev pub Fits : ℤ → Type 0
Fits (pos n) = n < 2 ^ 63
Fits (negsuc n) = n < 2 ^ 63

pub scan_int-itoa : (i : ℤ) → Fits i → scan_int (itoa i) ≡ some i
unfolding scan_int itoa scan_digits
scan_int-itoa (pos n) small =
    scan_int-digits (itoa_from (suc n) n []) n (scan-itoa_from (suc n) n [] (omega arith)) small
scan_int-itoa (negsuc n) small =
    ground (arith, scan-itoa_from (suc (suc n)) (suc n) [] (omega arith))
