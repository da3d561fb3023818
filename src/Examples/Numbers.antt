-- ===== src/Examples/Numbers.antt =====
-- Enough arithmetic to lay out a room of up to three participants: integers, with roots and quotients
-- that are rounded up.
use vks.Common.{ℕ, ◌*◌, ◌≡◌, refl, true, false, arith, if◌then◌else◌, leb}
use vks.Common.Int.{ℤ, pos, negsuc, ltb_ℤ}
use vks.Common.Float.{Float64, IsStrictOrder}
use vks.Worker.Layout.Grid.{HasExactCeilings}

pub data Num : Type 0 where
  exact : ℤ → Num
  root : ℕ → Num
  ratio : ℕ → ℕ → Num

abbrev pub whole : Num → ℤ
whole (exact z) = z
whole (root _) = pos 0
whole (ratio _ _) = pos 0

abbrev quotient : Num → Num → Num
quotient (exact (pos a)) (exact (pos b)) = ratio a b
quotient x _ = x

abbrev square_root : Num → Num
square_root (exact (pos n)) = root n
square_root x = x

abbrev rounded_up : Num → Num
rounded_up (exact z) = exact z
rounded_up (root n) = exact (pos (if leb n 1 then 1 else 2))
rounded_up (ratio a b) = exact (pos (if leb a b then 1 else if leb a (2 * b) then 2 else 3))

abbrev pub num : Float64 Num
num = record {
  of_int = exact;
  to_int = whole;
  decimal = λ m k. exact m;
  add = λ x y. x;
  sub = λ x y. x;
  mul = λ x y. x;
  div = quotient;
  sqrt = square_root;
  ceil = rounded_up;
  lt = λ x y. ltb_ℤ (whole x) (whole y);
  lowest = exact (negsuc 1_000_000);
}

ltb_ℤ-irrefl : (x : ℤ) → ltb_ℤ x x ≡ false
ltb_ℤ-irrefl (pos n) = ground arith
ltb_ℤ-irrefl (negsuc n) = ground arith

ltb_ℤ-trans : (x y z : ℤ) → ltb_ℤ x y ≡ true → ltb_ℤ y z ≡ true → ltb_ℤ x z ≡ true
ltb_ℤ-trans (pos a) (pos b) (pos c) h k = ground arith
ltb_ℤ-trans (pos a) (pos b) (negsuc c) h k = ground arith
ltb_ℤ-trans (pos a) (negsuc b) z h k = ground arith
ltb_ℤ-trans (negsuc a) (pos b) (pos c) h k = ground arith
ltb_ℤ-trans (negsuc a) (pos b) (negsuc c) h k = ground arith
ltb_ℤ-trans (negsuc a) (negsuc b) (pos c) h k = ground arith
ltb_ℤ-trans (negsuc a) (negsuc b) (negsuc c) h k = ground arith

pub num-IsStrictOrder : IsStrictOrder num
num-IsStrictOrder = record {
  lt_irrefl = λ x. ltb_ℤ-irrefl (whole x);
  lt_trans = λ x y z. ltb_ℤ-trans (whole x) (whole y) (whole z);
}

pub num-HasExactCeilings : HasExactCeilings num 3
num-HasExactCeilings = record {
  ceil_sqrt = λ n h k. (if leb n 1 then 1 else 2, refl, ground arith, ground arith);
  ceil_div = λ a b h k l.
      (if leb a b then 1 else if leb a (2 * b) then 2 else 3, refl, ground arith, ground arith);
}
