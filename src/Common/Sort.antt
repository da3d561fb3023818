-- ===== src/Common/Sort.antt =====
-- `sort.Strings`: the order of Go's strings, byte by byte, and the sorted list.
use vks.Common.Tests.{◌==◌, if◌then◌else◌, ltb, ℕ_eq}
use vks.Common.Lists.{count}
use vks.Common.GoString.{GoString, string_eq}
use Prim.Native.Nat.{suc}
use mathlib.Core.Path.{◌≡◌, refl}
use mathlib.Core.Bool.{Bool, true, false}
use mathlib.Core.List.{List, [], ◌∷◌}
use native.Mathlib.Omega.{arith}

-- `s < t`
unfoldable pub less : GoString → GoString → Bool
less s [] = false
less [] (d ∷ t) = true
less (c ∷ s) (d ∷ t) = if c == d then less s t else ltb c d

insert_sorted : GoString → List GoString → List GoString
insert_sorted s [] = s ∷ []
insert_sorted s (t ∷ ts) = if less t s then t ∷ insert_sorted s ts else s ∷ t ∷ ts

unfoldable pub sort : List GoString → List GoString
unfolding insert_sorted less
sort [] = []
sort (s ∷ ss) = insert_sorted s (sort ss)

count-insert_sorted :
    (p s : GoString) (ts : List GoString)
    → count p (insert_sorted s ts) ≡ (if s == p then suc (count p ts) else count p ts)
unfolding insert_sorted
count-insert_sorted p s [] = refl
count-insert_sorted p s (t ∷ ts) = ground (arith, count-insert_sorted p s ts)

-- Sorting keeps every string as often as it was there.
pub count-sort : (p : GoString) (ss : List GoString) → count p (sort ss) ≡ count p ss
unfolding sort
count-sort p [] = refl
count-sort p (s ∷ ss) = ground (arith, count-insert_sorted p s (sort ss), count-sort p ss)
