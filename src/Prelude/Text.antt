-- ===== src/Prelude/Text.antt =====
-- Go's `<` on strings, which compares bytes. On UTF-8 that is the order of the code points, which
-- the library's `compare` decides.
use Prim.Native.Nat.{ℕ, Ordering, compare as compare_ℕ}
use Prim.Native.Char.{code}
use Prim.Native.String.compare
use Prim.Native.String.{String, [], ◌∷◌, compare, then}
use mathlib.Core.Path.{◌≡◌, refl, ap₂}
use mathlib.Core.Bool.{Bool, true, false}
use native.Mathlib.Omega.{arith}
use text.Mathlib.Text.{is_lt}
use text.Mathlib.TextEquality.{codes_equal}
use text.Mathlib.TextPositions.{compare_refl}

abbrev pub str_lt : String → String → Bool
str_lt s t = is_lt (compare s t)

-- How the answer for two texts follows from the answers for their heads and their tails.
then_trans :
    (a b c : ℕ) (o p q : Ordering)
    → (is_lt o ≡ false → is_lt p ≡ false → is_lt q ≡ false)
    → is_lt (then (compare_ℕ a b) o) ≡ false
    → is_lt (then (compare_ℕ b c) p) ≡ false
    → is_lt (then (compare_ℕ a c) q) ≡ false
then_trans a b c o p q h = ground arith

-- "Not below" is transitive.
pub str_lt_trans : (s t u : String) → str_lt s t ≡ false → str_lt t u ≡ false → str_lt s u ≡ false
str_lt_trans [] [] u h k = k
str_lt_trans [] (d ∷ t) u h k = cc (compare.nil-cons d t, h)
str_lt_trans (c ∷ s) t [] h k = rw compare.cons-nil
str_lt_trans (c ∷ s) [] (e ∷ u) h k = cc (compare.nil-cons e u, k)
str_lt_trans (c ∷ s) (d ∷ t) (e ∷ u) h k = rw compare.cons-cons (
    then_trans (code c) (code d) (code e) _ _ _ (str_lt_trans s t u) (rw compare.cons-cons at h)
      (rw compare.cons-cons at k))

then_antisymm :
    (a b : ℕ) (o p : Ordering)
    → is_lt (then (compare_ℕ a b) o) ≡ false
    → is_lt (then (compare_ℕ b a) p) ≡ false
    → (compare_ℕ a b ≡ Ordering.eq) × (is_lt o ≡ false) × (is_lt p ≡ false)
then_antisymm a b o p h k = ground arith

-- Two texts that are neither below the other are equal.
pub str_lt_antisymm : (s t : String) → str_lt s t ≡ false → str_lt t s ≡ false → s ≡ t
str_lt_antisymm [] [] h k = refl
str_lt_antisymm [] (d ∷ t) h k = cc (compare.nil-cons d t, h)
str_lt_antisymm (c ∷ s) [] h k = cc (compare.nil-cons c s, k)
str_lt_antisymm (c ∷ s) (d ∷ t) h k =
    let r =
      then_antisymm (code c) (code d) (compare s t) (compare t s) (rw compare.cons-cons at h)
        (rw compare.cons-cons at k) in
    ap₂ ◌∷◌ (codes_equal c d r.0) (str_lt_antisymm s t r.1 r.2)

pub str_lt_irrefl : (s : String) → str_lt s s ≡ false
str_lt_irrefl s = rw compare_refl

then_asymm :
    (a b : ℕ) (o p : Ordering)
    → (is_lt o ≡ true → is_lt p ≡ false)
    → is_lt (then (compare_ℕ a b) o) ≡ true
    → is_lt (then (compare_ℕ b a) p) ≡ false
then_asymm a b o p h k = ground arith

-- What is below is not above.
pub str_lt_asymm : (s t : String) → str_lt s t ≡ true → str_lt t s ≡ false
str_lt_asymm [] [] h = str_lt_irrefl []
str_lt_asymm [] (d ∷ t) h = rw compare.cons-nil
str_lt_asymm (c ∷ s) [] h = cc (compare.cons-nil c s, h)
str_lt_asymm (c ∷ s) (d ∷ t) h =
    rw compare.cons-cons
      (then_asymm (code c) (code d) _ _ (str_lt_asymm s t) (rw compare.cons-cons at h))
