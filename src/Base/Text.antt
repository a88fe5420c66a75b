-- ===== src/Base/Text.antt =====
-- Python's str: equality, and the order by code points.
use Prim.Native.Nat.{ℕ, Ordering, compare as compare_ℕ}
use Prim.Native.Char.{code}
use Prim.Native.String.{String, ◌++◌, compare, then as and_then}
use Prim.Native.String.compare
use text.Mathlib.Text.{◌==◌}
use text.Mathlib.TextEquality.{eq_iff, path_by_compare}
use mathlib.Core.Path.{◌≡◌, refl, ap}
use mathlib.Core.Bool.{Bool, true, false}
use native.Mathlib.Omega.{arith}
use grackle.Base.Tests.{ltb, if◌then◌else◌, dec_of_test}
use grackle.Base.Dict.{Keyed}

unfoldable pub String_discrete : Discrete String
unfolding dec_of_test
String_discrete s t = dec_of_test (s == t) (eq_iff s t)

instance abbrev pub string_key : Keyed String
string_key = record { same = String_discrete }

-- `s == t`
abbrev pub same_text : String → String → Bool
same_text s t = s == t

abbrev not_gt : Ordering → Bool
not_gt Ordering.gt = false
not_gt _ = true

-- `s + t`
abbrev pub append : String → String → String
append s t = s ++ t

-- `s <= t`
unfoldable pub text_le : String → String → Bool
text_le s t = not_gt (compare s t)

-- One step of the comparison, character by character.
module _ (m n k : ℕ) where
  then_total :
      (o p : Ordering)
      → (not_gt o ≡ false → not_gt p ≡ true)
      → not_gt (and_then (compare_ℕ m n) o) ≡ false
      → not_gt (and_then (compare_ℕ n m) p) ≡ true
  then_total o p h e = ground arith

  then_trans :
      (o p q : Ordering)
      → (not_gt o ≡ true → not_gt p ≡ true → not_gt q ≡ true)
      → not_gt (and_then (compare_ℕ m n) o) ≡ true
      → not_gt (and_then (compare_ℕ n k) p) ≡ true
      → not_gt (and_then (compare_ℕ m k) q) ≡ true
  then_trans o p q h a b = ground arith

  then_antisym :
      (o p : Ordering)
      → (not_gt o ≡ true → not_gt p ≡ true → o ≡ Ordering.eq)
      → not_gt (and_then (compare_ℕ m n) o) ≡ true
      → not_gt (and_then (compare_ℕ n m) p) ≡ true
      → and_then (compare_ℕ m n) o ≡ Ordering.eq
  then_antisym o p h a b = ground arith

text_total : (s t : String) → not_gt (compare s t) ≡ false → not_gt (compare t s) ≡ true
text_total String.[] String.[] h = cc
text_total String.[] (String.◌∷◌ d t) h = cc (ap not_gt (compare.nil-cons d t))
text_total (String.◌∷◌ c s) String.[] h = rw (compare.nil-cons c s) refl
text_total (String.◌∷◌ c s) (String.◌∷◌ d t) h = rw (compare.cons-cons d c t s) (
    then_total (code c) (code d) 0 (compare s t) (compare t s) (text_total s t)
      (rw (compare.cons-cons c d s t) at h))

text_trans :
    (s t u : String)
    → not_gt (compare s t) ≡ true
    → not_gt (compare t u) ≡ true
    → not_gt (compare s u) ≡ true
text_trans String.[] t String.[] h k = refl
text_trans String.[] t (String.◌∷◌ e u) h k = rw (compare.nil-cons e u) refl
text_trans (String.◌∷◌ c s) String.[] u h k = cc (ap not_gt (compare.cons-nil c s))
text_trans (String.◌∷◌ c s) (String.◌∷◌ d t) String.[] h k = cc (ap not_gt (compare.cons-nil d t))
text_trans (String.◌∷◌ c s) (String.◌∷◌ d t) (String.◌∷◌ e u) h k = rw (compare.cons-cons c e s u) (
    then_trans (code c) (code d) (code e) (compare s t) (compare t u) (compare s u)
      (text_trans s t u) (rw (compare.cons-cons c d s t) at h)
      (rw (compare.cons-cons d e t u) at k))

text_antisym :
    (s t : String)
    → not_gt (compare s t) ≡ true
    → not_gt (compare t s) ≡ true
    → compare s t ≡ Ordering.eq
text_antisym String.[] String.[] h k = refl
text_antisym String.[] (String.◌∷◌ d t) h k = cc (ap not_gt (compare.cons-nil d t))
text_antisym (String.◌∷◌ c s) String.[] h k = cc (ap not_gt (compare.cons-nil c s))
text_antisym (String.◌∷◌ c s) (String.◌∷◌ d t) h k = rw (compare.cons-cons c d s t) (
    then_antisym (code c) (code d) 0 (compare s t) (compare t s) (text_antisym s t)
      (rw (compare.cons-cons c d s t) at h) (rw (compare.cons-cons d c t s) at k))

pub text_le_total : (s t : String) → text_le s t ≡ false → text_le t s ≡ true
unfolding text_le
text_le_total s t h = text_total s t h

pub text_le_trans : (s t u : String) → text_le s t ≡ true → text_le t u ≡ true → text_le s u ≡ true
unfolding text_le
text_le_trans s t u h k = text_trans s t u h k

pub text_le_antisym : (s t : String) → text_le s t ≡ true → text_le t s ≡ true → s ≡ t
unfolding text_le
text_le_antisym s t h k = path_by_compare s t (text_antisym s t h k)

-- The order by a number and then by a text.
abbrev pub rank_then_text : ℕ → ℕ → String → String → Bool
rank_then_text m n s t = if ltb m n then true else if ltb n m then false else text_le s t

pub rank_then_text_total :
    (m n : ℕ) (s t : String) → rank_then_text m n s t ≡ false → rank_then_text n m t s ≡ true
rank_then_text_total m n s t h = ground (arith, text_le_total s t)

pub rank_then_text_trans :
    (m n k : ℕ) (s t u : String)
    → rank_then_text m n s t ≡ true
    → rank_then_text n k t u ≡ true
    → rank_then_text m k s u ≡ true
rank_then_text_trans m n k s t u h l = ground (arith, text_le_trans s t u)
