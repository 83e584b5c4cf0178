-- ===== src/Workflow/Idempotency/Order.antt =====
-- The order in which the keys of an object are sorted.
use Prim.Native.Nat.{Ordering, compare as compare_ℕ}
use Prim.Native.Char.{code}
use Prim.Native.String.compare
use Prim.Native.String.{compare, then}
use farm_exc.Prelude.{ℕ, String, ◌≡◌, refl, Bool, true, false, arith}

abbrev pub flip : Ordering → Ordering
flip Ordering.lt = Ordering.gt
flip Ordering.eq = Ordering.eq
flip Ordering.gt = Ordering.lt

abbrev pub is_gt : Ordering → Bool
is_gt Ordering.gt = true
is_gt _ = false

flip-then : (m n : ℕ) (o : Ordering) → then (compare_ℕ n m) (flip o) ≡ flip (then (compare_ℕ m n) o)
flip-then m n o = ground arith

pub compare-flip : (s t : String) → compare t s ≡ flip (compare s t)
compare-flip String.[] String.[] = refl
compare-flip String.[] (String.◌∷◌ d t) = rw (compare.nil-cons d t, compare.cons-nil d t)
compare-flip (String.◌∷◌ c s) String.[] = rw (compare.nil-cons c s, compare.cons-nil c s)
compare-flip (String.◌∷◌ c s) (String.◌∷◌ d t) =
    rw (compare.cons-cons d c t s, compare.cons-cons c d s t, compare-flip s t)
      (flip-then (code c) (code d) (compare s t))

then_trans :
    (a b c : ℕ) (o p q : Ordering)
    → (is_gt o ≡ true → is_gt p ≡ false → is_gt q ≡ true)
    → is_gt (then (compare_ℕ a c) o) ≡ true
    → is_gt (then (compare_ℕ a b) p) ≡ false
    → is_gt (then (compare_ℕ b c) q) ≡ true
then_trans a b c o p q ih h n = ground arith

pub compare_trans :
    (x j k : String)
    → is_gt (compare x k) ≡ true
    → is_gt (compare x j) ≡ false
    → is_gt (compare j k) ≡ true
compare_trans String.[] j String.[] h n = ground arith
compare_trans String.[] j (String.◌∷◌ e u) h n = ground (arith, compare.nil-cons e u)
compare_trans (String.◌∷◌ c s) String.[] k h n = ground (arith, compare.cons-nil c s)
compare_trans (String.◌∷◌ c s) (String.◌∷◌ d t) String.[] h n = rw (compare.cons-nil d t)
compare_trans (String.◌∷◌ c s) (String.◌∷◌ d t) (String.◌∷◌ e u) h n =
    rw (compare.cons-cons d e t u) (
      then_trans (code c) (code d) (code e) (compare s u) (compare s t) (compare t u)
        (compare_trans s t u) (rw (← compare.cons-cons c e s u) h)
        (rw (← compare.cons-cons c d s t) n))
