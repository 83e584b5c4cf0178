-- ===== src/Repository/Rows.antt =====
-- Lists of rows with distinct keys, counted by a test.
use mathlib.Core.Path.{subst}
use farm_exc.Prelude.{
  ℕ, zero, suc, take, drop, ◌+◌, ◌≤◌, ◌≡◌, refl, ap, ◌⊎◌, inl, inr, Bool, true, false, not, List,
  [], ◌∷◌, ◌++◌, map, filter, All, length, ◌==◌, ==_iff, if◌then◌else◌, arith, ◌≤◌, Bool-cases,
}

module _ {Row : Type 0} where
  -- The row is in the list.
  abbrev pub Among : Row → List Row → Type 0
  Among x [] = ⊥
  Among x (y ∷ ys) = (y ≡ x) ⊎ Among x ys

  pub All-Among : (P : Row → Type 0) (x : Row) (ys : List Row) → All P ys → Among x ys → P x
  All-Among P x [] h m = elim m [ ]
  All-Among P x (y ∷ ys) (h, hs) (inl e) = rw (← e) h
  All-Among P x (y ∷ ys) (h, hs) (inr m) = All-Among P x ys hs m

  -- 1 where the test holds.
  abbrev pub tally : (Row → Bool) → Row → ℕ
  tally q x = if q x then 1 else 0

  abbrev pub count : (Row → Bool) → List Row → ℕ
  count q xs = length (filter q xs)

  pub count-cons :
      (q : Row → Bool) (x : Row) (xs : List Row) → count q (x ∷ xs) ≡ tally q x + count q xs
  count-cons q x xs = ground arith

  pub count-append :
      (q : Row → Bool) (xs ys : List Row) → count q (xs ++ ys) ≡ count q xs + count q ys
  count-append q [] ys = omega arith
  count-append q (x ∷ xs) ys = ground (arith, count-append q xs ys)

  -- A change of the rows that keeps the test of each.
  pub count-map :
      (q : Row → Bool) (f : Row → Row) (xs : List Row)
      → ((x : Row) → q (f x) ≡ q x)
      → count q (map f xs) ≡ count q xs
  count-map q f [] h = refl
  count-map q f (x ∷ xs) h = ground (arith, h x, count-map q f xs h)

  pub count-map_none :
      (q : Row → Bool) (f : Row → Row) (xs : List Row)
      → ((x : Row) → q (f x) ≡ false)
      → count q (map f xs) ≡ 0
  count-map_none q f [] h = refl
  count-map_none q f (x ∷ xs) h = ground (arith, h x, count-map_none q f xs h)

  pub count_none : (q : Row → Bool) (xs : List Row) → All (λ x. q x ≡ false) xs → count q xs ≡ 0
  count_none q [] h = refl
  count_none q (x ∷ xs) h = ground (arith, count_none q xs)

  pub count_pos :
      (q : Row → Bool) (x : Row) (xs : List Row) → Among x xs → q x ≡ true → 1 ≤ count q xs
  count_pos q x [] m h = elim m [ ]
  count_pos q x (y ∷ ys) (inl e) h = ground arith
  count_pos q x (y ∷ ys) (inr m) h = ground (arith, count_pos q x ys m h)

  -- A test that is harder to meet counts less.
  pub count_mono :
      (p q : Row → Bool) (xs : List Row)
      → ((x : Row) → p x ≡ true → q x ≡ true)
      → count p xs ≤ count q xs
  count_mono p q [] h = omega arith
  count_mono p q (x ∷ xs) h = ground (arith, h x, count_mono p q xs h)

  pub All-filter :
      (P : Row → Type 0) (q : Row → Bool) (xs : List Row) → All P xs → All P (filter q xs)
  All-filter P q [] h = tt
  All-filter P q (x ∷ xs) h = elim (Bool-cases (q x)) [
    | inl e ↦ rw e (h.0, All-filter P q xs h.1)
    | inr e ↦ rw e (All-filter P q xs h.1)
  ]

  module _ (id : Row → ℕ) where
    -- No two rows have one key.
    abbrev pub AreDistinct : List Row → Type 0
    AreDistinct [] = Unit
    AreDistinct (x ∷ xs) = All (λ y. (id y == id x) ≡ false) xs × AreDistinct xs

    pub filter-AreDistinct :
        (q : Row → Bool) (xs : List Row) → AreDistinct xs → AreDistinct (filter q xs)
    filter-AreDistinct q [] d = tt
    filter-AreDistinct q (x ∷ xs) (a, d) = elim (Bool-cases (q x)) [
      | inl e ↦ rw e (All-filter _ q xs a, filter-AreDistinct q xs d)
      | inr e ↦ rw e (filter-AreDistinct q xs d)
    ]

    filter_absent :
        (q : Row → Bool) (x : Row) (ys : List Row)
        → All (λ y. (id y == id x) ≡ false) ys
        → count q (filter (λ y. not (id y == id x)) ys) ≡ count q ys
    filter_absent q x [] h = refl
    filter_absent q x (y ∷ ys) h = ground (arith, filter_absent q x ys)

    map_absent :
        (q : Row → Bool) (x z : Row) (ys : List Row)
        → All (λ y. (id y == id x) ≡ false) ys
        → count q (map (λ y. if id y == id x then z else y) ys) ≡ count q ys
    map_absent q x z [] h = refl
    map_absent q x z (y ∷ ys) h = ground (arith, map_absent q x z ys)

    distinct_from :
        (x y : Row) (ys : List Row)
        → All (λ r. (id r == id y) ≡ false) ys
        → Among x ys
        → (id y == id x) ≡ false
    distinct_from x y ys h m =
        let e = All-Among (λ r. (id r == id y) ≡ false) x ys h m in
        ground (arith, ==_iff (id x) (id y))

    -- Taking away a row takes it out of the count.
    pub count_removed :
        (q : Row → Bool) (x : Row) (ys : List Row)
        → AreDistinct ys
        → Among x ys
        → tally q x + count q (filter (λ y. not (id y == id x)) ys) ≡ count q ys
    count_removed q x [] d m = elim m [ ]
    count_removed q x (y ∷ ys) (a, d) (inl e) =
        let gone = subst (λ z. All (λ r. (id r == id z) ≡ false) ys) e a in
        ground
          (arith, (==_iff (id y) (id x)).1 (ap id e), ap (tally q) e, filter_absent q x ys gone)
    count_removed q x (y ∷ ys) (a, d) (inr m) =
        ground (arith, distinct_from x y ys a m, count_removed q x ys d m)

    -- Putting a row in another's place exchanges the two in the count.
    pub count_replaced :
        (q : Row → Bool) (x z : Row) (ys : List Row)
        → AreDistinct ys
        → Among x ys
        → tally q x + count q (map (λ y. if id y == id x then z else y) ys) ≡ tally q z + count q ys
    count_replaced q x z [] d m = elim m [ ]
    count_replaced q x z (y ∷ ys) (a, d) (inl e) =
        let gone = subst (λ z. All (λ r. (id r == id z) ≡ false) ys) e a in
        ground (arith, (==_iff (id y) (id x)).1 (ap id e), ap (tally q) e, map_absent q x z ys gone)
    count_replaced q x z (y ∷ ys) (a, d) (inr m) =
        ground (arith, distinct_from x y ys a m, count_replaced q x z ys d m)

  pub All-map :
      (P : Row → Type 0) (f : Row → Row) (xs : List Row)
      → ((x : Row) → P x → P (f x))
      → All P xs
      → All P (map f xs)
  All-map P f [] step h = tt
  All-map P f (x ∷ xs) step (h, hs) = (step x h, All-map P f xs step hs)

  -- The rows of a table after one was written over.
  pub All-replaced :
      (P : Row → Type 0) (q : Row → Bool) (z : Row) (xs : List Row)
      → P z
      → All P xs
      → All P (map (λ y. if q y then z else y) xs)
  All-replaced P q z xs h = All-map P (λ y. if q y then z else y) xs (λ y hy. ground arith)

  pub Among-replaced :
      (q : Row → Bool) (z x : Row) (xs : List Row)
      → Among x (map (λ y. if q y then z else y) xs)
      → (z ≡ x) ⊎ (Among x xs × (q x ≡ false))
  Among-replaced q z x [] m = elim m [ ]
  Among-replaced q z x (y ∷ ys) (inl e) = elim (Bool-cases (q y)) [
    | inl same ↦ inl (rw same at e)
    | inr other ↦ let e' : y ≡ x = rw other at e in inr (inl e', subst (λ r. q r ≡ false) e' other)
  ]
  Among-replaced q z x (y ∷ ys) (inr m) = elim (Among-replaced q z x ys m) [
    | inl e ↦ inl e
    | inr (here, other) ↦ inr (inr here, other)
  ]

  pub Among-added : (z x : Row) (xs : List Row) → Among x (xs ++ z ∷ []) → (z ≡ x) ⊎ Among x xs
  Among-added z x [] (inl e) = inl e
  Among-added z x [] (inr m) = elim m [ ]
  Among-added z x (y ∷ ys) (inl e) = inr (inl e)
  Among-added z x (y ∷ ys) (inr m) = elim (Among-added z x ys m) [
    | inl e ↦ inl e
    | inr here ↦ inr (inr here)
  ]

  pub All-append : (P : Row → Type 0) (xs ys : List Row) → All P xs → All P ys → All P (xs ++ ys)
  All-append P [] ys h k = k
  All-append P (x ∷ xs) ys (h, hs) k = (h, All-append P xs ys hs k)

  pub All-take : (P : Row → Type 0) (n : ℕ) (xs : List Row) → All P xs → All P (take n xs)
  All-take P zero xs h = tt
  All-take P (suc n) [] h = tt
  All-take P (suc n) (x ∷ xs) (h, hs) = (h, All-take P n xs hs)

  pub All-drop : (P : Row → Type 0) (n : ℕ) (xs : List Row) → All P xs → All P (drop n xs)
  All-drop P zero xs h = h
  All-drop P (suc n) [] h = tt
  All-drop P (suc n) (x ∷ xs) (h, hs) = All-drop P n xs hs
