-- ===== src/Examples/Tables.antt =====
-- A table kept as the list of its rows, for the tests.
use mathlib.Core.Path.{subst}
use farm_exc.Prelude.{
  ℕ, ◌≡◌, refl, inl, inr, Bool, true, false, not, none, some, List, [], ◌∷◌, ◌++◌, map, filter,
  find, All, length, ◌==◌, if◌then◌else◌, Bool-cases, arith,
}
use farm_exc.Repository.{Repository, IsRepository, Among}

module _ {Row : Type 0} (id : Row → ℕ) where
  abbrev pub table : Repository (List Row) Row
  table = record {
    find_one = λ d p. find p d;
    find = λ d p. filter p d;
    count = λ d p. length (filter p d);
    update = λ d p f. map (λ x. if p x then f x else x) d;
    insert = λ d x. d ++ x ∷ [];
    save = λ d x. map (λ y. if id y == id x then x else y) d;
    remove = λ d x. filter (λ y. not (id y == id x)) d;
  }

  find-found :
      (d : List Row) (p : Row → Bool) (x : Row) → find p d ≡ some x → (p x ≡ true) × Among x d
  find-found [] p x e = absurd (ground arith)
  find-found (y ∷ ys) p x e = elim (Bool-cases (p y)) [
    | inl t ↦
        let same : y ≡ x = ground (arith, rw t at e) in (subst (λ z. p z ≡ true) same t, inl same)
    | inr f ↦ let (t, m) = find-found ys p x (rw f at e) in (t, inr m)
  ]

  find-not_found : (d : List Row) (p : Row → Bool) → find p d ≡ none → All (λ x. p x ≡ false) d
  find-not_found [] p e = tt
  find-not_found (y ∷ ys) p e = elim (Bool-cases (p y)) [
    | inl t ↦ absurd (ground (arith, rw t at e))
    | inr f ↦ (f, find-not_found ys p (rw f at e))
  ]

  weaken :
      (P : Row → Type 0) (y : Row) (ys xs : List Row)
      → All (λ x. P x × Among x ys) xs
      → All (λ x. P x × Among x (y ∷ ys)) xs
  weaken P y ys [] h = tt
  weaken P y ys (x ∷ xs) ((a, m), hs) = ((a, inr m), weaken P y ys xs hs)

  filter-listed : (d : List Row) (p : Row → Bool) → All (λ x. (p x ≡ true) × Among x d) (filter p d)
  filter-listed [] p = tt
  filter-listed (y ∷ ys) p =
      let rest = weaken (λ x. p x ≡ true) y ys (filter p ys) (filter-listed ys p) in
      elim (Bool-cases (p y)) [ inl t ↦ rw t ((t, inl refl), rest) | inr f ↦ rw f rest ]

  pub table-IsRepository : IsRepository table (λ d. d) id
  table-IsRepository = record {
    found = find-found;
    not_found = find-not_found;
    listed = filter-listed;
    counted = λ d p. refl;
    updated = λ d p f. refl;
    inserted = λ d x. refl;
    saved = λ d x. refl;
    removed = λ d x. refl;
  }
