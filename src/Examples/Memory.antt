-- ===== src/Examples/Memory.antt =====
-- Redis kept as a list of keys and texts, with numbers in unary, for the tests.
use farm_exc.Prelude.{
  ◌==◌, ◌&&◌, ℕ, suc, zero, String, ◌≡◌, refl, sym, ap, ◌∙◌, inl, inr, Bool, true, false, Option,
  none, some, List, [], ◌∷◌, str_eq, eq_iff, includes, if◌then◌else◌, Bool-cases, arith,
}
use farm_exc.Redis.{Redis, IsRedis, count_of}

abbrev pub unary : ℕ → String
unary zero = "1"
unary (suc n) = String.◌∷◌ "1" (unary n)

abbrev ones : String → ℕ
ones String.[] = 0
ones (String.◌∷◌ c s) = suc (ones s)

abbrev pub before : ℕ → ℕ
before zero = zero
before (suc n) = n

abbrev pub number : String → ℕ
number s = before (ones s)

pub ones-unary : (n : ℕ) → ones (unary n) ≡ suc n
ones-unary zero = refl
ones-unary (suc n) = ap suc (ones-unary n)

pub ones-full : (n : ℕ) → str_eq (unary n) "" ≡ false
ones-full n = elim (Bool-cases (str_eq (unary n) "")) [
  | inl e ↦ absurd (ground (arith, sym (ones-unary n) ∙ ap ones ((eq_iff (unary n) "").0 e)))
  | inr e ↦ e
]

module _ {Key : Type 0} (same : Key → Key → Bool) where
  -- The latest write first; a key that was deleted has none.
  abbrev pub Texts : Type 0
  Texts = List (Key × Option String)

  abbrev lookup : Texts → Key → Option String
  lookup [] j = none
  lookup ((k, v) ∷ d) j = let rest = lookup d j in if same k j then v else rest

  abbrev deleted : Texts → List Key → Texts
  deleted d [] = d
  deleted d (k ∷ ks) = (k, none) ∷ deleted d ks

  abbrev listed_in : Texts → (Key → Bool) → List Key
  listed_in [] p = []
  listed_in ((k, v) ∷ d) p = let rest = listed_in d p in if p k then k ∷ rest else rest

  abbrev pub texts : Redis Texts Key
  texts = record {
    get = lookup;
    set = λ d k v n. (k, some v) ∷ d;
    incr = λ d k. let n = suc (count_of number (lookup d k)) in (n, (k, some (unary n)) ∷ d);
    expire = λ d k n. if n == 0 then deleted d (k ∷ []) else d;
    del = deleted;
    keys = λ d p. listed_in d p;
  }

  expired-lookup :
      (d : Texts) (k j : Key) (gone : Bool)
      → lookup (if gone then deleted d (k ∷ []) else d) j
        ≡ (if same k j && gone then none else lookup d j)
  expired-lookup d k j true = elim (Bool-cases (same k j)) [ inl e ↦ rw e refl | inr e ↦ rw e refl ]
  expired-lookup d k j false = elim (Bool-cases (same k j)) [
    | inl e ↦ rw e refl
    | inr e ↦ rw e refl
  ]

  deleted-lookup :
      (d : Texts) (ks : List Key) (j : Key)
      → lookup (deleted d ks) j ≡ (if includes same ks j then none else lookup d j)
  deleted-lookup d [] j = refl
  deleted-lookup d (k ∷ ks) j = ground (arith, deleted-lookup d ks j)

  module _ (same_refl : (k : Key) → same k k ≡ true)
      (same_equal : (a b : Key) → same a b ≡ true → a ≡ b) where
    listed-includes :
        (d : Texts) (p : Key → Bool) (j : Key) (v : String)
        → p j ≡ true
        → lookup d j ≡ some v
        → includes same (listed_in d p) j ≡ true
    listed-includes [] p j v h e = absurd (ground (arith, e))
    listed-includes ((k, o) ∷ d) p j v h e = elim (Bool-cases (same k j)) [
      | inl same ↦ rw (ap p (same_equal k j same), h, same) refl
      | inr other ↦
          let rest = listed-includes d p j v h (rw other at e) in
          elim (Bool-cases (p k)) [ inl t ↦ rw (t, other) rest | inr f ↦ rw f rest ]
    ]

    listed-only :
        (d : Texts) (p : Key → Bool) (j : Key) → includes same (listed_in d p) j ≡ true → p j ≡ true
    listed-only [] p j h = absurd (ground (arith, h))
    listed-only ((k, o) ∷ d) p j h = elim (Bool-cases (p k)) [
      | inr f ↦ listed-only d p j (rw f at h)
      | inl t ↦ elim (Bool-cases (same k j)) [
        | inl same ↦ ap p (sym (same_equal k j same)) ∙ t
        | inr other ↦ listed-only d p j (rw (t, other) at h)
      ]
    ]

    pub texts-IsRedis : IsRedis texts same number
    texts-IsRedis = record {
      set_then = λ d k j v n. refl;
      incr_answer = λ d k. refl;
      incr_then =
          λ d k. rw (same_refl k) (ap before (ones-unary (suc (count_of number (lookup d k)))));
      incr_other = λ d k j h. rw h refl;
      expire_then = λ d k j n. expired-lookup d k j (n == 0);
      del_then = deleted-lookup;
      listed = λ d p j v. listed-includes d p j v;
      listed_only = λ d p j. listed-only d p j;
    }
