-- ===== src/Voice/Llm/Cache/Entries.antt =====
-- The cache as a table of answers by model and hash, which forgets the counts and the times.
use mathlib.Core.Path.{fun_ext}
use farm_exc.Prelude.{
  ℕ, String, ◌≡◌, refl, ap, ◌∙◌, inl, inr, Bool, true, false, Option, none, some, List, [], ◌∷◌,
  str_eq, ◌&&◌, ◌||◌, ◌++◌, map, if◌then◌else◌, includes, List-cases, Option-cases, Bool-cases,
  arith,
}
use farm_exc.Voice.Llm.{
  LlmKey, monthly, monthly_limit, session, rpm, entry, stats, hits, created, entry_model, entry_ttl,
  total_hits, total_entries, Platform, IsPlatform, same_key,
}
use farm_exc.Voice.Llm.Cache.{
  get, set, generate_cache_key, generate_stats_key, keys_of, invalidate, invalidate_all,
  is_cache_key, is_entry_of,
}

-- What an empty cache, `set` and `invalidate` do to such a table.
abbrev pub Answers : Type 0
Answers = String → String → Option String

abbrev pub full : Option String → Option String
full none = none
full (some v) = if str_eq v "" then none else some v

abbrev pub put_answer : String → String → String → Answers → Answers
put_answer model hash response t m h =
    if str_eq model m && str_eq hash h then full (some response) else t m h

abbrev pub drop_answer : String → String → Answers → Answers
drop_answer model hash t m h = if str_eq model m && str_eq hash h then none else t m h

full_if :
    (b : Bool) (o : Option String) → full (if b then none else o) ≡ (if b then none else full o)
full_if true o = refl
full_if false o = refl

-- Without a model, or with an empty one, of every model.
abbrev pub drop_answers : Option String → String → Answers → Answers
drop_answers none hash t m h = if str_eq h hash then none else t m h
drop_answers (some model) hash t m h =
    if str_eq model ""
    then (if str_eq h hash then none else t m h)
    else drop_answer model hash t m h

includes_append :
    (xs ys : List LlmKey) (j : LlmKey)
    → includes same_key (xs ++ ys) j ≡ (includes same_key xs j || includes same_key ys j)
includes_append [] ys j = refl
includes_append (x ∷ xs) ys j = ground (arith, includes_append xs ys j)

stats_key_differs :
    (k : LlmKey) (m h : String) → same_key (generate_stats_key k) (entry m h) ≡ false
stats_key_differs (monthly u n) m h = refl
stats_key_differs (monthly_limit u) m h = refl
stats_key_differs (session s) m h = refl
stats_key_differs (rpm u n) m h = refl
stats_key_differs (entry m' h') m h = refl
stats_key_differs (stats m' h') m h = refl
stats_key_differs (hits m' h') m h = refl
stats_key_differs (created m' h') m h = refl
stats_key_differs (entry_model m' h') m h = refl
stats_key_differs (entry_ttl m' h') m h = refl
stats_key_differs total_hits m h = refl
stats_key_differs total_entries m h = refl

-- The stats keys are not the key of an entry.
stats_keys_differ :
    (ks : List LlmKey) (m h : String)
    → includes same_key (map generate_stats_key ks) (entry m h) ≡ false
stats_keys_differ [] m h = refl
stats_keys_differ (k ∷ ks) m h = rw (stats_key_differs k m h) (stats_keys_differ ks m h)

-- The calls of the cache.
pub data CacheCall : Type 0 where
  asked : String → String → CacheCall
  stored : ℕ → String → String → String → Option ℕ → CacheCall
  -- With a model, or of all models.
  dropped : String → Option String → CacheCall
  dropped_all : CacheCall

module _ {Db : Type 0} (p : Platform Db) where
  -- The table that a state of Redis stands for.
  abbrev pub answers : Db → Answers
  answers d m h = full (p.redis.get d (entry m h))

  abbrev pub hash_of : String → String
  hash_of prompt = p.sha256 (p.normalised prompt)

  -- The calls, by the code and by the table.
  abbrev pub run : CacheCall → Db → Option String × Db
  run (asked prompt model) d = get p prompt model d
  run (stored now prompt response model ttl) d = (none, set p now prompt response model ttl d)
  run (dropped prompt model) d = (none, (invalidate p prompt model d).1)
  run dropped_all d = (none, (invalidate_all p d).1)

  abbrev pub run_table : CacheCall → Answers → Option String × Answers
  run_table (asked prompt model) t = (t model (hash_of prompt), t)
  run_table (stored now prompt response model ttl) t =
      (none, put_answer model (hash_of prompt) response t)
  run_table (dropped prompt model) t = (none, drop_answers model (hash_of prompt) t)
  run_table dropped_all t = (none, λ m h. none)

  abbrev pub run_all : List CacheCall → Db → List (Option String) × Db
  run_all [] d = ([], d)
  run_all (c ∷ cs) d = let (a, d') = run c d in let (rest, d'') = run_all cs d' in (a ∷ rest, d'')

  abbrev pub run_all_table : List CacheCall → Answers → List (Option String) × Answers
  run_all_table [] t = ([], t)
  run_all_table (c ∷ cs) t =
      let (a, t') = run_table c t in let (rest, t'') = run_all_table cs t' in (a ∷ rest, t'')

  module _ (law : IsPlatform p) where
    answers-get :
        (prompt model : String) (d : Db) (m h : String)
        → answers (get p prompt model d).1 m h ≡ answers d m h
    unfolding get generate_cache_key
    answers-get prompt model d m h =
        elim (Option-cases (p.redis.get d (generate_cache_key p prompt model))) [
          | inl e ↦ rw (e, get) refl
          | inr (v, e) ↦ elim (Bool-cases (str_eq v "")) [
            | inl empty ↦ rw (e, empty, get) refl
            | inr there ↦
                rw (e, there, get)
                  (ap full (
                    law.is_redis.incr_other _ total_hits (entry m h) refl
                    ∙ law.is_redis.incr_other d (hits model (hash_of prompt)) (entry m h) refl))
          ]
        ]

    -- The answer is the table's.
    pub get-answers :
        (prompt model : String) (d : Db)
        → (get p prompt model d).0 ≡ answers d model (hash_of prompt)
    unfolding get generate_cache_key
    get-answers prompt model d =
        elim (Option-cases (p.redis.get d (entry model (hash_of prompt)))) [
          | inl e ↦ rw (e, get) refl
          | inr (v, e) ↦ elim (Bool-cases (str_eq v "")) [
            | inl empty ↦ rw (e, empty, get) refl
            | inr there ↦ rw (e, there, get) refl
          ]
        ]

    pub answers-set :
        (now : ℕ) (prompt response model : String) (ttl : Option ℕ) (d : Db) (m h : String)
        → answers (set p now prompt response model ttl d) m h
          ≡ put_answer model (hash_of prompt) response (answers d) m h
    unfolding set generate_cache_key
    answers-set now prompt response model ttl d m h =
        let r = law.is_redis in
        let here = hash_of prompt in
        ap full (
          r.incr_other _ total_entries (entry m h) refl
          ∙ r.set_then _ (entry_ttl model here) (entry m h) _ _
          ∙ r.set_then _ (entry_model model here) (entry m h) _ _
          ∙ r.set_then _ (created model here) (entry m h) _ _
          ∙ r.set_then d (entry model here) (entry m h) response _)
        ∙ ground arith

    -- Keys that are deleted with their stats.
    answers-del :
        (ks : List LlmKey) (d : Db) (m h : String)
        → answers (p.redis.del d (ks ++ map generate_stats_key ks)) m h
          ≡ (if includes same_key ks (entry m h) then none else answers d m h)
    answers-del ks d m h =
        ap full (law.is_redis.del_then d (ks ++ map generate_stats_key ks) (entry m h))
        ∙ rw (includes_append ks (map generate_stats_key ks) (entry m h), stats_keys_differ ks m h)
            (ground arith)

    answers-invalidate :
        (prompt : String) (model : Option String) (d : Db) (m h : String)
        → answers (invalidate p prompt model d).1 m h ≡ (
            if includes same_key (keys_of p prompt model d) (entry m h)
            then none
            else answers d m h)
    unfolding invalidate
    answers-invalidate prompt model d m h = elim (List-cases (keys_of p prompt model d)) [
      | inl e ↦ rw (e, invalidate) refl
      | inr (k, ks, e) ↦ rw (e, invalidate) (answers-del (k ∷ ks) d m h)
    ]

    -- The entries of a hash that KEYS lists are those that are there.
    answers-listed :
        (q : LlmKey → Bool) (d : Db) (m h : String)
        → (if includes same_key (p.redis.keys d q) (entry m h) then none else answers d m h)
          ≡ (if q (entry m h) then none else answers d m h)
    answers-listed q d m h = elim (Bool-cases (q (entry m h))) [
      | inl mine ↦ elim (Option-cases (p.redis.get d (entry m h))) [
        | inl absent ↦ rw (absent, mine) (ground arith)
        | inr (v, e) ↦ rw (law.is_redis.listed d q (entry m h) v mine e, mine) refl
      ]
      | inr other ↦ elim (Bool-cases (includes same_key (p.redis.keys d q) (entry m h))) [
        | inl listed ↦
            absurd (ground (arith, other, law.is_redis.listed_only d q (entry m h) listed))
        | inr not_listed ↦ rw (not_listed, other) refl
      ]
    ]

    answers-drop :
        (prompt : String) (model : Option String) (d : Db) (m h : String)
        → answers (invalidate p prompt model d).1 m h
          ≡ drop_answers model (hash_of prompt) (answers d) m h
    unfolding keys_of generate_cache_key
    answers-drop prompt none d m h =
        answers-invalidate prompt none d m h ∙ answers-listed (is_entry_of (hash_of prompt)) d m h
    answers-drop prompt (some model) d m h = elim (Bool-cases (str_eq model "")) [
      | inl unnamed ↦ rw unnamed (
          answers-invalidate prompt (some model) d m h
          ∙ rw (unnamed, keys_of) (answers-listed (is_entry_of (hash_of prompt)) d m h))
      | inr named ↦
          rw named
            (answers-invalidate prompt (some model) d m h ∙ rw (named, keys_of) (ground arith))
    ]

    answers-invalidate_all : (d : Db) (m h : String) → answers (invalidate_all p d).1 m h ≡ none
    unfolding invalidate_all
    answers-invalidate_all d m h = elim (List-cases (p.redis.keys d is_cache_key)) [
      | inl e ↦ rw (e, invalidate_all) (rw e at (answers-listed is_cache_key d m h))
      | inr (k, ks, e) ↦
          rw (e, invalidate_all)
            (ap full (law.is_redis.del_then d (k ∷ ks) (entry m h))
              ∙ full_if (includes same_key (k ∷ ks) (entry m h)) (p.redis.get d (entry m h))
              ∙ (rw e at (answers-listed is_cache_key d m h)))
    ]

    run-table :
        (c : CacheCall) (d : Db)
        → ((run c d).0 ≡ (run_table c (answers d)).0)
          × (answers (run c d).1 ≡ (run_table c (answers d)).1)
    run-table (asked prompt model) d =
        (get-answers prompt model d, fun_ext (λ m. fun_ext (answers-get prompt model d m)))
    run-table (stored now prompt response model ttl) d =
        (refl, fun_ext (λ m. fun_ext (answers-set now prompt response model ttl d m)))
    run-table (dropped prompt model) d =
        (refl, fun_ext (λ m. fun_ext (answers-drop prompt model d m)))
    run-table dropped_all d = (refl, fun_ext (λ m. fun_ext (answers-invalidate_all d m)))

    -- Every sequence of the cache's calls gives the answers that the table gives, from the table that
    -- Redis stands for, and leads to a state that stands for the table that is left.
    pub run_all-table :
        (cs : List CacheCall) (d : Db)
        → ((run_all cs d).0 ≡ (run_all_table cs (answers d)).0)
          × (answers (run_all cs d).1 ≡ (run_all_table cs (answers d)).1)
    run_all-table [] d = (refl, refl)
    run_all-table (c ∷ cs) d =
        let (a, t) = run-table c d in
        let (rest, t') = run_all-table cs (run c d).1 in
        (rw (a, ← t) (ap (λ r. (run_table c (answers d)).0 ∷ r) rest), rw (← t) t')
