-- ===== src/Stellar/Consumers/Addresses.antt =====
-- The URLs of the consumers, of which no two are the same.
use farm_exc.Prelude.{
  ℕ, ◌≡◌, sym, ap, ◌∙◌, ◌≢◌, ◌⊎◌, inl, inr, true, false, none, some, List, ◌==◌, ==_iff, str_eq,
  eq_iff, arith, Option-cases, Bool-cases,
}
use farm_exc.Repository.{Repository, IsRepository, Among}
use farm_exc.Repository.Rows.{All-Among, Among-replaced, Among-added}
use farm_exc.Stellar.{WebhookConsumer}
use farm_exc.Stellar.Consumers.{
  CreateConsumer, UpdateConsumer, assigned, url_to_check, new_consumer, create_consumer,
  get_consumer_by_id, has_url_conflict, update_consumer,
}

abbrev pub HaveOwnUrls : List WebhookConsumer → Type 0
HaveOwnUrls rows =
    (x y : WebhookConsumer) → Among x rows → Among y rows → x.url ≡ y.url → x.id ≡ y.id

-- The rest is right with the new row if no row but those of its id has its URL.
abbrev IsFree : WebhookConsumer → List WebhookConsumer → Type 0
IsFree z rows = (y : WebhookConsumer) → Among y rows → y.url ≡ z.url → y.id ≡ z.id

-- A change that brings in one row, whose URL is free.
with_new-HaveOwnUrls :
    (z : WebhookConsumer) (rows rows' : List WebhookConsumer)
    → ((x : WebhookConsumer) → Among x rows' → (z ≡ x) ⊎ Among x rows)
    → HaveOwnUrls rows
    → IsFree z rows
    → HaveOwnUrls rows'
with_new-HaveOwnUrls z rows rows' from h free x y mx my same = elim (from x mx) [
  | inl e ↦ elim (from y my) [
    | inl f ↦ ap (λ c. c.id) (sym e ∙ f)
    | inr my' ↦ sym (free y my' (sym same ∙ ap (λ c. c.url) (sym e)) ∙ ap (λ c. c.id) e)
  ]
  | inr mx' ↦ elim (from y my) [
    | inl f ↦ free x mx' (same ∙ ap (λ c. c.url) (sym f)) ∙ ap (λ c. c.id) f
    | inr my' ↦ h x y mx' my' same
  ]
]

kept : {A B C : Type 0} → A ⊎ (B × C) → A ⊎ B
kept (inl a) = inl a
kept (inr (b, c)) = inr b

module _ {Db : Type 0} (repo : Repository Db WebhookConsumer) (rows : Db → List WebhookConsumer)
    (law : IsRepository repo rows (λ c. c.id)) where
  -- A URL that was looked for in vain is free.
  absent-IsFree :
      (z : WebhookConsumer) (d : Db)
      → repo.find_one d (λ c. str_eq c.url z.url) ≡ none
      → IsFree z (rows d)
  absent-IsFree z d e y my same =
      absurd (
        ground
          (arith, All-Among _ y (rows d) (law.not_found d _ e) my, (eq_iff y.url z.url).1 same))

  -- `createConsumer` keeps the URLs of the consumers apart.
  pub create_consumer-HaveOwnUrls :
      (new_id : ℕ) (x : CreateConsumer) (d : Db)
      → HaveOwnUrls (rows d)
      → HaveOwnUrls (rows (create_consumer repo new_id x d).1)
  unfolding create_consumer new_consumer
  create_consumer-HaveOwnUrls new_id x d h =
      elim (Option-cases (repo.find_one d (λ c. str_eq c.url x.url))) [
        | inr (c, e) ↦ rw (e, create_consumer) h
        | inl e ↦
            rw (e, create_consumer, law.inserted)
              (with_new-HaveOwnUrls (new_consumer new_id x) (rows d) _
                (λ y. Among-added (new_consumer new_id x) y (rows d)) h
                (absent-IsFree (new_consumer new_id x) d e))
      ]

  -- Without a conflict the consumer's new URL is free.
  checked-IsFree :
      (id : ℕ) (u : UpdateConsumer) (c : WebhookConsumer) (d : Db)
      → HaveOwnUrls (rows d)
      → u.url ≢ some ""
      → Among c (rows d)
      → c.id ≡ id
      → has_url_conflict repo id (url_to_check u.url c.url) d ≡ false
      → IsFree (assigned u c) (rows d)
  unfolding assigned has_url_conflict
  checked-IsFree id u c d h full here same free y my eq = elim (Option-cases u.url) [
    | inl e ↦ h y c my here (rw e at eq)
    | inr (url, e) ↦
        let eq' : y.url ≡ url = rw e at eq in
        elim (Bool-cases (str_eq url "")) [
          | inl empty ↦ absurd (full (e ∙ ap some ((eq_iff url "").0 empty)))
          | inr other ↦ elim (Bool-cases (str_eq url c.url)) [
            | inl old ↦ h y c my here (eq' ∙ (eq_iff url c.url).0 old)
            | inr new ↦
                let free' : has_url_conflict repo id (some url) d ≡ false =
                  rw (e, other, new) at free in
                elim (Option-cases (repo.find_one d (λ r. str_eq r.url url))) [
                  | inl none_has ↦ absurd (
                      ground (
                        arith,
                        All-Among (λ r. str_eq r.url url ≡ false) y (rows d)
                            (law.not_found d _ none_has) my,
                        (eq_iff y.url url).1 eq',
                      ))
                  | inr (r, found) ↦
                      let (r_url, r_here) = law.found d _ r found in
                      let r_id : (r.id == id) ≡ true =
                        ground (arith, rw (found, has_url_conflict) at free') in
                      h y r my r_here (eq' ∙ sym ((eq_iff r.url url).0 r_url))
                      ∙ (==_iff r.id id).0 r_id
                      ∙ sym same
                ]
          ]
        ]
  ]

  -- `updateConsumer` keeps the URLs of the consumers apart, with an update whose URL is not empty, as the
  -- DTO's decorators have it.
  pub update_consumer-HaveOwnUrls :
      (id : ℕ) (u : UpdateConsumer) (d : Db)
      → u.url ≢ some ""
      → HaveOwnUrls (rows d)
      → HaveOwnUrls (rows (update_consumer repo id u d).1)
  unfolding update_consumer get_consumer_by_id assigned
  update_consumer-HaveOwnUrls id u d full h =
      elim (Option-cases (repo.find_one d (λ c. c.id == id))) [
        | inl e ↦ rw (e, update_consumer, get_consumer_by_id) h
        | inr (c, e) ↦
            let (has, here) = law.found d _ c e in
            elim (Bool-cases (has_url_conflict repo id (url_to_check u.url c.url) d)) [
              | inl taken ↦ rw (e, update_consumer, get_consumer_by_id, taken) h
              | inr free ↦
                  rw (e, update_consumer, get_consumer_by_id, free, law.saved)
                    (with_new-HaveOwnUrls (assigned u c) (rows d) _
                      (λ y m. kept (Among-replaced (λ r. r.id == c.id) (assigned u c) y (rows d) m))
                      h (checked-IsFree id u c d h full here ((==_iff c.id id).0 has) free))
            ]
      ]
