-- ===== src/DeadLetters/Requeued.antt =====
-- What a dead-letter queue holds after its items were queued again.
use farm_exc.Prelude.{
  ℕ, suc, zero, String, ◌≡◌, refl, sym, ap, ◌∙◌, inl, inr, Option, some, List, [], ◌∷◌, ◌++◌,
  length, take, drop, All, ◌==◌, arith, Bool-cases, ==_iff,
}
use farm_exc.Workflow.Json.{Fields}
use farm_exc.DeadLetters.{DlqItem, or_default, Queues, requeue_each, requeue_from_dlq}

-- What the service relies on, for `list` the texts of a list of Redis.
pub record IsQueues {Db : Type 0} (queues : Queues Db) (list : Db → String → List String)
    : Type 0 where
  pub pushed : (d : Db) (q text : String) → list (queues.r_push d q text) q ≡ list d q ++ text ∷ []
  pub ranged : (d : Db) (q : String) (n : ℕ) → queues.first d q n ≡ take n (list d q)
  pub trimmed : (d : Db) (q : String) (n : ℕ) → list (queues.trim d q n) q ≡ drop n (list d q)
  pub added :
      (d : Db) (q r name : String) (fields : Fields) (n : ℕ)
      → list (queues.add d q name fields n) r ≡ list d r

drop_taken : (n : ℕ) (xs : List String) → drop (length (take n xs)) xs ≡ drop n xs
drop_taken zero xs = refl
drop_taken (suc n) [] = refl
drop_taken (suc n) (x ∷ xs) = drop_taken n xs

module _ {Db : Type 0} (queues : Queues Db) (list : Db → String → List String)
    (law : IsQueues queues list) (stringify : DlqItem → String)
    (parse : String → Option DlqItem) where
  list-requeue_each :
      (queue : String) (texts : List String) (d : Db)
      → All (λ t. (item : DlqItem) × (parse t ≡ some item)) texts
      → ((requeue_each queues stringify parse queue texts d).0 ≡ length texts)
        × (list (requeue_each queues stringify parse queue texts d).1 queue ≡ list d queue)
  unfolding requeue_each
  list-requeue_each queue [] d h = (refl, refl)
  list-requeue_each queue (t ∷ ts) d ((item, e), hs) =
      let d' =
        queues.add d queue item.name item.data_fields (or_default 3 (some item.max_attempts)) in
      let (n, kept) = list-requeue_each queue ts d' hs in
      rw (e, requeue_each) (rw n (omega arith), kept ∙ law.added d queue queue _ _ _)

  -- If each of the first items, up to the limit, is JSON, they are queued again, as many as there are, and
  -- exactly they leave the dead-letter queue.
  pub requeue_from_dlq_parsed :
      (queue : String) (limit : ℕ) (d : Db)
      → All (λ t. (item : DlqItem) × (parse t ≡ some item)) (take limit (list d queue))
      → ((requeue_from_dlq queues stringify parse queue limit d).0
          ≡ length (take limit (list d queue)))
        × (list (requeue_from_dlq queues stringify parse queue limit d).1 queue
            ≡ drop limit (list d queue))
  unfolding requeue_from_dlq
  requeue_from_dlq_parsed queue limit d h =
      let texts = take limit (list d queue) in
      let done = requeue_each queues stringify parse queue texts d in
      let (n, kept) = list-requeue_each queue texts d h in
      let left : drop done.0 (list done.1 queue) ≡ drop limit (list d queue) =
        ap (drop done.0) kept
        ∙ ap (λ m. drop m (list d queue)) n
        ∙ drop_taken limit (list d queue) in
      rw (law.ranged d queue limit) (elim (Bool-cases (done.0 == 0)) [
        | inl z ↦
            let none_done : done.0 ≡ 0 = (==_iff done.0 0).0 z in
            (n, rw z (ap (λ m. drop m (list done.1 queue)) (sym none_done) ∙ left))
        | inr some_done ↦ (n, rw some_done (law.trimmed done.1 queue done.0 ∙ left))
      ])
