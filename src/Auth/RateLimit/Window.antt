-- ===== src/Auth/RateLimit/Window.antt =====
-- What a request leaves in the window.
use Prim.Native.String.{◌++◌}
use farm_exc.Prelude.{
  ℕ, suc, ◌+◌, ◌-◌, ◌*◌, ◌≤◌, ◌<◌, String, ◌≡◌, refl, ◌⊎◌, inl, inr, true, false, none, some, leb,
  Bool-cases, if◌then◌else◌, arith,
}
use farm_exc.Auth.RateLimit.{
  Client, RateLimitResult, deny, admit, check_rate_limit, fail_open, Reply, and_then,
}

-- What the service relies on, for `size` the number of members under a key: `ZCARD` answers with the
-- size, `ZADD` adds at most one member, and `ZRANGE`, `ZCARD` and `EXPIRE` leave the size as it is.
pub record IsClient {Redis : Type 0} (client : Client Redis) (size : Redis → String → ℕ)
    : Type 0 where
  pub counted :
      (k : String) (r : Redis) (n : ℕ)
      → (client.z_card k r).0 ≡ some n
      → size (client.z_card k r).1 k ≡ n
  pub ranged : (k : String) (a b : ℕ) (r : Redis) → size (client.z_range k a b r).1 k ≡ size r k
  pub added :
      (k : String) (score member : ℕ) (r : Redis)
      → size (client.z_add k score member r).1 k ≤ suc (size r k)
  pub expired_kept :
      (k : String) (seconds : ℕ) (r : Redis) → size (client.expire k seconds r).1 k ≡ size r k

-- A result that Redis stood behind: a refusal at a full window, or a permission after which the
-- members of the window and the requests remaining are no more than the limit.
abbrev pub Counted : ℕ → ℕ → RateLimitResult → Type 0
Counted limit members a =
    ((a.allowed ≡ false) × (a.remaining ≡ 0) × (limit ≤ members))
    ⊎ ((a.allowed ≡ true) × (members + a.remaining ≤ limit))

-- A reply to the whole request. Where it is a rejection, `Down` is the case.
abbrev pub Sound :
    {Redis : Type 0} → ℕ → (Redis → ℕ) → Type 0 → Reply Redis RateLimitResult → Type 0
Sound limit members Down (none, r) = Down
Sound limit members Down (some a, r) = Counted limit (members r) a

-- `and_then` is sound when its continuation is, from every answer.
and_then-Sound :
    {Redis A : Type 0} (limit : ℕ) (members : Redis → ℕ) (Down : Type 0) (q : Reply Redis A)
    (f : A → Redis → Reply Redis RateLimitResult)
    → (q.0 ≡ none → Down)
    → ((a : A) → q.0 ≡ some a → Sound limit members Down (f a q.1))
    → Sound limit members Down (and_then q f)
and_then-Sound limit members Down (none, r) f down h = down refl
and_then-Sound limit members Down (some a, r) f down h = h a refl

-- The promise of the whole operation.
fail_open-Sound :
    {Redis : Type 0} (limit window_seconds now : ℕ) (members : Redis → ℕ) (Down : Type 0)
    (q : Reply Redis RateLimitResult)
    → Sound limit members Down q
    → let out = fail_open limit window_seconds now q in
      Counted limit (members out.1) out.0
      ⊎ (Down
          × (out.0 ≡ record {
            allowed = true;
            remaining = limit;
            reset_at = now + window_seconds * 1000;
          }))
fail_open-Sound limit window_seconds now members Down (none, r) h = inr (h, refl)
fail_open-Sound limit window_seconds now members Down (some a, r) h = inl h

module _ {Redis : Type 0} (client : Client Redis) (limit window_seconds now : ℕ) where
  -- The window is to be trimmed, and then its members are to be counted.
  abbrev pub trimming : String → Redis → Reply Redis ℕ
  trimming k r = client.z_rem_range_by_score k 0 (now - window_seconds * 1000) r

  abbrev pub counting : String → Redis → Reply Redis ℕ
  counting k r = client.z_card k (trimming k r).1

  abbrev pub adding : String → Redis → Reply Redis ℕ
  adding k r = client.z_add k now now (counting k r).1

  -- A call that the request makes is rejected: to trim or count the window; to read it, when it is
  -- full; or to add to it or to renew it, when it is not.
  abbrev pub IsRejected : String → Redis → Type 0
  IsRejected k r =
      ((trimming k r).0 ≡ none)
      ⊎ ((counting k r).0 ≡ none)
      ⊎ ((n : ℕ) × ((counting k r).0 ≡ some n)
          × (((limit ≤ n) × ((client.z_range k 0 0 (counting k r).1).0 ≡ none))
              ⊎ ((n < limit)
                  × (((adding k r).0 ≡ none)
                      ⊎ ((client.expire k window_seconds (adding k r).1).0 ≡ none)))))

module _ {Redis : Type 0} (client : Client Redis) (size : Redis → String → ℕ)
    (law : IsClient client size) (limit window_seconds now : ℕ) where
  deny-Sound :
      (k : String) (r : Redis) (Down : Type 0)
      → limit ≤ size r k
      → ((client.z_range k 0 0 r).0 ≡ none → Down)
      → Sound limit (λ r. size r k) Down (deny client k window_seconds now r)
  unfolding deny
  deny-Sound k r Down h down =
      and_then-Sound limit (λ r. size r k) Down (client.z_range k 0 0 r) _ down
        (λ a e. inl (refl, refl, ground (arith, law.ranged k 0 0 r)))

  admit-Sound :
      (k : String) (n : ℕ) (r : Redis) (Down : Type 0)
      → size r k ≡ n
      → n < limit
      → ((client.z_add k now now r).0 ≡ none → Down)
      → ((client.expire k window_seconds (client.z_add k now now r).1).0 ≡ none → Down)
      → Sound limit (λ r. size r k) Down (admit client k limit window_seconds now n r)
  unfolding admit
  admit-Sound k n r Down e h lost_add lost_expire =
      and_then-Sound limit (λ r. size r k) Down (client.z_add k now now r) _ lost_add
        (λ a _.
          and_then-Sound limit (λ r. size r k) Down
            (client.expire k window_seconds (client.z_add k now now r).1) _ lost_expire
            (λ b _. inr (
              refl,
              omega (
                arith,
                law.added k now now r,
                law.expired_kept k window_seconds (client.z_add k now now r).1,
              ),
            )))

  check_rate_limit-counted :
      (k : String) (n : ℕ) (r : Redis)
      → (counting client limit window_seconds now k r).0 ≡ some n
      → let r' = (counting client limit window_seconds now k r).1 in
        size r' k ≡ n
        → (leb limit n ≡ true) ⊎ (leb limit n ≡ false)
        → Sound limit
            (λ r. size r k)
            (IsRejected client limit window_seconds now k r)
            (if leb limit n
              then deny client k window_seconds now r'
              else admit client k limit window_seconds now n r')
  check_rate_limit-counted k n r c e (inl h) =
      let full : limit ≤ n = ground arith in
      rw h (deny-Sound k _ _ (ground arith) (λ lost. inr (inr (n, c, inl (full, lost)))))
  check_rate_limit-counted k n r c e (inr h) =
      let below : n < limit = ground arith in
      rw h (
        admit-Sound k n _ _ e below (λ lost. inr (inr (n, c, inr (below, inl lost))))
          (λ lost. inr (inr (n, c, inr (below, inr lost)))))

  -- A request is refused only when the window holds the limit of members. A request that is allowed
  -- leaves a window whose members and remaining requests together are within the limit, or it is let
  -- through because a call of Redis that it makes was rejected, with the whole limit as remaining.
  pub check_rate_limit-Counted :
      (key : String) (r : Redis)
      → let out = check_rate_limit client key limit window_seconds now r in
        Counted limit (size out.1 ("rate_limit:" ++ key)) out.0
        ⊎ (IsRejected client limit window_seconds now ("rate_limit:" ++ key) r
            × (out.0 ≡ record {
              allowed = true;
              remaining = limit;
              reset_at = now + window_seconds * 1000;
            }))
  unfolding check_rate_limit
  check_rate_limit-Counted key r =
      let k = "rate_limit:" ++ key in
      let Down = IsRejected client limit window_seconds now k r in
      let trimmed = trimming client limit window_seconds now k r in
      fail_open-Sound limit window_seconds now (λ r. size r k) Down _
        (and_then-Sound limit (λ r. size r k) Down trimmed _ inl
          (λ a _.
            and_then-Sound limit (λ r. size r k) Down (client.z_card k trimmed.1) _
              (λ lost. inr (inl lost))
              (λ n e.
                check_rate_limit-counted k n r e (law.counted k trimmed.1 n e)
                  (Bool-cases (leb limit n)))))
