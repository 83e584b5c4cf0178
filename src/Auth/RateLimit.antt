-- ===== src/Auth/RateLimit.antt =====
-- Backend/src/auth/services/rate-limit.service.ts: a sliding window in a Redis sorted set. The client
-- is a parameter; a call of it answers or is rejected. The members of the set are the decimal texts
-- of times and are given as those numbers, by ascending score. Times are later than one window after
-- the epoch.
pub mod Window
use Prim.Native.String.{◌++◌}
use farm_exc.Prelude.{
  ℕ, ◌+◌, ◌-◌, ◌*◌, String, Bool, true, false, Option, none, some, List, [], ◌∷◌, leb,
  if◌then◌else◌,
}

-- An answer, or a rejection, and what Redis holds then.
abbrev pub Reply : Type 0 → Type 0 → Type 0
Reply Redis A = Option A × Redis

pub record Client (Redis : Type 0) : Type 0 where
  pub z_rem_range_by_score : String → ℕ → ℕ → Redis → Reply Redis ℕ
  pub z_card : String → Redis → Reply Redis ℕ
  -- The members at the ranks from the first number to the second.
  pub z_range : String → ℕ → ℕ → Redis → Reply Redis (List ℕ)
  -- With the score and the member.
  pub z_add : String → ℕ → ℕ → Redis → Reply Redis ℕ
  pub expire : String → ℕ → Redis → Reply Redis Bool
  pub del : String → Redis → Reply Redis ℕ

pub record RateLimitResult : Type 0 where
  pub allowed : Bool
  pub remaining : ℕ
  pub reset_at : ℕ

-- `await`: a rejection skips the rest.
abbrev pub and_then :
    {Redis A B : Type 0} → Reply Redis A → (A → Redis → Reply Redis B) → Reply Redis B
and_then (none, r) f = (none, r)
and_then (some a, r) f = f a r

abbrev pub reset_time : ℕ → ℕ → List ℕ → ℕ
reset_time now window_seconds [] = now + window_seconds * 1000
reset_time now window_seconds (oldest ∷ _) = oldest + window_seconds * 1000

-- The `catch` of `checkRateLimit`.
abbrev pub fail_open :
    {Redis : Type 0} → ℕ → ℕ → ℕ → Reply Redis RateLimitResult → RateLimitResult × Redis
fail_open limit window_seconds now (none, r) =
    (record { allowed = true; remaining = limit; reset_at = now + window_seconds * 1000 }, r)
fail_open limit window_seconds now (some a, r) = (a, r)

module _ {Redis : Type 0} (client : Client Redis) where
  -- The request is over the limit.
  unfoldable pub deny : String → ℕ → ℕ → Redis → Reply Redis RateLimitResult
  deny key window_seconds now r = and_then (client.z_range key 0 0 r) (λ oldest r. (
    some (record {
      allowed = false;
      remaining = 0;
      reset_at = reset_time now window_seconds oldest;
    }),
    r,
  ))

  -- The request is added to the window.
  unfoldable pub admit : String → ℕ → ℕ → ℕ → ℕ → Redis → Reply Redis RateLimitResult
  admit key limit window_seconds now request_count r = and_then (client.z_add key now now r) (λ _ r.
      and_then (client.expire key window_seconds r) (λ _ r. (
        some (record {
          allowed = true;
          remaining = limit - request_count - 1;
          reset_at = now + window_seconds * 1000;
        }),
        r,
      )))

  unfoldable pub check_rate_limit : String → ℕ → ℕ → ℕ → Redis → RateLimitResult × Redis
  unfolding deny admit
  check_rate_limit key limit window_seconds now r =
      let redis_key = "rate_limit:" ++ key in
      let window_start = now - window_seconds * 1000 in
      fail_open limit window_seconds now (
        and_then (client.z_rem_range_by_score redis_key 0 window_start r) (λ _ r.
          and_then (client.z_card redis_key r) (λ request_count r.
            if leb limit request_count
            then deny redis_key window_seconds now r
            else admit redis_key limit window_seconds now request_count r)))

  -- A rejection is logged and dropped.
  unfoldable pub reset_rate_limit : String → Redis → Redis
  reset_rate_limit key r = (client.del ("rate_limit:" ++ key) r).1

unfoldable pub generate_key_for_ip : String → String → String
generate_key_for_ip ip endpoint = "ip:" ++ ip ++ ":" ++ endpoint

unfoldable pub generate_key_for_user : String → String → String
generate_key_for_user user_id endpoint = "user:" ++ user_id ++ ":" ++ endpoint
