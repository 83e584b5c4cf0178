-- ===== src/Throttle.antt =====
-- Backend/src/throttle: throttle.service.ts, throttle.guard.ts, throttle.constants.ts and
-- throttle.util.ts. Redis is a parameter that answers every call; of its keys, those of rates, of
-- violations and of bans have a prefix each and are given by what follows it. `Ttl` is what TTL
-- answers with, which is only handed on.
pub mod Bans
use Prim.Native.String.{◌++◌}
use farm_exc.Prelude.{
  ℕ, ◌-◌, ◌*◌, ◌^◌, String, Bool, Option, none, some, ltb, leb, ◌==◌, if◌then◌else◌,
}

pub record Limit : Type 0 where
  pub limit : ℕ
  pub window : ℕ

abbrev pub global_limit : Limit
global_limit = record { limit = 100; window = 60 }

abbrev pub auth_limit : Limit
auth_limit = record { limit = 5; window = 60 }

abbrev pub max_violations : ℕ
max_violations = 3

abbrev pub base_ban_seconds : ℕ
base_ban_seconds = 60

pub record ThrottleRedis (Redis Ttl : Type 0) : Type 0 where
  -- INCR answers with the new count.
  pub incr_rate : Redis → String → ℕ × Redis
  pub expire_rate : Redis → String → ℕ → Redis
  pub ttl_rate : Redis → String → Ttl
  pub incr_violations : Redis → String → ℕ × Redis
  pub expire_violations : Redis → String → ℕ → Redis
  pub get_ban : Redis → String → Option String
  -- For so many seconds.
  pub set_ban : Redis → String → ℕ → String → Redis

-- The two exceptions of status 429, and success, with the headers that are set: the limit, the requests
-- that remain, and the time to live.
pub data Verdict (Ttl : Type 0) : Type 0 where
  temporarily_banned : Verdict Ttl
  rate_limit_exceeded : ℕ → ℕ → Ttl → Verdict Ttl
  passes : ℕ → ℕ → Ttl → Verdict Ttl

-- The part of the key after `rate:`, as the guard writes it.
abbrev pub rate_key : String → String → String
rate_key path identifier = path ++ ":" ++ identifier

-- `userId ?? ip`.
abbrev pub identifier_of : Option String → String → String
identifier_of none ip = ip
identifier_of (some user) ip = user

module _ {Redis Ttl : Type 0} (redis : ThrottleRedis Redis Ttl) where
  -- Whether a first count starts the window.
  unfoldable pub expire_first : String → ℕ → ℕ × Redis → ℕ × Redis
  expire_first key window (n, r) = if n == 1 then (n, redis.expire_rate r key window) else (n, r)

  unfoldable pub check_rate_limit : String → ℕ → Redis → (ℕ × Ttl) × Redis
  unfolding expire_first
  check_rate_limit key window r =
      let (current, r') = expire_first key window (redis.incr_rate r key) in
      ((current, redis.ttl_rate r' key), r')

  -- What `registerViolation` does with the number of violations.
  unfoldable pub punish : String → ℕ × Redis → Redis
  punish identifier (violations, r) =
      let r' = if violations == 1 then redis.expire_violations r identifier 3600 else r in
      if leb max_violations violations
      then redis.set_ban r' identifier (base_ban_seconds * 2 ^ (violations - 1)) "1"
      else r'

  unfoldable pub register_violation : String → Redis → Redis
  unfolding punish
  register_violation identifier r = punish identifier (redis.incr_violations r identifier)

  -- The guard after the test for a ban.
  unfoldable pub judge : String → ℕ → (ℕ × Ttl) × Redis → Verdict Ttl × Redis
  unfolding register_violation
  judge identifier limit ((current, ttl), r) =
      if ltb limit current
      then (rate_limit_exceeded limit (limit - current) ttl, register_violation identifier r)
      else (passes limit (limit - current) ttl, r)

  -- From the test for a ban on, which holds of any value, since no empty one is written; whether the path
  -- includes `/auth` is an argument.
  unfoldable pub can_activate : Bool → String → String → Redis → Verdict Ttl × Redis
  unfolding check_rate_limit judge
  can_activate is_auth_route path identifier r = elim (redis.get_ban r identifier) [
    | some _ ↦ (temporarily_banned, r)
    | none ↦
        let config = if is_auth_route then auth_limit else global_limit in
        judge identifier config.limit (check_rate_limit (rate_key path identifier) config.window r)
  ]
