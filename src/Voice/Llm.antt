-- ===== src/Voice/Llm.antt =====
-- Backend/src/voice/services: the pipeline of a prompt, with its quotas in `Quota`, its cache in `Cache`
-- and the service over both in `Pipeline`. What they share: the keys, and the platform's functions.
pub mod Quota
pub mod Cache
pub mod Pipeline
use farm_exc.Prelude.{ℕ, String, ◌≡◌, refl, Bool, true, false, ◌&&◌, str_eq, eq_iff, ◌==◌, ==_iff}
use farm_exc.Redis.{Redis, IsRedis}

-- The keys that the services write or delete. A key of the cache has the model and the hash of the
-- prompt; a month is written as year and month.
pub data LlmKey : Type 0 where
  -- `quota:monthly:…`
  monthly : String → String → LlmKey
  monthly_limit : String → LlmKey
  -- `quota:session:…` and `quota:rpm:…`
  session : String → LlmKey
  rpm : String → ℕ → LlmKey
  -- `llm:cache:v1:…`
  entry : String → String → LlmKey
  -- The key of an entry with `:stats`, alone and with `:hits`, `:created`, `:model` and `:ttl` after it
  stats : String → String → LlmKey
  hits : String → String → LlmKey
  created : String → String → LlmKey
  entry_model : String → String → LlmKey
  entry_ttl : String → String → LlmKey
  -- `llm:cache:total-hits` and `llm:cache:total-entries`
  total_hits total_entries : LlmKey

-- A key as its kind, its texts and its number.
abbrev pub parts : LlmKey → ℕ × String × String × ℕ
parts (monthly u m) = (0, u, m, 0)
parts (monthly_limit u) = (1, u, "", 0)
parts (session s) = (2, s, "", 0)
parts (rpm u n) = (3, u, "", n)
parts (entry m h) = (4, m, h, 0)
parts (stats m h) = (5, m, h, 0)
parts (hits m h) = (6, m, h, 0)
parts (created m h) = (7, m, h, 0)
parts (entry_model m h) = (8, m, h, 0)
parts (entry_ttl m h) = (9, m, h, 0)
parts total_hits = (10, "", "", 0)
parts total_entries = (11, "", "", 0)

abbrev pub same_key : LlmKey → LlmKey → Bool
same_key a b =
    ((parts a).0 == (parts b).0)
    && (str_eq (parts a).1 (parts b).1
        && (str_eq (parts a).2 (parts b).2 && ((parts a).3 == (parts b).3)))

-- Redis and the functions of the JavaScript platform: reading and writing a decimal, the year and month
-- of a time, the seconds to the month's end (0 where the source's number is not positive: it takes the
-- month in UTC and its end in local time), the SHA-256 of a text, a text trimmed and in lower case,
-- and whether a text in lower case contains `force-fail`.
pub record Platform (Db : Type 0) : Type 0 where
  pub redis : Redis Db LlmKey
  pub number : String → ℕ
  pub text : ℕ → String
  pub month_of : ℕ → String
  pub seconds_left : ℕ → ℕ
  pub sha256 : String → String
  pub normalised : String → String
  pub has_force_fail : String → Bool

pub record IsPlatform {Db : Type 0} (p : Platform Db) : Type 0 where
  pub is_redis : IsRedis p.redis same_key p.number
  pub number_text : (n : ℕ) → p.number (p.text n) ≡ n
  pub text_full : (n : ℕ) → str_eq (p.text n) "" ≡ false

pub str_eq_refl : (s : String) → str_eq s s ≡ true
str_eq_refl s = (eq_iff s s).1 refl

==_refl : (n : ℕ) → (n == n) ≡ true
==_refl n = (==_iff n n).1 refl

pub same_key_refl : (k : LlmKey) → same_key k k ≡ true
same_key_refl k =
    rw (==_refl (parts k).0, str_eq_refl (parts k).1, str_eq_refl (parts k).2, ==_refl (parts k).3)
      refl
