-- ===== src/Redis.antt =====
-- The calls of Redis on texts that the voice services of Backend/src make and do not implement. A key is
-- a value of `Key`, and the pattern of KEYS a test of keys. Redis answers every call.
use farm_exc.Prelude.{
  ℕ, suc, String, ◌≡◌, Bool, true, false, Option, none, some, List, includes, if◌then◌else◌, ◌&&◌,
  ◌==◌,
}

pub record Redis (Db Key : Type 0) : Type 0 where
  pub get : Db → Key → Option String
  -- SET with EX, in seconds.
  pub set : Db → Key → String → ℕ → Db
  -- INCR answers with the new count.
  pub incr : Db → Key → ℕ × Db
  -- EXPIRE, in seconds; 0 stands for every number that is not positive.
  pub expire : Db → Key → ℕ → Db
  pub del : Db → List Key → Db
  pub keys : Db → (Key → Bool) → List Key

-- `parseInt(v || '0', 10)` of what GET answers.
abbrev pub count_of : (String → ℕ) → Option String → ℕ
count_of number none = 0
count_of number (some v) = number v

-- What each call does to what GET answers, until a key expires. Counters hold decimal numbers, which
-- `number` reads.
pub record IsRedis {Db Key : Type 0} (redis : Redis Db Key) (same : Key → Key → Bool)
    (number : String → ℕ) : Type 0 where
  pub set_then :
      (d : Db) (k j : Key) (v : String) (n : ℕ)
      → redis.get (redis.set d k v n) j ≡ (if same k j then some v else redis.get d j)
  pub incr_answer : (d : Db) (k : Key) → (redis.incr d k).0 ≡ suc (count_of number (redis.get d k))
  pub incr_then :
      (d : Db) (k : Key)
      → count_of number (redis.get (redis.incr d k).1 k) ≡ suc (count_of number (redis.get d k))
  pub incr_other :
      (d : Db) (k j : Key) → same k j ≡ false → redis.get (redis.incr d k).1 j ≡ redis.get d j
  -- EXPIRE deletes the key if the number is not positive.
  pub expire_then :
      (d : Db) (k j : Key) (n : ℕ)
      → redis.get (redis.expire d k n) j ≡ (if same k j && (n == 0) then none else redis.get d j)
  pub del_then :
      (d : Db) (ks : List Key) (j : Key)
      → redis.get (redis.del d ks) j ≡ (if includes same ks j then none else redis.get d j)
  pub listed :
      (d : Db) (p : Key → Bool) (j : Key) (v : String)
      → p j ≡ true
      → redis.get d j ≡ some v
      → includes same (redis.keys d p) j ≡ true
  pub listed_only :
      (d : Db) (p : Key → Bool) (j : Key) → includes same (redis.keys d p) j ≡ true → p j ≡ true
