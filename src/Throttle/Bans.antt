-- ===== src/Throttle/Bans.antt =====
-- When the guard lets a request pass, and when it bans.
use farm_exc.Prelude.{
  ℕ, suc, ◌-◌, ◌≤◌, ◌<◌, String, ◌≡◌, ap, ◌∙◌, Bool, true, none, some, leb, if◌then◌else◌, arith,
}
use farm_exc.Throttle.{
  ThrottleRedis, auth_limit, global_limit, temporarily_banned, rate_limit_exceeded, passes,
  rate_key, check_rate_limit, expire_first, register_violation, punish, judge, can_activate,
}

-- What the guard relies on, for two counters: INCR answers with one more than the count, EXPIRE keeps
-- the counts, the three kinds of keys do not touch each other, and SETEX sets the ban.
pub record IsThrottleRedis {Redis Ttl : Type 0} (redis : ThrottleRedis Redis Ttl)
    (rate violations : Redis → String → ℕ) : Type 0 where
  pub rate_counted : (r : Redis) (k : String) → (redis.incr_rate r k).0 ≡ suc (rate r k)
  pub violations_counted :
      (r : Redis) (i : String) → (redis.incr_violations r i).0 ≡ suc (violations r i)
  pub violations_rate :
      (r : Redis) (k i : String) → violations (redis.incr_rate r k).1 i ≡ violations r i
  pub violations_expire :
      (r : Redis) (k i : String) (n : ℕ) → violations (redis.expire_rate r k n) i ≡ violations r i
  pub ban_set :
      (r : Redis) (i : String) (n : ℕ) (v : String)
      → redis.get_ban (redis.set_ban r i n v) i ≡ some v

module _ {Redis Ttl : Type 0} (redis : ThrottleRedis Redis Ttl)
    (rate violations : Redis → String → ℕ) (law : IsThrottleRedis redis rate violations) where
  check_rate_limit-count :
      (key : String) (window : ℕ) (r : Redis)
      → (check_rate_limit redis key window r).0.0 ≡ suc (rate r key)
  unfolding check_rate_limit expire_first
  check_rate_limit-count key window r = ground (arith, law.rate_counted r key)

  violations-check_rate_limit :
      (key i : String) (window : ℕ) (r : Redis)
      → violations (check_rate_limit redis key window r).1 i ≡ violations r i
  unfolding check_rate_limit expire_first
  violations-check_rate_limit key i window r = ground (
    arith,
    law.violations_rate r key i,
    law.violations_expire (redis.incr_rate r key).1 key i window,
  )

  get_ban-punish :
      (i : String) (n : ℕ) (r : Redis) → 3 ≤ n → redis.get_ban (punish redis i (n, r)) i ≡ some "1"
  unfolding punish
  get_ban-punish i n r h = rw (leb_true n h) (law.ban_set _ i _ "1")
    where
      leb_true : (n : ℕ) → 3 ≤ n → leb 3 n ≡ true
      leb_true n h = ground arith

  get_ban-register_violation :
      (i : String) (r : Redis)
      → 2 ≤ violations r i
      → redis.get_ban (register_violation redis i r) i ≡ some "1"
  unfolding register_violation
  get_ban-register_violation i r h =
      get_ban-punish i (redis.incr_violations r i).0 (redis.incr_violations r i).1
        (omega (arith, law.violations_counted r i))

  can_activate_banned :
      (is_auth_route : Bool) (path i v : String) (r : Redis)
      → redis.get_ban r i ≡ some v
      → can_activate redis is_auth_route path i r ≡ (temporarily_banned, r)
  unfolding can_activate
  can_activate_banned is_auth_route path i v r e = rw (e, can_activate)

  can_activate-judge :
      (is_auth_route : Bool) (path i : String) (r : Redis)
      → redis.get_ban r i ≡ none
      → let config = if is_auth_route then auth_limit else global_limit in
        can_activate redis is_auth_route path i r
        ≡ judge redis i config.limit (check_rate_limit redis (rate_key path i) config.window r)
  unfolding can_activate
  can_activate-judge is_auth_route path i r e = rw (e, can_activate)

  judge-passes :
      (i : String) (limit : ℕ) (c : (ℕ × Ttl) × Redis)
      → c.0.0 ≤ limit
      → (judge redis i limit c).0 ≡ passes limit (limit - c.0.0) c.0.1
  unfolding judge
  judge-passes i limit ((n, ttl), r) h = ground arith

  judge-refuses :
      (i : String) (limit : ℕ) (c : (ℕ × Ttl) × Redis)
      → limit < c.0.0
      → judge redis i limit c ≡ (rate_limit_exceeded limit 0 c.0.1, register_violation redis i c.1)
  unfolding judge
  judge-refuses i limit ((n, ttl), r) h = ground arith

  -- A request of one who is not banned passes if fewer than the limit were counted in the window, and
  -- it is told how many remain. Otherwise it is refused; if that is at least the third violation, every
  -- request of the same one that comes next is refused as banned, on any path, and counts nothing.
  pub can_activate_cases :
      (is_auth_route : Bool) (path i : String) (r : Redis)
      → redis.get_ban r i ≡ none
      → let limit = (if is_auth_route then auth_limit else global_limit).limit in
        let counted = rate r (rate_key path i) in
        let out = can_activate redis is_auth_route path i r in
        (counted < limit → (ttl : Ttl) × (out.0 ≡ passes limit (limit - suc counted) ttl))
        × (limit ≤ counted
            → ((ttl : Ttl) × (out.0 ≡ rate_limit_exceeded limit 0 ttl))
              × (2 ≤ violations r i
                  → (is_auth_route : Bool) (path : String)
                  → can_activate redis is_auth_route path i out.1 ≡ (temporarily_banned, out.1)))
  can_activate_cases is_auth_route path i r free =
      let limit = (if is_auth_route then auth_limit else global_limit).limit in
      let window = (if is_auth_route then auth_limit else global_limit).window in
      let key = rate_key path i in
      let checked = check_rate_limit redis key window r in
      let count = check_rate_limit-count key window r in
      rw (can_activate-judge is_auth_route path i r free) (
        λ h. (checked.0.1, rw (← count) (judge-passes i limit checked (omega (arith, count)))),
        λ h. (
          (checked.0.1, ap (λ o. o.0) (judge-refuses i limit checked (omega (arith, count)))),
          λ v b p. can_activate_banned b p i "1" _ (
              ap (λ o. redis.get_ban o.1 i) (judge-refuses i limit checked (omega (arith, count)))
              ∙ get_ban-register_violation i checked.1
                  (omega (arith, violations-check_rate_limit key i window r))),
        ),
      )
