-- ===== src/Examples/Throttling.antt =====
-- Counters in memory, and the guard on them.
use farm_exc.Prelude.{
  ℕ, suc, ◌≤◌, ◌<◌, ◌-◌, String, ◌≡◌, refl, Bool, true, Option, none, some, str_eq, eq_iff,
  if◌then◌else◌,
}
use farm_exc.Throttle.{ThrottleRedis, temporarily_banned, rate_limit_exceeded, passes, can_activate}
use farm_exc.Throttle.Bans.{IsThrottleRedis, can_activate_cases}

record Counters : Type 0 where
  pub rates : String → ℕ
  pub offences : String → ℕ
  pub bans : String → Option String

abbrev counted : (String → ℕ) → String → String → ℕ
counted f k j = if str_eq k j then suc (f j) else f j

-- TTL always answers 60.
abbrev counters : ThrottleRedis Counters ℕ
counters = record {
  incr_rate = λ r k. (suc (r.rates k), record r { rates = counted r.rates k });
  expire_rate = λ r k n. r;
  ttl_rate = λ r k. 60;
  incr_violations = λ r k. (suc (r.offences k), record r { offences = counted r.offences k });
  expire_violations = λ r k n. r;
  get_ban = λ r k. r.bans k;
  set_ban = λ r k n v. record r { bans = λ j. if str_eq k j then some v else r.bans j };
}

counters-IsThrottleRedis : IsThrottleRedis counters (λ r k. r.rates k) (λ r k. r.offences k)
counters-IsThrottleRedis = record {
  rate_counted = λ r k. refl;
  violations_counted = λ r k. refl;
  violations_rate = λ r k i. refl;
  violations_expire = λ r k i n. refl;
  ban_set = λ r i n v. rw ((eq_iff i i).1 refl);
}

-- Five log-ins in the window, and two violations before.
abbrev third_time : Counters
third_time = record { rates = λ k. 5; offences = λ k. 2; bans = λ k. none }

can_activate_cases_example :
    let out = can_activate counters true "/auth/login" "10.0.0.1" third_time in
    (5 < 5 → (ttl : ℕ) × (out.0 ≡ passes 5 (5 - suc 5) ttl))
    × (5 ≤ 5
        → ((ttl : ℕ) × (out.0 ≡ rate_limit_exceeded 5 0 ttl))
          × (2 ≤ 2
              → (is_auth_route : Bool) (path : String)
              → can_activate counters is_auth_route path "10.0.0.1" out.1
                ≡ (temporarily_banned, out.1)))
can_activate_cases_example =
    can_activate_cases counters (λ r k. r.rates k) (λ r k. r.offences k) counters-IsThrottleRedis
      true "/auth/login" "10.0.0.1" third_time refl
