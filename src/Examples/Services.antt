-- ===== src/Examples/Services.antt =====
-- A Redis and a table of nonces in memory, and runs of the services beside the workflow engine.
use Prim.Native.String.{◌++◌ as append}
use farm_exc.Prelude.{
  ℕ, suc, ◌+◌, ◌*◌, String, ◌≡◌, refl, ◌≢◌, ◌↔◌, ◌⊎◌, true, none, some, List, [], ◌∷◌, length, leb,
  ◌==◌, str_eq, eq_iff, filter, includes, ◌++◌, if◌then◌else◌, arith, not,
}
use farm_exc.Voice.{ConversationState}
use farm_exc.Voice.Reach.{Reaches, Reaches-idle_iff}
use farm_exc.Quota.{quota_exceeded, assert_quota, get_key}
use farm_exc.Quota.Count.{Usage, recorded, calls_for, assert_quota-recorded}
use farm_exc.Auth.RateLimit.{Client, check_rate_limit}
use farm_exc.Auth.RateLimit.Window.{IsClient, Counted, IsRejected, check_rate_limit-Counted}

Reaches-idle_iff_example : Reaches ConversationState.idle ConversationState.responding ↔ (
    (ConversationState.responding ≢ ConversationState.stale)
    × (ConversationState.responding ≢ ConversationState.terminated))
Reaches-idle_iff_example = Reaches-idle_iff ConversationState.responding

abbrev usages : List Usage
usages =
    record { user_id = "ann"; month = "2024-02"; tokens = 7 }
    ∷ record { user_id = "bob"; month = "2024-02"; tokens = 9 }
    ∷ record { user_id = "ann"; month = "2024-01"; tokens = 2 }
    ∷ []

assert_quota-recorded_example :
    assert_quota "ann" "2024-02" (recorded usages)
    ≡ (if leb 1000 (calls_for (get_key "ann" "2024-02") usages) then some quota_exceeded else none)
assert_quota-recorded_example = assert_quota-recorded usages "ann" "2024-02"

counted_usages : calls_for (get_key "ann" "2024-02") usages ≡ 1
unfolding get_key
counted_usages = refl

-- A Redis of sorted sets whose members are their scores.
abbrev Memory : Type 0
Memory = String → List ℕ

abbrev written : String → List ℕ → Memory → Memory
written k xs r = λ j. if str_eq k j then xs else r j

abbrev take_first : List ℕ → List ℕ
take_first [] = []
take_first (x ∷ xs) = x ∷ []

abbrev with_member : ℕ → List ℕ → List ℕ
with_member m xs = if includes ◌==◌ xs m then xs else xs ++ m ∷ []

abbrev memory_client : Client Memory
memory_client = record {
  z_rem_range_by_score = λ k a b r. (some 0, written k (filter (λ x. not (leb x b)) (r k)) r);
  z_card = λ k r. (some (length (r k)), r);
  z_range = λ k a b r. (some (take_first (r k)), r);
  z_add = λ k score m r. (some 1, written k (with_member m (r k)) r);
  expire = λ k seconds r. (some true, r);
  del = λ k r. (some 1, written k [] r);
}

length-append : (xs : List ℕ) (m : ℕ) → length (xs ++ m ∷ []) ≡ suc (length xs)
length-append [] m = refl
length-append (x ∷ xs) m = rw (length-append xs m) refl

some-injective : {a b : ℕ} → some a ≡ some b → a ≡ b
some-injective e = cc

memory_client-IsClient : IsClient memory_client (λ r k. length (r k))
memory_client-IsClient = record {
  counted = λ k r n e. some-injective e;
  ranged = λ k a b r. refl;
  added = λ k score m r. ground (arith, eq_iff k k, length-append (r k) m);
  expired_kept = λ k seconds r. refl;
}

-- Two earlier requests; the first has left the window of one second.
abbrev busy : Memory
busy = λ k. 59000 ∷ 59500 ∷ []

check_rate_limit-Counted_example :
    let out = check_rate_limit memory_client "ip" 3 1 60000 busy in
    Counted 3 (length (out.1 (append "rate_limit:" "ip"))) out.0
    ⊎ (IsRejected memory_client 3 1 60000 (append "rate_limit:" "ip") busy
        × (out.0 ≡ record { allowed = true; remaining = 3; reset_at = 60000 + 1 * 1000 }))
check_rate_limit-Counted_example =
    check_rate_limit-Counted memory_client (λ r k. length (r k)) memory_client-IsClient 3 1 60000
      "ip" busy

second_request : (check_rate_limit memory_client "ip" 3 1 60000 busy).0.remaining ≡ 1
unfolding check_rate_limit
second_request = refl
