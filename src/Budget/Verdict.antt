-- ===== src/Budget/Verdict.antt =====
-- When `Check` of internal/service/budget/budget.go lets a request pass, and what it reports.
use gateyes.Common.{
  ◌≡◌, refl, sym, String, Bool, true, false, not, ◌&&◌, ◌||◌, none, some, Bool-cases, inl, inr, ◌⊎◌,
  subst, ==→≡, List, [], ◌∷◌, ◌++◌, arith, ◌==◌, string_eq, if◌then◌else◌,
}
use gateyes.Budget.{
  hard_reject, soft_alert, grace, PolicyAction, reject, alert, policy_action, BudgetCheckResult,
  budget_hard_rejected, Reply, answer, store_error, BudgetStore, CheckRequest, ScopeResult,
  CheckResult, Outcome, failed, checked, Scope, scopes_of, skipped, scope_result, Round, next,
  returns, check_scope, check_loop, check,
}

abbrev tolerant : String → Bool
tolerant p = p == soft_alert || p == grace

abbrev rejects : PolicyAction → Bool
rejects reject = true
rejects _ = false

policy_action-tolerant : (p : String) → rejects (policy_action p) ≡ not (tolerant p)
unfolding policy_action
policy_action-tolerant p = elim (Bool-cases (p == hard_reject)) [
  | inl h ↦
      subst (λ p. rejects (policy_action p) ≡ not (tolerant p)) (sym (==→≡ p hard_reject h)) refl
  | inr h ↦ ground (arith, h)
]

abbrev alerts : PolicyAction → Bool
alerts alert = true
alerts _ = false

policy_action-alert : (p : String) → alerts (policy_action p) ≡ (p == soft_alert)
unfolding policy_action
policy_action-alert p = elim (Bool-cases (p == hard_reject)) [
  | inl h ↦
      subst (λ p. alerts (policy_action p) ≡ (p == soft_alert)) (sym (==→≡ p hard_reject h)) refl
  | inr h ↦ ground (arith, h)
]

module _ {A : Type 0} where
  -- A result reported as denied stops nothing under these policies.
  abbrev pub tolerated : ScopeResult A → Bool
  tolerated sr = sr.allowed || tolerant sr.policy

  -- The scope does not stand in the request's way: it has no id, or the store allows the cost, or
  -- it denies it under a policy that tolerates this.
  unfoldable pub passes : A → Scope A → Bool
  passes cost sc = skipped sc || elim (sc.check_func sc.id cost) [
    | store_error e ↦ false
    | answer r ↦ tolerated (scope_result sc r)
  ]

  unfoldable pub all_pass : A → List (Scope A) → Bool
  all_pass cost [] = true
  all_pass cost (sc ∷ scs) = passes cost sc && all_pass cost scs

  abbrev pub lets_through : Outcome A → Bool
  lets_through (failed scope error) = false
  lets_through (checked r) = r.allowed

  abbrev allows : Round A → Bool
  allows (next acc) = true
  allows (returns outcome) = lets_through outcome

  Reply-cases :
      (r : Reply A)
      → ((e : String) × (r ≡ store_error e)) ⊎ ((b : BudgetCheckResult A) × (r ≡ answer b))
  Reply-cases (store_error e) = inl (e, refl)
  Reply-cases (answer b) = inr (b, refl)

  Round-cases :
      (r : Round A) → ((acc : CheckResult A) × (r ≡ next acc)) ⊎ ((o : Outcome A) × (r ≡ returns o))
  Round-cases (next acc) = inl (acc, refl)
  Round-cases (returns o) = inr (o, refl)

  -- One round goes on exactly on a scope that passes, and lets the request through on no other.
  check_scope-passes :
      (cost : A) (sc : Scope A) (acc : CheckResult A)
      → allows (check_scope cost sc acc) ≡ passes cost sc
  unfolding check_scope passes
  check_scope-passes cost sc acc = elim (Reply-cases (sc.check_func sc.id cost)) [
    | inl (e, f) ↦ ground (arith, f)
    | inr (r, f) ↦ ground (arith, f, policy_action-tolerant (scope_result sc r).policy)
  ]

  check_scope-next :
      (cost : A) (sc : Scope A) (acc acc' : CheckResult A)
      → check_scope cost sc acc ≡ next acc'
      → acc'.allowed ≡ acc.allowed
  unfolding check_scope
  check_scope-next cost sc acc acc' h = ground arith

  check_scope-returns :
      (cost : A) (sc : Scope A) (acc : CheckResult A) (o : Outcome A)
      → check_scope cost sc acc ≡ returns o
      → lets_through o ≡ false
  unfolding check_scope
  check_scope-returns cost sc acc o h = ground arith

  check_loop-all_pass :
      (cost : A) (scs : List (Scope A)) (acc : CheckResult A)
      → acc.allowed ≡ true
      → lets_through (check_loop cost scs acc) ≡ all_pass cost scs
  unfolding check_loop all_pass
  check_loop-all_pass cost [] acc h = h
  check_loop-all_pass cost (sc ∷ scs) acc h = elim (Round-cases (check_scope cost sc acc)) [
    | inl (acc', f) ↦ ground (
      arith,
      f,
      check_scope-passes cost sc acc,
      check_scope-next cost sc acc acc' f,
      check_loop-all_pass cost scs acc',
    )
    | inr (o, f) ↦
        ground (arith, f, check_scope-passes cost sc acc, check_scope-returns cost sc acc o f)
  ]

  -- `Check` lets a request through exactly when every scope of it passes: the scopes with no id but
  -- the tenant's are not asked about, and of the others the store allows the cost, or denies it
  -- under the policy soft_alert or grace. An unknown policy blocks like hard_reject.
  pub check-all_pass :
      (s : BudgetStore A) (req : CheckRequest A)
      → lets_through (check s req) ≡ all_pass req.estimated_cost (scopes_of s req.identity)
  unfolding check
  check-all_pass s req = check_loop-all_pass req.estimated_cost (scopes_of s req.identity) _ refl

  abbrev pub alerting : List (ScopeResult A) → Bool
  alerting [] = false
  alerting (sr ∷ srs) = (not sr.allowed && sr.policy == soft_alert) || alerting srs

  -- The result's fields agree with the scopes that it lists.
  abbrev IsSettled : CheckResult A → Type 0
  IsSettled r =
      (r.alert_sent ≡ alerting r.scopes)
      × (r.reject_error ≡ (if r.allowed then none else some budget_hard_rejected))

  alerting-append :
      (xs : List (ScopeResult A)) (sr : ScopeResult A)
      → alerting (xs ++ sr ∷ []) ≡ (alerting xs || (not sr.allowed && sr.policy == soft_alert))
  alerting-append [] sr = ground arith
  alerting-append (x ∷ xs) sr = ground (arith, alerting-append xs sr)

  check_scope-next-IsSettled :
      (cost : A) (sc : Scope A) (acc acc' : CheckResult A)
      → IsSettled acc
      → check_scope cost sc acc ≡ next acc'
      → IsSettled acc'
  unfolding check_scope
  check_scope-next-IsSettled cost sc acc acc' h e = elim (Reply-cases (sc.check_func sc.id cost)) [
    | inl (x, f) ↦ ground (arith, f)
    | inr (r, f) ↦ ground (
      arith,
      f,
      policy_action-alert (scope_result sc r).policy,
      alerting-append acc.scopes (scope_result sc r),
    )
  ]

  check_scope-returns-IsSettled :
      (cost : A) (sc : Scope A) (acc r : CheckResult A)
      → IsSettled acc
      → check_scope cost sc acc ≡ returns (checked r)
      → IsSettled r
  unfolding check_scope
  check_scope-returns-IsSettled cost sc acc r h e = elim (Reply-cases (sc.check_func sc.id cost)) [
    | inl (x, f) ↦ ground (arith, f)
    | inr (b, f) ↦ ground (
      arith,
      f,
      policy_action-alert (scope_result sc b).policy,
      alerting-append acc.scopes (scope_result sc b),
    )
  ]

  check_loop-IsSettled :
      (cost : A) (scs : List (Scope A)) (acc r : CheckResult A)
      → IsSettled acc
      → check_loop cost scs acc ≡ checked r
      → IsSettled r
  unfolding check_loop
  check_loop-IsSettled cost [] acc r h e = ground (arith, e)
  check_loop-IsSettled cost (sc ∷ scs) acc r h e = elim (Round-cases (check_scope cost sc acc)) [
    | inl (acc', f) ↦
        check_loop-IsSettled cost scs acc' r (check_scope-next-IsSettled cost sc acc acc' h f)
          (ground (arith, e, f))
    | inr (o, f) ↦ check_scope-returns-IsSettled cost sc acc r h (ground (arith, e, f))
  ]

  -- A result that `Check` returns lists what happened: AlertSent is set exactly if a listed scope
  -- was denied under soft_alert, and RejectError exactly if the request is not allowed.
  pub check-IsSettled :
      (s : BudgetStore A) (req : CheckRequest A) (r : CheckResult A)
      → check s req ≡ checked r
      → (r.alert_sent ≡ alerting r.scopes)
        × (r.reject_error ≡ (if r.allowed then none else some budget_hard_rejected))
  unfolding check
  check-IsSettled s req r =
      check_loop-IsSettled req.estimated_cost (scopes_of s req.identity) _ r (refl, refl)
