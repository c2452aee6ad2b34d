-- ===== src/Budget.antt =====
-- internal/service/budget/budget.go: `Check` asks the store about the budgets of a request, from
-- the narrowest scope to the tenant. Amounts are of any type, since the code only hands them on; the
-- store is a record of functions, and a missing answer of it is an error's text.
pub mod Verdict
use gateyes.Common.{
  String, Bool, true, false, not, ◌&&◌, Option, none, some, List, [], ◌∷◌, ◌++◌, ◌==◌, string_eq,
  if◌then◌else◌,
}

abbrev pub hard_reject : String
hard_reject = "hard_reject"

abbrev pub soft_alert : String
soft_alert = "soft_alert"

abbrev pub grace : String
grace = "grace"

pub data BudgetError : Type 0 where
  budget_hard_rejected : BudgetError
  budget_soft_alert : BudgetError

pub record BudgetCheckResult (A : Type 0) : Type 0 where
  pub allowed : Bool
  pub policy : String
  pub remaining : A

pub data Reply (A : Type 0) : Type 0 where
  answer : BudgetCheckResult A → Reply A
  store_error : String → Reply A

pub record BudgetStore (A : Type 0) : Type 0 where
  pub check_api_key_budget : String → A → Reply A
  pub check_project_budget : String → A → Reply A
  pub check_tenant_budget : String → A → Reply A
  pub check_virtual_key_budget : String → A → Reply A

-- What `Check` reads of a `repository.AuthIdentity`.
pub record AuthIdentity : Type 0 where
  pub tenant_id : String
  pub project_id : String
  pub api_key_id : String
  pub virtual_key_id : String
  pub tenant_budget_policy : String
  pub project_budget_policy : String
  pub api_key_budget_policy : String
  pub virtual_key_budget_policy : String

pub record CheckRequest (A : Type 0) : Type 0 where
  pub identity : AuthIdentity
  pub estimated_cost : A
  pub provider_name : String
  pub model : String

pub record ScopeResult (A : Type 0) : Type 0 where
  pub scope : String
  pub policy : String
  pub allowed : Bool
  pub remaining : A

pub record CheckResult (A : Type 0) : Type 0 where
  pub allowed : Bool
  pub reject_error : Option BudgetError
  pub alert_sent : Bool
  pub scopes : List (ScopeResult A)

-- `fmt.Errorf("check %s budget: %w", scope.name, err)`, or a result with a nil error.
pub data Outcome (A : Type 0) : Type 0 where
  failed : String → String → Outcome A
  checked : CheckResult A → Outcome A

-- An element of the slice `scopes`.
pub record Scope (A : Type 0) : Type 0 where
  pub check_func : String → A → Reply A
  pub id : String
  pub name : String
  pub policy : String

-- The `switch` on the policy of a scope whose budget is exhausted.
pub data PolicyAction : Type 0 where
  reject alert let_pass : PolicyAction

unfoldable pub policy_action : String → PolicyAction
policy_action p =
    if p == hard_reject
    then reject
    else if p == soft_alert
    then alert
    else if p == grace
    then let_pass
    else reject

-- How a round of the loop ends: it goes on with a result, or `Check` returns.
pub data Round (A : Type 0) : Type 0 where
  next : CheckResult A → Round A
  returns : Outcome A → Round A

module _ {A : Type 0} where
  unfoldable pub scopes_of : BudgetStore A → AuthIdentity → List (Scope A)
  scopes_of s i =
      record {
        check_func = s.check_virtual_key_budget;
        id = i.virtual_key_id;
        name = "virtual_key";
        policy = i.virtual_key_budget_policy;
      }
      ∷ record {
        check_func = s.check_api_key_budget;
        id = i.api_key_id;
        name = "api_key";
        policy = i.api_key_budget_policy;
      }
      ∷ record {
        check_func = s.check_project_budget;
        id = i.project_id;
        name = "project";
        policy = i.project_budget_policy;
      }
      ∷ record {
        check_func = s.check_tenant_budget;
        id = i.tenant_id;
        name = "tenant";
        policy = i.tenant_budget_policy;
      }
      ∷ []

  -- The loop's `continue`.
  unfoldable pub skipped : Scope A → Bool
  skipped sc = sc.id == "" && not (sc.name == "tenant")

  unfoldable pub scope_result : Scope A → BudgetCheckResult A → ScopeResult A
  scope_result sc r = record {
    scope = sc.name;
    policy = if r.policy == "" then sc.policy else r.policy;
    allowed = r.allowed;
    remaining = r.remaining;
  }

  abbrev rejected : CheckResult A → CheckResult A
  rejected acc = record acc { allowed = false; reject_error = some budget_hard_rejected }

  -- The body of the loop, on the result so far.
  unfoldable pub check_scope : A → Scope A → CheckResult A → Round A
  check_scope cost sc acc = if skipped sc then next acc else elim (sc.check_func sc.id cost) [
    | store_error e ↦ returns (failed sc.name e)
    | answer r ↦
        let sr = scope_result sc r in
        let acc' = record acc { scopes = acc.scopes ++ sr ∷ [] } in
        if sr.allowed then next acc' else elim (policy_action sr.policy) [
          | reject ↦ returns (checked (rejected acc'))
          | alert ↦ next (record acc' { alert_sent = true })
          | let_pass ↦ next acc'
        ]
  ]

  unfoldable pub check_loop : A → List (Scope A) → CheckResult A → Outcome A
  check_loop cost [] acc = checked acc
  check_loop cost (sc ∷ scs) acc = elim (check_scope cost sc acc) [
    | next acc' ↦ check_loop cost scs acc'
    | returns outcome ↦ outcome
  ]

  unfoldable pub check : BudgetStore A → CheckRequest A → Outcome A
  check s req =
      check_loop req.estimated_cost (scopes_of s req.identity)
        (record { allowed = true; reject_error = none; alert_sent = false; scopes = [] })
