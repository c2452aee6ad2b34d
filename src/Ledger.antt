-- ===== src/Ledger.antt =====
-- internal/repository/sqlstore/budget_ledger.go: the Redis ledger of budgets and quotas. A Lua script
-- runs as one step on the hashes. Amounts are integers of a smallest unit, where the source has
-- floats. A hash that is missing reads as the script's `or` says, and HINCRBYFLOAT makes it.
pub mod Bound
pub mod Spent
pub mod Holds
pub mod Flush
use gateyes.Common.{
  String, Bool, true, false, ◌&&◌, ◌||◌, Option, none, some, List, [], ◌∷◌, ◌==◌, string_eq,
  if◌then◌else◌, Map, lookup, insert, ℤ, pos, ◌+ℤ◌, ◌-ℤ◌, ltb_ℤ,
}
use Prim.Native.String.{◌++◌ as concat}

-- The fields of a key `budget:ledger:<scope>:<id>`.
pub record BudgetHash : Type 0 where
  pub budget : ℤ
  pub spent : ℤ
  pub reserved : ℤ
  pub policy : String
  pub delta_spent : ℤ
  pub delta_reserved : ℤ

-- The fields of a key `quota:ledger:user:<id>`.
pub record QuotaHash : Type 0 where
  pub quota : ℤ
  pub used : ℤ
  pub delta_used : ℤ

pub record Redis : Type 0 where
  pub budgets : Map String BudgetHash
  pub quotas : Map String QuotaHash

abbrev pub no_budget : BudgetHash
no_budget = record {
  budget = pos 0;
  spent = pos 0;
  reserved = pos 0;
  policy = "hard_reject";
  delta_spent = pos 0;
  delta_reserved = pos 0;
}

abbrev pub no_quota : QuotaHash
no_quota = record { quota = pos 0; used = pos 0; delta_used = pos 0 }

abbrev pub or_else {ℓ} : {A : Type ℓ} → A → Option A → A
or_else d none = d
or_else d (some a) = a

unfoldable pub budget_at : String → Map String BudgetHash → BudgetHash
budget_at k m = or_else no_budget (lookup k m)

abbrev pub positive : ℤ → Bool
positive a = ltb_ℤ (pos 0) a

-- `spent + reserved + amount > budget`, for a budget that is enforced.
unfoldable pub exceeds : ℤ → BudgetHash → Bool
exceeds amount h =
    positive h.budget
    && h.policy == "hard_reject"
    && ltb_ℤ h.budget (h.spent +ℤ h.reserved +ℤ amount)

-- The scripts' first loop, up to the first budget that is exceeded.
unfoldable pub any_exceeds : ℤ → List String → Map String BudgetHash → Bool
any_exceeds amount [] m = false
any_exceeds amount (k ∷ ks) m = exceeds amount (budget_at k m) || any_exceeds amount ks m

-- The scripts' second loop.
unfoldable pub adjust_all :
    (BudgetHash → BudgetHash) → List String → Map String BudgetHash → Map String BudgetHash
adjust_all f [] m = m
adjust_all f (k ∷ ks) m = adjust_all f ks (insert k (f (budget_at k m)) m)

unfoldable pub spend : ℤ → BudgetHash → BudgetHash
spend amount h = record h { spent = h.spent +ℤ amount; delta_spent = h.delta_spent +ℤ amount }

unfoldable pub hold : ℤ → BudgetHash → BudgetHash
hold amount h = record h {
  reserved = h.reserved +ℤ amount;
  delta_reserved = h.delta_reserved +ℤ amount;
}

unfoldable pub unhold : ℤ → BudgetHash → BudgetHash
unhold amount h = record h {
  reserved = h.reserved -ℤ amount;
  delta_reserved = h.delta_reserved -ℤ amount;
}

-- What a script answers: whether it was allowed, and the reason.
abbrev pub Answer : Type 0
Answer = Bool × String

-- `consumeBudgetLedgerScript`; the quota's key is there if `has_quota` is.
unfoldable pub consume_budget_ledger : ℤ → ℤ → Option String → List String → Redis → Redis × Answer
consume_budget_ledger amount tokens quota_key keys r = elim quota_key [
  | none ↦ budgets_part r
  | some q ↦
      let h = or_else no_quota (lookup q r.quotas) in
      if positive tokens && positive h.quota && ltb_ℤ h.quota (h.used +ℤ tokens)
      then (r, (false, "quota"))
      else budgets_part (
          if positive tokens
          then record r {
            quotas =
                insert q (record h { used = h.used +ℤ tokens; delta_used = h.delta_used +ℤ tokens })
                  r.quotas;
          }
          else r)
]
  where
    -- The result if no budget is exceeded, `charged` having the quota's part of the writes.
    budgets_part : Redis → Redis × Answer
    budgets_part charged =
        if positive amount && any_exceeds amount keys r.budgets then (r, (false, "budget")) else (
          record charged {
            budgets =
                if positive amount then adjust_all (spend amount) keys r.budgets else r.budgets;
          },
          (true, ""),
        )

unfoldable pub reserve_budget_ledger : ℤ → List String → Redis → Redis × Answer
reserve_budget_ledger amount keys r =
    if positive amount
    then (if any_exceeds amount keys r.budgets
        then (r, (false, "budget"))
        else (record r { budgets = adjust_all (hold amount) keys r.budgets }, (true, "")))
    else (r, (true, ""))

unfoldable pub commit_budget_ledger : ℤ → List String → Redis → Redis × Answer
commit_budget_ledger amount keys r =
    if positive amount
    then (
      record r { budgets = adjust_all (λ h. spend amount (unhold amount h)) keys r.budgets },
      (true, ""),
    )
    else (r, (true, ""))

unfoldable pub release_budget_ledger : ℤ → List String → Redis → Redis × Answer
release_budget_ledger amount keys r =
    if positive amount
    then (record r { budgets = adjust_all (unhold amount) keys r.budgets }, (true, ""))
    else (r, (true, ""))

-- One run of a script, with its keys and amounts.
pub data Script : Type 0 where
  consume : ℤ → ℤ → Option String → List String → Script
  reserve commit release : ℤ → List String → Script

unfoldable pub eval : Script → Redis → Redis × Answer
unfolding consume_budget_ledger reserve_budget_ledger commit_budget_ledger release_budget_ledger
eval (consume amount tokens q keys) = consume_budget_ledger amount tokens q keys
eval (reserve amount keys) = reserve_budget_ledger amount keys
eval (commit amount keys) = commit_budget_ledger amount keys
eval (release amount keys) = release_budget_ledger amount keys

-- Scripts of any number of servers, one after another, in the order Redis runs them.
unfoldable pub eval_all : List Script → Redis → Redis
eval_all [] r = r
eval_all (s ∷ ss) r = eval_all ss (eval s r).0
