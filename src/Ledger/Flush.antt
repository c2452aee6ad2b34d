-- ===== src/Ledger/Flush.antt =====
-- `flushBudgetScopeDelta` of internal/repository/sqlstore/budget_ledger.go for one scope: it moves
-- what the scripts charged from the hash to the row of the table, in Redis and SQL commands between
-- which scripts run. The lock, which is not outlived, lets one flush run at a time.
pub mod Settled
use gateyes.Common.{
  Bool, true, false, ◌&&◌, not, List, [], ◌∷◌, if◌then◌else◌, String, ℤ, pos, ◌+ℤ◌, ◌-ℤ◌, ltb_ℤ,
}
use gateyes.Ledger.{BudgetHash, spend, hold, unhold}

-- The columns of the scope's row that the ledger reads and writes.
pub record Row : Type 0 where
  pub spent_usd : ℤ
  pub reserved_usd : ℤ

-- Where the flush stands: before its commands, or with the deltas that it has read.
pub data Phase : Type 0 where
  idle : Phase
  read_spent : ℤ → Phase
  read_both updated : ℤ → ℤ → Phase
  spent_settled : ℤ → Phase

pub record World : Type 0 where
  pub hash : BudgetHash
  pub row : Row
  pub phase : Phase

-- What a script does to the hash.
pub data Charge : Type 0 where
  spending holding committing unholding : ℤ → Charge

unfoldable pub charge : Charge → BudgetHash → BudgetHash
unfolding spend hold unhold
charge (spending a) h = spend a h
charge (holding a) h = hold a h
charge (committing a) h = spend a (unhold a h)
charge (unholding a) h = unhold a h

abbrev pub is_zero : ℤ → Bool
is_zero a = not (ltb_ℤ a (pos 0)) && not (ltb_ℤ (pos 0) a)

-- The UPDATE: reserved_usd does not go below zero.
unfoldable pub update_row : ℤ → ℤ → Row → Row
update_row spent_delta reserved_delta row = record {
  spent_usd = row.spent_usd +ℤ spent_delta;
  reserved_usd =
      if ltb_ℤ (row.reserved_usd +ℤ reserved_delta) (pos 0)
      then pos 0
      else row.reserved_usd +ℤ reserved_delta;
}

-- The next command of the flush.
unfoldable pub flush_step : World → World
flush_step w = elim w.phase [
  | idle ↦ record w { phase = read_spent (w.hash.delta_spent) }
  | read_spent s ↦ record w { phase = read_both s (w.hash.delta_reserved) }
  | read_both s r ↦
      if is_zero s && is_zero r
      then record w { phase = idle }
      else record w { row = update_row s r w.row; phase = updated s r }
  | updated s r ↦ record w {
    hash = if is_zero s then w.hash else record (w.hash) { delta_spent = w.hash.delta_spent -ℤ s };
    phase = spent_settled r;
  }
  | spent_settled r ↦ record w {
    hash =
        if is_zero r
        then w.hash
        else record (w.hash) { delta_reserved = w.hash.delta_reserved -ℤ r };
    phase = idle;
  }
]

-- One of the last two commands fails: the error is dropped, and the flush goes on without it.
unfoldable pub drop_error : World → World
drop_error w = elim w.phase [
  | updated s r ↦ record w { phase = spent_settled r }
  | spent_settled r ↦ record w { phase = idle }
  | _ ↦ w
]

-- A read or the UPDATE fails: the flush returns the error.
unfoldable pub give_up : World → World
give_up w = elim w.phase [
  | read_spent s ↦ record w { phase = idle }
  | read_both s r ↦ record w { phase = idle }
  | _ ↦ w
]

pub data Event : Type 0 where
  script_runs : Charge → Event
  flush_goes_on flush_gives_up flush_drops_error : Event

unfoldable pub step : Event → World → World
unfolding charge flush_step give_up drop_error update_row
step (script_runs c) w = record w { hash = charge c w.hash }
step flush_goes_on w = flush_step w
step flush_gives_up w = give_up w
step flush_drops_error w = drop_error w

unfoldable pub run : List Event → World → World
run [] w = w
run (e ∷ es) w = run es (step e w)

-- The hash as `ensureBudgetLedgerScope` makes it from the row.
unfoldable pub load : ℤ → String → Row → World
load budget policy row = record {
  hash = record {
    budget = budget;
    spent = row.spent_usd;
    reserved = row.reserved_usd;
    policy = policy;
    delta_spent = pos 0;
    delta_reserved = pos 0;
  };
  row = row;
  phase = idle;
}
