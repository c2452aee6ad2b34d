-- ===== src/Batch/Store/Summary.antt =====
-- refreshBatchJobStatusTx of internal/repository/sqlstore/batches.go: the counters and the status of a job.
use gateyes.Common.{
  ℕ, ◌+◌, ◌/◌, String, Bool, ◌&&◌, ◌||◌, Option, none, some, List, ◌==◌, string_eq, nat_eq, ltb,
  leb, if◌then◌else◌,
}
use gateyes.Batch.Rows.{
  BatchStatus, BatchItemStatus, is_status, is_item_status, BatchJobRecord, BatchItemRecord, Tables,
  is_job, is_of_job, count_where, update_where,
}
use gateyes.Batch.Store.Inserts.{second, get_batch_job}

-- The summary of a job's items.
pub record Counts : Type 0 where
  pub total : ℕ
  pub completed : ℕ
  pub failed : ℕ
  pub cancelled : ℕ
  pub running : ℕ

abbrev pub count_status : String → String → BatchItemStatus → List BatchItemRecord → ℕ
count_status tenant job s items =
    count_where (λ i. is_of_job tenant job i && is_item_status i.status s) items

unfoldable pub summarize : String → String → List BatchItemRecord → Counts
summarize tenant job items = record {
  total = count_where (is_of_job tenant job) items;
  completed = count_status tenant job BatchItemStatus.completed items;
  failed = count_status tenant job BatchItemStatus.failed items;
  cancelled = count_status tenant job BatchItemStatus.cancelled items;
  running = count_status tenant job BatchItemStatus.running items;
}

-- The switch of `refreshBatchJobStatusTx`.
unfoldable pub next_status : Option BatchStatus → BatchStatus → Counts → BatchStatus
next_status (some preferred) current c = preferred
next_status none current c =
    let terminal : ℕ = c.completed + c.failed + c.cancelled in
    if is_status current BatchStatus.cancelled
    then BatchStatus.cancelled
    else if is_status current BatchStatus.cancelling && leb c.total terminal
    then BatchStatus.cancelled
    else if is_status current BatchStatus.cancelling
    then BatchStatus.cancelling
    else if ltb 0 c.cancelled && leb c.total terminal
    then BatchStatus.cancelled
    else if leb c.total terminal && ltb 0 c.failed
    then BatchStatus.failed
    else if leb c.total terminal
    then BatchStatus.completed
    else if ltb 0 c.running || ltb 0 c.completed || ltb 0 c.failed || ltb 0 c.cancelled
    then BatchStatus.running
    else BatchStatus.pending

-- `CASE WHEN status = ? AND at = 0 THEN now ELSE at END`.
abbrev pub stamp : Bool → ℕ → ℕ → ℕ
stamp reached at now = if reached && at == 0 then now / second else at

abbrev pub summarized : ℕ → BatchStatus → Counts → BatchJobRecord → BatchJobRecord
summarized now status c j = record j {
  status = status;
  completed_items = c.completed;
  failed_items = c.failed;
  cancelled_items = c.cancelled;
  completed_at = stamp (is_status status BatchStatus.completed) j.completed_at now;
  failed_at = stamp (is_status status BatchStatus.failed) j.failed_at now;
  cancelled_at = stamp (is_status status BatchStatus.cancelled) j.cancelled_at now;
  updated_at = now;
}

-- A job that is not there is an error, and the transaction is rolled back: `none`.
unfoldable pub refresh_batch_job_status :
    ℕ → String → String → Option BatchStatus → Tables → Option Tables
unfolding get_batch_job summarize next_status
refresh_batch_job_status now tenant job preferred t =
    let c : Counts = summarize tenant job t.batch_items in
    elim (get_batch_job tenant job t) [
      | none ↦ none
      | some j ↦ some record t {
        batch_jobs =
            update_where (is_job tenant job) (summarized now (next_status preferred j.status c) c)
              t.batch_jobs;
      }
    ]
