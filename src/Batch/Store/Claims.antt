-- ===== src/Batch/Store/Claims.antt =====
-- MarkBatchItemRunning of internal/repository/sqlstore/batches.go: a handler claims an item.
use gateyes.Common.{
  ℕ, ◌/◌, String, Bool, true, false, not, ◌&&◌, ◌||◌, Option, none, some, ◌==◌, string_eq, nat_eq,
  ltb, if◌then◌else◌,
}
use gateyes.Batch.Rows.{
  BatchStatus, BatchItemStatus, is_status, is_item_status, BatchJobRecord, BatchItemRecord, Tables,
  is_job, is_item, count_where, update_where,
}
use gateyes.Batch.Store.Inserts.{second, get_batch_item}

-- `status NOT IN (completed, failed, cancelling, cancelled)`.
abbrev pub takes_work : BatchStatus → Bool
takes_work s = not (
    is_status s BatchStatus.completed
    || is_status s BatchStatus.failed
    || is_status s BatchStatus.cancelling
    || is_status s BatchStatus.cancelled)

abbrev pub is_terminal : BatchItemStatus → Bool
is_terminal s =
    is_item_status s BatchItemStatus.completed
    || is_item_status s BatchItemStatus.failed
    || is_item_status s BatchItemStatus.cancelled

-- The condition of the UPDATE that claims an item; a running item is claimed again.
abbrev pub claimable : Tables → String → String → BatchItemRecord → Bool
claimable t tenant id i =
    is_item tenant id i
    && (is_item_status i.status BatchItemStatus.pending
        || is_item_status i.status BatchItemStatus.running)
    && ltb 0 (count_where (λ j. is_job i.tenant_id i.job_id j && takes_work j.status) t.batch_jobs)

abbrev pub start_item : ℕ → BatchItemRecord → BatchItemRecord
start_item now i = record i { status = BatchItemStatus.running; updated_at = now }

abbrev pub start_job : ℕ → BatchJobRecord → BatchJobRecord
start_job now j = record j {
  status = if is_status j.status BatchStatus.pending then BatchStatus.running else j.status;
  in_progress_at = if j.in_progress_at == 0 then now / second else j.in_progress_at;
  updated_at = now;
}

-- The job of an item: `SELECT job_id FROM batch_items`.
abbrev pub job_of : String → String → Tables → Option String
job_of tenant id t = elim (get_batch_item tenant id t) [ none ↦ none | some i ↦ some (i.job_id) ]

unfoldable pub mark_batch_item_running : ℕ → String → String → Tables → Tables × Bool
unfolding get_batch_item
mark_batch_item_running now tenant id t =
    if ltb 0 (count_where (claimable t tenant id) t.batch_items)
    then (
      record {
        batch_jobs = elim (job_of tenant id t) [
          | none ↦ t.batch_jobs
          | some job ↦ update_where (is_job tenant job) (start_job now) t.batch_jobs
        ];
        batch_items = update_where (claimable t tenant id) (start_item now) t.batch_items;
      },
      true,
    )
    else (t, false)
