-- ===== src/Batch/Store/Outcomes.antt =====
-- The transactions of internal/repository/sqlstore/batches.go that give items their outcome:
-- updateBatchItemTerminal with its three callers, and CancelBatchJob.
use gateyes.Common.{
  ℕ, String, Bool, not, ◌&&◌, Option, none, some, string_eq, nat_eq, ltb, if◌then◌else◌, pos, ◌+ℤ◌,
}
use gateyes.Batch.Rows.{
  BatchStatus, BatchItemStatus, is_item_status, BatchJobRecord, BatchItemRecord, BatchItemUpdate,
  Tables, is_job, is_item, is_of_job, count_where, update_where,
}
use gateyes.Batch.Store.Inserts.{
  BatchError, not_found, cannot_cancel, Stored, ok, err, get_batch_job, get_batch_item,
}
use gateyes.Batch.Store.Claims.{is_terminal, job_of}
use gateyes.Batch.Store.Summary.{count_status, refresh_batch_job_status}

abbrev pub finish_item : ℕ → BatchItemStatus → BatchItemUpdate → BatchItemRecord → BatchItemRecord
finish_item now status u i = record i {
  status = status;
  response_body = u.response_body;
  error = u.error;
  response_id = u.response_id;
  updated_at = now;
}

abbrev pub add_tokens_of : BatchItemUpdate → BatchJobRecord → BatchJobRecord
add_tokens_of u j = record j {
  prompt_tokens = j.prompt_tokens +ℤ u.prompt_tokens;
  completion_tokens = j.completion_tokens +ℤ u.completion_tokens;
  total_tokens = j.total_tokens +ℤ u.total_tokens;
  cached_tokens = j.cached_tokens +ℤ u.cached_tokens;
}

-- An item that is not terminal yet.
abbrev pub is_open : String → String → BatchItemRecord → Bool
is_open tenant id i = is_item tenant id i && not (is_terminal i.status)

-- The tables after the item's UPDATE and, for a completed item, that of the token counters.
unfoldable pub with_outcome :
    ℕ → String → String → String → BatchItemStatus → BatchItemUpdate → Tables → Tables
with_outcome now tenant id job status u t = record {
  batch_jobs =
      if is_item_status status BatchItemStatus.completed
      then update_where (is_job tenant job) (add_tokens_of u) t.batch_jobs
      else t.batch_jobs;
  batch_items = update_where (is_open tenant id) (finish_item now status u) t.batch_items;
}

abbrev pub or_rolled_back : Tables → Option Tables → Tables
or_rolled_back t none = t
or_rolled_back t (some t') = t'

unfoldable pub update_batch_item_terminal :
    ℕ → String → String → BatchItemStatus → BatchItemUpdate → Tables → Tables
unfolding get_batch_item with_outcome refresh_batch_job_status
update_batch_item_terminal now tenant id status u t =
    if ltb 0 (count_where (is_open tenant id) t.batch_items)
    then elim (job_of tenant id t) [
      | none ↦ t
      | some job ↦
          or_rolled_back t (
            refresh_batch_job_status now tenant job none
              (with_outcome now tenant id job status u t))
    ]
    else t

abbrev pub no_update : BatchItemUpdate
no_update = record {
  response_body = "";
  response_id = "";
  error = "";
  prompt_tokens = pos 0;
  completion_tokens = pos 0;
  total_tokens = pos 0;
  cached_tokens = pos 0;
}

unfoldable pub complete_batch_item : ℕ → String → String → BatchItemUpdate → Tables → Tables
unfolding update_batch_item_terminal
complete_batch_item now tenant id u t =
    update_batch_item_terminal now tenant id BatchItemStatus.completed u t

unfoldable pub fail_batch_item : ℕ → String → String → BatchItemUpdate → Tables → Tables
unfolding update_batch_item_terminal
fail_batch_item now tenant id u t =
    update_batch_item_terminal now tenant id BatchItemStatus.failed u t

unfoldable pub cancel_batch_item : ℕ → String → String → Tables → Tables
unfolding update_batch_item_terminal
cancel_batch_item now tenant id t =
    update_batch_item_terminal now tenant id BatchItemStatus.cancelled no_update t

abbrev pub is_waiting : String → String → BatchItemRecord → Bool
is_waiting tenant job i = is_of_job tenant job i && is_item_status i.status BatchItemStatus.pending

abbrev pub cancel_item : ℕ → BatchItemRecord → BatchItemRecord
cancel_item now i = record i { status = BatchItemStatus.cancelled; updated_at = now }

unfoldable pub with_waiting_cancelled : ℕ → String → String → Tables → Tables
with_waiting_cancelled now tenant job t = record t {
  batch_items = update_where (is_waiting tenant job) (cancel_item now) t.batch_items;
}

-- `nextStatus` of `CancelBatchJob`.
abbrev pub status_after_cancel : ℕ → BatchStatus
status_after_cancel running =
    if ltb 0 running then BatchStatus.cancelling else BatchStatus.cancelled

-- What the transaction leaves, from the status of the job.
unfoldable pub cancel_from : ℕ → String → String → BatchStatus → Tables → Tables × Option BatchError
unfolding with_waiting_cancelled refresh_batch_job_status
cancel_from now tenant job BatchStatus.completed t = (t, some (cannot_cancel BatchStatus.completed))
cancel_from now tenant job BatchStatus.failed t = (t, some (cannot_cancel BatchStatus.failed))
cancel_from now tenant job BatchStatus.cancelled t = (t, none)
cancel_from now tenant job BatchStatus.cancelling t = (t, none)
cancel_from now tenant job _ t =
    let t' : Tables = with_waiting_cancelled now tenant job t in
    let running : ℕ = count_status tenant job BatchItemStatus.running t'.batch_items in
    (
      or_rolled_back t
          (refresh_batch_job_status now tenant job (some (status_after_cancel running)) t'),
      none,
    )

abbrev pub or_not_found : Option BatchJobRecord → Stored BatchJobRecord
or_not_found none = err not_found
or_not_found (some j) = ok j

-- The job is read again, once the transaction is committed.
unfoldable pub after_cancel :
    String → String → Tables × Option BatchError → Tables × Stored BatchJobRecord
unfolding get_batch_job
after_cancel tenant job (t, some e) = (t, err e)
after_cancel tenant job (t, none) = (t, or_not_found (get_batch_job tenant job t))

unfoldable pub cancel_batch_job : ℕ → String → String → Tables → Tables × Stored BatchJobRecord
unfolding get_batch_job cancel_from after_cancel
cancel_batch_job now tenant job t = elim (get_batch_job tenant job t) [
  | none ↦ (t, err not_found)
  | some j ↦ after_cancel tenant job (cancel_from now tenant job j.status t)
]
