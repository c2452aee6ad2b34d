-- ===== src/Batch/Store/Inserts.antt =====
-- The rows that CreateBatchJob and CreateBatchItem of internal/repository/sqlstore/batches.go insert, and
-- the SELECTs for one row.
use gateyes.Common.{
  ℕ, String, ◌&&◌, ◌||◌, Option, ◌∷◌, ◌==◌, string_eq, nat_eq, ltb, if◌then◌else◌, pos,
}
use gateyes.Batch.Rows.{
  BatchStatus, BatchItemStatus, BatchJobRecord, BatchItemRecord, Tables, is_job, is_item,
  find_where, count_where,
}

pub data BatchError : Type 0 where
  tenant_required total_not_positive job_required not_found duplicate_key : BatchError
  cannot_cancel : BatchStatus → BatchError

pub data Stored (A : Type 0) : Type 0 where
  ok : A → Stored A
  err : BatchError → Stored A

pub record CreateBatchJobParams : Type 0 where
  pub tenant_id : String
  pub project_id : String
  pub user_id : String
  pub api_key_id : String
  pub endpoint : String
  pub model : String
  pub completion_window : String
  pub total_items : ℕ
  pub request_body : String
  pub metadata : String

pub record CreateBatchItemParams : Type 0 where
  pub job_id : String
  pub tenant_id : String
  pub index : ℕ
  pub custom_id : String
  pub request_body : String

-- `time.Now().UTC().Unix()`.
abbrev pub second : ℕ
second = 1000000000

unfoldable pub get_batch_job : String → String → Tables → Option BatchJobRecord
get_batch_job tenant id t = find_where (is_job tenant id) t.batch_jobs

unfoldable pub get_batch_item : String → String → Tables → Option BatchItemRecord
get_batch_item tenant id t = find_where (is_item tenant id) t.batch_items

abbrev pub new_job : ℕ → String → CreateBatchJobParams → BatchJobRecord
new_job now id p = record {
  id = id;
  tenant_id = p.tenant_id;
  project_id = p.project_id;
  user_id = p.user_id;
  api_key_id = p.api_key_id;
  status = BatchStatus.pending;
  endpoint = p.endpoint;
  model = p.model;
  completion_window = if p.completion_window == "" then "24h" else p.completion_window;
  total_items = p.total_items;
  completed_items = 0;
  failed_items = 0;
  cancelled_items = 0;
  prompt_tokens = pos 0;
  completion_tokens = pos 0;
  total_tokens = pos 0;
  cached_tokens = pos 0;
  request_body = p.request_body;
  metadata = if p.metadata == "" then "{}" else p.metadata;
  error = "";
  in_progress_at = 0;
  completed_at = 0;
  failed_at = 0;
  cancelled_at = 0;
  created_at = now;
  updated_at = now;
}

unfoldable pub create_batch_job :
    ℕ → String → CreateBatchJobParams → Tables → Tables × Stored BatchJobRecord
create_batch_job now id p t =
    if p.tenant_id == ""
    then (t, err tenant_required)
    else if p.total_items == 0
    then (t, err total_not_positive)
    else if ltb 0 (count_where (λ j. j.id == id) t.batch_jobs)
    then (t, err duplicate_key)
    else (record t { batch_jobs = new_job now id p ∷ t.batch_jobs }, ok (new_job now id p))

abbrev pub new_item : ℕ → String → CreateBatchItemParams → BatchItemRecord
new_item now id p = record {
  id = id;
  job_id = p.job_id;
  tenant_id = p.tenant_id;
  index = p.index;
  custom_id = p.custom_id;
  status = BatchItemStatus.pending;
  request_body = p.request_body;
  response_body = "";
  error = "";
  response_id = "";
  created_at = now;
  updated_at = now;
}

-- The item's identifier, and its index among those of the job, are unique.
unfoldable pub create_batch_item :
    ℕ → String → CreateBatchItemParams → Tables → Tables × Stored BatchItemRecord
create_batch_item now id p t =
    if p.job_id == "" || p.tenant_id == ""
    then (t, err job_required)
    else if ltb 0 (count_where (λ i. i.id == id) t.batch_items)
        || ltb 0 (count_where (λ i. i.job_id == p.job_id && i.index == p.index) t.batch_items)
    then (t, err duplicate_key)
    else (record t { batch_items = new_item now id p ∷ t.batch_items }, ok (new_item now id p))
