-- ===== src/Batch/Rows.antt =====
-- The rows of internal/repository/batch.go, and what SQL does to a table: the statements of
-- internal/repository/sqlstore/batches.go find, count and update the rows that a condition picks.
pub mod Picked
use gateyes.Common.{
  ℕ, ◌+◌, ◌≡◌, ◌↔◌, refl, String, Bool, true, false, ◌&&◌, Option, none, some, List, [], ◌∷◌,
  Comparable, ◌==◌, string_eq, nat_beq, if◌then◌else◌, ℤ, arith,
}

pub data BatchStatus : Type 0 where
  pending running completed failed cancelling cancelled : BatchStatus

pub data BatchItemStatus : Type 0 where
  pending running completed failed cancelled : BatchItemStatus

-- The statuses in the order of their constants.
abbrev pub status_number : BatchStatus → ℕ
status_number BatchStatus.pending = 0
status_number BatchStatus.running = 1
status_number BatchStatus.completed = 2
status_number BatchStatus.failed = 3
status_number BatchStatus.cancelling = 4
status_number BatchStatus.cancelled = 5

abbrev pub item_status_number : BatchItemStatus → ℕ
item_status_number BatchItemStatus.pending = 0
item_status_number BatchItemStatus.running = 1
item_status_number BatchItemStatus.completed = 2
item_status_number BatchItemStatus.failed = 3
item_status_number BatchItemStatus.cancelled = 4

abbrev pub is_status : BatchStatus → BatchStatus → Bool
is_status s t = nat_beq (status_number s) (status_number t)

abbrev pub is_item_status : BatchItemStatus → BatchItemStatus → Bool
is_item_status s t = nat_beq (item_status_number s) (item_status_number t)

-- Bodies and metadata are texts; times are those of the clock, and those with `_at` of the life of a
-- job are in seconds.
pub record BatchJobRecord : Type 0 where
  pub id : String
  pub tenant_id : String
  pub project_id : String
  pub user_id : String
  pub api_key_id : String
  pub status : BatchStatus
  pub endpoint : String
  pub model : String
  pub completion_window : String
  pub total_items : ℕ
  pub completed_items : ℕ
  pub failed_items : ℕ
  pub cancelled_items : ℕ
  pub prompt_tokens : ℤ
  pub completion_tokens : ℤ
  pub total_tokens : ℤ
  pub cached_tokens : ℤ
  pub request_body : String
  pub metadata : String
  pub error : String
  pub in_progress_at : ℕ
  pub completed_at : ℕ
  pub failed_at : ℕ
  pub cancelled_at : ℕ
  pub created_at : ℕ
  pub updated_at : ℕ

pub record BatchItemRecord : Type 0 where
  pub id : String
  pub job_id : String
  pub tenant_id : String
  pub index : ℕ
  pub custom_id : String
  pub status : BatchItemStatus
  pub request_body : String
  pub response_body : String
  pub error : String
  pub response_id : String
  pub created_at : ℕ
  pub updated_at : ℕ

pub record BatchItemUpdate : Type 0 where
  pub response_body : String
  pub response_id : String
  pub error : String
  pub prompt_tokens : ℤ
  pub completion_tokens : ℤ
  pub total_tokens : ℤ
  pub cached_tokens : ℤ

-- The two tables, newest row first.
pub record Tables : Type 0 where
  pub batch_jobs : List BatchJobRecord
  pub batch_items : List BatchItemRecord

-- `WHERE tenant_id = ? AND id = ?`.
abbrev pub is_job : String → String → BatchJobRecord → Bool
is_job tenant id j = j.tenant_id == tenant && j.id == id

abbrev pub is_item : String → String → BatchItemRecord → Bool
is_item tenant id i = i.tenant_id == tenant && i.id == id

-- `WHERE tenant_id = ? AND job_id = ?`.
abbrev pub is_of_job : String → String → BatchItemRecord → Bool
is_of_job tenant job i = i.tenant_id == tenant && i.job_id == job

module _ {ℓ} {A : Type ℓ} where
  unfoldable pub find_where : (A → Bool) → List A → Option A
  find_where p [] = none
  find_where p (x ∷ xs) = if p x then some x else find_where p xs

  unfoldable pub count_where : (A → Bool) → List A → ℕ
  count_where p [] = 0
  count_where p (x ∷ xs) = (if p x then 1 else 0) + count_where p xs

  unfoldable pub update_where : (A → Bool) → (A → A) → List A → List A
  update_where p f [] = []
  update_where p f (x ∷ xs) = (if p x then f x else x) ∷ update_where p f xs
