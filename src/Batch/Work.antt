-- ===== src/Batch/Work.antt =====
-- internal/service/batch/service.go at work: a batch that is being created, and the handlers of its item
-- events, are tasks that run side by side. Each transaction of a task is one step, as on a database that
-- runs them one after another. What the clock, uuid,
-- the JSON decoder and the response service answer is the argument of a step.
pub mod Steps
pub mod History
pub mod Outcomes
pub mod Ending
use gateyes.Common.{
  ℕ, zero, suc, ◌+◌, String, Bool, true, false, ◌||◌, none, some, List, [], ◌∷◌, ◌++◌, ◌==◌,
  string_eq, if◌then◌else◌,
}
use gateyes.Batch.Rows.{
  BatchStatus, is_status, BatchJobRecord, BatchItemRecord, BatchItemUpdate, Tables,
}
use gateyes.Batch.Store.{
  CreateBatchJobParams, Stored, ok, err, create_batch_job, create_batch_item, get_batch_job,
  mark_batch_item_running, complete_batch_item, fail_batch_item, cancel_batch_item,
  cancel_batch_job, no_update,
}

-- The identity that an event also carries is for the response service alone.
pub record ItemEvent : Type 0 where
  pub job_id : String
  pub item_id : String
  pub tenant_id : String
  pub endpoint : String
  pub request_body : String

-- An item that `Create` has still to insert: its `custom_id` and its normalised body.
abbrev pub RequestItem : Type 0
RequestItem = String × String

-- Where a task stands: in the loop of `Create` with the items that are left, or in
-- `handleBatchItemEvent` before the claim, before it reads the job, or before the last transaction.
pub data Task : Type 0 where
  creating : (tenant job endpoint : String) → ℕ → List RequestItem → Task
  claiming loading working : ItemEvent → Task
  ended : Task

-- What became of the request: it was not one, it failed, or it has a response.
pub data Outcome : Type 0 where
  invalid_body refused : String → Outcome
  responded : BatchItemUpdate → Outcome

pub record Answers : Type 0 where
  pub now : ℕ
  pub uuid : String
  pub outcome : Outcome

abbrev pub failure : String → BatchItemUpdate
failure message = record no_update { error = message }

-- Each item is published once it is inserted.
abbrev pub created_item :
    String
    → String
    → String
    → ℕ
    → RequestItem
    → List RequestItem
    → Tables × Stored BatchItemRecord
    → Tables × List Task
created_item tenant job endpoint n r rest (t, err e) = (t, ended ∷ [])
created_item tenant job endpoint n r rest (t, ok i) = (
  t,
  creating tenant job endpoint (n + 1) rest
      ∷ claiming (record {
        job_id = job;
        item_id = i.id;
        tenant_id = tenant;
        endpoint = endpoint;
        request_body = r.1;
      })
      ∷ [],
)

abbrev pub claimed : ItemEvent → Tables × Bool → Tables × List Task
claimed e (t, true) = (t, loading e ∷ [])
claimed e (t, false) = (t, ended ∷ [])

abbrev pub is_cancelled : BatchStatus → Bool
is_cancelled s = is_status s BatchStatus.cancelling || is_status s BatchStatus.cancelled

unfoldable pub store_outcome : ℕ → ItemEvent → Outcome → Tables → Tables
unfolding fail_batch_item complete_batch_item
store_outcome now e (invalid_body m) t = fail_batch_item now e.tenant_id e.item_id (failure m) t
store_outcome now e (refused m) t = fail_batch_item now e.tenant_id e.item_id (failure m) t
store_outcome now e (responded u) t = complete_batch_item now e.tenant_id e.item_id u t

-- The next transaction of a task: the tables, and what the task has become, with the task of the event
-- that it has published.
unfoldable pub task_step : Answers → Task → Tables → Tables × List Task
unfolding create_batch_item mark_batch_item_running get_batch_job cancel_batch_item store_outcome
task_step a (creating tenant job endpoint n []) t = (t, ended ∷ [])
task_step a (creating tenant job endpoint n (r ∷ rest)) t =
    created_item tenant job endpoint n r rest (
      create_batch_item a.now a.uuid
        (record {
          job_id = job;
          tenant_id = tenant;
          index = n;
          custom_id = r.0;
          request_body = r.1;
        })
        t)
task_step a (claiming e) t =
    if e.tenant_id == "" || e.item_id == ""
    then (t, ended ∷ [])
    else claimed e (mark_batch_item_running a.now e.tenant_id e.item_id t)
task_step a (loading e) t = elim (get_batch_job e.tenant_id e.job_id t) [
  | none ↦ (t, ended ∷ [])
  | some j ↦
      if is_cancelled j.status
      then (cancel_batch_item a.now e.tenant_id e.item_id t, ended ∷ [])
      else (t, working e ∷ [])
]
task_step a (working e) t = (store_outcome a.now e a.outcome t, ended ∷ [])
task_step a ended t = (t, ended ∷ [])

pub record System : Type 0 where
  pub tables : Tables
  pub tasks : List Task

-- `Create` begins, the task with this number makes its next step or dies with its process or its
-- transaction, an event is delivered (again), a job is cancelled.
pub data Event : Type 0 where
  create_begins : ℕ → String → CreateBatchJobParams → List RequestItem → Event
  goes_on : ℕ → Answers → Event
  dies : ℕ → Event
  delivered : ItemEvent → Event
  cancels : ℕ → String → String → Event

-- One step of the task with the number, of those in the list.
unfoldable pub step_task : ℕ → Answers → Tables → List Task → Tables × List Task
unfolding task_step
step_task n a t [] = (t, [])
step_task zero a t (k ∷ ks) = let (t', k') = task_step a k t in (t', k' ++ ks)
step_task (suc n) a t (k ∷ ks) = let (t', ks') = step_task n a t ks in (t', k ∷ ks')

unfoldable pub kill_task : ℕ → List Task → List Task
kill_task n [] = []
kill_task zero (k ∷ ks) = ended ∷ ks
kill_task (suc n) (k ∷ ks) = k ∷ kill_task n ks

abbrev pub begun : List RequestItem → List Task → Tables × Stored BatchJobRecord → System
begun items tasks (t, err e) = record { tables = t; tasks = tasks }
begun items tasks (t, ok j) = record {
  tables = t;
  tasks = creating j.tenant_id j.id j.endpoint 0 items ∷ tasks;
}

unfoldable pub step : Event → System → System
unfolding create_batch_job step_task kill_task cancel_batch_job
step (create_begins now id p items) s = begun items s.tasks (create_batch_job now id p s.tables)
step (goes_on n a) s =
    let (t, tasks) = step_task n a s.tables s.tasks in record { tables = t; tasks = tasks }
step (dies n) s = record s { tasks = kill_task n s.tasks }
step (delivered e) s = record s { tasks = claiming e ∷ s.tasks }
step (cancels now tenant job) s = record s { tables = (cancel_batch_job now tenant job s.tables).0 }

unfoldable pub run : List Event → System → System
unfolding step
run [] s = s
run (e ∷ es) s = run es (step e s)

abbrev pub nothing_yet : System
nothing_yet = record { tables = record { batch_jobs = []; batch_items = [] }; tasks = [] }
