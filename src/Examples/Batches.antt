-- ===== src/Examples/Batches.antt =====
-- The theorems on batches, applied to a batch of two items of which the first one is answered before
-- the second one is created.
use gateyes.Common.{
  ℕ, ◌*◌, ◌<◌, ◌≤◌, ◌≡◌, refl, String, true, false, List, [], ◌∷◌, pos, some, arith, ◌+ℤ◌,
}
use gateyes.Batch.Rows.{
  BatchJobRecord, BatchItemRecord, BatchItemUpdate, BatchStatus, BatchItemStatus, find_where,
  count_where, update_where,
}
use gateyes.Batch.Store.{
  CreateBatchJobParams, get_batch_job, get_batch_item, summarize, mark_batch_item_running, second,
}
use gateyes.Batch.Sound.{is_final}
use gateyes.Batch.Work.{
  Answers, responded, Event, create_begins, goes_on, run, nothing_yet, System, RequestItem, Task,
  creating,
}
use gateyes.Batch.Work.Outcomes.{run-counters, run-settled, run-final, run-stranded, run-terminal}
use gateyes.Batch.Work.Ending.{steps_made, steps_made-le, efforts}

abbrev params : CreateBatchJobParams
params = record {
  tenant_id = "acme";
  project_id = "p";
  user_id = "u";
  api_key_id = "k";
  endpoint = "/v1/responses";
  model = "m";
  completion_window = "24h";
  total_items = 2;
  request_body = "{}";
  metadata = "{}";
}

abbrev answer : BatchItemUpdate
answer = record {
  response_body = "done";
  response_id = "r1";
  error = "";
  prompt_tokens = pos 5;
  completion_tokens = pos 7;
  total_tokens = pos 12;
  cached_tokens = pos 0;
}

abbrev at_second : ℕ → String → Answers
at_second n id = record { now = n * second; uuid = id; outcome = responded answer }

abbrev two : List RequestItem
two = ("a", "{}") ∷ ("b", "{}") ∷ []

-- The first item is created and its handler runs through; `Create` is still task 0.
abbrev first_answered : List Event
first_answered =
    create_begins second "job" params two
    ∷ goes_on 0 (at_second 2 "one")
    ∷ goes_on 1 (at_second 3 "")
    ∷ goes_on 1 (at_second 4 "")
    ∷ goes_on 1 (at_second 5 "")
    ∷ []

-- Then the second item is created, and its handler starts.
abbrev second_created : List Event
second_created = goes_on 0 (at_second 6 "two") ∷ goes_on 1 (at_second 7 "") ∷ []

abbrev reached : System
reached = run first_answered nothing_yet

-- The job as it is read then: completed, with one of its two items.
abbrev early_job : BatchJobRecord
early_job = record {
  id = "job";
  tenant_id = "acme";
  project_id = "p";
  user_id = "u";
  api_key_id = "k";
  status = BatchStatus.completed;
  endpoint = "/v1/responses";
  model = "m";
  completion_window = "24h";
  total_items = 2;
  completed_items = 1;
  failed_items = 0;
  cancelled_items = 0;
  prompt_tokens = pos 5;
  completion_tokens = pos 7;
  total_tokens = pos 12;
  cached_tokens = pos 0;
  request_body = "{}";
  metadata = "{}";
  error = "";
  in_progress_at = 3;
  completed_at = 5;
  failed_at = 0;
  cancelled_at = 0;
  created_at = second;
  updated_at = 5 * second;
}

abbrev first_item : BatchItemRecord
first_item = record {
  id = "one";
  job_id = "job";
  tenant_id = "acme";
  index = 0;
  custom_id = "a";
  status = BatchItemStatus.completed;
  request_body = "{}";
  response_body = "done";
  error = "";
  response_id = "r1";
  created_at = 2 * second;
  updated_at = 5 * second;
}

abbrev second_item : BatchItemRecord
second_item = record {
  id = "two";
  job_id = "job";
  tenant_id = "acme";
  index = 1;
  custom_id = "b";
  status = BatchItemStatus.pending;
  request_body = "{}";
  response_body = "";
  error = "";
  response_id = "";
  created_at = 6 * second;
  updated_at = 6 * second;
}

reads_job : get_batch_job "acme" "job" reached.tables ≡ some early_job
unfolding run get_batch_job find_where count_where update_where ◌+ℤ◌
reads_job = refl

reads_first : get_batch_item "acme" "one" reached.tables ≡ some first_item
unfolding run get_batch_item find_where count_where update_where
reads_first = refl

reads_second : get_batch_item "acme" "two" (run second_created reached).tables ≡ some second_item
unfolding run get_batch_item find_where count_where update_where
reads_second = refl

has_items : 0 < (summarize "acme" "job" reached.tables.batch_items).total
unfolding run summarize count_where find_where update_where
has_items = omega arith

all_done : (summarize "acme" "job" reached.tables.batch_items).total ≤ 1
unfolding run summarize count_where find_where update_where
all_done = omega arith

run-counters_example :
    (1 ≡ (summarize "acme" "job" reached.tables.batch_items).completed)
    × (0 ≡ (summarize "acme" "job" reached.tables.batch_items).failed)
    × (0 ≡ (summarize "acme" "job" reached.tables.batch_items).cancelled)
run-counters_example = run-counters first_answered "acme" "job" early_job reads_job

run-settled_example : is_final BatchStatus.completed ≡ true
run-settled_example = run-settled first_answered "acme" "job" early_job reads_job has_items all_done

run-final_example :
    (k : BatchJobRecord) × (get_batch_job "acme" "job" (run second_created reached).tables ≡ some k)
    × (k.status ≡ BatchStatus.completed)
run-final_example = run-final first_answered second_created "acme" "job" early_job reads_job refl

run-stranded_example :
    mark_batch_item_running (8 * second) "acme" "two" (run second_created reached).tables
    ≡ ((run second_created reached).tables, false)
run-stranded_example =
    run-stranded first_answered second_created (8 * second) "acme" "job" "two" early_job second_item
      reads_job refl reads_second refl

run-terminal_example :
    get_batch_item "acme" "one" (run second_created reached).tables ≡ some first_item
run-terminal_example =
    run-terminal first_answered second_created "acme" "one" first_item reads_first refl

abbrev begun_tasks : List Task
begun_tasks = creating "acme" "job" "/v1/responses" 0 two ∷ []

steps_made-le_example :
    steps_made ((0, at_second 2 "one") ∷ (1, at_second 3 "") ∷ []) nothing_yet.tables begun_tasks
    ≤ efforts begun_tasks
steps_made-le_example =
    steps_made-le ((0, at_second 2 "one") ∷ (1, at_second 3 "") ∷ []) nothing_yet.tables begun_tasks
