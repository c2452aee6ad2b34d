-- ===== src/Batch/Work/Ending.antt =====
-- The tasks of internal/service/batch/service.go come to an end.
use gateyes.Common.{
  ℕ, zero, suc, ◌+◌, ◌*◌, ◌≤◌, ◌<◌, ◌≡◌, String, Bool, true, false, ◌||◌, List, [], ◌∷◌, ◌++◌, ◌==◌,
  string_eq, if◌then◌else◌, length, Bool-cases, Option-cases, inl, inr, arith, ltb,
}
use gateyes.Batch.Rows.{Tables, BatchItemRecord}
use gateyes.Batch.Store.{Stored, ok, err, create_batch_item, mark_batch_item_running, get_batch_job}
use gateyes.Batch.Work.{
  Task, creating, claiming, loading, working, ended, Answers, task_step, created_item, claimed,
  ItemEvent, step_task, is_cancelled, RequestItem,
}

-- How many steps a task, and what it publishes, can make.
unfoldable pub effort : Task → ℕ
effort (creating tenant job endpoint n items) = 4 * length items + 1
effort (claiming e) = 3
effort (loading e) = 2
effort (working e) = 1
effort ended = 0

unfoldable pub efforts : List Task → ℕ
unfolding effort
efforts [] = 0
efforts (k ∷ ks) = effort k + efforts ks

created_item-effort :
    (tenant job endpoint : String) (n : ℕ) (r : RequestItem) (rest : List RequestItem)
    (s : Tables × Stored BatchItemRecord)
    → efforts (created_item tenant job endpoint n r rest s).1 < 4 * length (r ∷ rest) + 1
unfolding efforts
created_item-effort tenant job endpoint n r rest (t, err e) = omega arith
created_item-effort tenant job endpoint n r rest (t, ok i) = omega arith

claimed-effort : (e : ItemEvent) (r : Tables × Bool) → efforts (claimed e r).1 < 3
unfolding efforts
claimed-effort e (t, true) = omega arith
claimed-effort e (t, false) = omega arith

-- What a task can still do grows less with each step, and one that has ended stays so.
task_step-effort :
    (a : Answers) (k : Task) (t : Tables)
    → (if ltb 0 (effort k) then 1 else 0) + efforts (task_step a k t).1 ≤ effort k
unfolding task_step efforts
task_step-effort a (creating tenant job endpoint n []) t = omega arith
task_step-effort a (creating tenant job endpoint n (r ∷ rest)) t = ground (
  arith,
  created_item-effort tenant job endpoint n r rest (
      create_batch_item a.now a.uuid
        (record {
          job_id = job;
          tenant_id = tenant;
          index = n;
          custom_id = r.0;
          request_body = r.1;
        })
        t),
)
task_step-effort a (claiming e) t = elim (Bool-cases (e.tenant_id == "" || e.item_id == "")) [
  | inl y ↦ rw y (omega arith)
  | inr n ↦
      rw n (omega (arith, claimed-effort e (mark_batch_item_running a.now e.tenant_id e.item_id t)))
]
task_step-effort a (loading e) t = elim (Option-cases (get_batch_job e.tenant_id e.job_id t)) [
  | inl g ↦ rw (g, efforts, task_step) (omega arith)
  | inr (j, g) ↦ elim (Bool-cases (is_cancelled j.status)) [
    | inl y ↦ rw (g, task_step, y) (omega arith)
    | inr n ↦ rw (g, task_step, n) (omega arith)
  ]
]
task_step-effort a (working e) t = omega arith
task_step-effort a ended t = omega arith

efforts-append : (ks ls : List Task) → efforts (ks ++ ls) ≡ efforts ks + efforts ls
unfolding efforts
efforts-append [] ls = omega arith
efforts-append (k ∷ ks) ls = omega (arith, efforts-append ks ls)

-- Whether the task with the number has a step to make.
unfoldable pub has_step : ℕ → List Task → Bool
unfolding effort
has_step n [] = false
has_step zero (k ∷ ks) = ltb 0 (effort k)
has_step (suc n) (k ∷ ks) = has_step n ks

-- Steps of tasks, one after another, and how many of them were made by a task that had not ended.
unfoldable pub steps_made : List (ℕ × Answers) → Tables → List Task → ℕ
unfolding step_task has_step
steps_made [] t ks = 0
steps_made ((n, a) ∷ moves) t ks =
    let (t', ks') = step_task n a t ks in (if has_step n ks then 1 else 0) + steps_made moves t' ks'

step_task-effort :
    (n : ℕ) (a : Answers) (t : Tables) (ks : List Task)
    → (if has_step n ks then 1 else 0) + efforts (step_task n a t ks).1 ≤ efforts ks
unfolding step_task has_step efforts
step_task-effort n a t [] = omega arith
step_task-effort zero a t (k ∷ ks) =
    omega (arith, task_step-effort a k t, efforts-append (task_step a k t).1 ks)
step_task-effort (suc n) a t (k ∷ ks) = omega (arith, step_task-effort n a t ks)

-- Whatever is answered, tasks to which no event comes from outside make no more steps than there are
-- in them: four for each item that is still to be created and one for the end of `Create`, and three
-- for a handler from its claim on.
pub steps_made-le :
    (moves : List (ℕ × Answers)) (t : Tables) (ks : List Task) → steps_made moves t ks ≤ efforts ks
unfolding steps_made
steps_made-le [] t ks = omega arith
steps_made-le ((n, a) ∷ moves) t ks =
    let (t', ks') = step_task n a t ks in
    omega (arith, step_task-effort n a t ks, steps_made-le moves t' ks')
