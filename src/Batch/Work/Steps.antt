-- ===== src/Batch/Work/Steps.antt =====
-- What the steps of the tasks of internal/service/batch/service.go do, from sound tables.
use gateyes.Common.{
  ℕ, ◌<◌, ◌≡◌, refl, String, Bool, true, false, ◌&&◌, ◌||◌, List, [], ◌∷◌, ◌==◌, string_eq, nat_eq,
  All, Bool-cases, Option-cases, inl, inr, arith, subst, ltb, ltb→lt, some, sym, ==→≡,
}
use gateyes.Batch.Rows.{
  BatchItemStatus, is_item_status, BatchItemRecord, BatchItemUpdate, Tables, is_item, count_where,
  update_where, find_where,
}
use gateyes.Batch.Rows.Picked.{
  All-with, All-every, All-update, count-update, count_mono, zero-count, find-picked, find-only,
  find-counted, find-none,
}
use gateyes.Batch.Store.{
  get_batch_job, get_batch_item, is_terminal, claimable, start_item, mark_batch_item_running,
  CreateBatchItemParams, create_batch_item, update_batch_item_terminal, complete_batch_item,
  fail_batch_item, cancel_batch_item, Stored, ok, err, no_update,
}
use gateyes.Batch.Sound.{IsSound, HasJob}
use gateyes.Batch.Sound.Creation.{create_batch_item-IsSound}
use gateyes.Batch.Sound.Claim.{mark_batch_item_running-IsSound}
use gateyes.Batch.Sound.Finish.{update_batch_item_terminal-IsSound}
use gateyes.Batch.Items.{
  ItemsStep, stay, create_batch_item-ItemsStep, mark_batch_item_running-ItemsStep,
  update_batch_item_terminal-ItemsStep,
}
use gateyes.Batch.Items.Kept.{IsClaimed, IsClaimed-step}
use gateyes.Batch.Jobs.{
  JobsStep, JobsStep-refl, create_batch_item-JobsStep, mark_batch_item_running-JobsStep,
}
use gateyes.Batch.Jobs.Final.{update_batch_item_terminal-JobsStep}
use gateyes.Batch.Work.{
  Task, creating, claiming, loading, working, ended, Answers, task_step, created_item, claimed,
  ItemEvent, is_cancelled, RequestItem, store_outcome, Outcome, invalid_body, refused, responded,
  failure,
}

-- What a transaction does, from sound tables.
pub record Goes (t t' : Tables) : Type 0 where
  pub sound : IsSound t'
  pub items : ItemsStep t.batch_items t'.batch_items
  pub jobs : JobsStep t.batch_jobs t'.batch_jobs

pub Goes-refl : {t : Tables} → IsSound t → Goes t t
Goes-refl v = record { sound = v; items = stay; jobs = JobsStep-refl }

-- A batch that is being created is there, and an item whose handler has claimed it is.
abbrev pub TaskFits : Tables → Task → Type 0
TaskFits t (creating tenant job endpoint n items) = HasJob tenant job t.batch_jobs
TaskFits t (claiming e) = Unit
TaskFits t (loading e) = IsClaimed e.tenant_id e.item_id t.batch_items
TaskFits t (working e) = IsClaimed e.tenant_id e.item_id t.batch_items
TaskFits t ended = Unit

pub TaskFits-step : {t t' : Tables} (k : Task) → Goes t t' → TaskFits t k → TaskFits t' k
TaskFits-step (creating tenant job endpoint n items) g h = g.jobs.has_job tenant job h
TaskFits-step (claiming e) g h = tt
TaskFits-step (loading e) g h = IsClaimed-step g.items h
TaskFits-step (working e) g h = IsClaimed-step g.items h
TaskFits-step ended g h = tt

pub All-step :
    {t t' : Tables} (ks : List Task) → Goes t t' → All (TaskFits t) ks → All (TaskFits t') ks
All-step ks g h = All-with ks (λ k f. TaskFits-step k g f) h

-- Items with one identifier of which one can be claimed.
started_begun :
    (now : ℕ) (ten id : String) (t : Tables) {i : BatchItemRecord}
    → find_where (is_item ten id) t.batch_items ≡ some i
    → All (λ k. is_item ten id k ≡ true → k ≡ i) t.batch_items
    → 0 < count_where (claimable t ten id) t.batch_items
    → IsClaimed ten id (update_where (claimable t ten id) (start_item now) t.batch_items)
started_begun now ten id t {i} found only some_one =
    let can : claimable t ten id i ≡ true = elim (Bool-cases (claimable t ten id i)) [
      | inl y ↦ y
      | inr n ↦
          let none_can = zero-count (claimable t ten id) t.batch_items (
            All-with t.batch_items
              (λ k same. elim (Bool-cases (claimable t ten id k)) [
                | inr m ↦ m
                | inl u ↦ absurd (
                    ground
                      (arith, subst (λ x. claimable t ten id x ≡ true) (same (ground arith)) u))
              ])
              only) in
          absurd (omega arith)
    ] in
    record {
      is_there =
          rw
            (count-update (λ (k : BatchItemRecord). k.id == id) (claimable t ten id)
              (start_item now) t.batch_items (All-every t.batch_items (λ k _. refl)))
            (find-counted (is_item ten id) (λ k. k.id == id) t.batch_items found
              (let picked = find-picked (is_item ten id) t.batch_items found in ground arith));
      begun =
          zero-count (λ k. is_item ten id k && is_item_status k.status BatchItemStatus.pending) _
            (All-update (claimable t ten id) (start_item now) t.batch_items (λ k _ _. ground arith)
              (λ k n same. elim (Bool-cases (is_item ten id k)) [
                | inr m ↦ rw m refl
                | inl u ↦
                    absurd
                      (ground (arith, subst (λ x. claimable t ten id x ≡ true) (sym (same u)) can))
              ])
              only);
    }

-- A claim that succeeds leaves the item claimed.
mark-IsClaimed :
    (now : ℕ) (ten id : String) {t : Tables}
    → IsSound t
    → (mark_batch_item_running now ten id t).1 ≡ true
    → IsClaimed ten id (mark_batch_item_running now ten id t).0.batch_items
unfolding mark_batch_item_running get_batch_item
mark-IsClaimed now ten id {t} v h =
    elim (Bool-cases (ltb 0 (count_where (claimable t ten id) t.batch_items))) [
      | inr n ↦ absurd (ground arith)
      | inl y ↦ elim (Option-cases (find_where (is_item ten id) t.batch_items)) [
        | inl e ↦
            let few =
              count_mono (claimable t ten id) (is_item ten id) t.batch_items
                (λ i u. ground arith) in
            absurd (ground (arith, find-none (is_item ten id) t.batch_items e))
        | inr (i, e) ↦ rw y (
            started_begun now ten id t e
              (find-only (λ (k : BatchItemRecord). k.id) (is_item ten id) id t.batch_items
                (λ k u. ground (arith, ==→≡ k.id id)) v.items_distinct e)
              (ltb→lt 0 _ y))
      ]
    ]

-- One step of a task.
pub record TaskGoes (t : Tables) (r : Tables × List Task) : Type 0 where
  pub table : Goes t r.0
  pub tasks : All (TaskFits r.0) r.1

created_item-TaskGoes :
    (now : ℕ) (uuid tenant job endpoint : String) (n : ℕ) (r : RequestItem)
    (rest : List RequestItem) (t : Tables) (s : Tables × Stored BatchItemRecord)
    → Goes t s.0
    → HasJob tenant job t.batch_jobs
    → TaskGoes t (created_item tenant job endpoint n r rest s)
created_item-TaskGoes now uuid tenant job endpoint n r rest t (t', err e) g h = record {
  table = g;
  tasks = (tt, tt);
}
created_item-TaskGoes now uuid tenant job endpoint n r rest t (t', ok i) g h = record {
  table = g;
  tasks = (g.jobs.has_job tenant job h, (tt, tt));
}

claimed-TaskGoes :
    (e : ItemEvent) (t : Tables) (r : Tables × Bool)
    → Goes t r.0
    → (r.1 ≡ true → IsClaimed e.tenant_id e.item_id r.0.batch_items)
    → TaskGoes t (claimed e r)
claimed-TaskGoes e t (t', true) g h = record { table = g; tasks = (h refl, tt) }
claimed-TaskGoes e t (t', false) g h = record { table = g; tasks = (tt, tt) }

terminal-Goes :
    (now : ℕ) (ten id : String) (s : BatchItemStatus) (u : BatchItemUpdate) {t : Tables}
    → is_terminal s ≡ true
    → IsSound t
    → IsClaimed ten id t.batch_items
    → Goes t (update_batch_item_terminal now ten id s u t)
terminal-Goes now ten id s u {t} done v c = record {
  sound = update_batch_item_terminal-IsSound now ten id s u done v;
  items = update_batch_item_terminal-ItemsStep now ten id s u t done;
  jobs = update_batch_item_terminal-JobsStep ten id v c now s u;
}

store_outcome-Goes :
    (now : ℕ) (e : ItemEvent) (o : Outcome) {t : Tables}
    → IsSound t
    → IsClaimed e.tenant_id e.item_id t.batch_items
    → Goes t (store_outcome now e o t)
unfolding store_outcome complete_batch_item fail_batch_item
store_outcome-Goes now e (invalid_body m) v c =
    terminal-Goes now e.tenant_id e.item_id BatchItemStatus.failed (failure m) refl v c
store_outcome-Goes now e (refused m) v c =
    terminal-Goes now e.tenant_id e.item_id BatchItemStatus.failed (failure m) refl v c
store_outcome-Goes now e (responded u) v c =
    terminal-Goes now e.tenant_id e.item_id BatchItemStatus.completed u refl v c

pub task_step-TaskGoes :
    (a : Answers) (k : Task) {t : Tables} → IsSound t → TaskFits t k → TaskGoes t (task_step a k t)
unfolding task_step cancel_batch_item
task_step-TaskGoes a (creating tenant job endpoint n []) v h = record {
  table = Goes-refl v;
  tasks = (tt, tt);
}
task_step-TaskGoes a (creating tenant job endpoint n (r ∷ rest)) {t} v h =
    let p : CreateBatchItemParams = record {
      job_id = job;
      tenant_id = tenant;
      index = n;
      custom_id = r.0;
      request_body = r.1;
    } in
    created_item-TaskGoes a.now a.uuid tenant job endpoint n r rest t
      (create_batch_item a.now a.uuid p t)
      (record {
        sound = create_batch_item-IsSound a.now a.uuid p h v;
        items = create_batch_item-ItemsStep a.now a.uuid p t;
        jobs = create_batch_item-JobsStep a.now a.uuid p t;
      })
      h
task_step-TaskGoes a (claiming e) {t} v h =
    elim (Bool-cases (e.tenant_id == "" || e.item_id == "")) [
      | inl y ↦ rw y (record { table = Goes-refl v; tasks = (tt, tt) })
      | inr n ↦ rw n (
          claimed-TaskGoes e t (mark_batch_item_running a.now e.tenant_id e.item_id t)
            (record {
              sound = mark_batch_item_running-IsSound a.now e.tenant_id e.item_id v;
              items = mark_batch_item_running-ItemsStep a.now e.tenant_id e.item_id t;
              jobs = mark_batch_item_running-JobsStep a.now e.tenant_id e.item_id t;
            })
            (mark-IsClaimed a.now e.tenant_id e.item_id v))
    ]
task_step-TaskGoes a (loading e) {t} v h =
    elim (Option-cases (get_batch_job e.tenant_id e.job_id t)) [
      | inl g ↦ rw (g, task_step) (record { table = Goes-refl v; tasks = (tt, tt) })
      | inr (j, g) ↦ elim (Bool-cases (is_cancelled j.status)) [
        | inl y ↦
            rw (g, task_step, y)
              (record {
                table =
                    terminal-Goes a.now e.tenant_id e.item_id BatchItemStatus.cancelled no_update
                      refl v h;
                tasks = (tt, tt);
              })
        | inr n ↦ rw (g, task_step, n) (record { table = Goes-refl v; tasks = (h, tt) })
      ]
    ]
task_step-TaskGoes a (working e) v h = record {
  table = store_outcome-Goes a.now e a.outcome v h;
  tasks = (tt, tt);
}
task_step-TaskGoes a ended v h = record { table = Goes-refl v; tasks = (tt, tt) }
