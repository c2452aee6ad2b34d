-- ===== src/Batch/Work/History.antt =====
-- What holds of batches after any history of creations, handlers, deliveries and cancellations, and
-- whatever tasks died on the way.
use gateyes.Common.{
  ℕ, zero, suc, ◌≡◌, refl, String, true, List, [], ◌∷◌, ◌++◌, ◌==◌, string_eq, nat_eq, ==_refl, All,
  Bool-cases, inl, inr, arith, subst, ltb, sym,
}
use gateyes.Batch.Rows.{BatchJobRecord, Tables, is_job, count_where}
use gateyes.Batch.Store.{CreateBatchJobParams, create_batch_job, new_job, Stored, ok, err}
use gateyes.Batch.Sound.{IsSound, HasJob}
use gateyes.Batch.Sound.Creation.{create_batch_job-IsSound}
use gateyes.Batch.Sound.Cancel.{cancel_batch_job-IsSound}
use gateyes.Batch.Items.{create_batch_job-ItemsStep, cancel_batch_job-ItemsStep}
use gateyes.Batch.Jobs.{create_batch_job-JobsStep}
use gateyes.Batch.Jobs.Final.{cancel_batch_job-JobsStep}
use gateyes.Batch.Work.{
  Task, task_step, step_task, RequestItem, Answers, System, Event, create_begins, goes_on, dies,
  delivered, cancels, step, run, begun, kill_task, nothing_yet,
}
use gateyes.Batch.Work.Steps.{
  Goes, Goes-refl, TaskFits, TaskFits-step, All-step, TaskGoes, task_step-TaskGoes,
}

All-append :
    (t : Tables) (ks ls : List Task)
    → All (TaskFits t) ks
    → All (TaskFits t) ls
    → All (TaskFits t) (ks ++ ls)
All-append t [] ls h g = g
All-append t (k ∷ ks) ls (h, hs) g = (h, All-append t ks ls hs g)

step_task-TaskGoes :
    (n : ℕ) (a : Answers) {t : Tables} (ks : List Task)
    → IsSound t
    → All (TaskFits t) ks
    → TaskGoes t (step_task n a t ks)
unfolding step_task
step_task-TaskGoes n a [] v h = record { table = Goes-refl v; tasks = tt }
step_task-TaskGoes zero a {t} (k ∷ ks) v (h, hs) =
    let r = task_step-TaskGoes a k v h in
    record {
      table = r.table;
      tasks = All-append _ (task_step a k t).1 ks r.tasks (All-step ks r.table hs);
    }
step_task-TaskGoes (suc n) a (k ∷ ks) v (h, hs) =
    let r = step_task-TaskGoes n a ks v hs in
    record { table = r.table; tasks = (TaskFits-step k r.table h, r.tasks) }

kill_task-All :
    (t : Tables) (n : ℕ) (ks : List Task) → All (TaskFits t) ks → All (TaskFits t) (kill_task n ks)
unfolding kill_task
kill_task-All t n [] h = tt
kill_task-All t zero (k ∷ ks) (h, hs) = (tt, hs)
kill_task-All t (suc n) (k ∷ ks) (h, hs) = (h, kill_task-All t n ks hs)

pub record IsValid (s : System) : Type 0 where
  pub sound : IsSound s.tables
  pub fit : All (TaskFits s.tables) s.tasks

pub record Steps (s s' : System) : Type 0 where
  pub valid : IsValid s'
  pub goes : Goes s.tables s'.tables

new_job-HasJob :
    (j k : BatchJobRecord) (jobs : List BatchJobRecord) → k ≡ j → HasJob j.tenant_id j.id (k ∷ jobs)
unfolding count_where
new_job-HasJob j k jobs e =
    let same : is_job j.tenant_id j.id k ≡ true =
      subst (λ (x : BatchJobRecord). is_job j.tenant_id j.id x ≡ true) (sym e)
        (ground (arith, ==_refl j.tenant_id, ==_refl j.id)) in
    rw same (omega arith)

created-HasJob :
    (now : ℕ) (id : String) (p : CreateBatchJobParams) (t : Tables) (j : BatchJobRecord)
    → (create_batch_job now id p t).1 ≡ ok j
    → HasJob j.tenant_id j.id (create_batch_job now id p t).0.batch_jobs
unfolding create_batch_job
created-HasJob now id p t j h = elim (Bool-cases (p.tenant_id == "")) [
  | inl e ↦ absurd (ground arith)
  | inr e ↦ elim (Bool-cases (nat_eq.same p.total_items 0)) [
    | inl z ↦ absurd (ground arith)
    | inr z ↦ elim (Bool-cases (ltb 0 (count_where (λ j. j.id == id) t.batch_jobs))) [
      | inl d ↦ absurd (ground arith)
      | inr d ↦
          let made : new_job now id p ≡ j = ground arith in
          rw (e, z, d) (new_job-HasJob j (new_job now id p) t.batch_jobs made)
    ]
  ]
]

begun-Steps :
    (items : List RequestItem) (s : System) (r : Tables × Stored BatchJobRecord)
    → IsValid s
    → Goes s.tables r.0
    → ((j : BatchJobRecord) → r.1 ≡ ok j → HasJob j.tenant_id j.id r.0.batch_jobs)
    → Steps s (begun items s.tasks r)
begun-Steps items s (t, err e) v g h = record {
  valid = record { sound = g.sound; fit = All-step s.tasks g v.fit };
  goes = g;
}
begun-Steps items s (t, ok j) v g h = record {
  valid = record { sound = g.sound; fit = (h j refl, All-step s.tasks g v.fit) };
  goes = g;
}

pub step-Steps : (e : Event) (s : System) → IsValid s → Steps s (step e s)
unfolding step
step-Steps (create_begins now id p items) s v =
    begun-Steps items s (create_batch_job now id p s.tables) v
      (record {
        sound = create_batch_job-IsSound now id p v.sound;
        items = create_batch_job-ItemsStep now id p s.tables;
        jobs = create_batch_job-JobsStep now id p s.tables;
      })
      (λ j h. created-HasJob now id p s.tables j h)
step-Steps (goes_on n a) s v =
    let r = step_task-TaskGoes n a s.tasks v.sound v.fit in
    record { valid = record { sound = r.table.sound; fit = r.tasks }; goes = r.table }
step-Steps (dies n) s v = record {
  valid = record { sound = v.sound; fit = kill_task-All s.tables n s.tasks v.fit };
  goes = Goes-refl v.sound;
}
step-Steps (delivered e) s v = record {
  valid = record { sound = v.sound; fit = (tt, v.fit) };
  goes = Goes-refl v.sound;
}
step-Steps (cancels now ten job) s v =
    let g : Goes s.tables (step (cancels now ten job) s).tables = record {
      sound = cancel_batch_job-IsSound now ten job v.sound;
      items = cancel_batch_job-ItemsStep now ten job s.tables;
      jobs = cancel_batch_job-JobsStep now ten job v.sound;
    } in
    record { valid = record { sound = g.sound; fit = All-step s.tasks g v.fit }; goes = g }

pub run-IsValid : (es : List Event) (s : System) → IsValid s → IsValid (run es s)
unfolding run
run-IsValid [] s v = v
run-IsValid (e ∷ es) s v = run-IsValid es (step e s) (step-Steps e s v).valid

pub reached-IsValid : (es : List Event) → IsValid (run es nothing_yet)
reached-IsValid es = run-IsValid es nothing_yet (record {
  sound = record { items_distinct = tt; jobs_distinct = tt; tracked = tt; jobs_fit = tt };
  fit = tt;
})
