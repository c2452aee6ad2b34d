-- ===== src/Batch/Jobs.antt =====
-- What a transaction of internal/repository/sqlstore/batches.go does to the jobs.
pub mod Final
use gateyes.Common.{
  ℕ, ◌+◌, ◌≤◌, ◌<◌, ◌≡◌, refl, String, Bool, true, false, ◌&&◌, ◌||◌, not, List, [], ◌∷◌, ◌==◌,
  string_eq, nat_eq, if◌then◌else◌, All, Bool-cases, Option-cases, inl, inr, arith, ap, subst, ltb,
  leb, Option, none, some, sym, ==_refl, ==→≡, ◌∙◌,
}
use gateyes.Batch.Rows.{
  BatchItemStatus, is_item_status, BatchJobRecord, BatchItemRecord, BatchItemUpdate, Tables,
  is_of_job, is_item, is_job, is_status, count_where, update_where, find_where, BatchStatus,
}
use gateyes.Batch.Rows.Picked.{
  All-with, All-every, All-update, count-update, count-zero, find-count, find-update, find-picked,
  count-more, find-All, find-skip, count_mono,
}
use gateyes.Batch.Store.{
  CreateBatchJobParams, CreateBatchItemParams, create_batch_job, create_batch_item, new_job,
  mark_batch_item_running, claimable, start_job, refresh_batch_job_status, get_batch_job,
  get_batch_item, or_rolled_back, with_outcome, is_open, is_terminal, add_tokens_of, summarized,
  summarize, next_status, update_batch_item_terminal, cancel_from, cancel_batch_job,
  with_waiting_cancelled, after_cancel,
}
use gateyes.Batch.Sound.{HasJob, HasJob-update, IsSound, FitsItems, is_final, is_job_same}
use gateyes.Batch.Sound.Cancel.{after_cancel-tables}
use gateyes.Batch.Items.Kept.{IsClaimed}

-- Jobs stay, and a final one keeps its status.
pub record JobsStep (jobs jobs' : List BatchJobRecord) : Type 0 where
  pub has_job : (ten id : String) → HasJob ten id jobs → HasJob ten id jobs'
  pub final_stays :
      (ten id : String) (j : BatchJobRecord)
      → find_where (is_job ten id) jobs ≡ some j
      → is_final j.status ≡ true
      → (k : BatchJobRecord) × (find_where (is_job ten id) jobs' ≡ some k) × (k.status ≡ j.status)

pub JobsStep-refl : {jobs : List BatchJobRecord} → JobsStep jobs jobs
JobsStep-refl = record { has_job = λ ten id h. h; final_stays = λ ten id j e h. (j, e, refl) }

pub JobsStep-update :
    (q : BatchJobRecord → Bool) (f : BatchJobRecord → BatchJobRecord) (jobs : List BatchJobRecord)
    → ((j : BatchJobRecord) → ((f j).tenant_id ≡ j.tenant_id) × ((f j).id ≡ j.id))
    → All (λ j. q j ≡ true → is_final j.status ≡ true → (f j).status ≡ j.status) jobs
    → JobsStep jobs (update_where q f jobs)
JobsStep-update q f jobs keep final = record {
  has_job = λ ten id h. HasJob-update ten id q f jobs keep h;
  final_stays = λ ten id j e h.
      let here =
        find-update (is_job ten id) q f jobs (λ k _. let (a, b) = keep k in rw (a, b) refl) e in
      let status =
        find-All
          (λ (k : BatchJobRecord). q k ≡ true → is_final k.status ≡ true → (f k).status ≡ k.status)
          (is_job ten id) jobs final e in
      elim (Bool-cases (q j)) [
        | inl y ↦ (f j, here ∙ rw y refl, status y h)
        | inr n ↦ (j, here ∙ rw n refl, refl)
      ];
}

pub JobsStep-trans : {a b c : List BatchJobRecord} → JobsStep a b → JobsStep b c → JobsStep a c
JobsStep-trans {a} {b} {c} s r = record {
  has_job = λ ten id h. r.has_job ten id (s.has_job ten id h);
  final_stays = λ ten id j e h.
      let (k, e', p) = s.final_stays ten id j e h in
      let (l, e'', p') = r.final_stays ten id k e' (rw p h) in (l, e'', p' ∙ p);
}

pub create_batch_item-JobsStep :
    (now : ℕ) (id : String) (p : CreateBatchItemParams) (t : Tables)
    → JobsStep t.batch_jobs (create_batch_item now id p t).0.batch_jobs
unfolding create_batch_item
create_batch_item-JobsStep now id p t = elim (Bool-cases (p.job_id == "" || p.tenant_id == "")) [
  | inl e ↦ rw e JobsStep-refl
  | inr e ↦ elim (Bool-cases (ltb 0 (count_where (λ i. i.id == id) t.batch_items))) [
    | inl d ↦ rw (e, d) JobsStep-refl
    | inr d ↦
        elim (Bool-cases
          (ltb 0 (count_where (λ i. i.job_id == p.job_id && i.index == p.index) t.batch_items))) [
            | inl k ↦ rw (e, d, k) JobsStep-refl
            | inr k ↦ rw (e, d, k) JobsStep-refl
          ]
  ]
]

JobsStep-new :
    (j : BatchJobRecord) (jobs : List BatchJobRecord)
    → count_where (λ k. k.id == j.id) jobs ≡ 0
    → JobsStep jobs (j ∷ jobs)
JobsStep-new j jobs fresh = record {
  has_job = λ ten id h. count-more (is_job ten id) j jobs h;
  final_stays = λ ten id k e h.
      let other : is_job ten id j ≡ false = elim (Bool-cases (is_job ten id j)) [
        | inr n ↦ n
        | inl y ↦
            let same : j.id ≡ id = (is_job_same ten id j y).1 in
            let few =
              count_mono (is_job ten id) (λ (l : BatchJobRecord). l.id == id) jobs
                (λ l u. ground arith) in
            let some_there = find-count (is_job ten id) jobs e in
            let none_there : count_where (λ (l : BatchJobRecord). l.id == id) jobs ≡ 0 =
              subst (λ x. count_where (λ (l : BatchJobRecord). l.id == x) jobs ≡ 0) same fresh in
            absurd (omega arith)
      ] in
      (k, find-skip (is_job ten id) j jobs other ∙ e, refl);
}

pub create_batch_job-JobsStep :
    (now : ℕ) (id : String) (p : CreateBatchJobParams) (t : Tables)
    → JobsStep t.batch_jobs (create_batch_job now id p t).0.batch_jobs
unfolding create_batch_job
create_batch_job-JobsStep now id p t = elim (Bool-cases (p.tenant_id == "")) [
  | inl e ↦ rw e JobsStep-refl
  | inr e ↦ elim (Bool-cases (nat_eq.same p.total_items 0)) [
    | inl z ↦ rw (e, z) JobsStep-refl
    | inr z ↦ elim (Bool-cases (ltb 0 (count_where (λ j. j.id == id) t.batch_jobs))) [
      | inl d ↦ rw (e, z, d) JobsStep-refl
      | inr d ↦ rw (e, z, d) (JobsStep-new (new_job now id p) t.batch_jobs (ground arith))
    ]
  ]
]

start_job-final :
    (now : ℕ) (j : BatchJobRecord) → is_final j.status ≡ true → (start_job now j).status ≡ j.status
start_job-final now j = keeps j.status
  where
    keeps :
        (s : BatchStatus)
        → is_final s ≡ true
        → (if is_status s BatchStatus.pending then BatchStatus.running else s) ≡ s
    keeps BatchStatus.pending h = absurd (ground arith)
    keeps BatchStatus.running h = refl
    keeps BatchStatus.completed h = refl
    keeps BatchStatus.failed h = refl
    keeps BatchStatus.cancelling h = refl
    keeps BatchStatus.cancelled h = refl

pub mark_batch_item_running-JobsStep :
    (now : ℕ) (ten id : String) (t : Tables)
    → JobsStep t.batch_jobs (mark_batch_item_running now ten id t).0.batch_jobs
unfolding mark_batch_item_running
mark_batch_item_running-JobsStep now ten id t =
    elim (Bool-cases (ltb 0 (count_where (claimable t ten id) t.batch_items))) [
      | inr n ↦ rw n JobsStep-refl
      | inl y ↦ elim (Option-cases (get_batch_item ten id t)) [
        | inl e ↦ rw (y, e) JobsStep-refl
        | inr (i, e) ↦
            rw (y, e)
              (JobsStep-update (is_job ten i.job_id) (start_job now) t.batch_jobs
                (λ j. (refl, refl)) (All-every t.batch_jobs (λ j _ h. start_job-final now j h)))
      ]
    ]

-- A refresh of a job that is not final.
pub refresh-JobsStep :
    (now : ℕ) (ten job : String) (preferred : Option BatchStatus) (t0 t : Tables)
    → JobsStep t0.batch_jobs t.batch_jobs
    → All (λ j. is_job ten job j ≡ true → is_final j.status ≡ false) t.batch_jobs
    → JobsStep t0.batch_jobs
        (or_rolled_back t0 (refresh_batch_job_status now ten job preferred t)).batch_jobs
unfolding refresh_batch_job_status
refresh-JobsStep now ten job preferred t0 t st open_job =
    elim (Option-cases (get_batch_job ten job t)) [
      | inl e ↦ rw (e, or_rolled_back) JobsStep-refl
      | inr (j, e) ↦
          rw (e, or_rolled_back)
            (JobsStep-trans st (
              JobsStep-update (is_job ten job) _ t.batch_jobs (λ k. (refl, refl))
                (All-with t.batch_jobs (λ k n u h. absurd (ground arith)) open_job)))
    ]
