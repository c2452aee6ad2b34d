-- ===== src/Batch/Jobs/Final.antt =====
-- The transactions that read a job's status keep a final one.
use gateyes.Common.{
  ℕ, ◌≡◌, refl, String, true, false, ◌&&◌, string_eq, nat_eq, All, Bool-cases, Option-cases, inl,
  inr, arith, subst, ltb, none, some, sym, ==_refl, ==→≡,
}
use gateyes.Batch.Rows.{
  BatchItemStatus, is_item_status, BatchJobRecord, BatchItemRecord, BatchItemUpdate, Tables,
  is_of_job, is_item, is_job, count_where, find_where, BatchStatus,
}
use gateyes.Batch.Rows.Picked.{
  All-with, All-every, All-update, count-zero, zero-count, find-picked, find-All, find-only,
  find-counted,
}
use gateyes.Batch.Store.{
  get_batch_job, get_batch_item, or_rolled_back, refresh_batch_job_status, with_outcome, is_open,
  is_terminal, add_tokens_of, summarize, update_batch_item_terminal, cancel_from, cancel_batch_job,
  with_waiting_cancelled,
}
use gateyes.Batch.Sound.{IsSound, is_final, is_job_same}
use gateyes.Batch.Sound.Cancel.{after_cancel-tables}
use gateyes.Batch.Items.Kept.{IsClaimed}
use gateyes.Batch.Jobs.{JobsStep, JobsStep-refl, JobsStep-update, refresh-JobsStep}

begun_open_runs :
    (s : BatchItemStatus)
    → is_terminal s ≡ false
    → is_item_status s BatchItemStatus.pending ≡ false
    → is_item_status s BatchItemStatus.running ≡ true
begun_open_runs BatchItemStatus.pending h k = absurd (ground arith)
begun_open_runs BatchItemStatus.running h k = refl
begun_open_runs BatchItemStatus.completed h k = absurd (ground arith)
begun_open_runs BatchItemStatus.failed h k = absurd (ground arith)
begun_open_runs BatchItemStatus.cancelled h k = absurd (ground arith)

module _ (ten id : String) {t : Tables} (v : IsSound t) (c : IsClaimed ten id t.batch_items) where
  -- A claimed item without an outcome runs.
  claimed_runs :
      (i : BatchItemRecord)
      → get_batch_item ten id t ≡ some i
      → ltb 0 (count_where (is_open ten id) t.batch_items) ≡ true
      → is_item_status i.status BatchItemStatus.running ≡ true
  claimed_runs i e h =
      let found : find_where (is_item ten id) t.batch_items ≡ some i = unfold get_batch_item in e in
      let picked = find-picked (is_item ten id) t.batch_items found in
      let only =
        find-only (λ (k : BatchItemRecord). k.id) (is_item ten id) id t.batch_items
          (λ k u. ground (arith, ==→≡ k.id id)) v.items_distinct found in
      let waits_not =
        find-All
          (λ (k : BatchItemRecord).
            (is_item ten id k && is_item_status k.status BatchItemStatus.pending) ≡ false)
          (is_item ten id) t.batch_items (count-zero _ t.batch_items c.begun) found in
      let not_terminal : is_terminal i.status ≡ false = elim (Bool-cases (is_terminal i.status)) [
        | inr n ↦ n
        | inl y ↦
            let closed = zero-count (is_open ten id) t.batch_items (
              All-with t.batch_items
                (λ k same. elim (Bool-cases (is_item ten id k)) [
                  | inr n ↦ rw n refl
                  | inl u ↦ rw (same u, y) (ground arith)
                ])
                only) in
            absurd (ground arith)
      ] in
      begun_open_runs i.status not_terminal (ground arith)

  job_not_final :
      (i : BatchItemRecord)
      → get_batch_item ten id t ≡ some i
      → is_item_status i.status BatchItemStatus.running ≡ true
      → All (λ j. is_job ten i.job_id j ≡ true → is_final j.status ≡ false) t.batch_jobs
  unfolding summarize
  job_not_final i e r =
      let found : find_where (is_item ten id) t.batch_items ≡ some i = unfold get_batch_item in e in
      let picked = find-picked (is_item ten id) t.batch_items found in
      All-with t.batch_jobs
        (λ j f u.
          let (a, b) = is_job_same ten i.job_id j u in
          let tenant : i.tenant_id ≡ ten = ground (arith, ==→≡ i.tenant_id ten) in
          let own : (is_of_job j.tenant_id j.id i
                && is_item_status i.status BatchItemStatus.running)
              ≡ true =
            ground (arith, ==_refl ten, ==_refl i.job_id) in
          let some_runs =
            find-counted (is_item ten id)
              (λ k. is_of_job j.tenant_id j.id k && is_item_status k.status BatchItemStatus.running)
              t.batch_items found own in
          elim (Bool-cases (is_final j.status)) [
            | inr n ↦ n
            | inl y ↦ absurd (omega (arith, f.calm y))
          ])
        v.jobs_fit

  outcome-JobsStep :
      (now : ℕ) (s : BatchItemStatus) (u : BatchItemUpdate) (i : BatchItemRecord)
      → All (λ j. is_job ten i.job_id j ≡ true → is_final j.status ≡ false) t.batch_jobs
      → JobsStep t.batch_jobs
          (or_rolled_back t (
            refresh_batch_job_status now ten i.job_id none
              (with_outcome now ten id i.job_id s u t))).batch_jobs
  unfolding with_outcome
  outcome-JobsStep now s u i open_job =
      elim (Bool-cases (is_item_status s BatchItemStatus.completed)) [
        | inr n ↦
            refresh-JobsStep now ten i.job_id none t (with_outcome now ten id i.job_id s u t)
              (rw n JobsStep-refl) (rw n open_job)
        | inl y ↦
            refresh-JobsStep now ten i.job_id none t (with_outcome now ten id i.job_id s u t)
              (rw y (
                JobsStep-update (is_job ten i.job_id) (add_tokens_of u) t.batch_jobs
                  (λ j. (refl, refl)) (All-every t.batch_jobs (λ j _ _. refl))))
              (rw y (
                All-update (is_job ten i.job_id) (add_tokens_of u) t.batch_jobs (λ j _ h. h)
                  (λ j _ h. h) open_job))
      ]

  pub update_batch_item_terminal-JobsStep :
      (now : ℕ) (s : BatchItemStatus) (u : BatchItemUpdate)
      → JobsStep t.batch_jobs (update_batch_item_terminal now ten id s u t).batch_jobs
  unfolding update_batch_item_terminal
  update_batch_item_terminal-JobsStep now s u =
      elim (Bool-cases (ltb 0 (count_where (is_open ten id) t.batch_items))) [
        | inr n ↦ rw n JobsStep-refl
        | inl y ↦ elim (Option-cases (get_batch_item ten id t)) [
          | inl e ↦ rw (y, e) JobsStep-refl
          | inr (i, e) ↦
              rw (y, e) (outcome-JobsStep now s u i (job_not_final i e (claimed_runs i e y)))
        ]
      ]

cancelling-JobsStep :
    (now : ℕ) (ten job : String) (s : BatchStatus) (t : Tables)
    → All (λ j. is_job ten job j ≡ true → is_final j.status ≡ false) t.batch_jobs
    → JobsStep t.batch_jobs
        (or_rolled_back t (
          refresh_batch_job_status now ten job
            (some s)
            (with_waiting_cancelled now ten job t))).batch_jobs
unfolding with_waiting_cancelled
cancelling-JobsStep now ten job s t open_job =
    refresh-JobsStep now ten job (some s) t (with_waiting_cancelled now ten job t) JobsStep-refl
      open_job

cancel_from-JobsStep :
    (now : ℕ) (ten job : String) (s : BatchStatus) (t : Tables)
    → (is_final s ≡ false
        → All (λ j. is_job ten job j ≡ true → is_final j.status ≡ false) t.batch_jobs)
    → JobsStep t.batch_jobs (cancel_from now ten job s t).0.batch_jobs
unfolding cancel_from
cancel_from-JobsStep now ten job BatchStatus.completed t h = JobsStep-refl
cancel_from-JobsStep now ten job BatchStatus.failed t h = JobsStep-refl
cancel_from-JobsStep now ten job BatchStatus.cancelled t h = JobsStep-refl
cancel_from-JobsStep now ten job BatchStatus.cancelling t h = JobsStep-refl
cancel_from-JobsStep now ten job BatchStatus.pending t h =
    cancelling-JobsStep now ten job _ t (h refl)
cancel_from-JobsStep now ten job BatchStatus.running t h =
    cancelling-JobsStep now ten job _ t (h refl)

pub cancel_batch_job-JobsStep :
    (now : ℕ) (ten job : String) {t : Tables}
    → IsSound t
    → JobsStep t.batch_jobs (cancel_batch_job now ten job t).0.batch_jobs
unfolding cancel_batch_job
cancel_batch_job-JobsStep now ten job {t} v = elim (Option-cases (get_batch_job ten job t)) [
  | inl e ↦ rw (e, cancel_batch_job) JobsStep-refl
  | inr (j, e) ↦
      let found : find_where (is_job ten job) t.batch_jobs ≡ some j = unfold get_batch_job in e in
      let only =
        find-only (λ (k : BatchJobRecord). k.id) (is_job ten job) job t.batch_jobs
          (λ k u. (is_job_same ten job k u).1) v.jobs_distinct found in
      rw (e, cancel_batch_job, after_cancel-tables ten job)
        (cancel_from-JobsStep now ten job j.status t (λ n.
          All-with t.batch_jobs
            (λ k same u. subst (λ (x : BatchJobRecord). is_final x.status ≡ false) (sym (same u)) n)
            only))
]
