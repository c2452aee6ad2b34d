-- ===== src/Batch/Sound/Claim.antt =====
-- `MarkBatchItemRunning` leaves sound tables.
use gateyes.Common.{
  ℕ, ◌<◌, ◌≡◌, refl, String, Bool, true, false, ◌&&◌, List, string_eq, nat_eq, if◌then◌else◌, All,
  Bool-cases, Option-cases, inl, inr, ◌⊎◌, arith, ap, subst, ltb, ltb→lt, ◌∙◌, sym,
}
use gateyes.Batch.Rows.{
  BatchStatus, BatchItemStatus, is_status, is_item_status, BatchJobRecord, BatchItemRecord, Tables,
  is_job, is_of_job, is_item, count_where, update_where,
}
use gateyes.Batch.Rows.Picked.{
  Distinct-update, All-with, All-every, All-update, count-own, count-update, All-both, find-none,
  count_mono,
}
use gateyes.Batch.Store.{
  Counts, summarize, count_status, mark_batch_item_running, claimable, start_item, start_job,
  takes_work, get_batch_item,
}
use gateyes.Batch.Sound.{
  Fits, FitsItems, HasJob-update, IsSound, is_job_same, is_of_job_same, summarize-update_other,
  is_final,
}

work_not_final : (s : BatchStatus) → takes_work s ≡ true → is_final s ≡ false
work_not_final BatchStatus.pending h = refl
work_not_final BatchStatus.running h = refl
work_not_final BatchStatus.completed h = absurd (ground arith)
work_not_final BatchStatus.failed h = absurd (ground arith)
work_not_final BatchStatus.cancelling h = refl
work_not_final BatchStatus.cancelled h = absurd (ground arith)

pub start_keeps_final :
    (now : ℕ) (j : BatchJobRecord) → is_final (start_job now j).status ≡ is_final j.status
start_keeps_final now j = keeps j.status
  where
    keeps :
        (s : BatchStatus)
        → is_final (if is_status s BatchStatus.pending then BatchStatus.running else s) ≡ is_final s
    keeps BatchStatus.pending = refl
    keeps BatchStatus.running = refl
    keeps BatchStatus.completed = refl
    keeps BatchStatus.failed = refl
    keeps BatchStatus.cancelling = refl
    keeps BatchStatus.cancelled = refl

-- The counts of two summaries that differ at most in what runs.
record SameOutcomes (c d : Counts) : Type 0 where
  same_total : d.total ≡ c.total
  same_completed : d.completed ≡ c.completed
  same_failed : d.failed ≡ c.failed
  same_cancelled : d.cancelled ≡ c.cancelled

open_uncounted :
    (tenant job : String) (s : BatchItemStatus) (now : ℕ) (t : Tables) (ten id : String)
    (i : BatchItemRecord)
    → is_item_status s BatchItemStatus.pending ≡ false
    → is_item_status s BatchItemStatus.running ≡ false
    → claimable t ten id i ≡ true
    → (is_of_job tenant job i && is_item_status BatchItemStatus.running s)
      ≡ (is_of_job tenant job i && is_item_status i.status s)
open_uncounted tenant job s now t ten id i p r h = ground arith

started-SameOutcomes :
    (now : ℕ) (t : Tables) (ten id tenant job : String)
    → SameOutcomes
        (summarize tenant job t.batch_items)
        (summarize tenant job (update_where (claimable t ten id) (start_item now) t.batch_items))
unfolding summarize
started-SameOutcomes now t ten id tenant job =
    let all : (s : BatchItemStatus)
        → is_item_status s BatchItemStatus.pending ≡ false
        → is_item_status s BatchItemStatus.running ≡ false
        → count_status tenant job s
            (update_where (claimable t ten id) (start_item now) t.batch_items)
          ≡ count_status tenant job s t.batch_items =
      λ s p r.
        count-update (λ i. is_of_job tenant job i && is_item_status i.status s) (claimable t ten id)
          (start_item now) t.batch_items
          (All-every t.batch_items (λ i h. open_uncounted tenant job s now t ten id i p r h)) in
    record {
      same_total =
          count-update (is_of_job tenant job) (claimable t ten id) (start_item now) t.batch_items
            (All-every t.batch_items (λ i _. refl));
      same_completed = all BatchItemStatus.completed refl refl;
      same_failed = all BatchItemStatus.failed refl refl;
      same_cancelled = all BatchItemStatus.cancelled refl refl;
    }

-- A job that takes no work has no item that can be claimed.
none_claimable :
    (t : Tables) (ten id : String) (j : BatchJobRecord)
    → (0 < count_where (λ k. is_job j.tenant_id j.id k && takes_work k.status) t.batch_jobs
        → takes_work j.status ≡ true)
    → takes_work j.status ≡ false
    → (i : BatchItemRecord) → claimable t ten id i ≡ true
    → is_of_job j.tenant_id j.id i ≡ false
none_claimable t ten id j only idle i h = elim (Bool-cases (is_of_job j.tenant_id j.id i)) [
  | inr n ↦ n
  | inl y ↦
      let (a, b) = is_of_job_same j.tenant_id j.id i y in
      let more : ltb 0
            (count_where (λ k. is_job i.tenant_id i.job_id k && takes_work k.status) t.batch_jobs)
          ≡ true =
        ground arith in
      let works : takes_work j.status ≡ true = only (
        ltb→lt 0 _ (
          subst
            (λ u.
              ltb 0 (count_where (λ k. is_job u j.id k && takes_work k.status) t.batch_jobs) ≡ true)
            a
            (subst
              (λ u.
                ltb 0
                  (count_where (λ k. is_job i.tenant_id u k && takes_work k.status) t.batch_jobs)
                ≡ true)
              b more))) in
      absurd (ground arith)
]

-- The same job, or the job once it is started.
working-Fits :
    (c d : Counts) (j j' : BatchJobRecord)
    → SameOutcomes c d
    → (j'.completed_items ≡ j.completed_items)
      × (j'.failed_items ≡ j.failed_items)
      × (j'.cancelled_items ≡ j.cancelled_items)
    → is_final j'.status ≡ is_final j.status
    → ((is_final j.status ≡ false) ⊎ (d ≡ c))
    → Fits c j
    → Fits d j'
working-Fits c d j j' same (a, b, e) final idle f =
    let r : is_final j.status ≡ true → d.running ≡ 0 = λ k. elim idle [
      | inl n ↦ absurd (ground arith)
      | inr q ↦ ap (λ (x : Counts). x.running) q ∙ f.calm k
    ] in
    record {
      completed_right = omega (arith, same.same_completed, f.completed_right);
      failed_right = omega (arith, same.same_failed, f.failed_right);
      cancelled_right = omega (arith, same.same_cancelled, f.cancelled_right);
      calm = λ k. r (sym final ∙ k);
      settled = λ p q.
          final
          ∙ f.settled (omega (arith, same.same_total)) (
              omega (
                arith, same.same_total, same.same_completed, same.same_failed, same.same_cancelled,
              ));
    }

module _ (now : ℕ) (ten id : String) {t : Tables} (v : IsSound t) where
  abbrev started : List BatchItemRecord
  started = update_where (claimable t ten id) (start_item now) t.batch_items

  -- The job is not final, or none of its items is started.
  abbrev IsIdle : BatchJobRecord → Type 0
  IsIdle j =
      (is_final j.status ≡ false)
      ⊎ (summarize j.tenant_id j.id started ≡ summarize j.tenant_id j.id t.batch_items)

  IsIdle-cases :
      (j : BatchJobRecord)
      → (0 < count_where (λ k. is_job j.tenant_id j.id k && takes_work k.status) t.batch_jobs
          → takes_work j.status ≡ true)
      → IsIdle j
  IsIdle-cases j only = elim (Bool-cases (takes_work j.status)) [
    | inl y ↦ inl (work_not_final j.status y)
    | inr n ↦ inr (
        summarize-update_other j.tenant_id j.id (claimable t ten id) (start_item now) t.batch_items
          (λ i. refl) (All-every t.batch_items (none_claimable t ten id j only n)))
  ]

  All-ready : All (λ j. FitsItems t.batch_items j × IsIdle j) t.batch_jobs
  All-ready = All-both (FitsItems t.batch_items) IsIdle t.batch_jobs v.jobs_fit (
      All-with t.batch_jobs IsIdle-cases (
        count-own (λ (j : BatchJobRecord). j.id) (λ j k. is_job j.tenant_id j.id k)
          (λ (k : BatchJobRecord). takes_work k.status) t.batch_jobs
          (λ x y h. (is_job_same x.tenant_id x.id y h).1) v.jobs_distinct))

  started-Fits :
      (j : BatchJobRecord)
      → FitsItems t.batch_items j
      → IsIdle j
      → Fits (summarize j.tenant_id j.id started) j
  started-Fits j f idle =
      working-Fits _ _ j j (started-SameOutcomes now t ten id j.tenant_id j.id) (refl, refl, refl)
        refl idle f

  start_job-Fits :
      (j : BatchJobRecord)
      → FitsItems t.batch_items j
      → IsIdle j
      → Fits (summarize j.tenant_id j.id started) (start_job now j)
  start_job-Fits j f idle =
      working-Fits _ _ j (start_job now j) (started-SameOutcomes now t ten id j.tenant_id j.id)
        (refl, refl, refl) (start_keeps_final now j) idle f

  started-IsSound :
      (q : BatchJobRecord → Bool)
      → IsSound (record {
        batch_jobs = update_where q (start_job now) t.batch_jobs;
        batch_items = started;
      })
  started-IsSound q = record {
    items_distinct =
        Distinct-update _ (claimable t ten id) (start_item now) t.batch_items (λ i. refl)
          v.items_distinct;
    jobs_distinct = Distinct-update _ q (start_job now) t.batch_jobs (λ j. refl) v.jobs_distinct;
    tracked =
        All-update (claimable t ten id) (start_item now) t.batch_items
          (λ i _ h.
            HasJob-update i.tenant_id i.job_id q (start_job now) t.batch_jobs (λ j. (refl, refl)) h)
          (λ i _ h.
            HasJob-update i.tenant_id i.job_id q (start_job now) t.batch_jobs (λ j. (refl, refl)) h)
          v.tracked;
    jobs_fit =
        All-update q (start_job now) t.batch_jobs (λ j _ (f, idle). start_job-Fits j f idle)
          (λ j _ (f, idle). started-Fits j f idle) All-ready;
  }

pub mark_batch_item_running-IsSound :
    (now : ℕ) (ten id : String) {t : Tables}
    → IsSound t
    → IsSound (mark_batch_item_running now ten id t).0
unfolding mark_batch_item_running
mark_batch_item_running-IsSound now ten id {t} v =
    elim (Bool-cases (ltb 0 (count_where (claimable t ten id) t.batch_items))) [
      | inr n ↦ rw n v
      | inl y ↦ elim (Option-cases (get_batch_item ten id t)) [
        | inl e ↦
            let few =
              count_mono (claimable t ten id) (is_item ten id) t.batch_items
                (λ i h. ground arith) in
            absurd (
              ground (arith, find-none (is_item ten id) t.batch_items (unfold get_batch_item in e)))
        | inr (i, e) ↦ rw (y, e) (started-IsSound now ten id v (is_job ten i.job_id))
      ]
    ]
