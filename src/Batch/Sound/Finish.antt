-- ===== src/Batch/Sound/Finish.antt =====
-- `CompleteBatchItem`, `FailBatchItem` and `CancelBatchItem` leave sound tables.
use gateyes.Common.{
  ℕ, ◌≤◌, ◌≡◌, refl, String, true, false, ◌&&◌, List, string_eq, nat_eq, All, Bool-cases,
  Option-cases, inl, inr, arith, subst, ltb, none, some, sym, ==→≡,
}
use gateyes.Batch.Rows.{
  BatchItemStatus, is_item_status, BatchJobRecord, BatchItemRecord, BatchItemUpdate, Tables, is_job,
  is_of_job, is_item, count_where, update_where, find_where,
}
use gateyes.Batch.Rows.Picked.{
  Distinct, Distinct-update, All-with, All-every, All-update, find-only, find-picked,
  count-update-le,
}
use gateyes.Batch.Store.{
  Counts, summarize, next_status, summarized, refresh_batch_job_status, or_rolled_back,
  get_batch_item, with_outcome, is_open, finish_item, add_tokens_of, is_terminal,
  update_batch_item_terminal,
}
use gateyes.Batch.Sound.{
  Fits, FitsItems, HasJob, HasJob-update, IsSound, summary_bound, of_other, summarize-update_other,
}
use gateyes.Batch.Sound.Refresh.{next_status-Fits, refresh-IsSound}

add_tokens_of-Fits :
    (u : BatchItemUpdate) (c : Counts) (j : BatchJobRecord) → Fits c j → Fits c (add_tokens_of u j)
add_tokens_of-Fits u c j f = record {
  completed_right = f.completed_right;
  failed_right = f.failed_right;
  cancelled_right = f.cancelled_right;
  calm = f.calm;
  settled = f.settled;
}

terminal_not_running :
    (s : BatchItemStatus) → is_terminal s ≡ true → is_item_status s BatchItemStatus.running ≡ false
terminal_not_running BatchItemStatus.pending h = refl
terminal_not_running BatchItemStatus.running h = absurd (ground arith)
terminal_not_running BatchItemStatus.completed h = refl
terminal_not_running BatchItemStatus.failed h = refl
terminal_not_running BatchItemStatus.cancelled h = refl

module _ (now : ℕ) (ten id : String) (s : BatchItemStatus) (u : BatchItemUpdate)
    (done : is_terminal s ≡ true) {t : Tables} (v : IsSound t) where
  abbrev finished : List BatchItemRecord
  finished = update_where (is_open ten id) (finish_item now s u) t.batch_items

  running-le :
      (tenant job : String)
      → (summarize tenant job finished).running ≤ (summarize tenant job t.batch_items).running
  unfolding summarize
  running-le tenant job =
      count-update-le
        (λ i. is_of_job tenant job i && is_item_status i.status BatchItemStatus.running)
        (is_open ten id) (finish_item now s u) t.batch_items
        (All-every t.batch_items (λ i _. rw (terminal_not_running s done) (ground arith)))

  -- No item of another job than that of the item is finished.
  others_unfinished :
      (i : BatchItemRecord)
      → get_batch_item ten id t ≡ some i
      → (j : BatchJobRecord) → is_job ten i.job_id j ≡ false
      → summarize j.tenant_id j.id finished ≡ summarize j.tenant_id j.id t.batch_items
  others_unfinished i e j n =
      let found : find_where (is_item ten id) t.batch_items ≡ some i = unfold get_batch_item in e in
      let only =
        find-only (λ (k : BatchItemRecord). k.id) (is_item ten id) id t.batch_items
          (λ k h. ground (arith, ==→≡ k.id id)) v.items_distinct found in
      let picked : is_item ten id i ≡ true = find-picked (is_item ten id) t.batch_items found in
      let tenant : i.tenant_id ≡ ten = ground (arith, ==→≡ i.tenant_id ten) in
      let other : is_of_job j.tenant_id j.id i ≡ false =
        of_other j i (subst (λ x. is_job x i.job_id j ≡ false) (sym tenant) n) in
      summarize-update_other j.tenant_id j.id (is_open ten id) (finish_item now s u) t.batch_items
        (λ k. refl)
        (All-with t.batch_items
          (λ k same h.
            subst (λ (x : BatchItemRecord). is_of_job j.tenant_id j.id x ≡ false)
              (sym (same (ground arith))) other)
          only)

  -- The item that is finished is of this job, and the jobs are those before, or with its tokens.
  finished-IsSound :
      (i : BatchItemRecord) (jobs : List BatchJobRecord)
      → get_batch_item ten id t ≡ some i
      → Distinct (λ (j : BatchJobRecord). j.id) jobs
      → All (λ i. HasJob i.tenant_id i.job_id jobs) t.batch_items
      → All (FitsItems t.batch_items) jobs
      → IsSound (
          or_rolled_back t (
            refresh_batch_job_status now ten i.job_id none
              (record { batch_jobs = jobs; batch_items = finished })))
  finished-IsSound i jobs e dj tracked fit =
      refresh-IsSound now ten i.job_id none (record { batch_jobs = jobs; batch_items = finished })
        t.batch_items t v
        (Distinct-update _ (is_open ten id) (finish_item now s u) t.batch_items (λ k. refl)
          v.items_distinct)
        dj
        (All-update (is_open ten id) (finish_item now s u) t.batch_items (λ k _ h. h) (λ k _ h. h)
          tracked)
        fit (others_unfinished i e)
        (λ s' j _ _ k p f.
          subst
            (λ x. Fits (summarize ten i.job_id finished) (
              summarized now (next_status none x (summarize ten i.job_id finished))
                (summarize ten i.job_id finished) k))
            p
            (next_status-Fits now (summarize ten i.job_id t.batch_items) _ k
              (summary_bound ten i.job_id finished) (running-le ten i.job_id) f))

  outcome-IsSound :
      (i : BatchItemRecord)
      → get_batch_item ten id t ≡ some i
      → IsSound (
          or_rolled_back t (
            refresh_batch_job_status now ten i.job_id none
              (with_outcome now ten id i.job_id s u t)))
  unfolding with_outcome
  outcome-IsSound i e = elim (Bool-cases (is_item_status s BatchItemStatus.completed)) [
    | inr n ↦ rw n (finished-IsSound i t.batch_jobs e v.jobs_distinct v.tracked v.jobs_fit)
    | inl y ↦ rw y (
        finished-IsSound i (update_where (is_job ten i.job_id) (add_tokens_of u) t.batch_jobs) e
          (Distinct-update _ (is_job ten i.job_id) (add_tokens_of u) t.batch_jobs (λ j. refl)
            v.jobs_distinct)
          (All-with t.batch_items
            (λ k h.
              HasJob-update k.tenant_id k.job_id (is_job ten i.job_id) (add_tokens_of u)
                t.batch_jobs (λ j. (refl, refl)) h)
            v.tracked)
          (All-update (is_job ten i.job_id) (add_tokens_of u) t.batch_jobs
            (λ j _ f. add_tokens_of-Fits u (summarize j.tenant_id j.id t.batch_items) j f)
            (λ j _ f. f) v.jobs_fit))
  ]

  pub update_batch_item_terminal-IsSound : IsSound (update_batch_item_terminal now ten id s u t)
  unfolding update_batch_item_terminal
  update_batch_item_terminal-IsSound =
      elim (Bool-cases (ltb 0 (count_where (is_open ten id) t.batch_items))) [
        | inr n ↦ rw n v
        | inl y ↦ elim (Option-cases (get_batch_item ten id t)) [
          | inl e ↦ rw (y, e) v
          | inr (i, e) ↦ rw (y, e) (outcome-IsSound i e)
        ]
      ]
