-- ===== src/Batch/Sound/Cancel.antt =====
-- `CancelBatchJob` leaves sound tables.
use gateyes.Common.{
  ℕ, ◌≡◌, refl, String, false, List, string_eq, nat_eq, Option-cases, inl, inr, arith, subst,
  Option, none, some, sym,
}
use gateyes.Batch.Rows.{BatchStatus, BatchJobRecord, BatchItemRecord, Tables, is_job, update_where}
use gateyes.Batch.Rows.Picked.{Distinct-update, All-every, All-update}
use gateyes.Batch.Store.{
  Counts, summarize, next_status, refresh_batch_job_status, get_batch_job, or_rolled_back,
  with_waiting_cancelled, is_waiting, cancel_item, status_after_cancel, cancel_from,
  cancel_batch_job, after_cancel, BatchError,
}
use gateyes.Batch.Sound.{IsSound, is_of_job_same, summary_bound, of_other, summarize-update_other}
use gateyes.Batch.Sound.Refresh.{preferred-Fits, refresh-IsSound}

next_status-preferred : (s k : BatchStatus) (c : Counts) → next_status (some s) k c ≡ s
unfolding next_status
next_status-preferred s k c = refl

pub after_cancel-tables :
    (ten job : String) (r : Tables × Option BatchError) → (after_cancel ten job r).0 ≡ r.0
unfolding after_cancel
after_cancel-tables ten job (t, some e) = refl
after_cancel-tables ten job (t, none) = refl

module _ (now : ℕ) (ten job : String) {t : Tables} (v : IsSound t) where
  abbrev rest : List BatchItemRecord
  rest = update_where (is_waiting ten job) (cancel_item now) t.batch_items

  others_wait :
      (j : BatchJobRecord)
      → is_job ten job j ≡ false
      → summarize j.tenant_id j.id rest ≡ summarize j.tenant_id j.id t.batch_items
  others_wait j n =
      summarize-update_other j.tenant_id j.id (is_waiting ten job) (cancel_item now) t.batch_items
        (λ k. refl)
        (All-every t.batch_items (λ k h.
          let (a, b) = is_of_job_same ten job k (ground arith) in
          of_other j k (
            subst (λ x. is_job x k.job_id j ≡ false) (sym a)
              (subst (λ x. is_job ten x j ≡ false) (sym b) n))))

  pub cancelled-IsSound : IsSound (
      or_rolled_back t (
        refresh_batch_job_status now ten job
          (some (status_after_cancel (summarize ten job rest).running))
          (record { batch_jobs = t.batch_jobs; batch_items = rest })))
  cancelled-IsSound =
      refresh-IsSound now ten job (some (status_after_cancel (summarize ten job rest).running))
        (record { batch_jobs = t.batch_jobs; batch_items = rest }) t.batch_items t v
        (Distinct-update _ (is_waiting ten job) (cancel_item now) t.batch_items (λ k. refl)
          v.items_distinct)
        v.jobs_distinct
        (All-update (is_waiting ten job) (cancel_item now) t.batch_items (λ k _ h. h) (λ k _ h. h)
          v.tracked)
        v.jobs_fit others_wait
        (λ s' j _ _ k p f.
          rw
            (next_status-preferred (status_after_cancel (summarize ten job rest).running) s'
              (summarize ten job rest))
            (preferred-Fits now (status_after_cancel (summarize ten job rest).running)
              (summarize ten job rest) k (λ h. ground arith) (λ h. rw h refl)
              (summary_bound ten job rest)))

  pub cancel_from-IsSound : (s : BatchStatus) → IsSound (cancel_from now ten job s t).0
  unfolding cancel_from with_waiting_cancelled
  cancel_from-IsSound BatchStatus.completed = v
  cancel_from-IsSound BatchStatus.failed = v
  cancel_from-IsSound BatchStatus.cancelled = v
  cancel_from-IsSound BatchStatus.cancelling = v
  cancel_from-IsSound BatchStatus.pending = unfold summarize in cancelled-IsSound
  cancel_from-IsSound BatchStatus.running = unfold summarize in cancelled-IsSound

  pub cancel_batch_job-IsSound : IsSound (cancel_batch_job now ten job t).0
  unfolding cancel_batch_job
  cancel_batch_job-IsSound = elim (Option-cases (get_batch_job ten job t)) [
    | inl e ↦ rw (e, cancel_batch_job) v
    | inr (j, e) ↦
        rw (e, cancel_batch_job, after_cancel-tables ten job) (cancel_from-IsSound j.status)
  ]
