-- ===== src/Batch/Sound/Refresh.antt =====
-- `refreshBatchJobStatusTx` makes a job fit the items that a transaction has changed.
use gateyes.Common.{
  ℕ, ◌+◌, ◌≤◌, ◌≡◌, refl, String, true, false, List, string_eq, nat_eq, All, Option-cases, inl, inr,
  arith, ap, subst, Option, none, some, sym,
}
use gateyes.Batch.Rows.{BatchStatus, BatchJobRecord, BatchItemRecord, Tables, is_job, update_where}
use gateyes.Batch.Rows.Picked.{Distinct, Distinct-update, All-with, All-update, All-both, find-only}
use gateyes.Batch.Store.{
  Counts, summarize, next_status, summarized, refresh_batch_job_status, get_batch_job,
  or_rolled_back,
}
use gateyes.Batch.Sound.{Fits, FitsItems, HasJob, HasJob-update, IsSound, is_job_same, is_final}

abbrev Bounded : Counts → Type 0
Bounded c = c.completed + c.failed + c.cancelled + c.running ≤ c.total

-- A status that the switch makes final leaves nothing running.
next_status-calm :
    (s : BatchStatus) (c : Counts)
    → Bounded c
    → (is_final s ≡ true → c.running ≡ 0)
    → is_final (next_status none s c) ≡ true
    → c.running ≡ 0
unfolding next_status
next_status-calm BatchStatus.pending c b h e = ground arith
next_status-calm BatchStatus.running c b h e = ground arith
next_status-calm BatchStatus.completed c b h e = h refl
next_status-calm BatchStatus.failed c b h e = h refl
next_status-calm BatchStatus.cancelling c b h e = ground arith
next_status-calm BatchStatus.cancelled c b h e = h refl

next_status-settled :
    (s : BatchStatus) (c : Counts)
    → c.total ≤ c.completed + c.failed + c.cancelled
    → is_final (next_status none s c) ≡ true
unfolding next_status
next_status-settled BatchStatus.pending c h = ground arith
next_status-settled BatchStatus.running c h = ground arith
next_status-settled BatchStatus.completed c h = ground arith
next_status-settled BatchStatus.failed c h = ground arith
next_status-settled BatchStatus.cancelling c h = ground arith
next_status-settled BatchStatus.cancelled c h = refl

pub next_status-Fits :
    (now : ℕ) (c0 c : Counts) (j : BatchJobRecord)
    → Bounded c
    → c.running ≤ c0.running
    → Fits c0 j
    → Fits c (summarized now (next_status none j.status c) c j)
next_status-Fits now c0 c j b r f = record {
  completed_right = refl;
  failed_right = refl;
  cancelled_right = refl;
  calm = next_status-calm j.status c b (λ e. omega (arith, f.calm e));
  settled = λ _ h. next_status-settled j.status c h;
}

-- With a status that is given, once no item is pending.
pub preferred-Fits :
    (now : ℕ) (s : BatchStatus) (c : Counts) (j : BatchJobRecord)
    → (is_final s ≡ true → c.running ≡ 0)
    → (c.running ≡ 0 → is_final s ≡ true)
    → Bounded c
    → Fits c (summarized now s c j)
preferred-Fits now s c j h k b = record {
  completed_right = refl;
  failed_right = refl;
  cancelled_right = refl;
  calm = h;
  settled = λ _ e. k (omega arith);
}

to_job :
    (ten job : String) (j : BatchJobRecord) (P : String → String → Type 0)
    → is_job ten job j ≡ true
    → P j.tenant_id j.id
    → P ten job
to_job ten job j P u h =
    let (a, b) = is_job_same ten job j u in subst (λ k. P ten k) b (subst (λ k. P k j.id) a h)

from_job :
    (ten job : String) (j : BatchJobRecord) (P : String → String → Type 0)
    → is_job ten job j ≡ true
    → P ten job
    → P j.tenant_id j.id
from_job ten job j P u h =
    let (a, b) = is_job_same ten job j u in
    subst (λ k. P j.tenant_id k) (sym b) (subst (λ k. P k job) (sym a) h)

module _ (now : ℕ) (ten job : String) (preferred : Option BatchStatus) (t : Tables)
    (items : List BatchItemRecord) where
  -- The counts that the transaction reads.
  abbrev read : Counts
  read = summarize ten job t.batch_items

  abbrev refreshed : BatchStatus → List BatchJobRecord
  refreshed s =
      update_where (is_job ten job) (summarized now (next_status preferred s read) read)
        t.batch_jobs

  -- Only items of the job have changed.
  abbrev OthersSame : Type 0
  OthersSame =
      (j : BatchJobRecord)
      → is_job ten job j ≡ false
      → summarize j.tenant_id j.id t.batch_items ≡ summarize j.tenant_id j.id items

  -- What the new status has to do for the job.
  abbrev Serves : BatchStatus → Type 0
  Serves s =
      (j : BatchJobRecord)
      → j.status ≡ s
      → Fits (summarize ten job items) j
      → Fits read (summarized now (next_status preferred s read) read j)

  refreshed-fit :
      (s : BatchStatus)
      → OthersSame
      → Serves s
      → All (λ j. FitsItems items j × (is_job ten job j ≡ true → j.status ≡ s)) t.batch_jobs
      → All (FitsItems t.batch_items) (refreshed s)
  refreshed-fit s other own fit =
      All-update (is_job ten job) (summarized now (next_status preferred s read) read) t.batch_jobs
        (λ j u (f, e).
          from_job ten job j
            (λ a b.
              Fits (summarize a b t.batch_items)
                (summarized now (next_status preferred s read) read j))
            u (own j (e u) (to_job ten job j (λ a b. Fits (summarize a b items) j) u f)))
        (λ j n (f, _). rw (other j n) f) fit

  pub refresh-IsSound :
      (t0 : Tables)
      → IsSound t0
      → Distinct (λ (i : BatchItemRecord). i.id) t.batch_items
      → Distinct (λ (j : BatchJobRecord). j.id) t.batch_jobs
      → All (λ i. HasJob i.tenant_id i.job_id t.batch_jobs) t.batch_items
      → All (FitsItems items) t.batch_jobs
      → OthersSame
      → ((s : BatchStatus) (j : BatchJobRecord)
          → get_batch_job ten job t ≡ some j
          → s ≡ j.status
          → Serves s)
      → IsSound (or_rolled_back t0 (refresh_batch_job_status now ten job preferred t))
  unfolding refresh_batch_job_status
  refresh-IsSound t0 v0 di dj tracked fit other own =
      elim (Option-cases (get_batch_job ten job t)) [
        | inl e ↦ rw (e, or_rolled_back) v0
        | inr (j, e) ↦
            rw (e, or_rolled_back)
              (record {
                items_distinct = di;
                jobs_distinct = Distinct-update _ (is_job ten job) _ t.batch_jobs (λ k. refl) dj;
                tracked =
                    All-with t.batch_items
                      (λ i h.
                        HasJob-update i.tenant_id i.job_id (is_job ten job) _ t.batch_jobs
                          (λ k. (refl, refl)) h)
                      tracked;
                jobs_fit = refreshed-fit j.status other (own j.status j e refl) (
                    All-both _ _ t.batch_jobs fit (
                      All-with t.batch_jobs
                        (λ k same u. ap (λ (x : BatchJobRecord). x.status) (same u))
                        (find-only (λ (k : BatchJobRecord). k.id) (is_job ten job) job t.batch_jobs
                          (λ k u. (is_job_same ten job k u).1) dj (unfold get_batch_job in e))));
              })
      ]
