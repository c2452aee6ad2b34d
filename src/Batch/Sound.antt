-- ===== src/Batch/Sound.antt =====
-- What holds of the tables of internal/repository/sqlstore/batches.go between transactions.
pub mod Creation
pub mod Claim
pub mod Refresh
pub mod Finish
pub mod Cancel
use gateyes.Common.{
  ℕ, ◌+◌, ◌≤◌, ◌<◌, ◌≡◌, refl, String, Bool, true, false, ◌&&◌, ◌||◌, List, [], ◌∷◌, ◌==◌,
  string_eq, nat_eq, if◌then◌else◌, All, Bool-cases, inl, inr, ==→≡, ==_refl, arith, ap, subst,
}
use gateyes.Batch.Rows.{
  BatchStatus, BatchItemStatus, is_status, is_item_status, BatchJobRecord, BatchItemRecord, Tables,
  is_job, is_of_job, count_where, update_where,
}
use gateyes.Batch.Rows.Picked.{Distinct, count-update, All-with, All-every}
use gateyes.Batch.Store.{Counts, summarize, count_status}

-- A status that a job keeps.
abbrev pub is_final : BatchStatus → Bool
is_final s =
    is_status s BatchStatus.completed
    || is_status s BatchStatus.failed
    || is_status s BatchStatus.cancelled

-- The job's counters are those of its items; a final job has none that runs; a job all of whose items are
-- terminal is final.
pub record Fits (c : Counts) (j : BatchJobRecord) : Type 0 where
  pub completed_right : j.completed_items ≡ c.completed
  pub failed_right : j.failed_items ≡ c.failed
  pub cancelled_right : j.cancelled_items ≡ c.cancelled
  pub calm : is_final j.status ≡ true → c.running ≡ 0
  pub settled :
      0 < c.total → c.total ≤ c.completed + c.failed + c.cancelled → is_final j.status ≡ true

abbrev pub FitsItems : List BatchItemRecord → BatchJobRecord → Type 0
FitsItems items j = Fits (summarize j.tenant_id j.id items) j

abbrev pub HasJob : String → String → List BatchJobRecord → Type 0
HasJob tenant id jobs = 0 < count_where (is_job tenant id) jobs

pub record IsSound (t : Tables) : Type 0 where
  pub items_distinct : Distinct (λ (i : BatchItemRecord). i.id) t.batch_items
  pub jobs_distinct : Distinct (λ (j : BatchJobRecord). j.id) t.batch_jobs
  pub tracked : All (λ i. HasJob i.tenant_id i.job_id t.batch_jobs) t.batch_items
  pub jobs_fit : All (FitsItems t.batch_items) t.batch_jobs

pub is_job_same :
    (tenant id : String) (j : BatchJobRecord)
    → is_job tenant id j ≡ true
    → (j.tenant_id ≡ tenant) × (j.id ≡ id)
is_job_same tenant id j h = ground (arith, ==→≡ j.tenant_id tenant, ==→≡ j.id id)

pub is_of_job_same :
    (tenant job : String) (i : BatchItemRecord)
    → is_of_job tenant job i ≡ true
    → (i.tenant_id ≡ tenant) × (i.job_id ≡ job)
is_of_job_same tenant job i h = ground (arith, ==→≡ i.tenant_id tenant, ==→≡ i.job_id job)

-- An item of a job is of no other.
pub of_other :
    (j : BatchJobRecord) (i : BatchItemRecord)
    → is_job i.tenant_id i.job_id j ≡ false
    → is_of_job j.tenant_id j.id i ≡ false
of_other j i h = elim (Bool-cases (is_of_job j.tenant_id j.id i)) [
  | inr n ↦ n
  | inl y ↦
      let (a, b) = is_of_job_same j.tenant_id j.id i y in
      absurd (ground (arith, ==_refl j.tenant_id, ==_refl j.id))
]

-- No more items are counted by their status than there are.
pub summary_bound :
    (tenant job : String) (items : List BatchItemRecord)
    → (summarize tenant job items).completed
        + (summarize tenant job items).failed
        + (summarize tenant job items).cancelled
        + (summarize tenant job items).running
      ≤ (summarize tenant job items).total
unfolding summarize count_where
summary_bound tenant job [] = omega arith
summary_bound tenant job (i ∷ is) = elim (Bool-cases (is_of_job tenant job i)) [
  | inl y ↦ rw y (ground (arith, summary_bound tenant job is))
  | inr n ↦ rw n (ground (arith, summary_bound tenant job is))
]

-- An update of items that are of other jobs.
pub summarize-update_other :
    (tenant job : String) (q : BatchItemRecord → Bool) (f : BatchItemRecord → BatchItemRecord)
    (items : List BatchItemRecord)
    → ((i : BatchItemRecord) → is_of_job tenant job (f i) ≡ is_of_job tenant job i)
    → All (λ i. q i ≡ true → is_of_job tenant job i ≡ false) items
    → summarize tenant job (update_where q f items) ≡ summarize tenant job items
unfolding summarize
summarize-update_other tenant job q f items keep h =
    let same : (s : BatchItemStatus)
        → All
            (λ i.
              q i ≡ true
              → (is_of_job tenant job (f i) && is_item_status (f i).status s)
                ≡ (is_of_job tenant job i && is_item_status i.status s))
            items =
      λ s. All-with items (λ i e u. rw (keep i, e u) refl) h in
    let all : (s : BatchItemStatus)
        → count_status tenant job s (update_where q f items) ≡ count_status tenant job s items =
      λ s.
        count-update (λ i. is_of_job tenant job i && is_item_status i.status s) q f items
          (same s) in
    rw
      (
        count-update (is_of_job tenant job) q f items (All-with items (λ i e u. keep i) h),
        all BatchItemStatus.completed,
        all BatchItemStatus.failed,
        all BatchItemStatus.cancelled,
        all BatchItemStatus.running,
      )
      refl

pub HasJob-update :
    (tenant id : String) (q : BatchJobRecord → Bool) (f : BatchJobRecord → BatchJobRecord)
    (jobs : List BatchJobRecord)
    → ((j : BatchJobRecord) → ((f j).tenant_id ≡ j.tenant_id) × ((f j).id ≡ j.id))
    → HasJob tenant id jobs
    → HasJob tenant id (update_where q f jobs)
HasJob-update tenant id q f jobs keep h =
    rw
      (count-update (is_job tenant id) q f jobs
        (All-every jobs (λ j _. let (a, b) = keep j in rw (a, b) refl)))
      h
