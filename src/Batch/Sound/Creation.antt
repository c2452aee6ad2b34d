-- ===== src/Batch/Sound/Creation.antt =====
-- `CreateBatchJob` and `CreateBatchItem` leave sound tables.
use gateyes.Common.{
  ℕ, ◌+◌, ◌≤◌, ◌≡◌, refl, String, Bool, true, false, ◌&&◌, ◌||◌, List, ◌∷◌, ◌==◌, string_eq, nat_eq,
  if◌then◌else◌, All, Bool-cases, inl, inr, ==_refl, arith, subst, ltb,
}
use gateyes.Batch.Rows.{
  BatchItemStatus, BatchJobRecord, BatchItemRecord, Tables, is_job, is_of_job, count_where,
}
use gateyes.Batch.Rows.Picked.{All-with, count-zero, zero-count, count_mono, count-more}
use gateyes.Batch.Store.{
  Counts, summarize, CreateBatchJobParams, CreateBatchItemParams, create_batch_job,
  create_batch_item, new_job, new_item,
}
use gateyes.Batch.Sound.{
  Fits, FitsItems, HasJob, IsSound, is_job_same, is_of_job_same, summary_bound,
}

not-counted : {n : ℕ} → ltb 0 n ≡ false → n ≡ 0
not-counted h = ground arith

-- One item more that has no outcome yet.
abbrev one_more : Bool → Counts → Counts
one_more b c = record c { total = (if b then 1 else 0) + c.total }

one_more-Fits :
    (b : Bool) (c : Counts) (j : BatchJobRecord)
    → c.completed + c.failed + c.cancelled + c.running ≤ c.total
    → Fits c j
    → Fits (one_more b c) j
one_more-Fits true c j h f = record {
  completed_right = f.completed_right;
  failed_right = f.failed_right;
  cancelled_right = f.cancelled_right;
  calm = f.calm;
  settled = λ _ k. absurd (omega arith);
}
one_more-Fits false c j h f = ground arith

summarize-pending :
    (tenant job : String) (i : BatchItemRecord) (items : List BatchItemRecord)
    → i.status ≡ BatchItemStatus.pending
    → summarize tenant job (i ∷ items)
      ≡ one_more (is_of_job tenant job i) (summarize tenant job items)
unfolding summarize count_where
summarize-pending tenant job i items p = elim (Bool-cases (is_of_job tenant job i)) [
  | inl y ↦ rw (y, p) (ground arith)
  | inr n ↦ rw n (ground arith)
]

FitsItems-new :
    (i : BatchItemRecord) (items : List BatchItemRecord) (j : BatchJobRecord)
    → i.status ≡ BatchItemStatus.pending
    → FitsItems items j
    → FitsItems (i ∷ items) j
FitsItems-new i items j p f =
    rw (summarize-pending j.tenant_id j.id i items p)
      (one_more-Fits (is_of_job j.tenant_id j.id i) _ j (summary_bound j.tenant_id j.id items) f)

pub create_batch_item-IsSound :
    (now : ℕ) (id : String) (p : CreateBatchItemParams) {t : Tables}
    → HasJob p.tenant_id p.job_id t.batch_jobs
    → IsSound t
    → IsSound (create_batch_item now id p t).0
unfolding create_batch_item
create_batch_item-IsSound now id p {t} has v =
    elim (Bool-cases (p.job_id == "" || p.tenant_id == "")) [
      | inl e ↦ rw e v
      | inr e ↦ elim (Bool-cases (ltb 0 (count_where (λ i. i.id == id) t.batch_items))) [
        | inl d ↦ rw (e, d) v
        | inr d ↦
            elim (Bool-cases (
              ltb 0
                (count_where (λ i. i.job_id == p.job_id && i.index == p.index) t.batch_items))) [
                  | inl k ↦ rw (e, d, k) v
                  | inr k ↦
                      rw (e, d, k)
                        (record {
                          items_distinct =
                              (count-zero _ t.batch_items (not-counted d), v.items_distinct);
                          jobs_distinct = v.jobs_distinct;
                          tracked = (has, v.tracked);
                          jobs_fit =
                              All-with t.batch_jobs
                                (λ j f. FitsItems-new (new_item now id p) t.batch_items j refl f)
                                v.jobs_fit;
                        })
                ]
      ]
    ]

-- No item is of a job whose identifier is new.
no_items :
    (tenant id : String) (jobs : List BatchJobRecord) (items : List BatchItemRecord)
    → count_where (λ j. j.id == id) jobs ≡ 0
    → All (λ i. HasJob i.tenant_id i.job_id jobs) items
    → count_where (is_of_job tenant id) items ≡ 0
no_items tenant id jobs items h tracked = zero-count (is_of_job tenant id) items (
    All-with items
      (λ i has. elim (Bool-cases (is_of_job tenant id i)) [
        | inr n ↦ n
        | inl y ↦
            let e : i.job_id ≡ id = (is_of_job_same tenant id i y).1 in
            let few =
              count_mono (is_job i.tenant_id i.job_id) (λ j. j.id == id) jobs
                (λ j k.
                  subst (λ d. (j.id == d) ≡ true) e
                    (rw (is_job_same i.tenant_id i.job_id j k).1 (==_refl i.job_id))) in
            absurd (omega arith)
      ])
      tracked)

new_job-FitsItems :
    (now : ℕ) (id : String) (p : CreateBatchJobParams) (items : List BatchItemRecord)
    → count_where (is_of_job p.tenant_id id) items ≡ 0
    → FitsItems items (new_job now id p)
new_job-FitsItems now id p items h =
    let bound = summary_bound p.tenant_id id items in
    let none : (summarize p.tenant_id id items).total ≡ 0 = unfold summarize in h in
    record {
      completed_right = omega arith;
      failed_right = omega arith;
      cancelled_right = omega arith;
      calm = λ e. omega arith;
      settled = λ k. absurd (omega arith);
    }

pub create_batch_job-IsSound :
    (now : ℕ) (id : String) (p : CreateBatchJobParams) {t : Tables}
    → IsSound t
    → IsSound (create_batch_job now id p t).0
unfolding create_batch_job
create_batch_job-IsSound now id p {t} v = elim (Bool-cases (p.tenant_id == "")) [
  | inl e ↦ rw e v
  | inr e ↦ elim (Bool-cases (nat_eq.same p.total_items 0)) [
    | inl z ↦ rw (e, z) v
    | inr z ↦ elim (Bool-cases (ltb 0 (count_where (λ j. j.id == id) t.batch_jobs))) [
      | inl d ↦ rw (e, z, d) v
      | inr d ↦
          rw (e, z, d)
            (record {
              items_distinct = v.items_distinct;
              jobs_distinct = (count-zero _ t.batch_jobs (not-counted d), v.jobs_distinct);
              tracked =
                  All-with t.batch_items
                    (λ i h.
                      count-more (is_job i.tenant_id i.job_id) (new_job now id p) t.batch_jobs h)
                    v.tracked;
              jobs_fit = (
                new_job-FitsItems now id p t.batch_items
                    (no_items p.tenant_id id t.batch_jobs t.batch_items (not-counted d) v.tracked),
                v.jobs_fit,
              );
            })
    ]
  ]
]
