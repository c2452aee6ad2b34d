-- ===== src/Batch/Work/Outcomes.antt =====
-- What clients read of batches, after any history of transactions that run one after another.
use gateyes.Common.{
  ℕ, ◌+◌, ◌≤◌, ◌<◌, ◌≡◌, refl, String, true, false, ◌&&◌, List, [], ◌∷◌, string_eq, All, Bool-cases,
  inl, inr, arith, subst, some, sym, ==→≡, ◌∙◌,
}
use gateyes.Batch.Rows.{
  BatchJobRecord, BatchItemRecord, Tables, is_item, is_job, count_where, find_where, BatchStatus,
}
use gateyes.Batch.Rows.Picked.{All-with, zero-count, find-picked, find-All, find-only}
use gateyes.Batch.Store.{
  get_batch_job, get_batch_item, is_terminal, summarize, claimable, takes_work,
  mark_batch_item_running,
}
use gateyes.Batch.Sound.{IsSound, FitsItems, Fits, is_final, is_job_same}
use gateyes.Batch.Items.Kept.{terminal-step}
use gateyes.Batch.Work.{System, Event, step, run, nothing_yet}
use gateyes.Batch.Work.History.{IsValid, step-Steps, run-IsValid, reached-IsValid}

found-Fits :
    (ten id : String) (s : System) {j : BatchJobRecord}
    → IsValid s
    → get_batch_job ten id s.tables ≡ some j
    → Fits (summarize ten id s.tables.batch_items) j
unfolding get_batch_job
found-Fits ten id s {j} v e =
    let f =
      find-All (FitsItems s.tables.batch_items) (is_job ten id) s.tables.batch_jobs v.sound.jobs_fit
        e in
    let (a, b) = is_job_same ten id j (find-picked (is_job ten id) s.tables.batch_jobs e) in
    subst (λ x. Fits (summarize ten x s.tables.batch_items) j) b
      (subst (λ x. Fits (summarize x j.id s.tables.batch_items) j) a f)

-- On a database that runs the transactions one after another, as SQLite does: the counters
-- of a job are the numbers of its items that are completed, failed and cancelled, after any history
-- of creations, handlers, redeliveries and cancellations.
pub run-counters :
    (es : List Event) (ten id : String) (j : BatchJobRecord)
    → get_batch_job ten id (run es nothing_yet).tables ≡ some j
    → (j.completed_items ≡ (summarize ten id (run es nothing_yet).tables.batch_items).completed)
      × (j.failed_items ≡ (summarize ten id (run es nothing_yet).tables.batch_items).failed)
      × (j.cancelled_items ≡ (summarize ten id (run es nothing_yet).tables.batch_items).cancelled)
run-counters es ten id j e =
    let f = found-Fits ten id (run es nothing_yet) (reached-IsValid es) e in
    (f.completed_right, f.failed_right, f.cancelled_right)

-- On a database that runs the transactions one after another, as SQLite does: after any
-- history a job with at least one item, all of whose items are completed, failed or cancelled, is
-- itself completed, failed or cancelled, even if further items are still to be created.
pub run-settled :
    (es : List Event) (ten id : String) (j : BatchJobRecord)
    → get_batch_job ten id (run es nothing_yet).tables ≡ some j
    → 0 < (summarize ten id (run es nothing_yet).tables.batch_items).total
    → (summarize ten id (run es nothing_yet).tables.batch_items).total
      ≤ j.completed_items + j.failed_items + j.cancelled_items
    → is_final j.status ≡ true
run-settled es ten id j e some_items all_done =
    let f = found-Fits ten id (run es nothing_yet) (reached-IsValid es) e in
    f.settled some_items (omega (arith, f.completed_right, f.failed_right, f.cancelled_right))

final_works_not : (s : BatchStatus) → is_final s ≡ true → takes_work s ≡ false
final_works_not BatchStatus.pending h = absurd (ground arith)
final_works_not BatchStatus.running h = absurd (ground arith)
final_works_not BatchStatus.completed h = refl
final_works_not BatchStatus.failed h = refl
final_works_not BatchStatus.cancelling h = refl
final_works_not BatchStatus.cancelled h = refl

-- A final job is not among those that take work.
idle_job :
    (ten job : String) (t : Tables) {k : BatchJobRecord}
    → IsSound t
    → find_where (is_job ten job) t.batch_jobs ≡ some k
    → is_final k.status ≡ true
    → count_where (λ x. is_job ten job x && takes_work x.status) t.batch_jobs ≡ 0
idle_job ten job t {k} v e h =
    let only : All (λ x. is_job ten job x ≡ true → x ≡ k) t.batch_jobs =
      find-only (λ (x : BatchJobRecord). x.id) (is_job ten job) job t.batch_jobs
        (λ x u. (is_job_same ten job x u).1) v.jobs_distinct e in
    zero-count (λ x. is_job ten job x && takes_work x.status) t.batch_jobs
      (All-with t.batch_jobs
        (λ (x : BatchJobRecord) (same : is_job ten job x ≡ true → x ≡ k).
          elim (Bool-cases (is_job ten job x)) [
            | inr n ↦ rw n refl
            | inl u ↦
                let idle : takes_work x.status ≡ false =
                  subst (λ (y : BatchJobRecord). takes_work y.status ≡ false) (sym (same u))
                    (final_works_not k.status h) in
                rw (u, idle) refl
          ])
        only)

-- No item of a final job is claimed.
mark-final :
    (now : ℕ) (ten job id : String) (t : Tables) {k : BatchJobRecord} {i : BatchItemRecord}
    → IsSound t
    → get_batch_job ten job t ≡ some k
    → is_final k.status ≡ true
    → get_batch_item ten id t ≡ some i
    → i.job_id ≡ job
    → mark_batch_item_running now ten id t ≡ (t, false)
unfolding mark_batch_item_running get_batch_job get_batch_item
mark-final now ten job id t {k} {i} v e h g same_job =
    let picked = find-picked (is_item ten id) t.batch_items g in
    let tenant : i.tenant_id ≡ ten = ground (arith, ==→≡ i.tenant_id ten) in
    let idle : count_where (λ x. is_job i.tenant_id i.job_id x && takes_work x.status) t.batch_jobs
        ≡ 0 =
      subst (λ a. count_where (λ x. is_job a i.job_id x && takes_work x.status) t.batch_jobs ≡ 0)
        (sym tenant)
        (subst (λ b. count_where (λ x. is_job ten b x && takes_work x.status) t.batch_jobs ≡ 0)
          (sym same_job) (idle_job ten job t v e h)) in
    let cannot : claimable t ten id i ≡ false = rw idle (ground arith) in
    let only : All (λ x. is_item ten id x ≡ true → x ≡ i) t.batch_items =
      find-only (λ (x : BatchItemRecord). x.id) (is_item ten id) id t.batch_items
        (λ x u. ground (arith, ==→≡ x.id id)) v.items_distinct g in
    let none_can : count_where (claimable t ten id) t.batch_items ≡ 0 =
      zero-count (claimable t ten id) t.batch_items (
        All-with t.batch_items
          (λ x same. elim (Bool-cases (claimable t ten id x)) [
            | inr n ↦ n
            | inl u ↦
                absurd
                  (ground (arith, subst (λ y. claimable t ten id y ≡ true) (same (ground arith)) u))
          ])
          only) in
    rw none_can refl

final_stays :
    (es : List Event) (s : System) (ten id : String) (j : BatchJobRecord)
    → IsValid s
    → get_batch_job ten id s.tables ≡ some j
    → is_final j.status ≡ true
    → (k : BatchJobRecord) × (get_batch_job ten id (run es s).tables ≡ some k)
      × (k.status ≡ j.status)
unfolding run get_batch_job
final_stays [] s ten id j v e h = (j, e, refl)
final_stays (c ∷ es) s ten id j v e h =
    let st = step-Steps c s v in
    let (k, e', p) = st.goes.jobs.final_stays ten id j e h in
    let (l, e'', p') = final_stays es (step c s) ten id k st.valid e' (rw p h) in (l, e'', p' ∙ p)

-- On a database that runs the transactions one after another, as SQLite does: once a job
-- is completed, failed or cancelled, it keeps this status, whatever follows.
pub run-final :
    (es later : List Event) (ten id : String) (j : BatchJobRecord)
    → get_batch_job ten id (run es nothing_yet).tables ≡ some j
    → is_final j.status ≡ true
    → (k : BatchJobRecord) × (get_batch_job ten id (run later (run es nothing_yet)).tables ≡ some k)
      × (k.status ≡ j.status)
run-final es later ten id j e h =
    final_stays later (run es nothing_yet) ten id j (reached-IsValid es) e h

-- On a database that runs the transactions one after another, as SQLite does: once a job
-- is completed, failed or cancelled, no item of it is claimed any more, whatever follows, also none
-- that is created later or was still pending.
pub run-stranded :
    (es later : List Event) (now : ℕ) (ten id item : String) (j : BatchJobRecord)
    (i : BatchItemRecord)
    → get_batch_job ten id (run es nothing_yet).tables ≡ some j
    → is_final j.status ≡ true
    → get_batch_item ten item (run later (run es nothing_yet)).tables ≡ some i
    → i.job_id ≡ id
    → mark_batch_item_running now ten item (run later (run es nothing_yet)).tables
      ≡ ((run later (run es nothing_yet)).tables, false)
run-stranded es later now ten id item j i e h g same_job =
    let v = reached-IsValid es in
    let (k, e', p) = final_stays later (run es nothing_yet) ten id j v e h in
    mark-final now ten id item (run later (run es nothing_yet)).tables
      (run-IsValid later (run es nothing_yet) v).sound e' (rw p h) g same_job

terminal_stays :
    (es : List Event) (s : System) (ten id : String) (i : BatchItemRecord)
    → IsValid s
    → is_terminal i.status ≡ true
    → get_batch_item ten id s.tables ≡ some i
    → get_batch_item ten id (run es s).tables ≡ some i
unfolding run get_batch_item
terminal_stays [] s ten id i v h e = e
terminal_stays (c ∷ es) s ten id i v h e =
    let st = step-Steps c s v in
    terminal_stays es (step c s) ten id i st.valid h (terminal-step ten id st.goes.items h e)

-- An item that is completed, failed or cancelled stays as it is, whatever follows: the first outcome
-- counts, also when its event is delivered again.
pub run-terminal :
    (es later : List Event) (ten id : String) (i : BatchItemRecord)
    → get_batch_item ten id (run es nothing_yet).tables ≡ some i
    → is_terminal i.status ≡ true
    → get_batch_item ten id (run later (run es nothing_yet)).tables ≡ some i
run-terminal es later ten id i e h =
    terminal_stays later (run es nothing_yet) ten id i (reached-IsValid es) h e
