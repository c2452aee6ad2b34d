-- ===== src/Batch/Items.antt =====
-- What a transaction of internal/repository/sqlstore/batches.go does to the items.
pub mod Kept
use gateyes.Common.{
  ℕ, ◌+◌, ◌≤◌, ◌<◌, ◌≡◌, refl, String, Bool, true, false, ◌&&◌, ◌||◌, not, List, [], ◌∷◌, ◌==◌,
  string_eq, nat_eq, if◌then◌else◌, All, Bool-cases, Option-cases, inl, inr, arith, ap, subst, ltb,
  leb, Option, none, some, sym, ==_refl, ==→≡,
}
use gateyes.Batch.Rows.{
  BatchItemStatus, is_item_status, BatchItemRecord, BatchItemUpdate, Tables, is_of_job, is_item,
  count_where, update_where, find_where, BatchStatus,
}
use gateyes.Batch.Rows.Picked.{
  All-with, All-every, count-update, count-update-le, count-zero, find-count, find-update,
  find-picked, count-more, find-All,
}
use gateyes.Batch.Store.{
  CreateBatchJobParams, CreateBatchItemParams, create_batch_job, create_batch_item, new_item,
  mark_batch_item_running, claimable, start_item, refresh_batch_job_status, get_batch_job,
  get_batch_item, or_rolled_back, with_outcome, is_open, finish_item, is_terminal, job_of,
  update_batch_item_terminal, cancel_from, cancel_batch_job, with_waiting_cancelled, is_waiting,
  cancel_item, status_after_cancel, after_cancel,
}
use gateyes.Batch.Sound.Cancel.{after_cancel-tables}

-- An item that is not terminal starts to run or becomes terminal.
pub record Moves (i k : BatchItemRecord) : Type 0 where
  pub same_id : k.id ≡ i.id
  pub same_tenant : k.tenant_id ≡ i.tenant_id
  pub was_open : is_terminal i.status ≡ false
  pub is_begun : is_item_status k.status BatchItemStatus.pending ≡ false

pub data ItemsStep (items : List BatchItemRecord) : List BatchItemRecord → Type 0 where
  stay : ItemsStep items items
  added :
      (i : BatchItemRecord)
      → count_where (λ k. k.id == i.id) items ≡ 0
      → ItemsStep items (i ∷ items)
  updated :
      (q : BatchItemRecord → Bool) (f : BatchItemRecord → BatchItemRecord)
      → ((i : BatchItemRecord) → q i ≡ true → Moves i (f i))
      → {items' : List BatchItemRecord} → items' ≡ update_where q f items
      → ItemsStep items items'

pub create_batch_item-ItemsStep :
    (now : ℕ) (id : String) (p : CreateBatchItemParams) (t : Tables)
    → ItemsStep t.batch_items (create_batch_item now id p t).0.batch_items
unfolding create_batch_item
create_batch_item-ItemsStep now id p t = elim (Bool-cases (p.job_id == "" || p.tenant_id == "")) [
  | inl e ↦ rw e stay
  | inr e ↦ elim (Bool-cases (ltb 0 (count_where (λ i. i.id == id) t.batch_items))) [
    | inl d ↦ rw (e, d) stay
    | inr d ↦
        elim (Bool-cases
          (ltb 0 (count_where (λ i. i.job_id == p.job_id && i.index == p.index) t.batch_items))) [
            | inl k ↦ rw (e, d, k) stay
            | inr k ↦ rw (e, d, k) (added (new_item now id p) (ground arith))
          ]
  ]
]

pub create_batch_job-ItemsStep :
    (now : ℕ) (id : String) (p : CreateBatchJobParams) (t : Tables)
    → ItemsStep t.batch_items (create_batch_job now id p t).0.batch_items
unfolding create_batch_job
create_batch_job-ItemsStep now id p t = elim (Bool-cases (p.tenant_id == "")) [
  | inl e ↦ rw e stay
  | inr e ↦ elim (Bool-cases (nat_eq.same p.total_items 0)) [
    | inl z ↦ rw (e, z) stay
    | inr z ↦ elim (Bool-cases (ltb 0 (count_where (λ j. j.id == id) t.batch_jobs))) [
      | inl d ↦ rw (e, z, d) stay
      | inr d ↦ rw (e, z, d) stay
    ]
  ]
]

open_not_terminal :
    (t : Tables) (ten id : String) (i : BatchItemRecord)
    → claimable t ten id i ≡ true
    → is_terminal i.status ≡ false
open_not_terminal t ten id i h = ground arith

pub mark_batch_item_running-ItemsStep :
    (now : ℕ) (ten id : String) (t : Tables)
    → ItemsStep t.batch_items (mark_batch_item_running now ten id t).0.batch_items
unfolding mark_batch_item_running
mark_batch_item_running-ItemsStep now ten id t =
    elim (Bool-cases (ltb 0 (count_where (claimable t ten id) t.batch_items))) [
      | inr n ↦ rw n stay
      | inl y ↦ rw y (
          updated (claimable t ten id) (start_item now)
            (λ i h. record {
              same_id = refl;
              same_tenant = refl;
              was_open = open_not_terminal t ten id i h;
              is_begun = refl;
            })
            refl)
    ]

refreshed-ItemsStep :
    (now : ℕ) (ten job : String) (preferred : Option BatchStatus) (t0 t : Tables)
    → ItemsStep t0.batch_items t.batch_items
    → ItemsStep t0.batch_items
        (or_rolled_back t0 (refresh_batch_job_status now ten job preferred t)).batch_items
unfolding refresh_batch_job_status
refreshed-ItemsStep now ten job preferred t0 t st = elim (Option-cases (get_batch_job ten job t)) [
  | inl e ↦ rw (e, or_rolled_back) stay
  | inr (j, e) ↦ rw (e, or_rolled_back) st
]

terminal_begun :
    (s : BatchItemStatus) → is_terminal s ≡ true → is_item_status s BatchItemStatus.pending ≡ false
terminal_begun BatchItemStatus.pending h = absurd (ground arith)
terminal_begun BatchItemStatus.running h = refl
terminal_begun BatchItemStatus.completed h = refl
terminal_begun BatchItemStatus.failed h = refl
terminal_begun BatchItemStatus.cancelled h = refl

pub update_batch_item_terminal-ItemsStep :
    (now : ℕ) (ten id : String) (s : BatchItemStatus) (u : BatchItemUpdate) (t : Tables)
    → is_terminal s ≡ true
    → ItemsStep t.batch_items (update_batch_item_terminal now ten id s u t).batch_items
unfolding update_batch_item_terminal with_outcome
update_batch_item_terminal-ItemsStep now ten id s u t done =
    elim (Bool-cases (ltb 0 (count_where (is_open ten id) t.batch_items))) [
      | inr n ↦ rw n stay
      | inl y ↦ elim (Option-cases (get_batch_item ten id t)) [
        | inl e ↦ rw (y, e) stay
        | inr (i, e) ↦
            rw (y, e)
              (refreshed-ItemsStep now ten i.job_id none t (with_outcome now ten id i.job_id s u t)
                (updated (is_open ten id) (finish_item now s u)
                  (λ k h. record {
                    same_id = refl;
                    same_tenant = refl;
                    was_open = ground arith;
                    is_begun = terminal_begun s done;
                  })
                  refl))
      ]
    ]

waiting_not_terminal :
    (ten job : String) (i : BatchItemRecord)
    → is_waiting ten job i ≡ true
    → is_terminal i.status ≡ false
waiting_not_terminal ten job i h = ground arith

cancelling-ItemsStep :
    (now : ℕ) (ten job : String) (s : BatchStatus) (t : Tables)
    → ItemsStep t.batch_items
        (or_rolled_back t (
          refresh_batch_job_status now ten job
            (some s)
            (with_waiting_cancelled now ten job t))).batch_items
unfolding with_waiting_cancelled
cancelling-ItemsStep now ten job s t =
    refreshed-ItemsStep now ten job (some s) t (with_waiting_cancelled now ten job t) (
      updated (is_waiting ten job) (cancel_item now)
        (λ k h. record {
          same_id = refl;
          same_tenant = refl;
          was_open = waiting_not_terminal ten job k h;
          is_begun = refl;
        })
        refl)

cancel_from-ItemsStep :
    (now : ℕ) (ten job : String) (s : BatchStatus) (t : Tables)
    → ItemsStep t.batch_items (cancel_from now ten job s t).0.batch_items
unfolding cancel_from
cancel_from-ItemsStep now ten job BatchStatus.completed t = stay
cancel_from-ItemsStep now ten job BatchStatus.failed t = stay
cancel_from-ItemsStep now ten job BatchStatus.cancelled t = stay
cancel_from-ItemsStep now ten job BatchStatus.cancelling t = stay
cancel_from-ItemsStep now ten job BatchStatus.pending t = cancelling-ItemsStep now ten job _ t
cancel_from-ItemsStep now ten job BatchStatus.running t = cancelling-ItemsStep now ten job _ t

pub cancel_batch_job-ItemsStep :
    (now : ℕ) (ten job : String) (t : Tables)
    → ItemsStep t.batch_items (cancel_batch_job now ten job t).0.batch_items
unfolding cancel_batch_job
cancel_batch_job-ItemsStep now ten job t = elim (Option-cases (get_batch_job ten job t)) [
  | inl e ↦ rw (e, cancel_batch_job) stay
  | inr (j, e) ↦
      rw (e, cancel_batch_job, after_cancel-tables ten job)
        (cancel_from-ItemsStep now ten job j.status t)
]
