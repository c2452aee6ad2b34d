-- ===== src/Batch/Items/Kept.antt =====
-- What a step of the items keeps: the outcomes that there are, and that an item is claimed.
use gateyes.Common.{
  ◌<◌, ◌≡◌, refl, String, true, false, ◌&&◌, List, ◌==◌, string_eq, Bool-cases, inl, inr, arith,
  subst, some, ==→≡, ◌∙◌,
}
use gateyes.Batch.Rows.{
  BatchItemStatus, is_item_status, BatchItemRecord, is_item, count_where, find_where,
}
use gateyes.Batch.Rows.Picked.{
  All-every, count-update, count-update-le, find-update, count-more, find-count, count_mono,
  count-skip, find-skip,
}
use gateyes.Batch.Store.{is_terminal}
use gateyes.Batch.Items.{Moves, ItemsStep, stay, added, updated}

-- The item is there, and is not pending.
pub record IsClaimed (ten id : String) (items : List BatchItemRecord) : Type 0 where
  pub is_there : 0 < count_where (λ (i : BatchItemRecord). i.id == id) items
  pub begun :
      count_where (λ i. is_item ten id i && is_item_status i.status BatchItemStatus.pending) items
      ≡ 0

Moves-is_item :
    (ten id : String) {i k : BatchItemRecord} → Moves i k → is_item ten id k ≡ is_item ten id i
Moves-is_item ten id m = rw (m.same_id, m.same_tenant) refl

new_item_other :
    (ten id : String) (i : BatchItemRecord) (items : List BatchItemRecord)
    → count_where (λ (k : BatchItemRecord). k.id == i.id) items ≡ 0
    → 0 < count_where (λ (k : BatchItemRecord). k.id == id) items
    → is_item ten id i ≡ false
new_item_other ten id i items fresh h = elim (Bool-cases (is_item ten id i)) [
  | inr n ↦ n
  | inl y ↦
      let e : i.id ≡ id = ground (arith, ==→≡ i.id id) in
      absurd (
        omega
          (arith, subst (λ x. count_where (λ (k : BatchItemRecord). k.id == x) items ≡ 0) e fresh))
]

pub IsClaimed-step :
    {ten id : String} {items items' : List BatchItemRecord}
    → ItemsStep items items'
    → IsClaimed ten id items
    → IsClaimed ten id items'
IsClaimed-step stay c = c
IsClaimed-step {ten} {id} {items} (added i fresh) c = record {
  is_there = count-more _ i items c.is_there;
  begun =
      let other = new_item_other ten id i items fresh c.is_there in
      let skip =
        count-skip (λ i. is_item ten id i && is_item_status i.status BatchItemStatus.pending) i
          items (rw other refl) in
      omega (arith, c.begun);
}
IsClaimed-step {ten} {id} {items} (updated q f moves e) c = rw e (record {
  is_there =
      rw
        (count-update (λ (i : BatchItemRecord). i.id == id) q f items
          (All-every items (λ i h. rw (moves i h).same_id refl)))
        c.is_there;
  begun =
      let fewer =
        count-update-le (λ i. is_item ten id i && is_item_status i.status BatchItemStatus.pending) q
          f items (All-every items (λ i h. rw (moves i h).is_begun (ground arith))) in
      omega (arith, c.begun);
})

found_there :
    (ten id : String) (items : List BatchItemRecord) {i : BatchItemRecord}
    → find_where (is_item ten id) items ≡ some i
    → 0 < count_where (λ (k : BatchItemRecord). k.id == id) items
found_there ten id items e =
    let few =
      count_mono (is_item ten id) (λ (k : BatchItemRecord). k.id == id) items
        (λ k h. ground arith) in
    omega (arith, find-count (is_item ten id) items e)

-- An item with an outcome stays as it is.
pub terminal-step :
    (ten id : String) {items items' : List BatchItemRecord} {i : BatchItemRecord}
    → ItemsStep items items'
    → is_terminal i.status ≡ true
    → find_where (is_item ten id) items ≡ some i
    → find_where (is_item ten id) items' ≡ some i
terminal-step ten id stay h e = e
terminal-step ten id {items} (added k fresh) h e =
    find-skip (is_item ten id) k items
      (new_item_other ten id k items fresh (found_there ten id items e))
    ∙ e
terminal-step ten id {items} {i = i} (updated q f moves e') h e = rw e' (elim (Bool-cases (q i)) [
  | inl y ↦ absurd (ground (arith, (moves i y).was_open))
  | inr n ↦
      find-update (is_item ten id) q f items (λ k u. Moves-is_item ten id (moves k u)) e ∙ rw n refl
])
