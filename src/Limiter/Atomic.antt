-- ===== src/Limiter/Atomic.antt =====
-- `localCheck` of internal/service/limiter/limiter.go takes from all buckets of a request or from
-- none.
use gateyes.Common.{
  ℕ, ◌-◌, ◌*◌, ◌≤◌, ◌≡◌, ◌≢◌, refl, sym, ap, ◌∙◌, subst, Bool, true, false, Option, none, some,
  List, [], ◌∷◌, arith, ltb, ◌==◌, nat_eq, ==→≡, lookup, insert, lookup-insert, lookup-insert_self,
  lookup-insert_ne, Option-cases, Bool-cases, ◌⊎◌, inl, inr, Map,
}
use gateyes.Limiter.Bucket.{TokenBucket, token, refill_locked}
use gateyes.Limiter.{Heap}
use gateyes.Limiter.Admission.{Decision, LimitSpec, check_specs, deduct_specs, local_check}

refill_again :
    (now : ℕ) (b : TokenBucket) → refill_locked now (refill_locked now b) ≡ refill_locked now b
unfolding refill_locked
refill_again now b = ground arith

-- The cell is as it was, or refilled.
abbrev pub IsRefill : ℕ → Option TokenBucket → Option TokenBucket → Type 0
IsRefill now none found = found ≡ none
IsRefill now (some b) found = (found ≡ some b) ⊎ (found ≡ some (refill_locked now b))

IsRefill-refl : (now : ℕ) (o : Option TokenBucket) → IsRefill now o o
IsRefill-refl now none = refl
IsRefill-refl now (some b) = inl refl

IsRefill-trans :
    (now : ℕ) (a b c : Option TokenBucket) → IsRefill now a b → IsRefill now b c → IsRefill now a c
IsRefill-trans now none b c h k = subst (λ o. IsRefill now o c) h k
IsRefill-trans now (some a) b c (inl h) k = subst (λ o. IsRefill now o c) h k
IsRefill-trans now (some a) b c (inr h) k =
    let k' = subst (λ o. IsRefill now o c) h k in ground (arith, refill_again now a, k')

write-IsRefill :
    (now p q : ℕ) (b : TokenBucket) (m : Map ℕ TokenBucket)
    → lookup p m ≡ some b
    → IsRefill now (lookup q m) (lookup q (insert p (refill_locked now b) m))
write-IsRefill now p q b m e = elim (Bool-cases (p == q)) [
  | inl same ↦
      let p-eq-q = ==→≡ p q same in
      subst (λ r. IsRefill now (lookup r m) (lookup r (insert p (refill_locked now b) m))) p-eq-q
        (rw e (inr (lookup-insert_self p (refill_locked now b) m)))
  | inr other ↦
      rw (lookup-insert p q (refill_locked now b) m, other) (IsRefill-refl now (lookup q m))
]

check_specs-IsRefill :
    (now : ℕ) (specs : List LimitSpec) (h : Heap) (q : ℕ)
    → IsRefill now (lookup q h.cells) (lookup q (check_specs now specs h).0.cells)
unfolding check_specs
check_specs-IsRefill now [] h q = IsRefill-refl now (lookup q h.cells)
check_specs-IsRefill now (s ∷ specs) h q = elim (Option-cases (lookup s.bucket h.cells)) [
  | inl e ↦ rw (e, check_specs) (check_specs-IsRefill now specs h q)
  | inr (b, e) ↦
      let filled : Heap = record h { cells = insert s.bucket (refill_locked now b) h.cells } in
      let wrote = write-IsRefill now s.bucket q b h.cells e in
      elim (Bool-cases (ltb (refill_locked now b).tokens (s.consume * token))) [
        | inl short ↦ rw (e, check_specs) (rw short wrote)
        | inr enough ↦
            rw (e, check_specs)
              (rw enough (IsRefill-trans now _ _ _ wrote (check_specs-IsRefill now specs filled q)))
      ]
]

-- A request that is refused has taken nothing: every bucket is as it was, or refilled.
pub refused-IsRefill :
    (cancelled : Bool) (now : ℕ) (specs : List LimitSpec) (h : Heap) (p : ℕ)
    → (local_check cancelled now specs h).1.allowed ≡ false
    → IsRefill now (lookup p h.cells) (lookup p (local_check cancelled now specs h).0.cells)
unfolding local_check
refused-IsRefill true now specs h p e = IsRefill-refl now (lookup p h.cells)
refused-IsRefill false now specs h p e = elim (Option-cases (check_specs now specs h).1) [
  | inl passed ↦ cc (rw (passed, local_check) at e)
  | inr (d, denied) ↦ rw (denied, local_check) (check_specs-IsRefill now specs h p)
]

-- The request is among those checked.
abbrev pub Among : LimitSpec → List LimitSpec → Type 0
Among s [] = ⊥
Among s (x ∷ specs) = (s ≡ x) ⊎ Among s specs

-- No spec of the list points to the bucket.
abbrev pub IsFresh : ℕ → List LimitSpec → Type 0
IsFresh p [] = Unit
IsFresh p (s ∷ specs) = (s.bucket ≢ p) × IsFresh p specs

-- The specs point to different buckets, as those that `buildLimitSpecs` makes.
abbrev pub AreDistinct : List LimitSpec → Type 0
AreDistinct [] = Unit
AreDistinct (s ∷ specs) = IsFresh s.bucket specs × AreDistinct specs

abbrev less : TokenBucket → LimitSpec → TokenBucket
less b s = record b { tokens = b.tokens - s.consume * token }

deduct_specs-fresh :
    (specs : List LimitSpec) (h : Heap) (p : ℕ)
    → IsFresh p specs
    → lookup p (deduct_specs specs h).cells ≡ lookup p h.cells
unfolding deduct_specs
deduct_specs-fresh [] h p f = refl
deduct_specs-fresh (s ∷ specs) h p f = elim (Option-cases (lookup s.bucket h.cells)) [
  | inl e ↦ rw (e, deduct_specs) (deduct_specs-fresh specs h p f.1)
  | inr (b, e) ↦
      rw (e, deduct_specs)
        (deduct_specs-fresh specs _ p f.1 ∙ lookup-insert_ne s.bucket p _ h.cells f.0)
]

Among-fresh :
    (s : LimitSpec) (specs : List LimitSpec) (p : ℕ)
    → Among s specs
    → IsFresh p specs
    → p ≢ s.bucket
Among-fresh s [] p a f = absurd a
Among-fresh s (x ∷ specs) p (inl e) f = λ q. f.0 (ground arith)
Among-fresh s (x ∷ specs) p (inr a) f = Among-fresh s specs p a f.1

deduct_specs-head :
    (specs : List LimitSpec) (h : Heap) (s : LimitSpec) (b : TokenBucket)
    → IsFresh s.bucket specs
    → lookup s.bucket h.cells ≡ some b
    → lookup s.bucket (deduct_specs (s ∷ specs) h).cells ≡ some (less b s)
unfolding deduct_specs
deduct_specs-head specs h s b f e =
    rw (e, deduct_specs)
      (deduct_specs-fresh specs _ s.bucket f ∙ lookup-insert_self s.bucket (less b s) h.cells)

deduct_specs-each :
    (specs : List LimitSpec) (h : Heap) (s : LimitSpec) (b : TokenBucket)
    → AreDistinct specs
    → Among s specs
    → lookup s.bucket h.cells ≡ some b
    → lookup s.bucket (deduct_specs specs h).cells ≡ some (less b s)
unfolding deduct_specs
deduct_specs-each [] h s b d a e = absurd a
deduct_specs-each (x ∷ specs) h s b d (inl same) e =
    subst (λ y. lookup s.bucket (deduct_specs (y ∷ specs) h).cells ≡ some (less b s)) same
      (deduct_specs-head specs h s b (subst (λ y. IsFresh y.bucket specs) (sym same) d.0) e)
deduct_specs-each (x ∷ specs) h s b d (inr later) e =
    elim (Option-cases (lookup x.bucket h.cells)) [
      | inl m ↦ rw (m, deduct_specs) (deduct_specs-each specs h s b d.1 later e)
      | inr (c, m) ↦
          rw (m, deduct_specs)
            (deduct_specs-each specs _ s b d.1 later (
              lookup-insert_ne x.bucket s.bucket _ h.cells (Among-fresh s specs x.bucket later d.0)
              ∙ e))
    ]

abbrev filled_at : ℕ → ℕ → TokenBucket → Heap → Heap
filled_at now p b h = record h { cells = insert p (refill_locked now b) h.cells }

passed_head :
    (now : ℕ) (x : LimitSpec) (specs : List LimitSpec) (h : Heap) (b : TokenBucket)
    → lookup x.bucket h.cells ≡ some b
    → (check_specs now (x ∷ specs) h).1 ≡ none
    → (x.consume * token ≤ (refill_locked now b).tokens)
      × (check_specs now (x ∷ specs) h ≡ check_specs now specs (filled_at now x.bucket b h))
unfolding check_specs
passed_head now x specs h b e p = ground arith

refilled_stays :
    (now : ℕ) (b : TokenBucket) (found : Option TokenBucket)
    → IsRefill now (some (refill_locked now b)) found
    → found ≡ some (refill_locked now b)
refilled_stays now b found r = ground (arith, refill_again now b)

skipped_head :
    (now : ℕ) (x : LimitSpec) (specs : List LimitSpec) (h : Heap)
    → lookup x.bucket h.cells ≡ none
    → check_specs now (x ∷ specs) h ≡ check_specs now specs h
unfolding check_specs
skipped_head now x specs h e = ground arith

check_specs-denies :
    (now : ℕ) (specs : List LimitSpec) (h : Heap) (d : Decision)
    → (check_specs now specs h).1 ≡ some d
    → d.allowed ≡ false
unfolding check_specs
check_specs-denies now [] h d e = cc
check_specs-denies now (s ∷ specs) h d e = elim (Option-cases (lookup s.bucket h.cells)) [
  | inl m ↦ check_specs-denies now specs h d (rw (m, check_specs) at e)
  | inr (b, m) ↦
      let e' = rw (m, check_specs) at e in
      ground (arith, e', check_specs-denies now specs (filled_at now s.bucket b h) d)
]

-- If the check passes, each bucket has been refilled and holds enough.
check_specs-each :
    (now : ℕ) (specs : List LimitSpec) (h : Heap) (s : LimitSpec) (b : TokenBucket)
    → (check_specs now specs h).1 ≡ none
    → Among s specs
    → lookup s.bucket h.cells ≡ some b
    → (s.consume * token ≤ (refill_locked now b).tokens)
      × (lookup s.bucket (check_specs now specs h).0.cells ≡ some (refill_locked now b))
check_specs-each now [] h s b p a e = absurd a
check_specs-each now (x ∷ specs) h s b p (inl same) e =
    let e' : lookup x.bucket h.cells ≡ some b =
      subst (λ y. lookup y.bucket h.cells ≡ some b) same e in
    let (room, next) = passed_head now x specs h b e' p in
    (
      subst (λ y. y.consume * token ≤ (refill_locked now b).tokens) (sym same) room,
      subst
          (λ y.
            lookup y.bucket (check_specs now (x ∷ specs) h).0.cells ≡ some (refill_locked now b))
          (sym same)
          (rw next (
            refilled_stays now b _ (
              subst
                (λ o.
                  IsRefill now o
                    (lookup x.bucket (check_specs now specs (filled_at now x.bucket b h)).0.cells))
                (lookup-insert_self x.bucket (refill_locked now b) h.cells)
                (check_specs-IsRefill now specs (filled_at now x.bucket b h) x.bucket)))),
    )
check_specs-each now (x ∷ specs) h s b p (inr later) e =
    elim (Option-cases (lookup x.bucket h.cells)) [
      | inl m ↦
          let next = skipped_head now x specs h m in
          rw next (check_specs-each now specs h s b (sym (ap (λ r. r.1) next) ∙ p) later e)
      | inr (c, m) ↦
          let (_, next) = passed_head now x specs h c m p in
          let rest = check_specs-each now specs (filled_at now x.bucket c h) s in
          let passed = sym (ap (λ r. r.1) next) ∙ p in
          let wrote : IsRefill now (some b) (lookup s.bucket (filled_at now x.bucket c h).cells) =
            subst (λ o. IsRefill now o (lookup s.bucket (filled_at now x.bucket c h).cells)) e
              (write-IsRefill now x.bucket s.bucket c h.cells m) in
          rw next (elim wrote [
            | inl same ↦ rest b passed later same
            | inr refilled ↦
                subst
                  (λ r.
                    (s.consume * token ≤ r.tokens)
                    × (lookup s.bucket (check_specs now specs (filled_at now x.bucket c h)).0.cells
                        ≡ some r))
                  (refill_again now b) (rest (refill_locked now b) passed later refilled)
          ])
    ]

-- A request that is admitted has taken from each of its buckets, refilled, what it consumes, and
-- the bucket held as much.
pub admitted-each :
    (now : ℕ) (specs : List LimitSpec) (h : Heap) (s : LimitSpec) (b : TokenBucket)
    → AreDistinct specs
    → (local_check false now specs h).1.allowed ≡ true
    → Among s specs
    → lookup s.bucket h.cells ≡ some b
    → (s.consume * token ≤ (refill_locked now b).tokens)
      × (lookup s.bucket (local_check false now specs h).0.cells
          ≡ some (record (refill_locked now b) {
            tokens = (refill_locked now b).tokens - s.consume * token;
          }))
unfolding local_check
admitted-each now specs h s b d ok a e = elim (Option-cases (check_specs now specs h).1) [
  | inl passed ↦
      let (room, filled) = check_specs-each now specs h s b passed a e in
      (
        room,
        rw (passed, local_check) (deduct_specs-each specs _ s (refill_locked now b) d a filled),
      )
  | inr (r, denied) ↦
      let refused = check_specs-denies now specs h r denied in
      absurd (ground (arith, rw (denied, local_check) at ok, refused))
]
