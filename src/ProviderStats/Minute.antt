-- ===== src/ProviderStats/Minute.antt =====
-- `TPM` of internal/service/provider/stats.go adds up the tokens of the last minute.
use gateyes.Common.{
  ℕ, zero, suc, ◌+◌, ◌%◌, ◌≤◌, ◌<◌, ◌≡◌, ◌≢◌, ◌⊎◌, refl, sym, subst, ap, ◌∙◌, Bool, true, false,
  ◌||◌, [], ◌∷◌, ltb, leb, ◌==◌, nat_eq, if◌then◌else◌, ℤ, pos, ◌+ℤ◌, pos_part, neg_part, arith,
  ints, Bool-cases, inl, inr, ==_ne, ==_refl,
}
use gateyes.ProviderStats.{TokenBucket, add_tokens, sum_buckets}
use gateyes.ProviderStats.Window.{
  Log, tokens_at, tokens_since, has_second, InOrder, run_buckets, Slot, Slot-le, no_buckets,
  run_buckets-Slot, has_second-le,
}

-- What `TPM` takes from a bucket.
abbrev counted : ℕ → TokenBucket → ℤ
counted cutoff b = if leb cutoff b.timestamp then b.tokens else pos 0

sum_buckets-agree :
    (c n : ℕ) (f g : ℕ → TokenBucket)
    → ((i : ℕ) → i < n → f i ≡ g i)
    → sum_buckets c n f ≡ sum_buckets c n g
unfolding sum_buckets
sum_buckets-agree c zero f g h = refl
sum_buckets-agree c (suc n) f g h =
    rw (h n (omega arith), sum_buckets-agree c n f g (λ i l. h i (omega arith))) refl

sum_buckets-suc :
    (c n : ℕ) (f : ℕ → TokenBucket) → sum_buckets c (suc n) f ≡ sum_buckets c n f +ℤ counted c (f n)
unfolding sum_buckets
sum_buckets-suc c n f = elim (Bool-cases (leb c (f n).timestamp)) [
  | inl y ↦ rw y refl
  | inr y ↦ rw y (omega ints)
]

swap_last : (s o n : ℤ) → s +ℤ n +ℤ o ≡ s +ℤ o +ℤ n
swap_last s o n = omega ints

swap_inner : (s s' o n x : ℤ) → s' +ℤ o ≡ s +ℤ n → s' +ℤ x +ℤ o ≡ s +ℤ x +ℤ n
swap_inner s s' o n x h = omega (ints, ap pos_part h, ap neg_part h)

sum_buckets-one :
    (c n j : ℕ) (f g : ℕ → TokenBucket)
    → j < n
    → ((i : ℕ) → i ≢ j → g i ≡ f i)
    → sum_buckets c n g +ℤ counted c (f j) ≡ sum_buckets c n f +ℤ counted c (g j)
sum_buckets-one c zero j f g l h = absurd (omega arith)
sum_buckets-one c (suc n) j f g l h = elim (Bool-cases (j == n)) [
  | inl y ↦
      let e : j ≡ n = ground arith in
      rw
        (
          e,
          sum_buckets-suc c n f,
          sum_buckets-suc c n g,
          sum_buckets-agree c n g f (λ i k. h i (λ q. omega arith)),
        )
        (swap_last (sum_buckets c n f) (counted c (f n)) (counted c (g n)))
  | inr y ↦
      let rest = sum_buckets-one c n j f g (ground arith) h in
      rw (sum_buckets-suc c n f, sum_buckets-suc c n g, h n (λ q. ground arith))
        (swap_inner _ _ _ _ (counted c (f n)) rest)
]

-- The tokens of the sixty seconds up to `c + 60`, and those of the second `c`, if none are of `c + 60`.
unfoldable pub minute : ℕ → Log → ℤ
minute c log =
    tokens_since (c + 60) log +ℤ (if has_second (c + 60) log then pos 0 else tokens_at c log)

abbrev after : ℕ → ℤ → TokenBucket → TokenBucket
after t k b = record { timestamp = t; tokens = (if b.timestamp == t then b.tokens else pos 0) +ℤ k }

old_second : (x y k b : ℤ) → x +ℤ (y +ℤ k) +ℤ b ≡ x +ℤ y +ℤ (b +ℤ k)
old_second x y k b = omega ints

new_second : (x y k b : ℤ) → x +ℤ k +ℤ y +ℤ b ≡ x +ℤ y +ℤ (b +ℤ k)
new_second x y k b = omega ints

lost_second : (x k b : ℤ) → x +ℤ k +ℤ pos 0 +ℤ b ≡ x +ℤ b +ℤ (pos 0 +ℤ k)
lost_second x k b = omega ints

module _ (c t bt : ℕ) (x y k b : ℤ) (now : Bool) where
  -- The equation of `minute-after`.
  Balanced : Type 0
  Balanced =
      (if ltb (c + 60) (t + 60) then x +ℤ k else x)
        +ℤ (if t == c + 60 || now then pos 0 else (if t == c then y +ℤ k else y))
        +ℤ (if leb c bt then b else pos 0)
      ≡ x
        +ℤ (if now then pos 0 else y)
        +ℤ (if leb c t then (if bt == t then b else pos 0) +ℤ k else pos 0)

  balanced_before : bt ≤ t → t < c + 60 → now ≡ false → (c ≤ bt → bt % 60 ≡ t % 60) → Balanced
  unfolding Balanced
  balanced_before le l n r =
      let same : c ≤ bt → bt ≡ t = λ h. let e = r h in omega arith in
      ground (
        arith,
        n,
        same,
        old_second x y k b,
        old_second x y k (pos 0),
        new_second x y k b,
        new_second x y k (pos 0),
      )

  balanced_now :
      bt ≤ t
      → t ≡ c + 60
      → (c ≤ bt → bt % 60 ≡ t % 60)
      → (bt ≡ t → now ≡ true)
      → (bt ≡ c → (now ≡ false) × (y ≡ b))
      → (bt < c → (now ≡ false) × (y ≡ pos 0))
      → Balanced
  unfolding Balanced
  balanced_now le l r seen edge old =
      let same : c ≤ bt → (bt ≡ t) ⊎ (bt ≡ c) = λ h. let e = r h in ground arith in
      ground (
        arith,
        same,
        seen,
        edge,
        old,
        new_second x (pos 0) k b,
        new_second x (pos 0) k (pos 0),
        lost_second x k b,
      )

has_second-later : (now u : ℕ) (log : Log) → InOrder now log → now < u → has_second u log ≡ false
has_second-later now u log o l = elim (Bool-cases (has_second u log)) [
  | inl h ↦ absurd (omega (arith, has_second-le now u log o h))
  | inr h ↦ h
]

minute-after :
    (c t : ℕ) (k : ℤ) (log : Log) (b : TokenBucket)
    → 0 < c
    → t ≤ c + 60
    → InOrder t log
    → Slot log (t % 60) b
    → minute c ((t, k) ∷ log) +ℤ counted c b ≡ minute c log +ℤ counted c (after t k b)
unfolding minute tokens_since tokens_at Slot Balanced
minute-after c t k log b z l o (own, later, last) =
    let le : b.timestamp ≤ t = Slot-le t (t % 60) log b o (own, later, last) in
    let residue : c ≤ b.timestamp → b.timestamp % 60 ≡ t % 60 = λ h. (last (omega arith)).1 in
    elim (Bool-cases (t == c + 60)) [
      | inr n ↦
          balanced_before c t b.timestamp (tokens_since (c + 60) log) (tokens_at c log) k b.tokens
            (has_second (c + 60) log) le (ground arith)
            (has_second-later t (c + 60) log o (ground arith)) residue
      | inl y ↦
          let e : t ≡ c + 60 = ground arith in
          balanced_now c t b.timestamp (tokens_since (c + 60) log) (tokens_at c log) k b.tokens
            (has_second (c + 60) log) le e residue
            (λ h. subst (λ u. has_second u log ≡ true) (h ∙ e) (last (omega arith)).0)
            (λ h. ((later (c + 60) (omega arith) (omega arith)).1, sym (own c (omega arith) h)))
            (λ h. ((later (c + 60) (omega arith) (omega arith)).1, (later c (omega arith) h).0))
    ]

InOrder-le : (now later : ℕ) (log : Log) → now ≤ later → InOrder now log → InOrder later log
InOrder-le now later [] l o = tt
InOrder-le now later ((t, k) ∷ log) l (m, o) = (omega arith, o)

balance : (s s' w w' o n : ℤ) → s' +ℤ o ≡ s +ℤ n → s ≡ w → w' +ℤ o ≡ w +ℤ n → s' ≡ w'
balance s s' w w' o n e f g =
    omega (
      ints,
      ap pos_part e,
      ap neg_part e,
      ap pos_part f,
      ap neg_part f,
      ap pos_part g,
      ap neg_part g,
    )

sum_buckets-no_buckets : (c n : ℕ) → 0 < c → sum_buckets c n no_buckets ≡ pos 0
unfolding sum_buckets
sum_buckets-no_buckets c zero z = refl
sum_buckets-no_buckets c (suc n) z = ground (arith, sum_buckets-no_buckets c n z)

minute_empty : (c : ℕ) → pos 0 ≡ minute c []
unfolding minute tokens_since tokens_at
minute_empty c = omega ints

pub run_buckets-minute :
    (c : ℕ) (log : Log)
    → 0 < c
    → InOrder (c + 60) log
    → sum_buckets c 60 (run_buckets log no_buckets) ≡ minute c log
unfolding run_buckets add_tokens
run_buckets-minute c [] z o = sum_buckets-no_buckets c 60 z ∙ minute_empty c
run_buckets-minute c ((t, k) ∷ log) z (l, o) =
    let buckets = run_buckets log no_buckets in
    let slot = run_buckets-Slot t log (t % 60) o in
    let one =
      sum_buckets-one c 60 (t % 60) buckets (add_tokens t k buckets) (omega arith)
        (λ i ne. rw (==_ne i (t % 60) ne) refl) in
    let rest = run_buckets-minute c log z (InOrder-le t (c + 60) log l o) in
    let step = minute-after c t k log (buckets (t % 60)) z l o slot in
    let added : add_tokens t k buckets (t % 60) ≡ after t k (buckets (t % 60)) =
      rw (==_refl (t % 60)) refl in
    balance _ _ _ _ _ _ (one ∙ ap (λ b. sum_buckets c 60 buckets +ℤ counted c b) added) rest step
