-- ===== src/ProviderStats/Window.antt =====
-- What `TPM` of internal/service/provider/stats.go adds up.
use gateyes.Common.{
  ℕ, ◌+◌, ◌%◌, ◌≤◌, ◌<◌, ◌≡◌, refl, Bool, true, false, ◌||◌, List, [], ◌∷◌, ltb, ◌==◌, nat_eq,
  if◌then◌else◌, ℤ, pos, ◌+ℤ◌, arith, Bool-cases, inl, inr,
}
use gateyes.ProviderStats.{TokenBucket, add_tokens}

-- The seconds and tokens that were recorded, from the last one on.
abbrev pub Log : Type 0
Log = List (ℕ × ℤ)

-- The tokens of one second.
unfoldable pub tokens_at : ℕ → Log → ℤ
tokens_at second [] = pos 0
tokens_at second ((t, k) ∷ log) =
    if t == second then tokens_at second log +ℤ k else tokens_at second log

-- The tokens of the seconds after `now - 60`.
unfoldable pub tokens_since : ℕ → Log → ℤ
tokens_since now [] = pos 0
tokens_since now ((t, k) ∷ log) =
    if ltb now (t + 60) then tokens_since now log +ℤ k else tokens_since now log

abbrev pub has_second : ℕ → Log → Bool
has_second second [] = false
has_second second ((t, k) ∷ log) = t == second || has_second second log

-- No second of the log is before an older one, and none is after `now`.
abbrev pub InOrder : ℕ → Log → Type 0
InOrder now [] = Unit
InOrder now ((t, k) ∷ log) = (t ≤ now) × InOrder t log

unfoldable pub run_buckets : Log → (ℕ → TokenBucket) → ℕ → TokenBucket
run_buckets [] buckets = buckets
run_buckets ((t, k) ∷ log) buckets = add_tokens t k (run_buckets log buckets)

-- What the bucket of the index `i` tells of the log: of its own second all, and of later ones that none is there.
unfoldable pub Slot : Log → ℕ → TokenBucket → Type 0
Slot log i b =
    ((u : ℕ) → u % 60 ≡ i → b.timestamp ≡ u → b.tokens ≡ tokens_at u log)
    × ((u : ℕ)
        → u % 60 ≡ i
        → b.timestamp < u
        → (tokens_at u log ≡ pos 0) × (has_second u log ≡ false))
    × (0 < b.timestamp → (has_second b.timestamp log ≡ true) × (b.timestamp % 60 ≡ i))

pub has_second-le : (now u : ℕ) (log : Log) → InOrder now log → has_second u log ≡ true → u ≤ now
has_second-le now u [] o h = absurd (ground arith)
has_second-le now u ((t, k) ∷ log) (l, o) h = elim (Bool-cases (t == u)) [
  | inl e ↦ ground arith
  | inr e ↦ let rest = has_second-le t u log o (ground (arith, e, h)) in omega arith
]

pub Slot-le :
    (now i : ℕ) (log : Log) (b : TokenBucket) → InOrder now log → Slot log i b → b.timestamp ≤ now
unfolding Slot
Slot-le now i log b o (own, later, last) = elim (Bool-cases (ltb 0 b.timestamp)) [
  | inl h ↦ has_second-le now b.timestamp log o (last (ground arith)).0
  | inr h ↦ ground arith
]

abbrev pub no_buckets : ℕ → TokenBucket
no_buckets i = record { timestamp = 0; tokens = pos 0 }

empty-Slot : (i : ℕ) → Slot [] i (record { timestamp = 0; tokens = pos 0 })
unfolding Slot tokens_at
empty-Slot i = (λ u m e. refl, λ u m e. (refl, refl), λ h. absurd (omega arith))

other-Slot :
    (t : ℕ) (k : ℤ) (log : Log) (i : ℕ) (b : TokenBucket)
    → (i == t % 60) ≡ false
    → Slot log i b
    → Slot ((t, k) ∷ log) i b
unfolding Slot tokens_at
other-Slot t k log i b n (own, later, last) = (
  λ u m e. ground (arith, own u m e),
  λ u m e. ground (arith, later u m e),
  λ h. let (seen, at) = last h in (rw seen (ground arith), at),
)

added-Slot :
    (t : ℕ) (k : ℤ) (log : Log) (i : ℕ) (b : TokenBucket)
    → (i == t % 60) ≡ true
    → b.timestamp ≤ t
    → Slot log i b
    → Slot
        ((t, k) ∷ log)
        i
        (record { timestamp = t; tokens = (if b.timestamp == t then b.tokens else pos 0) +ℤ k })
unfolding Slot tokens_at
added-Slot t k log i b y le (own, later, last) = (
  λ u m e. elim (Bool-cases (b.timestamp == t)) [
    | inl s ↦ ground (arith, own u m (ground arith))
    | inr s ↦ ground (arith, later u m (ground arith))
  ],
  λ u m e. ground (arith, later u m (omega arith)),
  λ h. ground arith,
)

pub run_buckets-Slot :
    (now : ℕ) (log : Log) (i : ℕ) → InOrder now log → Slot log i (run_buckets log no_buckets i)
unfolding run_buckets add_tokens
run_buckets-Slot now [] i o = empty-Slot i
run_buckets-Slot now ((t, k) ∷ log) i (l, o) =
    let slot = run_buckets-Slot t log i o in
    let b = run_buckets log no_buckets i in
    elim (Bool-cases (i == t % 60)) [
      | inr n ↦ rw n (other-Slot t k log i b n slot)
      | inl y ↦ rw y (added-Slot t k log i b y (Slot-le t i log b o slot) slot)
    ]
