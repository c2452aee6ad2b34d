-- ===== src/ProviderStats/Counters/Extremes.antt =====
-- The least and the greatest latency of internal/service/provider/stats.go.
use gateyes.Common.{
  ℕ, ◌≡◌, refl, sym, ◌∙◌, String, Bool, true, false, Option, none, some, List, [], ◌∷◌, ◌==◌,
  string_eq, if◌then◌else◌, lookup, ℤ, pos, ◌≤ℤ◌, ltb_ℤ, arith, All, Bool-cases, inl, inr,
}
use gateyes.ProviderStats.{
  ProviderStats, Stats, lower_min, raise_max, recorded, ttft_recorded, load_decremented,
}
use gateyes.ProviderStats.Calls.{
  Call, records, records_ttft, increments, decrements, sets_status, run, effect, entry_run,
  lookup-run, name_of,
}

-- The latencies that the calls record for a provider.
unfoldable pub latencies_of : String → List Call → List ℤ
latencies_of name [] = []
latencies_of name (c ∷ older) =
    let rest = latencies_of name older in
    elim c [
      | records now other success tokens latency ↦ if other == name then latency ∷ rest else rest
      | records_ttft now other ttft ↦ rest
      | increments now other ↦ rest
      | decrements now other ↦ rest
      | sets_status now other status ↦ rest
    ]

-- The best of some integers, by a test of which of two is better.
abbrev pub best : (ℤ → ℤ → Bool) → List ℤ → Option ℤ
best better [] = none
best better (l ∷ ls) = elim (best better ls) [
  | none ↦ some l
  | some m ↦ some (if better l m then l else m)
]

abbrev is_positive : ℤ → Bool
is_positive l = ltb_ℤ (pos 0) l

-- The latencies that are newer than the last one of zero; the newest one comes first.
abbrev pub since_zero : List ℤ → List ℤ
since_zero [] = []
since_zero (l ∷ ls) = let rest = since_zero ls in if is_positive l then l ∷ rest else []

abbrev pub or_zero : Option ℤ → ℤ
or_zero none = pos 0
or_zero (some l) = l

abbrev pub least : List ℤ → ℤ
least ls = or_zero (best ltb_ℤ ls)

abbrev pub greatest : List ℤ → ℤ
greatest ls = or_zero (best (λ x y. ltb_ℤ y x) ls)

-- The least latency since the last one of zero, and the greatest of all.
Extremes : List ℤ → ProviderStats → Type 0
Extremes ls a = (a.min_latency_ms ≡ least (since_zero ls)) × (a.max_latency_ms ≡ greatest ls)

not_positive : (l : ℤ) → pos 0 ≤ℤ l → is_positive l ≡ false → l ≡ pos 0
not_positive l h n = ground arith

lower_min_first : (l : ℤ) → lower_min l (pos 0) ≡ l
unfolding lower_min
lower_min_first l = ground arith

lower_min_next : (l m : ℤ) → pos 1 ≤ℤ m → lower_min l m ≡ (if ltb_ℤ l m then l else m)
unfolding lower_min
lower_min_next l m h = ground arith

raise_max_next : (l m : ℤ) → raise_max l m ≡ (if ltb_ℤ m l then l else m)
unfolding raise_max
raise_max_next l m = ground arith

IsPositive : Option ℤ → Type 0
IsPositive none = Unit
IsPositive (some l) = pos 1 ≤ℤ l

best-IsPositive : (ls : List ℤ) → IsPositive (best ltb_ℤ (since_zero ls))
unfolding IsPositive
best-IsPositive [] = tt
best-IsPositive (l ∷ ls) = ground (arith, best-IsPositive ls)

lower_min-best :
    (l : ℤ) (m : Option ℤ) (rest : List ℤ)
    → best ltb_ℤ rest ≡ m
    → IsPositive m
    → pos 0 ≤ℤ l
    → lower_min l (or_zero m) ≡ least (if is_positive l then l ∷ rest else [])
unfolding lower_min IsPositive
lower_min-best l none rest e p h = elim (Bool-cases (is_positive l)) [
  | inl y ↦ rw (y, e) refl
  | inr y ↦ rw y (lower_min_first l ∙ not_positive l h y)
]
lower_min-best l (some m) rest e p h = elim (Bool-cases (is_positive l)) [
  | inl y ↦ rw (y, e) (lower_min_next l m p)
  | inr y ↦ rw (y, not_positive l h y) (ground arith)
]

raise_max-best :
    (l : ℤ) (m : Option ℤ) (rest : List ℤ)
    → best (λ x y. ltb_ℤ y x) rest ≡ m
    → pos 0 ≤ℤ l
    → raise_max l (or_zero m) ≡ greatest (l ∷ rest)
unfolding raise_max
raise_max-best l none rest e h = rw e (ground (arith, not_positive l h))
raise_max-best l (some m) rest e h = rw e (raise_max_next l m)

recorded-Extremes :
    (now : ℕ) (success : Bool) (tokens l : ℤ) (ls : List ℤ) (a : ProviderStats)
    → pos 0 ≤ℤ l
    → Extremes ls a
    → Extremes (l ∷ ls) (recorded now success tokens l a)
unfolding Extremes recorded
recorded-Extremes now success tokens l ls a h (e, f) = (
  rw e (lower_min-best l _ (since_zero ls) refl (best-IsPositive ls) h),
  rw f (raise_max-best l _ ls refl h),
)

-- An entry with the same two fields.
Extremes-same :
    (ls : List ℤ) (a b : ProviderStats)
    → a.min_latency_ms ≡ b.min_latency_ms
    → a.max_latency_ms ≡ b.max_latency_ms
    → Extremes ls a
    → Extremes ls b
unfolding Extremes
Extremes-same ls a b e f h = rw (sym e, sym f) h

abbrev is_record : Call → Bool
is_record (records now name success tokens latency) = true
is_record (records_ttft now name ttft) = false
is_record (increments now name) = false
is_record (decrements now name) = false
is_record (sets_status now name status) = false

effect_keeps :
    (c : Call) (a : ProviderStats)
    → is_record c ≡ false
    → (a.min_latency_ms ≡ (effect c a).min_latency_ms)
      × (a.max_latency_ms ≡ (effect c a).max_latency_ms)
unfolding effect ttft_recorded load_decremented
effect_keeps (records now name success tokens latency) a h = absurd (ground arith)
effect_keeps (records_ttft now name ttft) a h = ground arith
effect_keeps (increments now name) a h = (refl, refl)
effect_keeps (decrements now name) a h = ground arith
effect_keeps (sets_status now name status) a h = (refl, refl)

entry_run-other :
    (c : Call) (ls : List ℤ) (name : String) (b : ProviderStats)
    → is_record c ≡ false
    → Extremes ls b
    → Extremes ls (if name_of c == name then effect c b else b)
entry_run-other c ls name b r h = elim (Bool-cases (name_of c == name)) [
  | inl y ↦ let (e, f) = effect_keeps c b r in rw y (Extremes-same ls b (effect c b) e f h)
  | inr y ↦ rw y h
]

maybe_recorded :
    (b : Bool) (now : ℕ) (success : Bool) (tokens latency : ℤ) (ls : List ℤ) (a : ProviderStats)
    → All (λ l. pos 0 ≤ℤ l) (if b then latency ∷ ls else ls)
    → (All (λ l. pos 0 ≤ℤ l) ls → Extremes ls a)
    → Extremes
        (if b then latency ∷ ls else ls)
        (if b then recorded now success tokens latency a else a)
maybe_recorded true now success tokens latency ls a (p, ps) h =
    recorded-Extremes now success tokens latency ls a p (h ps)
maybe_recorded false now success tokens latency ls a p h = h p

entry_run-Extremes :
    (cs : List Call) (name : String) (a : ProviderStats)
    → Extremes [] a
    → All (λ l. pos 0 ≤ℤ l) (latencies_of name cs)
    → Extremes (latencies_of name cs) (entry_run name cs a)
unfolding entry_run latencies_of effect
entry_run-Extremes [] name a h p = h
entry_run-Extremes (records now other success tokens latency ∷ older) name a h p =
    maybe_recorded (other == name) now success tokens latency (latencies_of name older)
      (entry_run name older a) p (entry_run-Extremes older name a h)
entry_run-Extremes (records_ttft now other ttft ∷ older) name a h p =
    entry_run-other (records_ttft now other ttft) _ name _ refl
      (entry_run-Extremes older name a h p)
entry_run-Extremes (increments now other ∷ older) name a h p =
    entry_run-other (increments now other) _ name _ refl (entry_run-Extremes older name a h p)
entry_run-Extremes (decrements now other ∷ older) name a h p =
    entry_run-other (decrements now other) _ name _ refl (entry_run-Extremes older name a h p)
entry_run-Extremes (sets_status now other status ∷ older) name a h p =
    entry_run-other (sets_status now other status) _ name _ refl
      (entry_run-Extremes older name a h p)

-- For a provider without latencies, and then any calls whose latencies for it are not negative: the
-- entry's maximum is the greatest of these latencies, and its minimum the least of those recorded
-- after the last one of zero milliseconds; each is zero when there is none.
pub run-latency :
    (cs : List Call) (s : Stats) (name : String) (a : ProviderStats)
    → lookup name s ≡ some a
    → a.min_latency_ms ≡ pos 0
    → a.max_latency_ms ≡ pos 0
    → All (λ l. pos 0 ≤ℤ l) (latencies_of name cs)
    → (b : ProviderStats) × (lookup name (run cs s) ≡ some b)
      × (b.min_latency_ms ≡ least (since_zero (latencies_of name cs)))
      × (b.max_latency_ms ≡ greatest (latencies_of name cs))
unfolding Extremes
run-latency cs s name a h e f p =
    let (lo, hi) = entry_run-Extremes cs name a (e, f) p in
    (entry_run name cs a, lookup-run cs s name a h, lo, hi)
