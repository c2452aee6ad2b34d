-- ===== src/ProviderStats/Counters.antt =====
-- The counters of internal/service/provider/stats.go: what holds of them after any calls.
pub mod Extremes
use gateyes.Common.{
  ℕ, ◌≤◌, ◌≡◌, refl, sym, subst, ap, ◌∙◌, String, Bool, true, false, not, Option, none, some, List,
  [], ◌∷◌, ◌==◌, string_eq, if◌then◌else◌, Map, lookup, insert, delete, ℤ, pos, ◌+ℤ◌, ◌-ℤ◌, ◌≤ℤ◌,
  ltb_ℤ, pos_part, neg_part, arith, ints, All, Bool-cases, Option-cases, inl, inr,
}
use gateyes.ProviderStats.{
  ProviderStats, Stats, new_stats, fresh, register, unregister, at_entry, recorded, ttft_recorded,
  load_decremented, record_request, record_ttft, increment_load, decrement_load, set_status,
  current_load, GlobalStats, global_stats,
}
use gateyes.ProviderStats.Calls.{
  Call, records, records_ttft, increments, decrements, sets_status, step, effect,
}

-- Each request was a success or a failure and has a latency, and the load is not negative.
abbrev pub IsCounted : ProviderStats → Type 0
IsCounted a =
    (a.total_requests ≡ a.success_requests +ℤ a.failed_requests)
    × (a.latency_count ≡ a.total_requests)
    × (pos 0 ≤ℤ a.current_load)

abbrev pub IsValid : Stats → Type 0
IsValid s = All (λ e. IsCounted e.1) s

-- What happens to the statistics.
pub data Event : Type 0 where
  calls : Call → Event
  registers : ℕ → String → String → String → String → Event
  unregisters : String → Event

-- The events, from the last one on.
unfoldable pub history : List Event → Stats
history [] = new_stats
history (calls c ∷ older) = step c (history older)
history (registers now name p_type model base_url ∷ older) =
    register now name p_type model base_url (history older)
history (unregisters name ∷ older) = unregister name (history older)

insert-IsValid :
    (name : String) (a : ProviderStats) (s : Stats)
    → IsCounted a
    → IsValid s
    → IsValid (insert name a s)
unfolding insert
insert-IsValid name a [] h hs = (h, tt)
insert-IsValid name a ((n, b) ∷ s) h (k, hs) = elim (Bool-cases (n == name)) [
  | inl y ↦ rw y (h, hs)
  | inr y ↦ rw y (k, insert-IsValid name a s h hs)
]

delete-IsValid : (name : String) (s : Stats) → IsValid s → IsValid (delete name s)
unfolding delete
delete-IsValid name [] h = tt
delete-IsValid name ((n, b) ∷ s) (k, hs) = elim (Bool-cases (n == name)) [
  | inl y ↦ rw y (delete-IsValid name s hs)
  | inr y ↦ rw y (k, delete-IsValid name s hs)
]

lookup-IsCounted :
    (name : String) (s : Stats) (a : ProviderStats)
    → IsValid s
    → lookup name s ≡ some a
    → IsCounted a
unfolding lookup
lookup-IsCounted name [] a h e = absurd (ground arith)
lookup-IsCounted name ((n, b) ∷ s) a (k, hs) e = elim (Bool-cases (n == name)) [
  | inl y ↦ let same : b ≡ a = ground (arith, e, y) in subst IsCounted same k
  | inr y ↦ lookup-IsCounted name s a hs (ground (arith, e, y))
]

at_entry-IsValid :
    (name : String) (f : ProviderStats → ProviderStats) (s : Stats)
    → ((a : ProviderStats) → IsCounted a → IsCounted (f a))
    → IsValid s
    → IsValid (at_entry name f s)
unfolding at_entry
at_entry-IsValid name f s keeps h = elim (Option-cases (lookup name s)) [
  | inl n ↦ rw (n, at_entry) h
  | inr (a, n) ↦
      rw (n, at_entry) (insert-IsValid name (f a) s (keeps a (lookup-IsCounted name s a h n)) h)
]

one_more :
    (t s f : ℤ) → t ≡ s +ℤ f → (t +ℤ pos 1 ≡ (s +ℤ pos 1) +ℤ f) × (t +ℤ pos 1 ≡ s +ℤ (f +ℤ pos 1))
one_more t s f h =
    (omega (ints, ap pos_part h, ap neg_part h), omega (ints, ap pos_part h, ap neg_part h))

recorded-IsCounted :
    (now : ℕ) (success : Bool) (tokens latency : ℤ) (a : ProviderStats)
    → IsCounted a
    → IsCounted (recorded now success tokens latency a)
unfolding recorded
recorded-IsCounted now true tokens latency a (e, l, p) =
    ((one_more _ _ _ e).0, ap (λ n. n +ℤ pos 1) l, p)
recorded-IsCounted now false tokens latency a (e, l, p) =
    ((one_more _ _ _ e).1, ap (λ n. n +ℤ pos 1) l, p)

load_decremented-IsCounted :
    (now : ℕ) (a : ProviderStats) → IsCounted a → IsCounted (load_decremented now a)
unfolding load_decremented
load_decremented-IsCounted now a (e, l, p) = elim (Bool-cases (ltb_ℤ (pos 0) a.current_load)) [
  | inl y ↦ let more : pos 1 ≤ℤ a.current_load = ground arith in rw y (e, l, omega ints)
  | inr y ↦ rw y (e, l, p)
]

step-IsValid : (c : Call) (s : Stats) → IsValid s → IsValid (step c s)
unfolding step record_request record_ttft increment_load decrement_load set_status ttft_recorded
step-IsValid (records now name success tokens latency) s h =
    at_entry-IsValid name _ s (recorded-IsCounted now success tokens latency) h
step-IsValid (records_ttft now name ttft) s h = elim (Bool-cases (ltb_ℤ (pos 0) ttft)) [
  | inl y ↦ rw y (at_entry-IsValid name _ s (λ a k. k) h)
  | inr y ↦ rw y h
]
step-IsValid (increments now name) s h =
    at_entry-IsValid name _ s (λ a (e, l, p). (e, l, omega ints)) h
step-IsValid (decrements now name) s h =
    at_entry-IsValid name _ s (load_decremented-IsCounted now) h
step-IsValid (sets_status now name status) s h = at_entry-IsValid name _ s (λ a k. k) h

history-IsValid : (es : List Event) → IsValid (history es)
unfolding history register unregister fresh
history-IsValid [] = tt
history-IsValid (calls c ∷ older) = step-IsValid c (history older) (history-IsValid older)
history-IsValid (registers now name p_type model base_url ∷ older) =
    insert-IsValid name _ (history older) (omega ints, refl, omega arith) (history-IsValid older)
history-IsValid (unregisters name ∷ older) =
    delete-IsValid name (history older) (history-IsValid older)

global_stats-IsValid :
    (s : Stats)
    → IsValid s
    → (global_stats s).total_requests
      ≡ (global_stats s).success_requests +ℤ (global_stats s).failed_requests
unfolding global_stats
global_stats-IsValid [] h = omega ints
global_stats-IsValid ((n, a) ∷ s) ((e, l, p), hs) =
    let rest = global_stats-IsValid s hs in
    omega (ints, ap pos_part e, ap neg_part e, ap pos_part rest, ap neg_part rest)

-- After any calls, registrations and removals, the requests of `GlobalStats` are its successes and its
-- failures together, and no provider's load is negative.
pub history-global_stats :
    (es : List Event) (name : String)
    → let g = global_stats (history es) in
      (g.total_requests ≡ g.success_requests +ℤ g.failed_requests)
      × (pos 0 ≤ℤ current_load name (history es))
unfolding current_load
history-global_stats es name = (
  global_stats-IsValid (history es) (history-IsValid es),
  elim (Option-cases (lookup name (history es))) [
    | inl n ↦ rw (n, current_load) (omega arith)
    | inr (a, n) ↦
        rw (n, current_load) (lookup-IsCounted name (history es) a (history-IsValid es) n).2
  ],
)
