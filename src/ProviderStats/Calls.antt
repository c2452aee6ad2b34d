-- ===== src/ProviderStats/Calls.antt =====
-- Calls of internal/service/provider/stats.go, and what they leave in the entry of one provider.
use gateyes.Common.{
  ℕ, ◌+◌, ◌-◌, ◌<◌, ◌≡◌, refl, sym, subst, String, Bool, not, some, List, [], ◌∷◌, ◌==◌, string_eq,
  if◌then◌else◌, lookup, lookup-insert, ℤ, pos, ◌+ℤ◌, ltb_ℤ, arith, Bool-cases, Option-cases, inl,
  inr, ==→≡,
}
use gateyes.ProviderStats.{
  ProviderStats, Stats, unix, at_entry, recorded, record_request, record_ttft, increment_load,
  decrement_load, ttft_recorded, load_decremented, set_status, tpm,
}
use gateyes.ProviderStats.Window.{Log, InOrder, run_buckets, no_buckets}
use gateyes.ProviderStats.Minute.{minute, run_buckets-minute}

-- A call at a time for a provider, by its name.
pub data Call : Type 0 where
  records : ℕ → String → Bool → ℤ → ℤ → Call
  records_ttft : ℕ → String → ℤ → Call
  increments : ℕ → String → Call
  decrements : ℕ → String → Call
  sets_status : ℕ → String → String → Call

unfoldable pub step : Call → Stats → Stats
step (records now name success tokens latency) s = record_request now name success tokens latency s
step (records_ttft now name ttft) s = record_ttft now name ttft s
step (increments now name) s = increment_load now name s
step (decrements now name) s = decrement_load now name s
step (sets_status now name status) s = set_status now name status s

-- The calls, from the last one on.
unfoldable pub run : List Call → Stats → Stats
run [] s = s
run (c ∷ older) s = step c (run older s)

-- The seconds and tokens that the calls record for a provider.
unfoldable pub log_of : String → List Call → Log
log_of name [] = []
log_of name (c ∷ older) =
    let rest = log_of name older in
    elim c [
      | records now other success tokens latency ↦
          if other == name then (unix now, tokens) ∷ rest else rest
      | records_ttft now other ttft ↦ rest
      | increments now other ↦ rest
      | decrements now other ↦ rest
      | sets_status now other status ↦ rest
    ]

pub at_entry-some :
    (name : String) (f : ProviderStats → ProviderStats) (s : Stats) (other : String)
    (a : ProviderStats)
    → lookup other s ≡ some a
    → lookup other (at_entry name f s) ≡ some (if name == other then f a else a)
unfolding at_entry
at_entry-some name f s other a h = elim (Bool-cases (name == other)) [
  | inl y ↦
      let found : lookup name s ≡ some a =
        subst (λ n. lookup n s ≡ some a) (sym (==→≡ name other y)) h in
      rw (found, at_entry, lookup-insert name other (f a) s, y) refl
  | inr y ↦ elim (Option-cases (lookup name s)) [
    | inl n ↦ rw (n, y, at_entry) h
    | inr (b, n) ↦ rw (n, at_entry, lookup-insert name other (f b) s, y) h
  ]
]

abbrev pub name_of : Call → String
name_of (records now name success tokens latency) = name
name_of (records_ttft now name ttft) = name
name_of (increments now name) = name
name_of (decrements now name) = name
name_of (sets_status now name status) = name

-- What a call does to the entry of its provider.
unfoldable pub effect : Call → ProviderStats → ProviderStats
effect (records now name success tokens latency) a = recorded now success tokens latency a
effect (records_ttft now name ttft) a =
    if not (ltb_ℤ (pos 0) ttft) then a else ttft_recorded now ttft a
effect (increments now name) a = record a {
  current_load = a.current_load +ℤ pos 1;
  updated_at = now;
}
effect (decrements now name) a = load_decremented now a
effect (sets_status now name status) a = record a { status = status; updated_at = now }

lookup-step :
    (c : Call) (s : Stats) (name : String) (a : ProviderStats)
    → lookup name s ≡ some a
    → lookup name (step c s) ≡ some (if name_of c == name then effect c a else a)
unfolding step effect record_request record_ttft increment_load decrement_load set_status
lookup-step (records now name success tokens latency) s other a h = at_entry-some name _ s other a h
lookup-step (records_ttft now name ttft) s other a h = elim (Bool-cases (ltb_ℤ (pos 0) ttft)) [
  | inl y ↦ rw y (at_entry-some name _ s other a h)
  | inr y ↦ rw y (ground (arith, h))
]
lookup-step (increments now name) s other a h = at_entry-some name _ s other a h
lookup-step (decrements now name) s other a h = at_entry-some name _ s other a h
lookup-step (sets_status now name status) s other a h = at_entry-some name _ s other a h

-- The entry of a provider after the calls.
unfoldable pub entry_run : String → List Call → ProviderStats → ProviderStats
entry_run name [] a = a
entry_run name (c ∷ older) a =
    let b = entry_run name older a in if name_of c == name then effect c b else b

pub lookup-run :
    (cs : List Call) (s : Stats) (name : String) (a : ProviderStats)
    → lookup name s ≡ some a
    → lookup name (run cs s) ≡ some (entry_run name cs a)
unfolding run entry_run
lookup-run [] s name a h = h
lookup-run (c ∷ older) s name a h =
    lookup-step c (run older s) name (entry_run name older a) (lookup-run older s name a h)

buckets_run :
    (cs : List Call) (name : String) (a : ProviderStats)
    → (entry_run name cs a).buckets ≡ run_buckets (log_of name cs) a.buckets
unfolding entry_run run_buckets log_of effect recorded ttft_recorded load_decremented
buckets_run [] name a = refl
buckets_run (records now other success tokens latency ∷ older) name a =
    elim (Bool-cases (other == name)) [
      | inl y ↦ rw (y, sym (buckets_run older name a)) refl
      | inr y ↦ rw y (buckets_run older name a)
    ]
buckets_run (records_ttft now other ttft ∷ older) name a = ground (arith, buckets_run older name a)
buckets_run (increments now other ∷ older) name a = ground (arith, buckets_run older name a)
buckets_run (decrements now other ∷ older) name a = ground (arith, buckets_run older name a)
buckets_run (sets_status now other status ∷ older) name a = ground (arith, buckets_run older name a)

-- For a provider that was just registered, and then any calls whose records of it are in the order of
-- their seconds, none after `now`: `TPM` at `now`, which is a minute after the epoch or later, is the sum
-- of the tokens that were recorded for the provider in the last sixty seconds, and also in the second
-- `now - 60` when nothing has been recorded for it in the second `now`.
pub tpm-minute :
    (cs : List Call) (s : Stats) (name : String) (a : ProviderStats) (now : ℕ)
    → lookup name s ≡ some a
    → a.buckets ≡ no_buckets
    → 60 < unix now
    → InOrder (unix now) (log_of name cs)
    → tpm now name (run cs s) ≡ minute (unix now - 60) (log_of name cs)
unfolding tpm
tpm-minute cs s name a now h fresh z o =
    let e : unix now - 60 + 60 ≡ unix now = omega arith in
    rw (lookup-run cs s name a h, tpm, buckets_run cs name a, fresh)
      (run_buckets-minute (unix now - 60) (log_of name cs) (omega arith)
        (subst (λ u. InOrder u (log_of name cs)) (sym e) o))
