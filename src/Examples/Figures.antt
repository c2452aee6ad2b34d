-- ===== src/Examples/Figures.antt =====
-- The theorems on the statistics of the providers, applied to calls for one provider.
use gateyes.Common.{
  ◌≡◌, refl, true, false, some, List, [], ◌∷◌, ℕ, ◌-◌, ◌*◌, string_eq, pos, ◌≤ℤ◌, lookup, All,
  arith,
}
use gateyes.ProviderStats.{ProviderStats, Stats, fresh, unix, tpm}
use gateyes.ProviderStats.Window.{InOrder}
use gateyes.ProviderStats.Minute.{minute}
use gateyes.ProviderStats.Calls.{Call, records, increments, run, log_of, tpm-minute}
use gateyes.ProviderStats.Counters.Extremes.{latencies_of, run-latency}

-- Nanoseconds.
abbrev at_second : ℕ → ℕ
at_second n = n * 1000000000

abbrev two_records : List Call
two_records =
    records (at_second 1010) "small" true (pos 30) (pos 7)
    ∷ increments (at_second 1005) "small"
    ∷ records (at_second 1000) "small" false (pos 20) (pos 9)
    ∷ []

abbrev newcomer : ProviderStats
newcomer = fresh 0 "small" "openai" "m-1" "https://small.example"

abbrev with_newcomer : Stats
with_newcomer = ("small", newcomer) ∷ []

found : lookup "small" with_newcomer ≡ some newcomer
unfolding lookup
found = refl

log-InOrder : InOrder (unix (at_second 1060)) (log_of "small" two_records)
unfolding log_of
log-InOrder = (omega arith, (omega arith, tt))

tpm-minute_example :
    tpm (at_second 1060) "small" (run two_records with_newcomer)
    ≡ minute (unix (at_second 1060) - 60) (log_of "small" two_records)
unfolding fresh
tpm-minute_example =
    tpm-minute two_records with_newcomer "small" newcomer (at_second 1060) found refl (omega arith)
      log-InOrder

-- A latency of zero between two others.
abbrev with_zero : List Call
with_zero =
    records (at_second 1010) "small" true (pos 30) (pos 9)
    ∷ records (at_second 1010) "small" true (pos 30) (pos 7)
    ∷ records (at_second 1005) "small" true (pos 10) (pos 0)
    ∷ records (at_second 1000) "small" false (pos 20) (pos 5)
    ∷ []

not_negative : All (λ l. pos 0 ≤ℤ l) (latencies_of "small" with_zero)
unfolding latencies_of
not_negative = (omega arith, (omega arith, (omega arith, (omega arith, tt))))

run-latency_example :
    (b : ProviderStats) × (lookup "small" (run with_zero with_newcomer) ≡ some b)
    × (b.min_latency_ms ≡ pos 7)
    × (b.max_latency_ms ≡ pos 9)
unfolding fresh latencies_of
run-latency_example =
    run-latency with_zero with_newcomer "small" newcomer found refl refl not_negative
