-- ===== src/Router/Strategies/Sorted.antt =====
-- The sorts of `orderByStrategyLocked` in internal/service/router/router.go put the best candidate first.
use gateyes.Common.{
  ℕ, ◌≡◌, String, Bool, true, false, Option, none, List, [], ◌∷◌, string_eq, arith, All, Bool-cases,
  inl, inr,
}
use mathlib.Core.List.{reverse_aux}
use gateyes.Router.{Provider}
use gateyes.Router.Strategies.{
  Signals, Stats, less_load, inference_load, inference_state, less_known, less_tpm, less_cost, sink,
  sort_onto, slice_stable,
}

-- A test that orders: it does not hold both ways, and it fails along a chain on which it fails.
abbrev pub IsOrder : (Provider → Provider → Bool) → Type 0
IsOrder less =
    ((p q : Provider) → less p q ≡ true → less q p ≡ false)
    × ((p q r : Provider) → less p q ≡ false → less q r ≡ false → less p r ≡ false)

-- No provider comes before one that is to come before it.
abbrev pub IsSorted : (Provider → Provider → Bool) → List Provider → Type 0
IsSorted less [] = Unit
IsSorted less (p ∷ ps) = All (λ q. less q p ≡ false) ps × IsSorted less ps

pub less_cost-IsOrder : IsOrder less_cost
unfolding less_cost
less_cost-IsOrder = (λ p q h. ground arith, λ p q r h k. ground arith)

pub less_tpm-IsOrder : (sig : Signals) → IsOrder (less_tpm sig)
unfolding less_tpm
less_tpm-IsOrder sig = (λ p q h. ground arith, λ p q r h k. ground arith)

pub less_known-IsOrder : (value : String → Option ℕ) → IsOrder (less_known value)
unfolding less_known
less_known-IsOrder value = (λ p q h. ground arith, λ p q r h k. ground arith)

-- Without a scraper the load of this process alone decides.
pub less_load-IsOrder :
    (stats : Option Stats) → IsOrder (less_load (record { scraper = none; stats = stats }))
unfolding less_load inference_load inference_state
less_load-IsOrder stats = (λ p q h. ground arith, λ p q r h k. ground arith)

-- The sorted part from its last provider on.
Sinking : (Provider → Provider → Bool) → List Provider → Type 0
Sinking less [] = Unit
Sinking less (p ∷ ps) = All (λ q. less p q ≡ false) ps × Sinking less ps

module _ (less : Provider → Provider → Bool) (order : IsOrder less) where
  All-sink :
      (P : Provider → Type 0) (x : Provider) (ys : List Provider)
      → P x
      → All P ys
      → All P (sink less x ys)
  unfolding sink
  All-sink P x [] h hs = (h, tt)
  All-sink P x (y ∷ ys) h (k, hs) = elim (Bool-cases (less x y)) [
    | inl e ↦ rw e (k, All-sink P x ys h hs)
    | inr e ↦ rw e (h, (k, hs))
  ]

  All-beyond :
      (x y : Provider) (ys : List Provider)
      → less x y ≡ false
      → All (λ z. less y z ≡ false) ys
      → All (λ z. less x z ≡ false) ys
  All-beyond x y [] h hs = tt
  All-beyond x y (z ∷ ys) h (k, hs) = (order.1 x y z h k, All-beyond x y ys h hs)

  sink-Sinking :
      (x : Provider) (ys : List Provider) → Sinking less ys → Sinking less (sink less x ys)
  unfolding sink Sinking
  sink-Sinking x [] h = (tt, tt)
  sink-Sinking x (y ∷ ys) (h, hs) = elim (Bool-cases (less x y)) [
    | inl e ↦ rw e (All-sink (λ z. less y z ≡ false) x ys (order.0 x y e) h, sink-Sinking x ys hs)
    | inr e ↦ rw e ((e, All-beyond x y ys e h), (h, hs))
  ]

  sort_onto-Sinking :
      (xs sorted : List Provider) → Sinking less sorted → Sinking less (sort_onto less xs sorted)
  unfolding sort_onto
  sort_onto-Sinking [] sorted h = h
  sort_onto-Sinking (x ∷ xs) sorted h =
      sort_onto-Sinking xs (sink less x sorted) (sink-Sinking x sorted h)

  heads :
      (x : Provider) (xs acc : List Provider)
      → All (λ a. All (λ q. less a q ≡ false) (x ∷ xs)) acc
      → All (λ a. less a x ≡ false) acc
  heads x xs [] h = tt
  heads x xs (a ∷ acc) ((h, t), hs) = (h, heads x xs acc hs)

  tails :
      (x : Provider) (xs acc : List Provider)
      → All (λ a. All (λ q. less a q ≡ false) (x ∷ xs)) acc
      → All (λ a. All (λ q. less a q ≡ false) xs) acc
  tails x xs [] h = tt
  tails x xs (a ∷ acc) ((h, t), hs) = (t, tails x xs acc hs)

  reverse_aux-IsSorted :
      (xs acc : List Provider)
      → Sinking less xs
      → IsSorted less acc
      → All (λ a. All (λ q. less a q ≡ false) xs) acc
      → IsSorted less (reverse_aux xs acc)
  unfolding Sinking
  reverse_aux-IsSorted [] acc h s c = s
  reverse_aux-IsSorted (x ∷ xs) acc (h, hs) s c =
      reverse_aux-IsSorted xs (x ∷ acc) hs (heads x xs acc c, s) (h, tails x xs acc c)

  -- A sort by a test that orders puts no provider before one that is to come before it.
  pub slice_stable-IsSorted : (ps : List Provider) → IsSorted less (slice_stable less ps)
  unfolding slice_stable Sinking
  slice_stable-IsSorted ps =
      reverse_aux-IsSorted (sort_onto less ps []) [] (sort_onto-Sinking ps [] tt) tt tt
