-- ===== src/Router/RoundRobin/Waiting.antt =====
-- How long a candidate of `weightedRoundRobin` in internal/service/router/router.go waits to be the first.
use gateyes.Common.{
  ℕ, zero, suc, ◌+◌, ◌*◌, ◌<◌, ◌≡◌, refl, subst, ap, lookup, String, Bool, true, false, ◌||◌,
  Option, none, some, List, [], ◌∷◌, length, leb, ◌==◌, string_eq, Map, ℤ, pos, ◌+ℤ◌, ◌≤ℤ◌,
  pos_part, neg_part, arith, ints, Bool-cases, inl, inr, ==→≡, ==_refl,
}
use gateyes.Router.{Provider, total_weight}
use gateyes.Router.Strategies.{nth}
use gateyes.Router.RoundRobin.{credit, weighted_round_robin}
use gateyes.Router.RoundRobin.Credits.{distinct, sum_credits}
use gateyes.Router.RoundRobin.Best.{nth-All}
use gateyes.Router.RoundRobin.Turns.{
  IsLow, IsFair, Turned, total_weight-positive, weighted_round_robin-Turned,
}
use gateyes.Router.Session.Sticky.{first_name}

abbrev pub is_first : String → Option String → Bool
is_first name none = false
is_first name (some other) = other == name

-- Whether one of the next `n` calls with the candidates `ps` puts `name` first.
unfoldable pub served : String → ℕ → List Provider → Map String ℤ → Bool
served name zero ps m = false
served name (suc n) ps m =
    let (m', order) = weighted_round_robin ps m in
    is_first name (first_name order) || served name n ps m'

sum_credits_empty : (ps : List Provider) → sum_credits ps [] ≡ pos 0
unfolding sum_credits credit lookup ◌+ℤ◌
sum_credits_empty [] = refl
sum_credits_empty (p ∷ ps) = rw (sum_credits_empty ps) refl

IsLow-empty : (total : ℕ) (ps : List Provider) → 0 < total → IsLow total ps []
unfolding credit lookup
IsLow-empty total [] h = tt
IsLow-empty total (p ∷ ps) h = (omega ints, IsLow-empty total ps h)

pub empty-IsFair : (ps : List Provider) → IsFair ps []
empty-IsFair [] = (sum_credits_empty [], tt)
empty-IsFair (p ∷ ps) = (
  sum_credits_empty (p ∷ ps),
  IsLow-empty _ (p ∷ ps) (total_weight-positive (p ∷ ps) (omega arith)),
)

-- A call of the round robin with at least two different candidates, whose credits sum up to 0 and are
-- all above minus the total of the weights, leaves credits of which both hold.
pub weighted_round_robin-IsFair :
    (ps : List Provider) (m : Map String ℤ)
    → distinct ps ≡ true
    → leb (length ps) 1 ≡ false
    → IsFair ps m
    → IsFair ps (weighted_round_robin ps m).0
unfolding Turned
weighted_round_robin-IsFair ps m d l fair =
    let (p, f, after, gain) = weighted_round_robin-Turned ps m d fair l in after

sum_credits-IsLow :
    (total : ℕ) (ps : List Provider) (m : Map String ℤ)
    → IsLow total ps m
    → pos 0 ≤ℤ sum_credits ps m +ℤ pos (length ps * total)
unfolding sum_credits
sum_credits-IsLow total [] m h = omega ints
sum_credits-IsLow total (p ∷ ps) m (h, hs) =
    let e : suc (length ps) * total ≡ total + length ps * total = grind arith in
    omega (ints, sum_credits-IsLow total ps m hs)

credit_bound :
    (total : ℕ) (ps : List Provider) (m : Map String ℤ) (k : ℕ) (p : Provider)
    → nth k ps ≡ some p
    → IsLow total ps m
    → credit p.name m ≤ℤ sum_credits ps m +ℤ pos (length ps * total)
unfolding sum_credits nth
credit_bound total [] m k p n h = absurd (ground arith)
credit_bound total (q ∷ ps) m zero p n (h, hs) =
    let same : q ≡ p = ground arith in
    subst
      (λ (x : Provider).
        credit x.name m ≤ℤ credit q.name m +ℤ sum_credits ps m +ℤ pos (suc (length ps) * total))
      same (omega (ints, sum_credits-IsLow total ps m hs))
credit_bound total (q ∷ ps) m (suc k) p n (h, hs) = omega (ints, credit_bound total ps m k p n hs)

first-nth :
    (ps : List Provider) (k : ℕ) (p : Provider)
    → nth k ps ≡ some p
    → leb (length ps) 1 ≡ true
    → first_name ps ≡ some p.name
unfolding nth
first-nth [] k p n l = absurd (ground arith)
first-nth (q ∷ []) zero p n l =
    let same : q ≡ p = ground arith in ap (λ (x : Provider). some x.name) same
first-nth (q ∷ []) (suc k) p n l = absurd (ground arith)
first-nth (q ∷ r ∷ ps) k p n l = absurd (ground arith)

nth-length : (ps : List Provider) (k : ℕ) (p : Provider) → nth k ps ≡ some p → 0 < length ps
unfolding nth
nth-length [] k p n = absurd (ground arith)
nth-length (q ∷ ps) k p n = omega arith

weighted_round_robin_short :
    (ps : List Provider) (m : Map String ℤ)
    → leb (length ps) 1 ≡ true
    → weighted_round_robin ps m ≡ (m, ps)
unfolding weighted_round_robin
weighted_round_robin_short ps m l = ground arith

served_at_once :
    (name : String) (n : ℕ) (ps : List Provider) (m : Map String ℤ)
    → 0 < n
    → first_name (weighted_round_robin ps m).1 ≡ some name
    → served name n ps m ≡ true
unfolding served
served_at_once name zero ps m h f = absurd (omega arith)
served_at_once name (suc n) ps m h f = rw (f, ==_refl name) refl

module _ (ps : List Provider) (d : distinct ps ≡ true) (p : Provider) (k : ℕ)
    (at : nth k ps ≡ some p) where
  unserved :
      (n : ℕ) (m : Map String ℤ)
      → leb (length ps) 1 ≡ false
      → IsFair ps m
      → served p.name n ps m ≡ false
      → credit p.name m +ℤ pos n ≤ℤ pos (length ps * total_weight ps)
  unfolding served Turned
  unserved zero m l fair h =
      omega (ints, credit_bound _ ps m k p at fair.1, ap pos_part fair.0, ap neg_part fair.0)
  unserved (suc n) m l fair h =
      let (q, f, after, gain) = weighted_round_robin-Turned ps m d fair l in
      let ne : (p.name == q.name) ≡ false =
        ground (arith, f, ==→≡ q.name p.name, ==→≡ p.name q.name, ==_refl q.name) in
      omega (
        ints,
        unserved n (weighted_round_robin ps m).0 l after (ground arith),
        nth-All _ ps k p at gain ne,
      )

  -- A candidate of the round robin is the first one in one of any `(n + 1) * t` calls in a row with
  -- the same `n` different candidates, whose weights sum up to `t`, when the credits sum up to 0 and
  -- are all above minus `t`.
  pub weighted_round_robin-served :
      (m : Map String ℤ)
      → IsFair ps m
      → served p.name ((length ps + 1) * total_weight ps) ps m ≡ true
  weighted_round_robin-served m fair =
      let e : (length ps + 1) * total_weight ps ≡ length ps * total_weight ps + total_weight ps =
        grind arith in
      elim (Bool-cases (leb (length ps) 1)) [
        | inl short ↦
            served_at_once p.name ((length ps + 1) * total_weight ps) ps m
              (omega (arith, total_weight-positive ps (nth-length ps k p at), e))
              (rw (weighted_round_robin_short ps m short) (first-nth ps k p at short))
        | inr l ↦ elim (Bool-cases (served p.name ((length ps + 1) * total_weight ps) ps m)) [
          | inl y ↦ y
          | inr n ↦ absurd (omega (ints, unserved _ m l fair n, nth-All _ ps k p at fair.1, e))
        ]
      ]
