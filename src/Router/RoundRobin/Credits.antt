-- ===== src/Router/RoundRobin/Credits.antt =====
-- The credits that `weightedRoundRobin` of internal/service/router/router.go keeps.
use gateyes.Common.{
  ℕ, zero, suc, ◌+◌, ◌≡◌, refl, subst, String, Bool, true, false, ◌||◌, some, List, [], ◌∷◌, ◌==◌,
  string_eq, if◌then◌else◌, Map, insert, ℤ, pos, ◌+ℤ◌, arith, ints, lookup-insert, ==→≡, ==_refl,
}
use gateyes.Router.{Provider, weight_of, total_weight}
use gateyes.Router.Strategies.{nth}
use gateyes.Router.RoundRobin.{credit, give_credit, among}

abbrev pub distinct : List Provider → Bool
distinct [] = true
distinct (p ∷ ps) = if among p.name ps then false else distinct ps

unfoldable pub sum_credits : List Provider → Map String ℤ → ℤ
sum_credits [] m = pos 0
sum_credits (p ∷ ps) m = credit p.name m +ℤ sum_credits ps m

pub credit-insert :
    (name other : String) (v : ℤ) (m : Map String ℤ)
    → credit other (insert name v m) ≡ (if name == other then v else credit other m)
unfolding credit
credit-insert name other v m = ground (arith, lookup-insert name other v m)

pub sum_credits-insert :
    (ps : List Provider) (name : String) (v : ℤ) (m : Map String ℤ)
    → among name ps ≡ false
    → sum_credits ps (insert name v m) ≡ sum_credits ps m
unfolding sum_credits
sum_credits-insert [] name v m h = refl
sum_credits-insert (p ∷ ps) name v m h = ground (
  arith,
  credit-insert name p.name v m,
  sum_credits-insert ps name v m,
  ==→≡ name p.name,
  ==_refl p.name,
)

pub among-nth :
    (ps : List Provider) (k : ℕ) (p : Provider) → nth k ps ≡ some p → among p.name ps ≡ true
unfolding nth
among-nth [] k p n = absurd (ground arith)
among-nth (q ∷ ps) zero p n =
    let same : q ≡ p = ground arith in
    subst (λ (x : Provider). (q.name == x.name || among x.name ps) ≡ true) same
      (ground (arith, ==_refl q.name))
among-nth (q ∷ ps) (suc k) p n = ground (arith, among-nth ps k p n)

-- The credits after the second loop.
pub grow : List Provider → Map String ℤ → Map String ℤ
grow [] m = m
grow (p ∷ ps) m = grow ps (insert p.name (credit p.name m +ℤ pos (weight_of p)) m)

pub give_credit-grow :
    (ps : List Provider) (i max_idx : ℕ) (max_val : ℤ) (m : Map String ℤ)
    → (give_credit ps i max_idx max_val m).0 ≡ grow ps m
unfolding give_credit grow
give_credit-grow [] i max_idx max_val m = refl
give_credit-grow (p ∷ ps) i max_idx max_val m = give_credit-grow ps _ _ _ _

credit-grow_ne :
    (ps : List Provider) (m : Map String ℤ) (name : String)
    → among name ps ≡ false
    → credit name (grow ps m) ≡ credit name m
unfolding grow
credit-grow_ne [] m name h = refl
credit-grow_ne (p ∷ ps) m name h =
    let v = credit p.name m +ℤ pos (weight_of p) in
    ground (arith, credit-grow_ne ps (insert p.name v m) name, credit-insert p.name name v m)

-- Each candidate's credit grows by its weight.
pub credit-grow :
    (ps : List Provider) (m : Map String ℤ) (k : ℕ) (p : Provider)
    → distinct ps ≡ true
    → nth k ps ≡ some p
    → credit p.name (grow ps m) ≡ credit p.name m +ℤ pos (weight_of p)
unfolding grow nth
credit-grow [] m k p d n = absurd (ground arith)
credit-grow (q ∷ ps) m zero p d n =
    let same : q ≡ p = ground arith in
    let v = credit q.name m +ℤ pos (weight_of q) in
    subst
      (λ (x : Provider).
        credit x.name (grow ps (insert q.name v m)) ≡ credit x.name m +ℤ pos (weight_of x))
      same
      (ground (
        arith,
        credit-grow_ne ps (insert q.name v m) q.name,
        credit-insert q.name q.name v m,
        ==_refl q.name,
      ))
credit-grow (q ∷ ps) m (suc k) p d n =
    let v = credit q.name m +ℤ pos (weight_of q) in
    let tail = credit-grow ps (insert q.name v m) k p (ground arith) n in
    ground (arith, tail, credit-insert q.name p.name v m, ==→≡ q.name p.name, among-nth ps k p n)

shuffle_sum : (c s : ℤ) (w t : ℕ) → c +ℤ pos w +ℤ (s +ℤ pos t) ≡ c +ℤ s +ℤ pos (w + t)
shuffle_sum c s w t = omega ints

pub sum_credits-grow :
    (ps : List Provider) (m : Map String ℤ)
    → distinct ps ≡ true
    → sum_credits ps (grow ps m) ≡ sum_credits ps m +ℤ pos (total_weight ps)
unfolding sum_credits grow total_weight
sum_credits-grow [] m d = omega ints
sum_credits-grow (p ∷ ps) m d =
    let m' = insert p.name (credit p.name m +ℤ pos (weight_of p)) m in
    let absent : among p.name ps ≡ false = ground arith in
    let own : credit p.name (grow ps m') ≡ credit p.name m +ℤ pos (weight_of p) = ground (
      arith,
      credit-grow_ne ps m' p.name absent,
      ==_refl p.name,
      credit-insert p.name p.name (credit p.name m +ℤ pos (weight_of p)) m,
    ) in
    let tail : sum_credits ps (grow ps m') ≡ sum_credits ps m +ℤ pos (total_weight ps) = ground (
      arith,
      sum_credits-grow ps m' (ground arith),
      sum_credits-insert ps p.name (credit p.name m +ℤ pos (weight_of p)) m absent,
    ) in
    rw (own, tail)
      (shuffle_sum (credit p.name m) (sum_credits ps m) (weight_of p) (total_weight ps))
