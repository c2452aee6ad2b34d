-- ===== src/Router/RoundRobin/Turns.antt =====
-- No candidate of `weightedRoundRobin` in internal/service/router/router.go waits for ever.
use gateyes.Common.{
  ℕ, zero, suc, ◌<◌, ◌≡◌, refl, sym, subst, ap, ◌∙◌, String, true, false, some, List, [], ◌∷◌,
  length, leb, ◌==◌, string_eq, Map, insert, ℤ, pos, negsuc, ◌+ℤ◌, ◌-ℤ◌, ◌≤ℤ◌, ltb_ℤ, pos_part,
  neg_part, arith, ints, All, Bool-cases, inl, inr, ==→≡, ==_refl,
}
use gateyes.Router.{Provider, weight_of, total_weight}
use gateyes.Router.Strategies.{nth, index_to_front}
use gateyes.Router.RoundRobin.{credit, give_credit, charge_selected, weighted_round_robin}
use gateyes.Router.RoundRobin.Credits.{
  distinct, sum_credits, grow, give_credit-grow, credit-grow, sum_credits-grow, credit-insert,
  sum_credits-insert, among-nth,
}
use gateyes.Router.Session.Sticky.{first_name, weight_of-positive}
use gateyes.Router.RoundRobin.Best.{value, nth-All, All-nth, Kept, give_credit-Kept}

sum_credits-le :
    (ps : List Provider) (m : Map String ℤ) (most : ℤ)
    → most ≤ℤ pos 0
    → All (λ q. credit q.name m ≤ℤ most) ps
    → sum_credits ps m ≤ℤ pos 0
unfolding sum_credits
sum_credits-le [] m most l h = omega arith
sum_credits-le (p ∷ ps) m most l (h, hs) = omega (ints, sum_credits-le ps m most l hs)

sum_credits-insert-nth :
    (ps : List Provider) (m : Map String ℤ) (k : ℕ) (p : Provider) (v : ℤ)
    → distinct ps ≡ true
    → nth k ps ≡ some p
    → sum_credits ps (insert p.name v m) +ℤ credit p.name m ≡ sum_credits ps m +ℤ v
unfolding sum_credits nth
sum_credits-insert-nth [] m k p v d n = absurd (ground arith)
sum_credits-insert-nth (q ∷ ps) m zero p v d n =
    let same : q ≡ p = ground arith in
    let own : credit q.name (insert q.name v m) ≡ v =
      ground (arith, credit-insert q.name q.name v m, ==_refl q.name) in
    let rest : sum_credits ps (insert q.name v m) ≡ sum_credits ps m =
      sum_credits-insert ps q.name v m (ground arith) in
    subst
      (λ (x : Provider).
        credit q.name (insert x.name v m) +ℤ sum_credits ps (insert x.name v m) +ℤ credit x.name m
        ≡ credit q.name m +ℤ sum_credits ps m +ℤ v)
      same (rw (own, rest) (omega ints))
sum_credits-insert-nth (q ∷ ps) m (suc k) p v d n =
    let apart : (p.name == q.name) ≡ false =
      ground (arith, ==→≡ p.name q.name, among-nth ps k p n) in
    let own : credit q.name (insert p.name v m) ≡ credit q.name m =
      ground (arith, credit-insert p.name q.name v m, apart) in
    let tail = sum_credits-insert-nth ps m k p v (ground arith) n in
    rw own (omega (ints, ap pos_part tail, ap neg_part tail))

pub total_weight-positive : (ps : List Provider) → 0 < length ps → 0 < total_weight ps
unfolding total_weight weight_of
total_weight-positive [] h = absurd (omega arith)
total_weight-positive (p ∷ ps) h = ground arith

-- Every credit is more than the total of the weights below zero.
abbrev pub IsLow : ℕ → List Provider → Map String ℤ → Type 0
IsLow total ps m = All (λ q. pos 1 ≤ℤ credit q.name m +ℤ pos total) ps

abbrev pub IsFair : List Provider → Map String ℤ → Type 0
IsFair ps m = (sum_credits ps m ≡ pos 0) × IsLow (total_weight ps) ps m

-- The selected candidate: where it stands, and that it has the most credit, more than zero.
Selected : List Provider → Map String ℤ → ℕ → Type 0
Selected ps m k = (p : Provider) × (nth k ps ≡ some p) × (pos 1 ≤ℤ credit p.name (grow ps m))

give_credit-Selected :
    (ps : List Provider) (m : Map String ℤ)
    → 0 < length ps
    → distinct ps ≡ true
    → sum_credits ps m ≡ pos 0
    → Selected ps m (give_credit ps 0 0 (negsuc 0) m).1
unfolding Selected Kept
give_credit-Selected ps m l d z =
    let g : Provider → ℤ = λ q. credit q.name (grow ps m) in
    let total : sum_credits ps (grow ps m) ≡ pos 0 +ℤ pos (total_weight ps) =
      subst (λ s. sum_credits ps (grow ps m) ≡ s +ℤ pos (total_weight ps)) z
        (sum_credits-grow ps m d) in
    let values = All-nth (λ q. value m q ≡ g q) ps (λ k q n. sym (credit-grow ps m k q d n)) in
    elim (give_credit-Kept g ps 0 0 (negsuc 0) m d values) [
      | inl (r, h) ↦ absurd (
          omega (
            ints,
            sum_credits-le ps (grow ps m) (negsuc 0) (omega arith) h,
            total_weight-positive ps l,
            ap pos_part total,
            ap neg_part total,
          ))
      | inr (k, p, n, r, b, h) ↦
          let at : nth (give_credit ps 0 0 (negsuc 0) m).1 ps ≡ some p =
            let e : (give_credit ps 0 0 (negsuc 0) m).1 ≡ k = omega arith in rw e n in
          elim (Bool-cases (ltb_ℤ (pos 0) (credit p.name (grow ps m)))) [
            | inl y ↦ (p, at, ground arith)
            | inr y ↦
                let most : credit p.name (grow ps m) ≤ℤ pos 0 = ground arith in
                absurd (
                  omega (
                    ints,
                    sum_credits-le ps (grow ps m) (credit p.name (grow ps m)) most h,
                    total_weight-positive ps l,
                    ap pos_part total,
                    ap neg_part total,
                  ))
          ]
    ]

settled-sum :
    (s g c z : ℤ) (total : ℕ)
    → s +ℤ c ≡ g +ℤ (c -ℤ pos total)
    → g ≡ z +ℤ pos total
    → z ≡ pos 0
    → s ≡ pos 0
settled-sum s g c z total e f h =
    omega (
      ints,
      ap pos_part e,
      ap neg_part e,
      ap pos_part f,
      ap neg_part f,
      ap pos_part h,
      ap neg_part h,
    )

-- What a call does that returns the credits and the order `r`.
unfoldable pub Turned : List Provider → Map String ℤ → Map String ℤ × List Provider → Type 0
Turned ps m r =
    (p : Provider) × (first_name r.1 ≡ some p.name)
    × IsFair ps r.0
    × All (λ q. (q.name == p.name) ≡ false → credit q.name m +ℤ pos 1 ≤ℤ credit q.name r.0) ps

module _ (ps : List Provider) (m : Map String ℤ) (d : distinct ps ≡ true) (fair : IsFair ps m) where
  -- The credits after the call that selects `p`.
  settled : Provider → Map String ℤ
  settled p = insert p.name (credit p.name (grow ps m) -ℤ pos (total_weight ps)) (grow ps m)

  settled-credit :
      (p : Provider) (k : ℕ) (q : Provider)
      → nth k ps ≡ some q
      → (q.name == p.name) ≡ false
      → credit q.name (settled p) ≡ credit q.name m +ℤ pos (weight_of q)
  unfolding settled
  settled-credit p k q n ne =
      let v = credit p.name (grow ps m) -ℤ pos (total_weight ps) in
      let apart : (p.name == q.name) ≡ false =
        ground (arith, ne, ==→≡ p.name q.name, ==_refl q.name) in
      let own : credit q.name (insert p.name v (grow ps m)) ≡ credit q.name (grow ps m) =
        ground (arith, credit-insert p.name q.name v (grow ps m), apart) in
      own ∙ credit-grow ps m k q d n

  settled-low :
      (p : Provider)
      → pos 1 ≤ℤ credit p.name (grow ps m)
      → (j : ℕ) (q : Provider) → nth j ps ≡ some q
      → pos 1 ≤ℤ credit q.name (settled p) +ℤ pos (total_weight ps)
  unfolding settled
  settled-low p one j q at = elim (Bool-cases (q.name == p.name)) [
    | inl same ↦
        let v = credit p.name (grow ps m) -ℤ pos (total_weight ps) in
        let e : q.name ≡ p.name = ==→≡ q.name p.name same in
        let own : credit p.name (insert p.name v (grow ps m)) ≡ v =
          ground (arith, credit-insert p.name p.name v (grow ps m), ==_refl p.name) in
        rw (e, own) (omega ints)
    | inr ne ↦
        let own = settled-credit p j q at ne in
        let low = nth-All _ ps j q at fair.1 in omega (ints, ap pos_part own, ap neg_part own)
  ]

  settled-IsFair :
      (k : ℕ) (p : Provider)
      → nth k ps ≡ some p
      → pos 1 ≤ℤ credit p.name (grow ps m)
      → IsFair ps (settled p)
  unfolding settled
  settled-IsFair k p n one = (
    settled-sum _ _ _ _ _ (sum_credits-insert-nth ps (grow ps m) k p _ d n)
        (sum_credits-grow ps m d) fair.0,
    All-nth _ ps (λ j q at. settled-low p one j q at),
  )

  settled_gain :
      (p : Provider)
      → All
          (λ q. (q.name == p.name) ≡ false → credit q.name m +ℤ pos 1 ≤ℤ credit q.name (settled p))
          ps
  settled_gain p = All-nth _ ps (λ j q at ne.
      let own = settled-credit p j q at ne in
      omega (ints, weight_of-positive q, ap pos_part own, ap neg_part own))

  -- A call with two candidates or more that keeps the credits fair, and what each gains by it.
  pub weighted_round_robin-Turned :
      leb (length ps) 1 ≡ false → Turned ps m (weighted_round_robin ps m)
  unfolding Turned Selected settled charge_selected weighted_round_robin index_to_front
  weighted_round_robin-Turned l =
      let (p, n, one) = give_credit-Selected ps m (ground arith) d fair.0 in
      let i = (give_credit ps 0 0 (negsuc 0) m).1 in
      let charged : charge_selected (total_weight ps) i ps (give_credit ps 0 0 (negsuc 0) m).0
          ≡ settled p =
        rw (n, charge_selected, give_credit-grow ps 0 0 (negsuc 0) m) refl in
      let front : first_name (index_to_front i ps) ≡ some p.name = rw (n, index_to_front) refl in
      let after : (weighted_round_robin ps m).0 ≡ settled p = ground (arith, charged) in
      let order : (weighted_round_robin ps m).1 ≡ index_to_front i ps = ground arith in
      (p, rw order front, rw after (settled-IsFair i p n one), rw after (settled_gain p))
