-- ===== src/Router/Strategies/Rearrange.antt =====
-- The strategies of internal/service/router/router.go only rearrange the candidates.
use gateyes.Common.{
  ℕ, zero, suc, ◌+◌, ◌≤◌, ◌<◌, ◌≡◌, ◌≢◌, refl, sym, subst, Bool, true, false, ◌||◌, some, List, [],
  ◌∷◌, ◌++◌, length, ltb, leb, ◌==◌, nat_eq, string_eq, arith, Bool-cases, Option-cases, inl, inr,
  ltb_ℤ, ℤ, ==→≡, ==_refl,
}
use mathlib.Core.List.{Perm, reverse_perm, perm_append_singleton, perm_middle, append-nil}
use mathlib.Core.List.Perm
use gateyes.Router.{Provider, total_weight}
use gateyes.Router.Strategies.{
  Signals, Random, sink, sort_onto, slice_stable, less_load, drop_at, nth, index_to_front,
  two_choices, power_of_two_choices, comparable_load, weighted_index, shuffle_tail, random_order,
}

ltb_ℤ_irrefl : (x : ℤ) → ¬ (ltb_ℤ x x ≡ true)
ltb_ℤ_irrefl x h = ground arith

module _ (less : Provider → Provider → Bool) where
  sink-Perm : (x : Provider) (ys : List Provider) → Perm (x ∷ ys) (sink less x ys)
  unfolding sink
  sink-Perm x [] = Perm.refl (x ∷ [])
  sink-Perm x (y ∷ ys) = elim (Bool-cases (less x y)) [
    | inl h ↦ rw h (Perm.trans (Perm.swap y x ys) (Perm.cons y (sink-Perm x ys)))
    | inr h ↦ rw h (Perm.refl (x ∷ y ∷ ys))
  ]

  sort_onto-Perm : (xs sorted : List Provider) → Perm (xs ++ sorted) (sort_onto less xs sorted)
  unfolding sort_onto
  sort_onto-Perm [] sorted = Perm.refl sorted
  sort_onto-Perm (x ∷ xs) sorted = Perm.trans (Perm.symm (perm_middle xs sorted)) (
      Perm.trans (Perm.append_left xs (sink-Perm x sorted))
        (sort_onto-Perm xs (sink less x sorted)))

  pub slice_stable-Perm : (ps : List Provider) → Perm ps (slice_stable less ps)
  unfolding slice_stable
  slice_stable-Perm ps =
      Perm.trans (subst (λ l. Perm l (sort_onto less ps [])) (append-nil ps) (sort_onto-Perm ps []))
        (Perm.symm (reverse_perm (sort_onto less ps [])))

drop_at-agree :
    (f g : ℕ → Bool) (k : ℕ) (ps : List Provider)
    → ((m : ℕ) → k ≤ m → f m ≡ g m)
    → drop_at f k ps ≡ drop_at g k ps
unfolding drop_at
drop_at-agree f g k [] h = refl
drop_at-agree f g k (p ∷ ps) h =
    let rest = drop_at-agree f g (k + 1) ps (λ m l. h m (omega arith)) in ground (arith, h k, rest)

drop_at-none :
    (f : ℕ → Bool) (k : ℕ) (ps : List Provider)
    → ((m : ℕ) → k ≤ m → f m ≡ false)
    → drop_at f k ps ≡ ps
unfolding drop_at
drop_at-none f k [] h = refl
drop_at-none f k (p ∷ ps) h =
    let rest = drop_at-none f (k + 1) ps (λ m l. h m (omega arith)) in ground (arith, h k, rest)

-- Dropping one index more takes out the element that stands there.
drop_at-Perm :
    (f g : ℕ → Bool) (k i : ℕ) (ps : List Provider) (p : Provider)
    → nth i ps ≡ some p
    → f (k + i) ≡ false
    → g (k + i) ≡ true
    → ((m : ℕ) → m ≢ k + i → f m ≡ g m)
    → Perm (drop_at f k ps) (p ∷ drop_at g k ps)
unfolding drop_at nth
drop_at-Perm f g k i [] p n hf hg h = absurd (ground arith)
drop_at-Perm f g k zero (q ∷ ps) p n hf hg h =
    let e : k + 0 ≡ k = omega arith in
    let f' : f k ≡ false = subst (λ m. f m ≡ false) e hf in
    let g' : g k ≡ true = subst (λ m. g m ≡ true) e hg in
    let rest = drop_at-agree f g (k + 1) ps (λ m l. h m (λ q. omega arith)) in
    let same : q ≡ p = ground arith in
    rw (f', g', rest, same) (Perm.refl (p ∷ drop_at g (k + 1) ps))
drop_at-Perm f g k (suc i) (q ∷ ps) p n hf hg h =
    let e : k + suc i ≡ k + 1 + i = omega arith in
    let tail =
      drop_at-Perm f g (k + 1) i ps p n (subst (λ m. f m ≡ false) e hf)
        (subst (λ m. g m ≡ true) e hg) (λ m l. h m (subst (λ x. m ≢ x) (sym e) l)) in
    let agree : f k ≡ g k = h k (λ x. omega arith) in
    elim (Bool-cases (g k)) [
      | inl y ↦ rw (agree, y) tail
      | inr y ↦ rw (agree, y) (Perm.trans (Perm.cons q tail) (Perm.swap p q (drop_at g (k + 1) ps)))
    ]

nth-some : (i : ℕ) (ps : List Provider) → i < length ps → (p : Provider) × (nth i ps ≡ some p)
unfolding nth
nth-some i [] l = absurd (omega arith)
nth-some zero (p ∷ ps) l = (p, refl)
nth-some (suc i) (p ∷ ps) l = nth-some i ps (omega arith)

pub index_to_front-Perm : (i : ℕ) (ps : List Provider) → Perm ps (index_to_front i ps)
unfolding index_to_front
index_to_front-Perm i ps = elim (Option-cases (nth i ps)) [
  | inl n ↦ rw (n, index_to_front) (Perm.refl ps)
  | inr (p, n) ↦
      let one =
        drop_at-Perm (λ k. false) (λ k. k == i) 0 i ps p n refl (ground arith)
          (λ m l. ground arith) in
      rw (n, index_to_front)
        (subst (λ l. Perm l (p ∷ drop_at (λ k. k == i) 0 ps))
          (drop_at-none (λ k. false) 0 ps (λ m l. refl)) one)
]

abbrev others : ℕ → ℕ → List Provider → List Provider
others i j ps = drop_at (λ k. k == i || k == j) 0 ps

two_out :
    (i j : ℕ) (ps : List Provider) (a b : Provider)
    → i ≢ j
    → nth i ps ≡ some a
    → nth j ps ≡ some b
    → Perm ps (a ∷ b ∷ others i j ps)
two_out i j ps a b ne n m =
    Perm.trans
      (subst (λ l. Perm l (a ∷ drop_at (λ k. k == i) 0 ps))
        (drop_at-none (λ k. false) 0 ps (λ m l. refl))
        (drop_at-Perm (λ k. false) (λ k. k == i) 0 i ps a n refl (ground arith)
          (λ m l. ground arith)))
      (Perm.cons a (
        drop_at-Perm (λ k. k == i) (λ k. k == i || k == j) 0 j ps b m (ground arith) (ground arith)
          (λ m l. ground arith)))

-- A provider with less load is another one by name.
lighter-ne :
    (sig : Signals) (a b : Provider)
    → ltb_ℤ (comparable_load sig b.name) (comparable_load sig a.name) ≡ true
    → (b.name == a.name) ≡ false
lighter-ne sig a b h = elim (Bool-cases (b.name == a.name)) [
  | inr n ↦ n
  | inl e ↦
      let same =
        subst (λ n. ltb_ℤ (comparable_load sig n) (comparable_load sig a.name) ≡ true)
          (==→≡ b.name a.name e) h in
      absurd (ltb_ℤ_irrefl (comparable_load sig a.name) same)
]

two_choices-Perm :
    (sig : Signals) (i j : ℕ) (ps : List Provider) → i ≢ j → Perm ps (two_choices sig i j ps)
unfolding two_choices
two_choices-Perm sig i j ps ne = elim (Option-cases (nth i ps)) [
  | inl n ↦ rw (n, two_choices) (Perm.refl ps)
  | inr (a, n) ↦ elim (Option-cases (nth j ps)) [
    | inl m ↦ rw (n, m, two_choices) (Perm.refl ps)
    | inr (b, m) ↦
        let both = two_out i j ps a b ne n m in
        elim (Bool-cases (ltb_ℤ (comparable_load sig b.name) (comparable_load sig a.name))) [
          | inl h ↦
              rw (n, m, two_choices, h, lighter-ne sig a b h)
                (Perm.trans both (
                  Perm.trans (Perm.swap b a (others i j ps))
                    (Perm.cons b (Perm.symm (perm_append_singleton a (others i j ps))))))
          | inr h ↦
              rw (n, m, two_choices, h, ==_refl a.name)
                (Perm.trans both
                  (Perm.cons a (Perm.symm (perm_append_singleton b (others i j ps)))))
        ]
  ]
]

-- What `rand` promises of an index, and of a shuffle.
abbrev pub IsRandom : Random → Type 0
IsRandom r =
    ((n : ℕ) → 0 < n → r.first n < n)
    × ((n : ℕ) → 0 < n → r.second n < n)
    × ((ps : List Provider) → Perm ps (r.shuffle ps))

pub power_of_two_choices-Perm :
    (sig : Signals) (r : Random) (ps : List Provider) → Perm ps (power_of_two_choices sig r ps)
unfolding power_of_two_choices
power_of_two_choices-Perm sig r ps = elim (Bool-cases (leb (length ps) 1)) [
  | inl h ↦ rw h (Perm.refl ps)
  | inr h ↦ elim (Bool-cases (leb (length ps) 2)) [
    | inl t ↦ rw (h, t) (slice_stable-Perm (less_load sig) ps)
    | inr t ↦ rw (h, t) (two_choices-Perm sig (r.first (length ps)) _ ps (ground arith))
  ]
]

shuffle_tail-Perm :
    (r : Random) (ps : List Provider)
    → ((qs : List Provider) → Perm qs (r.shuffle qs))
    → Perm ps (shuffle_tail r ps)
unfolding shuffle_tail
shuffle_tail-Perm r [] h = Perm.refl []
shuffle_tail-Perm r (p ∷ ps) h = Perm.cons p (h ps)

pub random_order-Perm :
    (r : Random) (ps : List Provider)
    → ((qs : List Provider) → Perm qs (r.shuffle qs))
    → Perm ps (random_order r ps)
unfolding random_order
random_order-Perm r ps h = elim (Bool-cases (ltb 0 (total_weight ps))) [
  | inr z ↦ rw z (h ps)
  | inl z ↦ elim (Option-cases (weighted_index (r.first (total_weight ps)) 0 0 ps)) [
    | inl n ↦ rw (z, n, random_order) (h ps)
    | inr (i, n) ↦
        rw (z, n, random_order)
          (Perm.trans (index_to_front-Perm i ps) (shuffle_tail-Perm r (index_to_front i ps) h))
  ]
]
