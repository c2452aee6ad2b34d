-- ===== src/Router/RoundRobin/Best.antt =====
-- The candidate that `weightedRoundRobin` of internal/service/router/router.go selects has the most
-- credit.
use gateyes.Common.{
  ℕ, zero, suc, ◌+◌, ◌≡◌, refl, subst, ap, ◌∙◌, String, true, false, some, List, [], ◌∷◌, ◌==◌,
  string_eq, Map, insert, ℤ, pos, ◌+ℤ◌, ◌≤ℤ◌, ltb_ℤ, arith, All, Bool-cases, inl, inr, ◌⊎◌, ==→≡,
  ==_refl,
}
use gateyes.Router.{Provider, weight_of}
use gateyes.Router.Strategies.{nth}
use gateyes.Router.RoundRobin.{credit, give_credit, among}
use gateyes.Router.RoundRobin.Credits.{distinct, credit-insert}

abbrev pub value : Map String ℤ → Provider → ℤ
value m q = credit q.name m +ℤ pos (weight_of q)

pub nth-All {κ} :
    (P : Provider → Type κ) (ps : List Provider) (k : ℕ) (p : Provider)
    → nth k ps ≡ some p
    → All P ps
    → P p
unfolding nth
nth-All P [] k p n h = absurd (ground arith)
nth-All P (q ∷ ps) zero p n h = let same : q ≡ p = ground arith in subst P same h.0
nth-All P (q ∷ ps) (suc k) p n h = nth-All P ps k p n h.1

pub All-nth {κ} :
    (P : Provider → Type κ) (ps : List Provider)
    → ((k : ℕ) (p : Provider) → nth k ps ≡ some p → P p)
    → All P ps
unfolding nth
All-nth P [] h = tt
All-nth P (q ∷ ps) h = (h 0 q refl, All-nth P ps (λ k. h (suc k)))

le_ℤ_refl : (a : ℤ) → a ≤ℤ a
le_ℤ_refl a = omega arith

ltb_ℤ→≤ : (a b : ℤ) → ltb_ℤ a b ≡ true → a ≤ℤ b
ltb_ℤ→≤ a b h = ground arith

not_ltb_ℤ : (a b : ℤ) → ltb_ℤ a b ≡ false → b ≤ℤ a
not_ltb_ℤ a b h = ground arith

ltb_ℤ_trans : (a b c : ℤ) → ltb_ℤ a b ≡ true → ltb_ℤ b c ≡ true → ltb_ℤ a c ≡ true
ltb_ℤ_trans a b c h k = ground arith

worse_ℤ : (a b c : ℤ) → ltb_ℤ a b ≡ false → ltb_ℤ a c ≡ true → b ≤ℤ c
worse_ℤ a b c h k = ground arith

module _ (g : Provider → ℤ) where
  abbrev Values : Map String ℤ → List Provider → Type 0
  Values m = All (λ q. value m q ≡ g q)

  Values-insert :
      (ps : List Provider) (name : String) (v : ℤ) (m : Map String ℤ)
      → among name ps ≡ false
      → Values m ps
      → Values (insert name v m) ps
  Values-insert [] name v m a h = tt
  Values-insert (p ∷ ps) name v m a (h, hs) = (
    (let apart : (name == p.name) ≡ false = ground (arith, ==→≡ name p.name, ==_refl p.name) in
        let same : credit p.name (insert name v m) ≡ credit p.name m =
          ground (arith, credit-insert name p.name v m, apart) in
        ap (λ c. c +ℤ pos (weight_of p)) same ∙ h),
    Values-insert ps name v m (ground arith) hs,
  )

  -- What the loop returns: the index it had, if nothing is better, or that of the best.
  unfoldable pub Kept : List Provider → ℕ → ℕ → ℤ → ℕ → Type 0
  Kept ps i max_idx max_val result =
      ((result ≡ max_idx) × All (λ q. g q ≤ℤ max_val) ps)
      ⊎ ((k : ℕ) × (p : Provider) × (nth k ps ≡ some p)
          × (result ≡ i + k)
          × (ltb_ℤ max_val (g p) ≡ true)
          × All (λ q. g q ≤ℤ g p) ps)

  inl-Kept : (i max_idx : ℕ) (max_val : ℤ) → Kept [] i max_idx max_val max_idx
  unfolding Kept
  inl-Kept i max_idx max_val = inl (refl, tt)

  Kept-better :
      (p : Provider) (ps : List Provider) (i max_idx : ℕ) (max_val : ℤ) (result : ℕ)
      → ltb_ℤ max_val (g p) ≡ true
      → Kept ps (i + 1) i (g p) result
      → Kept (p ∷ ps) i max_idx max_val result
  unfolding Kept nth
  Kept-better p ps i max_idx max_val result b (inl (r, h)) =
      inr (0, p, refl, omega arith, b, (le_ℤ_refl (g p), h))
  Kept-better p ps i max_idx max_val result b (inr (k, q, n, r, l, h)) =
      inr
        (suc k, q, n, omega arith, ltb_ℤ_trans max_val (g p) (g q) b l, (ltb_ℤ→≤ (g p) (g q) l, h))

  Kept-worse :
      (p : Provider) (ps : List Provider) (i max_idx : ℕ) (max_val : ℤ) (result : ℕ)
      → ltb_ℤ max_val (g p) ≡ false
      → Kept ps (i + 1) max_idx max_val result
      → Kept (p ∷ ps) i max_idx max_val result
  unfolding Kept nth
  Kept-worse p ps i max_idx max_val result b (inl (r, h)) = inl (r, (not_ltb_ℤ max_val (g p) b, h))
  Kept-worse p ps i max_idx max_val result b (inr (k, q, n, r, l, h)) =
      inr (suc k, q, n, omega arith, l, (worse_ℤ max_val (g p) (g q) b l, h))

  pub give_credit-Kept :
      (ps : List Provider) (i max_idx : ℕ) (max_val : ℤ) (m : Map String ℤ)
      → distinct ps ≡ true
      → Values m ps
      → Kept ps i max_idx max_val (give_credit ps i max_idx max_val m).1
  unfolding give_credit
  give_credit-Kept [] i max_idx max_val m d h = inl-Kept i max_idx max_val
  give_credit-Kept (p ∷ ps) i max_idx max_val m d (h, hs) =
      let v = value m p in
      let absent : among p.name ps ≡ false = ground arith in
      let hs' = Values-insert ps p.name v m absent hs in
      elim (Bool-cases (ltb_ℤ max_val v)) [
        | inl better ↦
            rw (better, give_credit)
              (Kept-better p ps i max_idx max_val _ (subst (λ x. ltb_ℤ max_val x ≡ true) h better) (
                subst (λ x. Kept ps (i + 1) i x (give_credit ps (i + 1) i v (insert p.name v m)).1)
                  h (give_credit-Kept ps (i + 1) i v (insert p.name v m) (ground arith) hs')))
        | inr worse ↦
            rw (worse, give_credit)
              (Kept-worse p ps i max_idx max_val _ (subst (λ x. ltb_ℤ max_val x ≡ false) h worse) (
                give_credit-Kept ps (i + 1) max_idx max_val (insert p.name v m) (ground arith) hs'))
      ]
