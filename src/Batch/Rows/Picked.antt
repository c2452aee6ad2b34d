-- ===== src/Batch/Rows/Picked.antt =====
-- What statements that count, find and update rows of a table say of each other.
use gateyes.Common.{
  ◌≡◌, ◌≤◌, ◌<◌, refl, Bool, true, false, ◌&&◌, none, some, List, [], ◌∷◌, All, arith,
  if◌then◌else◌, Bool-cases, inl, inr, sym, subst, ◌==◌, string_eq, ==_refl, String, ◌∙◌,
}
use gateyes.Batch.Rows.{find_where, count_where, update_where}

module _ {ℓ} {A : Type ℓ} where
  -- A change of the rows that `q` picks which `p` does not see.
  pub count-update :
      (p q : A → Bool) (f : A → A) (xs : List A)
      → All (λ x. q x ≡ true → p (f x) ≡ p x) xs
      → count_where p (update_where q f xs) ≡ count_where p xs
  unfolding count_where update_where
  count-update p q f [] h = refl
  count-update p q f (x ∷ xs) (h, hs) = elim (Bool-cases (q x)) [
    | inl y ↦ rw (y, h y, count-update p q f xs hs) refl
    | inr n ↦ rw (n, count-update p q f xs hs) refl
  ]

  pub count-update-le :
      (p q : A → Bool) (f : A → A) (xs : List A)
      → All (λ x. q x ≡ true → p (f x) ≡ false) xs
      → count_where p (update_where q f xs) ≤ count_where p xs
  unfolding count_where update_where
  count-update-le p q f [] h = omega arith
  count-update-le p q f (x ∷ xs) (h, hs) = elim (Bool-cases (q x)) [
    | inl y ↦ rw (y, h y) (ground (arith, count-update-le p q f xs hs))
    | inr n ↦ rw n (ground (arith, count-update-le p q f xs hs))
  ]

  pub All-every {κ} : {P : A → Type κ} (xs : List A) → ((x : A) → P x) → All P xs
  All-every [] h = tt
  All-every (x ∷ xs) h = (h x, All-every xs h)

  pub All-with {κ μ} :
      {P : A → Type κ} {Q : A → Type μ} (xs : List A) → ((x : A) → P x → Q x) → All P xs → All Q xs
  All-with [] h t = tt
  All-with (x ∷ xs) h (p, ps) = (h x p, All-with xs h ps)

  pub All-both {κ μ} :
      (P : A → Type κ) (Q : A → Type μ) (xs : List A)
      → All P xs
      → All Q xs
      → All (λ x. P x × Q x) xs
  All-both P Q [] ps qs = tt
  All-both P Q (x ∷ xs) (p, ps) (q, qs) = ((p, q), All-both P Q xs ps qs)

  pub All-update {κ μ} :
      {P : A → Type κ} {Q : A → Type μ} (q : A → Bool) (f : A → A) (xs : List A)
      → ((x : A) → q x ≡ true → P x → Q (f x))
      → ((x : A) → q x ≡ false → P x → Q x)
      → All P xs
      → All Q (update_where q f xs)
  unfolding update_where
  All-update q f [] yes_case no_case ps = tt
  All-update {Q} q f (x ∷ xs) yes_case no_case (p, ps) = (
    elim (Bool-cases (q x)) [ inl y ↦ rw y (yes_case x y p) | inr n ↦ rw n (no_case x n p) ],
    All-update q f xs yes_case no_case ps,
  )

  pub count-zero : (p : A → Bool) (xs : List A) → count_where p xs ≡ 0 → All (λ x. p x ≡ false) xs
  unfolding count_where
  count-zero p [] h = tt
  count-zero p (x ∷ xs) h = elim (Bool-cases (p x)) [
    | inl y ↦ absurd (ground arith)
    | inr n ↦ (n, count-zero p xs (ground arith))
  ]

  pub zero-count : (p : A → Bool) (xs : List A) → All (λ x. p x ≡ false) xs → count_where p xs ≡ 0
  unfolding count_where
  zero-count p [] h = refl
  zero-count p (x ∷ xs) (h, hs) = rw (h, zero-count p xs hs) refl

  pub count-more :
      (p : A → Bool) (x : A) (xs : List A) → 0 < count_where p xs → 0 < count_where p (x ∷ xs)
  unfolding count_where
  count-more p x xs h = omega arith

  pub count-skip :
      (p : A → Bool) (x : A) (xs : List A) → p x ≡ false → count_where p (x ∷ xs) ≡ count_where p xs
  unfolding count_where
  count-skip p x xs h = rw h (omega arith)

  pub find-skip :
      (p : A → Bool) (x : A) (xs : List A) → p x ≡ false → find_where p (x ∷ xs) ≡ find_where p xs
  unfolding find_where
  find-skip p x xs h = rw h refl

  pub count_mono :
      (p q : A → Bool) (xs : List A)
      → ((x : A) → p x ≡ true → q x ≡ true)
      → count_where p xs ≤ count_where q xs
  unfolding count_where
  count_mono p q [] h = omega arith
  count_mono p q (x ∷ xs) h = elim (Bool-cases (p x)) [
    | inl y ↦ rw (y, h x y) (ground (arith, count_mono p q xs h))
    | inr n ↦ rw n (ground (arith, count_mono p q xs h))
  ]

  -- A row that is found is one that is picked.
  pub find-picked : (p : A → Bool) (xs : List A) {x : A} → find_where p xs ≡ some x → p x ≡ true
  unfolding find_where
  find-picked p [] h = absurd (ground arith)
  find-picked p (y ∷ ys) h = elim (Bool-cases (p y)) [
    | inl e ↦ ground arith
    | inr n ↦ find-picked p ys (ground arith)
  ]

  pub find-count :
      (p : A → Bool) (xs : List A) {x : A} → find_where p xs ≡ some x → 0 < count_where p xs
  unfolding find_where count_where
  find-count p [] h = absurd (ground arith)
  find-count p (y ∷ ys) {x} h = elim (Bool-cases (p y)) [
    | inl e ↦ rw e (omega arith)
    | inr n ↦
        let rest : 0 < count_where p ys = find-count p ys {x = x} (ground arith) in
        rw n (omega (arith, rest))
  ]

  pub find-counted :
      (p r : A → Bool) (xs : List A) {x : A}
      → find_where p xs ≡ some x
      → r x ≡ true
      → 0 < count_where r xs
  unfolding find_where count_where
  find-counted p r [] h k = absurd (ground arith)
  find-counted p r (y ∷ ys) {x} h k = elim (Bool-cases (p y)) [
    | inl e ↦ let same : r y ≡ true = ground arith in rw same (omega arith)
    | inr n ↦
        let rest : 0 < count_where r ys = find-counted p r ys {x = x} (ground arith) k in
        omega (arith, rest)
  ]

  pub find-none : (p : A → Bool) (xs : List A) → find_where p xs ≡ none → count_where p xs ≡ 0
  unfolding find_where count_where
  find-none p [] h = refl
  find-none p (y ∷ ys) h = elim (Bool-cases (p y)) [
    | inl e ↦ absurd (ground arith)
    | inr n ↦ rw (n, find-none p ys (ground arith)) refl
  ]

  pub find-All {κ} :
      (P : A → Type κ) (p : A → Bool) (xs : List A) {x : A}
      → All P xs
      → find_where p xs ≡ some x
      → P x
  unfolding find_where
  find-All P p [] ps h = absurd (ground arith)
  find-All P p (y ∷ ys) (q, qs) h = elim (Bool-cases (p y)) [
    | inl e ↦ subst P (ground arith) q
    | inr n ↦ find-All P p ys qs (ground arith)
  ]

  -- An update that keeps the row that is found, and picks none that it does not keep from being found.
  pub find-update :
      (p q : A → Bool) (f : A → A) (xs : List A)
      → ((x : A) → q x ≡ true → p (f x) ≡ p x)
      → {x : A} → find_where p xs ≡ some x
      → find_where p (update_where q f xs) ≡ some (if q x then f x else x)
  unfolding find_where update_where
  find-update p q f [] keep h = absurd (ground arith)
  find-update p q f (y ∷ ys) keep {x} h = elim (Bool-cases (p y)) [
    | inl e ↦ elim (Bool-cases (q y)) [ inl u ↦ ground (arith, keep y u) | inr v ↦ ground arith ]
    | inr n ↦ elim (Bool-cases (q y)) [
      | inl u ↦ rw (u, keep y u, n) (find-update p q f ys keep (ground arith))
      | inr v ↦ rw (v, n) (find-update p q f ys keep (ground arith))
    ]
  ]

  -- No two rows have the same key.
  abbrev pub Distinct : (A → String) → List A → Type 0
  Distinct key [] = Unit
  Distinct key (x ∷ xs) = All (λ y. (key y == key x) ≡ false) xs × Distinct key xs

  pub Distinct-update :
      (key : A → String) (q : A → Bool) (f : A → A) (xs : List A)
      → ((x : A) → key (f x) ≡ key x)
      → Distinct key xs
      → Distinct key (update_where q f xs)
  unfolding update_where
  Distinct-update key q f [] h d = tt
  Distinct-update key q f (x ∷ xs) h (a, d) =
      let same : key (if q x then f x else x) ≡ key x = elim (Bool-cases (q x)) [
        | inl y ↦ rw y (h x)
        | inr n ↦ rw n refl
      ] in
      (
        rw same (All-update q f xs (λ y _ e. rw (h y) e) (λ y _ e. e) a),
        Distinct-update key q f xs h d,
      )

  others-differ :
      (key : A → String) (p : A → Bool) (x : A) (xs : List A)
      → ((y : A) → p y ≡ true → key y ≡ key x)
      → All (λ y. (key y == key x) ≡ false) xs
      → All (λ y. p y ≡ true → y ≡ x) xs
  others-differ key p x xs h a =
      All-with xs (λ y e pick. let k = h y pick in absurd (ground (arith, ==_refl (key x)))) a

  -- A key picks one row.
  pub find-only :
      (key : A → String) (p : A → Bool) (k : String) (xs : List A) {x : A}
      → ((y : A) → p y ≡ true → key y ≡ k)
      → Distinct key xs
      → find_where p xs ≡ some x
      → All (λ y. p y ≡ true → y ≡ x) xs
  unfolding find_where
  find-only key p k [] h d e = tt
  find-only key p k (y ∷ ys) {x} h (a, d) e = elim (Bool-cases (p y)) [
    | inl u ↦
        let same : y ≡ x = ground arith in
        subst (λ z. All (λ w. p w ≡ true → w ≡ z) (y ∷ ys)) same
          ((λ _. refl), others-differ key p y ys (λ w v. h w v ∙ sym (h y u)) a)
    | inr n ↦ ((λ u. absurd (ground arith)), find-only key p k ys h d (ground arith))
  ]

  -- Among rows with different keys a second condition decides about the row itself.
  pub count-own :
      (key : A → String) (same : A → A → Bool) (r : A → Bool) (xs : List A)
      → ((x y : A) → same x y ≡ true → key y ≡ key x)
      → Distinct key xs
      → All (λ x. 0 < count_where (λ y. same x y && r y) xs → r x ≡ true) xs
  unfolding count_where
  count-own key same r [] h d = tt
  count-own key same r (x ∷ xs) h (a, d) =
      let none_left : count_where (λ y. same x y && r y) xs ≡ 0 =
        zero-count (λ y. same x y && r y) xs
          (All-with xs
            (λ y e. elim (Bool-cases (same x y)) [
              | inl v ↦ absurd (ground (arith, h x y v, ==_refl (key x)))
              | inr n ↦ rw n refl
            ])
            a) in
      (
        (λ c. elim (Bool-cases (r x)) [ inl y ↦ y | inr n ↦ absurd (ground arith) ]),
        All-with xs
            (λ z (e, f) c. elim (Bool-cases (same z x)) [
              | inl v ↦ absurd (ground (arith, h z x v, ==_refl (key x)))
              | inr n ↦ f (ground arith)
            ])
            (All-both _ _ xs a (count-own key same r xs h d)),
      )
