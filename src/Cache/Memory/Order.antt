-- ===== src/Cache/Memory/Order.antt =====
-- The list of internal/service/cache/memory_cache.go: what its helpers leave.
use gateyes.Common.{
  ℕ, zero, suc, ◌+◌, ◌-◌, ◌≤◌, ◌<◌, ◌≡◌, ◌≢◌, refl, sym, ap, ◌∙◌, String, Option, none, some, List,
  [], ◌∷◌, arith, ltb, ◌==◌, ==→≡, string_eq, length, take, Bool-cases, inl, inr,
}
use gateyes.Cache.Memory.{MemEntry, find, remove, drop_back, evict}

module _ {ℓ} {V : Type ℓ} where
  -- No two entries have the same key.
  abbrev pub AreDistinct : List (MemEntry V) → Type ℓ
  AreDistinct [] = Unit
  AreDistinct (e ∷ l) = (find e.key l ≡ none) × AreDistinct l

  pub find-key :
      (k : String) (l : List (MemEntry V)) (e : MemEntry V) → find k l ≡ some e → e.key ≡ k
  unfolding find
  find-key k [] f h = cc
  find-key k (e ∷ l) f h = ground (arith, ==→≡ e.key k, find-key k l f)

  pub find-remove_ne :
      (k j : String) (l : List (MemEntry V)) → k ≢ j → find j (remove k l) ≡ find j l
  unfolding find remove
  find-remove_ne k j [] h = refl
  find-remove_ne k j (e ∷ l) h = ground (arith, ==→≡ e.key k, ==→≡ e.key j, find-remove_ne k j l h)

  pub find-remove_self :
      (k : String) (l : List (MemEntry V)) → AreDistinct l → find k (remove k l) ≡ none
  unfolding find remove
  find-remove_self k [] d = refl
  find-remove_self k (e ∷ l) d = ground (arith, ==→≡ e.key k, find-remove_self k l d.1)

  pub find-remove-none :
      (k j : String) (l : List (MemEntry V)) → find j l ≡ none → find j (remove k l) ≡ none
  unfolding find remove
  find-remove-none k j [] h = refl
  find-remove-none k j (e ∷ l) h = ground (arith, find-remove-none k j l)

  pub remove-AreDistinct :
      (k : String) (l : List (MemEntry V)) → AreDistinct l → AreDistinct (remove k l)
  unfolding remove
  remove-AreDistinct k [] d = tt
  remove-AreDistinct k (e ∷ l) d = elim (Bool-cases (e.key == k)) [
    | inl here ↦ rw here (d.1)
    | inr away ↦ rw away (find-remove-none k e.key l d.0, remove-AreDistinct k l d.1)
  ]

  pub length-remove-le : (k : String) (l : List (MemEntry V)) → length (remove k l) ≤ length l
  unfolding remove
  length-remove-le k [] = omega arith
  length-remove-le k (e ∷ l) = ground (arith, length-remove-le k l)

  pub length-remove :
      (k : String) (l : List (MemEntry V)) (e : MemEntry V)
      → find k l ≡ some e
      → length (remove k l) + 1 ≡ length l
  unfolding find remove
  length-remove k [] f h = cc
  length-remove k (e ∷ l) f h = ground (arith, length-remove k l f)

  length-drop_back : (l : List (MemEntry V)) → length (drop_back l) ≡ length l - 1
  unfolding drop_back
  length-drop_back [] = omega arith
  length-drop_back (e ∷ []) = omega arith
  length-drop_back (e ∷ f ∷ l) = omega (arith, length-drop_back (f ∷ l))

  take-drop_back : (n : ℕ) (l : List (MemEntry V)) → n < length l → take n (drop_back l) ≡ take n l
  unfolding drop_back
  take-drop_back n [] h = absurd (omega arith)
  take-drop_back zero (e ∷ []) h = refl
  take-drop_back (suc n) (e ∷ []) h = absurd (omega arith)
  take-drop_back zero (e ∷ f ∷ l) h = refl
  take-drop_back (suc n) (e ∷ f ∷ l) h = ap (◌∷◌ e) (take-drop_back n (f ∷ l) (omega arith))

  pub take_of_length-le : (n : ℕ) (l : List (MemEntry V)) → length l ≤ n → take n l ≡ l
  take_of_length-le zero [] h = refl
  take_of_length-le zero (e ∷ l) h = absurd (omega arith)
  take_of_length-le (suc n) [] h = refl
  take_of_length-le (suc n) (e ∷ l) h = ap (◌∷◌ e) (take_of_length-le n l (omega arith))

  pub length-take-le : (n : ℕ) (l : List (MemEntry V)) → length (take n l) ≤ n
  length-take-le zero l = omega arith
  length-take-le (suc n) [] = omega arith
  length-take-le (suc n) (e ∷ l) = omega (arith, length-take-le n l)

  -- The loop of `Set` ends within as many rounds as there are entries, with the entries in front.
  pub evict-take :
      (rounds capacity : ℕ) (l : List (MemEntry V))
      → length l ≤ rounds
      → evict rounds capacity l ≡ take capacity l
  unfolding evict
  evict-take zero capacity l h = sym (take_of_length-le capacity l (omega arith))
  evict-take (suc rounds) capacity l h = elim (Bool-cases (ltb capacity (length l))) [
    | inl over ↦ rw over (
        evict-take rounds capacity (drop_back l) (omega (arith, length-drop_back l))
        ∙ take-drop_back capacity l (ground arith))
    | inr fits ↦ rw fits (sym (take_of_length-le capacity l (ground arith)))
  ]

  pub find-take-none :
      (n : ℕ) (k : String) (l : List (MemEntry V)) → find k l ≡ none → find k (take n l) ≡ none
  unfolding find
  find-take-none zero k l h = refl
  find-take-none (suc n) k [] h = refl
  find-take-none (suc n) k (e ∷ l) h = ground (arith, find-take-none n k l)

  pub take-AreDistinct : (n : ℕ) (l : List (MemEntry V)) → AreDistinct l → AreDistinct (take n l)
  take-AreDistinct zero l d = tt
  take-AreDistinct (suc n) [] d = tt
  take-AreDistinct (suc n) (e ∷ l) d = (find-take-none n e.key l d.0, take-AreDistinct n l d.1)

  -- The key of the entry that was used least recently.
  unfoldable pub back_key : List (MemEntry V) → Option String
  back_key [] = none
  back_key (e ∷ []) = some e.key
  back_key (e ∷ f ∷ l) = back_key (f ∷ l)

  -- To drop the last entry hides its key alone.
  pub find-take_back :
      (n : ℕ) (j : String) (l : List (MemEntry V))
      → length l ≡ suc n
      → back_key l ≢ some j
      → find j (take n l) ≡ find j l
  unfolding find back_key
  find-take_back n j [] h b = absurd (omega arith)
  find-take_back zero j (e ∷ []) h b = ground (arith, ==→≡ e.key j)
  find-take_back zero j (e ∷ f ∷ l) h b = absurd (omega arith)
  find-take_back (suc n) j (e ∷ []) h b = absurd (omega arith)
  find-take_back (suc n) j (e ∷ f ∷ l) h b =
      ground (arith, find-take_back n j (f ∷ l) (omega arith) b)
