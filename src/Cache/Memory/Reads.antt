-- ===== src/Cache/Memory/Reads.antt =====
-- What a `Get` of internal/service/cache/memory_cache.go returns after other calls.
use gateyes.Common.{
  ℕ, zero, suc, ◌+◌, ◌-◌, ◌≤◌, ◌<◌, ◌≡◌, ◌≢◌, sym, ap, ◌∙◌, String, true, ◌&&◌, Option, none, some,
  ◌∷◌, arith, ltb, leb, length, take, if◌then◌else◌, ◌==◌, ==_refl, ==→≡, subst, ==_ne,
  Option-cases, Bool-cases, ◌⊎◌, inl, inr, string_eq,
}
use gateyes.Cache.{Reply, hit, miss}
use gateyes.Cache.Memory.{
  MemEntry, MemoryCache, find, remove, evict, expired, get, expiry, put, set, delete,
}
use gateyes.Cache.Memory.Order.{
  find-key, find-remove_ne, find-remove_self, evict-take, take_of_length-le, back_key,
  find-take_back,
}
use gateyes.Cache.Memory.Valid.{IsValid}

module _ {ℓ} {V : Type ℓ} where
  -- The answer of a `Get` at a time, from the entry that is found.
  abbrev answer : ℕ → Option (MemEntry V) → Reply V
  answer now none = miss
  answer now (some e) = if expired now e then miss else hit e.value

  get-answer :
      (now : ℕ) (k : String) (c : MemoryCache V) → (get none now k c).1 ≡ answer now (find k c.list)
  unfolding get
  get-answer now k c = elim (Option-cases (find k c.list)) [
    | inl e ↦ rw (e, get)
    | inr (x, e) ↦
        rw (e, get)
          (elim (Bool-cases (expired now x)) [ inl late ↦ rw late | inr alive ↦ rw alive ])
  ]

  abbrev stored : ℕ → String → V → ℕ → MemoryCache V → MemEntry V
  stored now k x ttl c = record { key = k; value = x; expires_at = expiry now c.def_ttl ttl }

  -- What `put` leaves: the new entry in front of the others, within the capacity.
  put-list :
      (now : ℕ) (k : String) (x : V) (ttl : ℕ) (c : MemoryCache V)
      → IsValid c
      → ((find k c.list ≢ none)
          × ((put now k x ttl c).list ≡ stored now k x ttl c ∷ remove k c.list))
        ⊎ ((find k c.list ≡ none)
            × ((put now k x ttl c).list ≡ stored now k x ttl c ∷ take (c.capacity - 1) c.list))
  unfolding put
  put-list now k x ttl c v = elim (Option-cases (find k c.list)) [
    | inr (e, found) ↦ inl (rw found (λ q. cc), rw (found, put))
    | inl absent ↦ inr (absent, rw (absent, put) (kept c.capacity v.positive))
  ]
    where
      s : MemEntry V
      s = stored now k x ttl c

      kept : (n : ℕ) → 0 < n → evict (length (s ∷ c.list)) n (s ∷ c.list) ≡ s ∷ take (n - 1) c.list
      kept zero pos = absurd (omega arith)
      kept (suc n) pos =
          evict-take (length (s ∷ c.list)) (suc n) (s ∷ c.list) (omega arith)
          ∙ ap (λ (m : ℕ). s ∷ take m c.list) (omega arith)

  put_self :
      (now : ℕ) (k : String) (x : V) (ttl : ℕ) (c : MemoryCache V)
      → IsValid c
      → find k (put now k x ttl c).list ≡ some (stored now k x ttl c)
  unfolding find
  put_self now k x ttl c v = elim (put-list now k x ttl c v) [
    | inl (found, e) ↦ rw (e, ==_refl k)
    | inr (absent, e) ↦ rw (e, ==_refl k)
  ]

  expired-stored :
      (now later : ℕ) (k : String) (x : V) (ttl : ℕ) (c : MemoryCache V)
      → let chosen = if leb ttl 0 then c.def_ttl else ttl in
        expired later (stored now k x ttl c) ≡ (ltb 0 chosen && ltb (now + chosen) later)
  unfolding expired expiry
  expired-stored now later k x ttl c = ground arith

  -- A `Get` after a `Set` of its key returns the value, until the entry's time, or the default
  -- where none was given, has passed; an entry with neither stays.
  pub get-set :
      (now later : ℕ) (k : String) (x : V) (ttl : ℕ) (c : MemoryCache V)
      → IsValid c
      → let chosen = if leb ttl 0 then c.def_ttl else ttl in
        (get none later k (set none now k (some x) ttl c).0).1
        ≡ (if ltb 0 chosen && ltb (now + chosen) later then miss else hit x)
  unfolding set
  get-set now later k x ttl c v =
      get-answer later k (put now k x ttl c)
      ∙ ap (answer later) (put_self now k x ttl c v)
      ∙ ap (λ b. if b then miss else hit x) (expired-stored now later k x ttl c)

  find-put_ne :
      (now : ℕ) (k j : String) (x : V) (ttl : ℕ) (c : MemoryCache V)
      → IsValid c
      → k ≢ j
      → (find k c.list ≢ none) ⊎ (length c.list < c.capacity) ⊎ (back_key c.list ≢ some j)
      → find j (put now k x ttl c).list ≡ find j c.list
  unfolding find
  find-put_ne now k j x ttl c v other room = elim (put-list now k x ttl c v) [
    | inl (found, e) ↦ rw (e, ==_ne k j other) (find-remove_ne k j c.list other)
    | inr (absent, e) ↦ rw (e, ==_ne k j other) (kept absent)
  ]
    where
      kept : find k c.list ≡ none → find j (take (c.capacity - 1) c.list) ≡ find j c.list
      kept absent = elim (Bool-cases (ltb (length c.list) c.capacity)) [
        | inl free ↦
            ap (find j) (take_of_length-le (c.capacity - 1) c.list (ground (arith, v.positive)))
        | inr full ↦
            find-take_back (c.capacity - 1) j c.list (ground (arith, v.positive, v.bounded))
              (ground arith)
      ]

  -- A `Set` changes no answer of another key, unless it brings a new key into a full cache and the
  -- other key is the one used least recently.
  pub get-set_ne :
      (now later : ℕ) (k j : String) (x : V) (ttl : ℕ) (c : MemoryCache V)
      → IsValid c
      → k ≢ j
      → (find k c.list ≢ none) ⊎ (length c.list < c.capacity) ⊎ (back_key c.list ≢ some j)
      → (get none later j (set none now k (some x) ttl c).0).1 ≡ (get none later j c).1
  unfolding set
  get-set_ne now later k j x ttl c v other room =
      get-answer later j (put now k x ttl c)
      ∙ ap (answer later) (find-put_ne now k j x ttl c v other room)
      ∙ sym (get-answer later j c)

  expired_later :
      (now later : ℕ) (e : MemEntry V) → now ≤ later → expired now e ≡ true → expired later e ≡ true
  unfolding expired
  expired_later now later e h late = ground arith

  get_keeps :
      (now later : ℕ) (k j : String) (c : MemoryCache V)
      → IsValid c
      → now ≤ later
      → answer later (find j (get none now k c).0.list) ≡ answer later (find j c.list)
  unfolding get find
  get_keeps now later k j c v order = elim (Option-cases (find k c.list)) [
    | inl absent ↦ rw (absent, get)
    | inr (e, found) ↦ elim (Bool-cases (k == j)) [
      | inl same ↦
          subst
            (λ i. answer later (find i (get none now k c).0.list) ≡ answer later (find i c.list))
            (==→≡ k j same) (own e found)
      | inr other ↦ others e found (λ q. ground (arith, ==_refl k))
    ]
  ]
    where
      own :
          (e : MemEntry V)
          → find k c.list ≡ some e
          → answer later (find k (get none now k c).0.list) ≡ answer later (find k c.list)
      own e found = elim (Bool-cases (expired now e)) [
        | inl late ↦
            rw (found, get)
              (rw (late, find-remove_self k c.list v.distinct)
                (rw (expired_later now later e order late)))
        | inr alive ↦ rw (found, get) (rw alive (rw (find-key k c.list e found, ==_refl k)))
      ]

      others :
          (e : MemEntry V)
          → find k c.list ≡ some e
          → k ≢ j
          → answer later (find j (get none now k c).0.list) ≡ answer later (find j c.list)
      others e found other = elim (Bool-cases (expired now e)) [
        | inl late ↦ rw (found, get) (rw (late, find-remove_ne k j c.list other))
        | inr alive ↦
            rw (found, get)
              (rw alive
                (rw (find-key k c.list e found, ==_ne k j other, find-remove_ne k j c.list other)))
      ]

  -- A `Get` changes no later answer, of its own key or another.
  pub get-get :
      (now later : ℕ) (k j : String) (c : MemoryCache V)
      → IsValid c
      → now ≤ later
      → (get none later j (get none now k c).0).1 ≡ (get none later j c).1
  get-get now later k j c v order =
      get-answer later j (get none now k c).0
      ∙ get_keeps now later k j c v order
      ∙ sym (get-answer later j c)

  pub get-delete :
      (now : ℕ) (k : String) (c : MemoryCache V)
      → IsValid c
      → (get none now k (delete none k c).0).1 ≡ miss
  unfolding delete
  get-delete now k c v =
      get-answer now k (record c { list = remove k c.list })
      ∙ ap (answer now) (find-remove_self k c.list v.distinct)
