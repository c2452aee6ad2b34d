-- ===== src/Router/Session/Sticky.antt =====
-- A session keeps its provider, in internal/service/router/session_affinity.go.
use gateyes.Common.{
  ℕ, ◌+◌, ◌%◌, ◌<◌, ◌≤◌, ◌≡◌, ◌≢◌, refl, String, Bool, true, false, ◌||◌, Option, none, some, List,
  [], ◌∷◌, length, ltb, leb, ◌==◌, string_eq, Map, lookup, delete, arith, lookup-insert,
  lookup-insert_self, lookup-insert_ne, lookup-delete_ne, Bool-cases, Option-cases, inl, inr, sym,
  ap, ◌∙◌, All, subst, ==→≡, ==_refl,
}
use gateyes.Router.{Provider, RouteContext, weight_of, total_weight}
use gateyes.Router.Session.{
  SessionEntry, SessionAffinity, outdated, cleanup, pick_weighted, take_out, to_front, pick_by_hash,
  swept, new_entry, entry_for, pin, promote,
}

abbrev pub has_name : String → List Provider → Bool
has_name n [] = false
has_name n (p ∷ ps) = p.name == n || has_name n ps

abbrev pub first_name : List Provider → Option String
first_name [] = none
first_name (p ∷ ps) = some p.name

lookup-cleanup :
    (ttl now : ℕ) (k : String) (m : Map String SessionEntry) (e : SessionEntry)
    → lookup k m ≡ some e
    → outdated ttl now e ≡ false
    → lookup k (cleanup ttl now m) ≡ some e
unfolding lookup cleanup
lookup-cleanup ttl now k [] e h d = ground arith
lookup-cleanup ttl now k ((j, f) ∷ m) e h d = ground (arith, lookup-cleanup ttl now k m e)

lookup-swept :
    (now : ℕ) (k : String) (s : SessionAffinity) (e : SessionEntry)
    → lookup k s.sessions ≡ some e
    → outdated s.ttl now e ≡ false
    → lookup k (swept now s) ≡ some e
unfolding swept
lookup-swept now k s e h d = ground (arith, lookup-cleanup s.ttl now k s.sessions e h d)

has_name-take_out :
    (n : String) (ps : List Provider)
    → has_name n ps ≡ true
    → ((p : Provider) × (rest : List Provider) × (take_out n ps ≡ some (p, rest)) × (p.name ≡ n))
unfolding take_out
has_name-take_out n [] h = absurd (ground arith)
has_name-take_out n (p ∷ ps) h = elim (Bool-cases (p.name == n)) [
  | inl e ↦ (p, ps, rw e refl, ==→≡ p.name n e)
  | inr e ↦
      let (q, rest, t, m) = has_name-take_out n ps (ground (arith, e, h)) in
      (q, p ∷ rest, rw (e, t) refl, m)
]

first_name-to_front :
    (n : String) (ps : List Provider) → has_name n ps ≡ true → first_name (to_front n ps) ≡ some n
unfolding to_front
first_name-to_front n ps h =
    let (q, rest, t, m) = has_name-take_out n ps h in rw (t, first_name) (ap some m)

module _ (sum32 : String → ℕ) where
  absent :
      (ttl now : ℕ) (ps : List Provider) (j k : String) (e : SessionEntry)
      (m : Map String SessionEntry)
      → j ≢ k
      → lookup k m ≡ some e
      → lookup k (entry_for sum32 ttl now ps j m).0 ≡ some e
  unfolding entry_for
  absent ttl now ps j k e m ne h = elim (Option-cases (lookup j m)) [
    | inl n ↦ rw (n, entry_for) (lookup-insert_ne j k (new_entry sum32 now ps j) m ne ∙ h)
    | inr (f, q) ↦ elim (Bool-cases (outdated ttl now f)) [
      | inl o ↦
          rw (q, o, entry_for)
            (lookup-insert_ne j k (new_entry sum32 now ps j) (delete j m) ne
              ∙ lookup-delete_ne j k m ne
              ∙ h)
      | inr o ↦ rw (q, o, entry_for) h
    ]
  ]

  lookup-entry_for :
      (ttl now : ℕ) (ps : List Provider) (j k : String) (e : SessionEntry)
      (m : Map String SessionEntry)
      → lookup k m ≡ some e
      → outdated ttl now e ≡ false
      → lookup k (entry_for sum32 ttl now ps j m).0 ≡ some e
  unfolding entry_for
  lookup-entry_for ttl now ps j k e m h d = elim (Bool-cases (j == k)) [
    | inl same ↦
        let found : lookup j m ≡ some e =
          subst (λ i. lookup i m ≡ some e) (sym (==→≡ j k same)) h in
        rw (found, d, entry_for) h
    | inr other ↦ absent ttl now ps j k e m (λ q. ground (arith, other, ==_refl k)) h
  ]

  lookup-entry_for_self :
      (ttl now : ℕ) (ps : List Provider) (k : String) (m : Map String SessionEntry)
      → lookup k (entry_for sum32 ttl now ps k m).0 ≡ some (entry_for sum32 ttl now ps k m).1
  unfolding entry_for
  lookup-entry_for_self ttl now ps k m = elim (Option-cases (lookup k m)) [
    | inl n ↦ rw (n, entry_for) (lookup-insert_self k (new_entry sum32 now ps k) m)
    | inr (f, q) ↦ elim (Bool-cases (outdated ttl now f)) [
      | inl o ↦ rw (q, o, entry_for) (lookup-insert_self k (new_entry sum32 now ps k) (delete k m))
      | inr o ↦ rw (q, o, entry_for) q
    ]
  ]

  -- A call for a session, at a time: of `Pin`, or of `Promote`.
  pub data Call : Type 0 where
    pins : ℕ → List Provider → RouteContext → Call
    promotes : ℕ → RouteContext → String → Call

  unfoldable pub run : List Call → SessionAffinity → SessionAffinity
  run [] s = s
  run (pins now ps ctx ∷ cs) s = run cs (pin sum32 now ps ctx s).0
  run (promotes now ctx name ∷ cs) s = run cs (promote now ctx name s)

  -- The call leaves the session's entry alone: it comes before the entry is outdated, and does not
  -- promote another provider for the session.
  abbrev pub Spares : ℕ → String → SessionEntry → Call → Type 0
  Spares ttl k e (pins now ps ctx) = outdated ttl now e ≡ false
  Spares ttl k e (promotes now ctx name) = (ctx.session_id == k) ≡ false

  lookup-pin :
      (now : ℕ) (ps : List Provider) (ctx : RouteContext) (k : String) (e : SessionEntry)
      (s : SessionAffinity)
      → lookup k s.sessions ≡ some e
      → outdated s.ttl now e ≡ false
      → (lookup k (pin sum32 now ps ctx s).0.sessions ≡ some e)
        × ((pin sum32 now ps ctx s).0.ttl ≡ s.ttl)
  unfolding pin
  lookup-pin now ps ctx k e s h d = ground (
    arith,
    h,
    lookup-entry_for s.ttl now ps ctx.session_id k e (swept now s) (lookup-swept now k s e h d) d,
  )

  lookup-promote :
      (now : ℕ) (ctx : RouteContext) (name k : String) (e : SessionEntry) (s : SessionAffinity)
      → lookup k s.sessions ≡ some e
      → (ctx.session_id == k) ≡ false
      → (lookup k (promote now ctx name s).sessions ≡ some e)
        × ((promote now ctx name s).ttl ≡ s.ttl)
  unfolding promote
  lookup-promote now ctx name k e s h d = ground (
    arith,
    h,
    lookup-insert ctx.session_id k (record { provider_name = name; created_at = now }) s.sessions,
  )

  lookup-run :
      (cs : List Call) (k : String) (e : SessionEntry) (s : SessionAffinity)
      → lookup k s.sessions ≡ some e
      → All (Spares s.ttl k e) cs
      → (lookup k (run cs s).sessions ≡ some e) × ((run cs s).ttl ≡ s.ttl)
  unfolding run
  lookup-run [] k e s h _ = (h, refl)
  lookup-run (pins now ps ctx ∷ cs) k e s h (d, ds) =
      let (h', t) = lookup-pin now ps ctx k e s h d in
      let (h2, t2) =
        lookup-run cs k e (pin sum32 now ps ctx s).0 h'
          (subst (λ u. All (Spares u k e) cs) (sym t) ds) in
      (h2, t2 ∙ t)
  lookup-run (promotes now ctx name ∷ cs) k e s h (d, ds) =
      let (h', t) = lookup-promote now ctx name k e s h d in
      let (h2, t2) =
        lookup-run cs k e (promote now ctx name s) h'
          (subst (λ u. All (Spares u k e) cs) (sym t) ds) in
      (h2, t2 ∙ t)

  pin-found :
      (now : ℕ) (ps : List Provider) (ctx : RouteContext) (e : SessionEntry) (s : SessionAffinity)
      → lookup ctx.session_id s.sessions ≡ some e
      → (leb (length ps) 1 || ctx.session_id == "") ≡ false
      → outdated s.ttl now e ≡ false
      → (pin sum32 now ps ctx s).1 ≡ to_front e.provider_name ps
  unfolding pin entry_for
  pin-found now ps ctx e s h several d =
      ground (arith, several, d, lookup-swept now ctx.session_id s e h d)

  -- Once a session has an entry, and whatever calls follow, `Pin` for the session among several
  -- candidates puts the entry's provider first, if it is one of them: as long as every `Pin` comes
  -- before the entry is outdated (at no time, if the ttl is 0), and no `Promote` is for this session.
  pub pin-run :
      (later : ℕ) (qs : List Provider) (ctx : RouteContext) (e : SessionEntry) (s : SessionAffinity)
      (cs : List Call)
      → lookup ctx.session_id s.sessions ≡ some e
      → All (Spares s.ttl ctx.session_id e) cs
      → (leb (length qs) 1 || ctx.session_id == "") ≡ false
      → outdated s.ttl later e ≡ false
      → has_name e.provider_name qs ≡ true
      → first_name (pin sum32 later qs ctx (run cs s)).1 ≡ some e.provider_name
  pin-run later qs ctx e s cs h spared several current member =
      let (h', t) = lookup-run cs ctx.session_id e s h spared in
      ap first_name (
        pin-found later qs ctx e (run cs s) h' several
          (subst (λ u. outdated u later e ≡ false) (sym t) current))
      ∙ first_name-to_front e.provider_name qs member

  -- `Pin` for a session among several candidates leaves an entry for the session, and puts the
  -- entry's provider first, if it is one of them.
  pub pin-entry :
      (now : ℕ) (ps : List Provider) (ctx : RouteContext) (s : SessionAffinity)
      → (leb (length ps) 1 || ctx.session_id == "") ≡ false
      → (e : SessionEntry) × (lookup ctx.session_id (pin sum32 now ps ctx s).0.sessions ≡ some e)
        × ((pin sum32 now ps ctx s).1 ≡ to_front e.provider_name ps)
  unfolding pin
  pin-entry now ps ctx s several = rw several (
    (entry_for sum32 s.ttl now ps ctx.session_id (swept now s)).1,
    lookup-entry_for_self s.ttl now ps ctx.session_id (swept now s),
    refl,
  )

pick_weighted-has_name :
    (pick cum : ℕ) (ps : List Provider)
    → cum ≤ pick
    → pick < cum + total_weight ps
    → (n : String) × (pick_weighted pick cum ps ≡ some n) × (has_name n ps ≡ true)
unfolding pick_weighted total_weight
pick_weighted-has_name pick cum [] l m = absurd (omega arith)
pick_weighted-has_name pick cum (p ∷ ps) l m = elim (Bool-cases (ltb pick (cum + weight_of p))) [
  | inl h ↦ (p.name, rw h refl, ground (arith, ==_refl p.name))
  | inr h ↦
      let (n, e, i) =
        pick_weighted-has_name pick (cum + weight_of p) ps (ground arith) (omega arith) in
      (n, rw (h, e) refl, ground (arith, i))
]

pub weight_of-positive : (p : Provider) → 0 < weight_of p
unfolding weight_of
weight_of-positive p = ground arith

total_weight-positive : (p : Provider) (ps : List Provider) → 0 < total_weight (p ∷ ps)
unfolding total_weight
total_weight-positive p ps = omega (arith, weight_of-positive p)

-- Of candidates, `pickByHash` picks one by its weight, whatever the weights and the hash are: the
-- choice without weights, after the loop, is never reached.
pub pick_by_hash-has_name :
    (sum32 : String → ℕ) (p : Provider) (ps : List Provider) (key : String)
    → (has_name (pick_by_hash sum32 (p ∷ ps) key) (p ∷ ps) ≡ true)
      × (pick_weighted (sum32 key % total_weight (p ∷ ps)) 0 (p ∷ ps)
          ≡ some (pick_by_hash sum32 (p ∷ ps) key))
unfolding pick_by_hash
pick_by_hash-has_name sum32 p ps key =
    let w = total_weight-positive p ps in
    let (n, e, i) =
      pick_weighted-has_name (sum32 key % total_weight (p ∷ ps)) 0 (p ∷ ps) (omega arith)
        (omega arith) in
    ground (arith, w, e, i)
