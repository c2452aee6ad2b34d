-- ===== src/Router/Session.antt =====
-- internal/service/router/session_affinity.go: a session stays with the provider it was given. The
-- hash of the standard library is a parameter. Times are nanoseconds of the process's clock.
pub mod Sticky
pub mod Reorder
use gateyes.Common.{
  ℕ, zero, suc, ◌+◌, ◌-◌, ◌%◌, String, Bool, true, false, ◌&&◌, ◌||◌, Option, none, some, List, [],
  ◌∷◌, length, ltb, leb, ◌==◌, string_eq, if◌then◌else◌, Map, lookup, insert, delete,
}
use gateyes.Router.{Provider, RouteContext, weight_of, total_weight}

pub record SessionEntry : Type 0 where
  pub provider_name : String
  pub created_at : ℕ

pub record SessionAffinity : Type 0 where
  pub sessions : Map String SessionEntry
  pub ttl : ℕ

unfoldable pub new_session_affinity : ℕ → SessionAffinity
new_session_affinity ttl = record { sessions = []; ttl = ttl }

-- `s.ttl > 0 && time.Since(entry.createdAt) > s.ttl`.
unfoldable pub outdated : ℕ → ℕ → SessionEntry → Bool
outdated ttl now e = ltb 0 ttl && ltb ttl (now - e.created_at)

-- `cleanupLocked`; with a ttl of zero nothing is outdated.
unfoldable pub cleanup : ℕ → ℕ → Map String SessionEntry → Map String SessionEntry
cleanup ttl now [] = []
cleanup ttl now ((k, e) ∷ m) =
    let rest = cleanup ttl now m in if outdated ttl now e then rest else (k, e) ∷ rest

-- `if len(s.sessions) > 10000 { s.cleanupLocked() }`.
unfoldable pub swept : ℕ → SessionAffinity → Map String SessionEntry
swept now s = if ltb 10000 (length s.sessions) then cleanup s.ttl now s.sessions else s.sessions

-- The loop with `cum`: the first provider at which the sum of the weights exceeds the pick.
unfoldable pub pick_weighted : ℕ → ℕ → List Provider → Option String
pick_weighted pick cum [] = none
pick_weighted pick cum (p ∷ ps) =
    if ltb pick (cum + weight_of p) then some p.name else pick_weighted pick (cum + weight_of p) ps

-- `candidates[i].Name()`; Go panics beyond the end, where this is the empty text.
unfoldable pub name_at : ℕ → List Provider → String
name_at i [] = ""
name_at zero (p ∷ ps) = p.name
name_at (suc i) (p ∷ ps) = name_at i ps

-- `candidates[:i]` and `candidates[i+1:]` around the first provider with the name.
unfoldable pub take_out : String → List Provider → Option (Provider × List Provider)
take_out name [] = none
take_out name (p ∷ ps) =
    let rest = take_out name ps in
    if p.name == name
    then some (p, ps)
    else elim rest [ none ↦ none | some (q, qs) ↦ some (q, p ∷ qs) ]

unfoldable pub to_front : String → List Provider → List Provider
to_front name candidates = elim (take_out name candidates) [
  | none ↦ candidates
  | some (p, ps) ↦ p ∷ ps
]

module _ (sum32 : String → ℕ) where
  unfoldable pub pick_by_hash : List Provider → String → String
  pick_by_hash candidates key =
      let fallback = name_at (sum32 key % length candidates) candidates in
      if ltb 0 (total_weight candidates)
      then elim (pick_weighted (sum32 key % total_weight candidates) 0 candidates) [
        | none ↦ fallback
        | some name ↦ name
      ]
      else fallback

  abbrev pub new_entry : ℕ → List Provider → String → SessionEntry
  new_entry now candidates session = record {
    provider_name = pick_by_hash candidates session;
    created_at = now;
  }

  -- The session's entry: the one that is there and not outdated, or a new one, which is stored.
  unfoldable pub entry_for :
      ℕ
      → ℕ
      → List Provider
      → String
      → Map String SessionEntry
      → Map String SessionEntry × SessionEntry
  entry_for ttl now candidates session m =
      let fresh = new_entry now candidates session in
      elim (lookup session m) [
        | none ↦ (insert session fresh m, fresh)
        | some e ↦
            if outdated ttl now e then (insert session fresh (delete session m), fresh) else (m, e)
      ]

  unfoldable pub pin :
      ℕ → List Provider → RouteContext → SessionAffinity → SessionAffinity × List Provider
  pin now candidates ctx s =
      if leb (length candidates) 1 || ctx.session_id == ""
      then (s, candidates)
      else (let (m, e) = entry_for s.ttl now candidates ctx.session_id (swept now s) in
          (record s { sessions = m }, to_front e.provider_name candidates))

unfoldable pub promote : ℕ → RouteContext → String → SessionAffinity → SessionAffinity
promote now ctx provider_name s = if ctx.session_id == "" then s else record s {
  sessions =
      insert ctx.session_id (record { provider_name = provider_name; created_at = now }) s.sessions;
}
