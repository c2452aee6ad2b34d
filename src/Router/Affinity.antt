-- ===== src/Router/Affinity.antt =====
-- internal/service/router/affinity.go: several affinities in a row, the first of which that changes who
-- is the first candidate wins; and, of router.go, which of them a configuration asks for.
use gateyes.Common.{
  ℕ, ◌*◌, String, Bool, false, not, ◌&&◌, ◌||◌, List, [], ◌∷◌, ◌++◌, length, leb, ◌==◌, string_eq,
  if◌then◌else◌, ℤ, pos, ltb_ℤ, pos_part,
}
use gateyes.Router.{Provider, RouteContext}
use gateyes.Router.Session.{SessionAffinity, new_session_affinity, pin, promote}
use gateyes.Router.Prefix.{PrefixAffinity, Texts, new_prefix_affinity, pin_prefix, promote_prefix}

-- One affinity of the chain.
pub data Link : Type 0 where
  session : SessionAffinity → Link
  prefix : PrefixAffinity → Link

pub data Affinity : Type 0 where
  noop : Affinity
  composite : List Link → Affinity

-- `before[0].Name() != after[0].Name()`, when neither is empty.
unfoldable pub first_candidate_changed : List Provider → List Provider → Bool
first_candidate_changed [] after = false
first_candidate_changed (p ∷ ps) [] = false
first_candidate_changed (p ∷ ps) (q ∷ qs) = not (p.name == q.name)

module _ (texts : Texts) where
  unfoldable pub pin_link : ℕ → List Provider → RouteContext → Link → Link × List Provider
  pin_link now ps ctx (session s) =
      let (s', pinned) = pin texts.sum32 now ps ctx s in (session s', pinned)
  pin_link now ps ctx (prefix pa) = (prefix pa, pin_prefix texts now ps ctx pa)

  unfoldable pub pin_chain :
      ℕ → List Provider → RouteContext → List Link → List Link × List Provider
  pin_chain now ps ctx [] = ([], ps)
  pin_chain now ps ctx (a ∷ chain) =
      let (a', pinned) = pin_link now ps ctx a in
      let (chain', later) = pin_chain now ps ctx chain in
      if first_candidate_changed ps pinned then (a' ∷ chain, pinned) else (a' ∷ chain', later)

  unfoldable pub pin_affinity :
      ℕ → List Provider → RouteContext → Affinity → Affinity × List Provider
  pin_affinity now ps ctx noop = (noop, ps)
  pin_affinity now ps ctx (composite chain) =
      let (chain', pinned) = pin_chain now ps ctx chain in
      if leb (length chain) 0 || leb (length ps) 1
      then (composite chain, ps)
      else (composite chain', pinned)

  unfoldable pub promote_link : ℕ → RouteContext → String → Link → Link
  promote_link now ctx name (session s) = session (promote now ctx name s)
  promote_link now ctx name (prefix pa) = prefix (promote_prefix texts now ctx name pa)

  unfoldable pub promote_chain : ℕ → RouteContext → String → List Link → List Link
  promote_chain now ctx name [] = []
  promote_chain now ctx name (a ∷ chain) =
      promote_link now ctx name a ∷ promote_chain now ctx name chain

  unfoldable pub promote_affinity_of : ℕ → RouteContext → String → Affinity → Affinity
  promote_affinity_of now ctx name noop = noop
  promote_affinity_of now ctx name (composite chain) = composite (promote_chain now ctx name chain)

-- The affinities of `config.RouterConfig`; the times are in seconds.
pub record AffinityConfig : Type 0 where
  pub enabled : Bool
  pub session_ttl : ℤ
  pub prefix_ttl : ℤ
  pub prefix_depth : ℤ

-- `time.Duration(n) * time.Second`; below zero a time means what zero means.
abbrev pub seconds : ℤ → ℕ
seconds n = pos_part n * 1000000000

unfoldable pub init_affinity : String → AffinityConfig → Affinity → Affinity
init_affinity strategy cfg old =
    let sticky = strategy == "sticky" in
    let first = session (new_session_affinity (seconds cfg.session_ttl)) ∷ [] in
    let second =
      if cfg.enabled && not (ltb_ℤ cfg.prefix_depth (pos 0))
      then prefix (new_prefix_affinity (pos_part cfg.prefix_depth) (seconds cfg.prefix_ttl)) ∷ []
      else [] in
    if not cfg.enabled && not sticky then old else composite (first ++ second)

unfoldable pub profile_session_of : AffinityConfig → SessionAffinity
profile_session_of cfg = new_session_affinity (seconds cfg.session_ttl)

-- `if prefixDepth < 0 { prefixDepth = 0 }`.
unfoldable pub profile_prefix_of : AffinityConfig → PrefixAffinity
profile_prefix_of cfg = new_prefix_affinity (pos_part cfg.prefix_depth) (seconds cfg.prefix_ttl)
