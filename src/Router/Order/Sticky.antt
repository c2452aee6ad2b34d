-- ===== src/Router/Order/Sticky.antt =====
-- A session's provider comes first in what `OrderCandidates` of internal/service/router/router.go returns
-- for a request with the profile "sticky".
use gateyes.Common.{
  ℕ, ◌≡◌, refl, sym, subst, ap, ◌∙◌, String, Bool, true, false, ◌||◌, Option, none, some, List, [],
  ◌∷◌, length, leb, ◌==◌, string_eq, Map, lookup, ℤ, lookup-insert_self, arith, Bool-cases, inl,
  inr, ==→≡,
}
use mathlib.Core.Logic.{∥∥₁_elim}
use mathlib.Core.Bool.{Bool-set}
use mathlib.Core.List.{Perm, Permᴰ}
use gateyes.Router.{Provider, RouteContext, physical_model_bypass_candidate}
use gateyes.Router.Rules.{is_empty, apply_rule_engine}
use gateyes.Router.Session.{SessionEntry, SessionAffinity, outdated, pin, promote}
use gateyes.Router.Session.Sticky.{has_name, first_name, run, pin-run}
use gateyes.Router.Prefix.{Texts}
use gateyes.Router.Affinity.{pin_affinity}
use gateyes.Router.Profile.{normalize_routing_profile, resolve_route_strategy}
use gateyes.Router.Strategies.{Signals, Random}
use gateyes.Router.Order.{
  Router, promote_affinity, order_by_strategy, apply_affinity, order_eligible, order_candidates,
  strategy_after_affinity,
}
use gateyes.Router.Order.Rearranged.{pin_affinity-Perm, eligible_for, nothing_left}

has_name-Permᴰ : (n : String) (ps qs : List Provider) → Permᴰ ps qs → has_name n ps ≡ has_name n qs
has_name-Permᴰ n _ _ Permᴰ.nil = refl
has_name-Permᴰ n _ _ (Permᴰ.cons e d) = rw (e, has_name-Permᴰ n _ _ d) refl
has_name-Permᴰ n _ _ (Permᴰ.swap e f) = rw (e, f) (ground arith)
has_name-Permᴰ n _ _ (Permᴰ.trans d e) = has_name-Permᴰ n _ _ d ∙ has_name-Permᴰ n _ _ e

has_name-Perm : (n : String) (ps qs : List Provider) → Perm ps qs → has_name n ps ≡ has_name n qs
has_name-Perm n ps qs p = ∥∥₁_elim p (Bool-set _ _) (has_name-Permᴰ n ps qs)

length-Permᴰ : (ps qs : List Provider) → Permᴰ ps qs → length ps ≡ length qs
length-Permᴰ _ _ Permᴰ.nil = refl
length-Permᴰ _ _ (Permᴰ.cons e d) = rw (length-Permᴰ _ _ d) refl
length-Permᴰ _ _ (Permᴰ.swap e f) = refl
length-Permᴰ _ _ (Permᴰ.trans d e) = length-Permᴰ _ _ d ∙ length-Permᴰ _ _ e

short-Perm : (ps qs : List Provider) → Perm ps qs → leb (length ps) 1 ≡ leb (length qs) 1
short-Perm ps qs p = ∥∥₁_elim p (Bool-set _ _) (λ d. ap (λ n. leb n 1) (length-Permᴰ ps qs d))

has_name-alone :
    (n : String) (ps : List Provider)
    → leb (length ps) 1 ≡ true
    → has_name n ps ≡ true
    → first_name ps ≡ some n
has_name-alone n [] l h = absurd (ground arith)
has_name-alone n (p ∷ []) l h = ap some (==→≡ p.name n (ground arith))
has_name-alone n (p ∷ q ∷ ps) l h = absurd (ground arith)

order_by_strategy-sticky :
    (sig : Signals) (rand : Random) (ps : List Provider) (m : Map String ℤ)
    → order_by_strategy sig rand "sticky" ps m ≡ (m, ps)
unfolding order_by_strategy
order_by_strategy-sticky sig rand ps m = elim (Bool-cases (leb (length ps) 1)) [
  | inl h ↦ rw h refl
  | inr h ↦ rw h refl
]

module _ (texts : Texts) (ctx : RouteContext)
    (profile : normalize_routing_profile texts.normal ctx.routing_profile ≡ ("sticky", "sticky"))
    (override : ctx.strategy_override ≡ "") where
  strategy_sticky :
      (r : Router) (before after : List Provider)
      → strategy_after_affinity texts r ctx before after ≡ "sticky"
  unfolding strategy_after_affinity resolve_route_strategy
  strategy_sticky r before after = rw (profile, override) refl

  apply_affinity_sticky :
      (now : ℕ) (ps : List Provider) (r : Router)
      → leb (length ps) 1 ≡ false
      → (apply_affinity texts now ps ctx r).1
        ≡ (pin texts.sum32 now (pin_affinity texts now ps ctx r.affinity).1 ctx r.profile_session).1
  unfolding apply_affinity
  apply_affinity_sticky now ps r l = rw (profile, l) refl

  apply_affinity_alone :
      (now : ℕ) (ps : List Provider) (r : Router)
      → leb (length ps) 1 ≡ true
      → (apply_affinity texts now ps ctx r).1 ≡ ps
  unfolding apply_affinity
  apply_affinity_alone now ps r l = rw l refl

  order_eligible_sticky :
      (now : ℕ) (sig : Signals) (rand : Random) (ps : List Provider) (r : Router)
      → (order_eligible texts now sig rand ps ctx r).1 ≡ (apply_affinity texts now ps ctx r).1
  unfolding order_eligible
  order_eligible_sticky now sig rand ps r =
      rw (strategy_sticky r ps (apply_affinity texts now ps ctx r).1)
        (ap (λ (x : Map String ℤ × List Provider). x.1) (order_by_strategy-sticky sig rand _ _))

  eligible-first :
      (now : ℕ) (sig : Signals) (rand : Random) (ps : List Provider) (r : Router) (e : SessionEntry)
      → (ctx.session_id == "") ≡ false
      → lookup ctx.session_id r.profile_session.sessions ≡ some e
      → outdated r.profile_session.ttl now e ≡ false
      → has_name e.provider_name ps ≡ true
      → first_name (order_eligible texts now sig rand ps ctx r).1 ≡ some e.provider_name
  unfolding run
  eligible-first now sig rand ps r e s h d mem =
      rw (order_eligible_sticky now sig rand ps r) (elim (Bool-cases (leb (length ps) 1)) [
        | inl l ↦ rw (apply_affinity_alone now ps r l) (has_name-alone e.provider_name ps l mem)
        | inr l ↦
            let qs = (pin_affinity texts now ps ctx r.affinity).1 in
            let same = pin_affinity-Perm texts now ps ctx r.affinity in
            let several : (leb (length qs) 1 || ctx.session_id == "") ≡ false =
              rw (sym (short-Perm ps qs same), l, s) refl in
            rw (apply_affinity_sticky now ps r l) (
              pin-run texts.sum32 now qs ctx e r.profile_session [] h tt several d
                (sym (has_name-Perm e.provider_name ps qs same) ∙ mem))
      ])

  promoted-session :
      (at : ℕ) (name : String) (r : Router)
      → (promote_affinity texts at ctx name r).profile_session
        ≡ promote at ctx name r.profile_session
  unfolding promote_affinity
  promoted-session at name r = rw profile refl

  promoted-cfg :
      (at : ℕ) (name : String) (r : Router) → (promote_affinity texts at ctx name r).cfg ≡ r.cfg
  unfolding promote_affinity
  promoted-cfg at name r = rw profile refl

  lookup-promote :
      (at : ℕ) (name : String) (s : SessionAffinity)
      → (ctx.session_id == "") ≡ false
      → (lookup ctx.session_id (promote at ctx name s).sessions
          ≡ some (record { provider_name = name; created_at = at }))
        × ((promote at ctx name s).ttl ≡ s.ttl)
  unfolding promote
  lookup-promote at name s h = rw h (lookup-insert_self ctx.session_id _ s.sessions, refl)

  no-candidates :
      (cached_regexp : String → Option (String → Bool)) (candidates : List Provider) (name : String)
      (r : Router)
      → has_name name (eligible_for texts cached_regexp candidates ctx r) ≡ true
      → is_empty candidates ≡ false
  no-candidates cached_regexp candidates name r h = elim (Bool-cases (is_empty candidates)) [
    | inl y ↦ absurd (ground (arith, nothing_left texts cached_regexp candidates ctx r y, h))
    | inr n ↦ n
  ]

  order_candidates_eligible :
      (cached_regexp : String → Option (String → Bool)) (now : ℕ) (sig : Signals) (rand : Random)
      (candidates : List Provider) (r : Router)
      → is_empty candidates ≡ false
      → physical_model_bypass_candidate
          (eligible_for texts cached_regexp candidates ctx r)
          ctx.model
        ≡ none
      → order_candidates texts cached_regexp now sig rand candidates ctx r
        ≡ order_eligible texts now sig rand
            (eligible_for texts cached_regexp candidates ctx r)
            ctx
            r
  unfolding order_candidates
  order_candidates_eligible cached_regexp now sig rand candidates r n b =
      rw (n, b, order_candidates) refl

  -- For a request with the profile "sticky" and no strategy of its own, and with a session: after
  -- `PromoteAffinity` for a provider, `OrderCandidates` puts this provider first, until the entry is
  -- outdated, when the rules leave it to the request and the request does not name a candidate's model.
  pub order_candidates-promote_affinity :
      (cached_regexp : String → Option (String → Bool)) (at now : ℕ) (sig : Signals) (rand : Random)
      (candidates : List Provider) (name : String) (r : Router)
      → (ctx.session_id == "") ≡ false
      → outdated r.profile_session.ttl now (record { provider_name = name; created_at = at })
        ≡ false
      → physical_model_bypass_candidate
          (eligible_for texts cached_regexp candidates ctx r)
          ctx.model
        ≡ none
      → has_name name (eligible_for texts cached_regexp candidates ctx r) ≡ true
      → first_name
          (order_candidates texts cached_regexp now sig rand candidates ctx
            (promote_affinity texts at ctx name r)).1
        ≡ some name
  order_candidates-promote_affinity cached_regexp at now sig rand candidates name r s d b mem =
      let left = eligible_for texts cached_regexp candidates ctx r in
      let r' = promote_affinity texts at ctx name r in
      let (h, t) = lookup-promote at name r.profile_session s in
      let same : eligible_for texts cached_regexp candidates ctx r' ≡ left =
        ap (λ c. (apply_rule_engine cached_regexp c.rule_engine candidates ctx).0)
          (promoted-cfg at name r) in
      let first =
        eligible-first now sig rand left r' (record { provider_name = name; created_at = at }) s
          (rw (promoted-session at name r) h) (rw (promoted-session at name r, t) d) mem in
      let asked =
        order_candidates_eligible cached_regexp now sig rand candidates r'
          (no-candidates cached_regexp candidates name r mem)
          (subst (λ l. physical_model_bypass_candidate l ctx.model ≡ none) (sym same) b) in
      rw asked (
        subst (λ l. first_name (order_eligible texts now sig rand l ctx r').1 ≡ some name)
          (sym same) first)
