-- ===== src/Router/Order/Rearranged.antt =====
-- `OrderCandidates` of internal/service/router/router.go loses no candidate and adds none.
use gateyes.Common.{
  ℕ, String, Bool, true, false, ◌≡◌, refl, Option, none, some, List, [], ◌∷◌, string_eq, lookup,
  if◌then◌else◌, Map, ℤ, Bool-cases, Option-cases, inl, inr, arith, negsuc,
}
use mathlib.Core.List.{Perm}
use mathlib.Core.List.Perm
use gateyes.Router.{Provider, RouteContext, with_model, physical_model_bypass_candidate}
use gateyes.Router.Rules.{is_empty, apply_rule_engine}
use gateyes.Router.Session.Reorder.{to_front-Perm, pin-Perm}
use gateyes.Router.Prefix.{PrefixAffinity, Texts, pin_prefix, hash_prefix}
use gateyes.Router.Affinity.{
  Affinity, noop, composite, Link, session, prefix, first_candidate_changed, pin_link, pin_chain,
  pin_affinity,
}
use gateyes.Router.Strategies.{
  Signals, Random, less_load, less_known, less_tpm, less_cost, avg_latency, kv_cache_usage,
  gpu_cache_usage,
}
use gateyes.Router.Strategies.Rearrange.{
  IsRandom, slice_stable-Perm, index_to_front-Perm, power_of_two_choices-Perm, random_order-Perm,
}
use gateyes.Router.RoundRobin.{weighted_round_robin, give_credit}
use gateyes.Router.Order.{
  Router, order_by_strategy, apply_affinity, order_eligible, order_candidates,
}

if-Perm :
    (b : Bool) (ps qs rs : List Provider) → Perm ps qs → Perm ps rs → Perm ps (if b then qs else rs)
if-Perm true ps qs rs h k = h
if-Perm false ps qs rs h k = k

Perm-chosen {ℓ} :
    {A : Type ℓ} (b : Bool) (ps : List Provider) (x y : A × List Provider)
    → Perm ps x.1
    → Perm ps y.1
    → Perm ps (if b then x else y).1
Perm-chosen true ps x y h k = h
Perm-chosen false ps x y h k = k

weighted_round_robin-Perm :
    (ps : List Provider) (m : Map String ℤ) → Perm ps (weighted_round_robin ps m).1
unfolding weighted_round_robin
weighted_round_robin-Perm ps m =
    Perm-chosen _ ps _ _ (Perm.refl ps) (index_to_front-Perm (give_credit ps 0 0 (negsuc 0) m).1 ps)

order_by_strategy-Perm :
    (sig : Signals) (rand : Random) (strategy : String) (ps : List Provider) (m : Map String ℤ)
    → IsRandom rand
    → Perm ps (order_by_strategy sig rand strategy ps m).1
unfolding order_by_strategy
order_by_strategy-Perm sig rand strategy ps m (f, s, shuffles) =
    search
      (
        Perm-chosen,
        Perm.refl ps,
        weighted_round_robin-Perm ps m,
        slice_stable-Perm (less_load sig) ps,
        slice_stable-Perm (less_known (avg_latency sig)) ps,
        slice_stable-Perm (less_known (kv_cache_usage sig)) ps,
        slice_stable-Perm (less_known (gpu_cache_usage sig)) ps,
        slice_stable-Perm (less_tpm sig) ps,
        slice_stable-Perm less_cost ps,
        power_of_two_choices-Perm sig rand ps,
        random_order-Perm rand ps shuffles,
      )
      depth 14

-- What `OrderCandidates` may return, by what is left of the candidates and the candidate with the model.
abbrev pub Arranged : Option Provider → List Provider → List Provider → Type 0
Arranged none left ordered = Perm left ordered
Arranged (some p) left ordered = ordered ≡ p ∷ []

no_bypass : (model : String) → physical_model_bypass_candidate [] model ≡ none
unfolding physical_model_bypass_candidate with_model
no_bypass model = ground arith

module _ (texts : Texts) where
  pin_prefix-Perm :
      (now : ℕ) (ps : List Provider) (ctx : RouteContext) (pa : PrefixAffinity)
      → Perm ps (pin_prefix texts now ps ctx pa)
  unfolding pin_prefix
  pin_prefix-Perm now ps ctx pa =
      elim (Option-cases (lookup (hash_prefix texts pa.prefix_depth ctx.input_text) pa.items)) [
        | inl n ↦ rw (n, pin_prefix) (if-Perm _ ps _ _ (Perm.refl ps) (Perm.refl ps))
        | inr (en, n) ↦
            rw (n, pin_prefix)
              (if-Perm _ ps _ _ (Perm.refl ps)
                (if-Perm _ ps _ _ (Perm.refl ps) (to_front-Perm en.provider_name ps)))
      ]

  pin_link-Perm :
      (now : ℕ) (ps : List Provider) (ctx : RouteContext) (a : Link)
      → Perm ps (pin_link texts now ps ctx a).1
  unfolding pin_link
  pin_link-Perm now ps ctx (session s) = pin-Perm texts.sum32 now ps ctx s
  pin_link-Perm now ps ctx (prefix pa) = pin_prefix-Perm now ps ctx pa

  pin_chain-Perm :
      (now : ℕ) (ps : List Provider) (ctx : RouteContext) (chain : List Link)
      → Perm ps (pin_chain texts now ps ctx chain).1
  unfolding pin_chain
  pin_chain-Perm now ps ctx [] = Perm.refl ps
  pin_chain-Perm now ps ctx (a ∷ chain) =
      elim (Bool-cases (first_candidate_changed ps (pin_link texts now ps ctx a).1)) [
        | inl y ↦ rw (y, pin_chain) (pin_link-Perm now ps ctx a)
        | inr n ↦ rw (n, pin_chain) (pin_chain-Perm now ps ctx chain)
      ]

  pub pin_affinity-Perm :
      (now : ℕ) (ps : List Provider) (ctx : RouteContext) (a : Affinity)
      → Perm ps (pin_affinity texts now ps ctx a).1
  unfolding pin_affinity
  pin_affinity-Perm now ps ctx noop = Perm.refl ps
  pin_affinity-Perm now ps ctx (composite chain) =
      Perm-chosen _ ps _ _ (Perm.refl ps) (pin_chain-Perm now ps ctx chain)

  apply_affinity-Perm :
      (now : ℕ) (ps : List Provider) (ctx : RouteContext) (r : Router)
      → Perm ps (apply_affinity texts now ps ctx r).1
  unfolding apply_affinity
  apply_affinity-Perm now ps ctx r =
      let pinned = pin_affinity-Perm now ps ctx r.affinity in
      let qs = (pin_affinity texts now ps ctx r.affinity).1 in
      let by_session = Perm.trans pinned (pin-Perm texts.sum32 now qs ctx r.profile_session) in
      let by_prefix = Perm.trans pinned (pin_prefix-Perm now qs ctx r.profile_prefix) in
      search (Perm-chosen, Perm.refl ps, pinned, by_session, by_prefix)

  order_eligible-Perm :
      (now : ℕ) (sig : Signals) (rand : Random) (ps : List Provider) (ctx : RouteContext)
      (r : Router)
      → IsRandom rand
      → Perm ps (order_eligible texts now sig rand ps ctx r).1
  unfolding order_eligible
  order_eligible-Perm now sig rand ps ctx r h =
      Perm.trans (apply_affinity-Perm now ps ctx r) (order_by_strategy-Perm sig rand _ _ _ h)

  -- The candidates that the rules leave to a request.
  abbrev pub eligible_for :
      (String → Option (String → Bool)) → List Provider → RouteContext → Router → List Provider
  eligible_for cached_regexp candidates ctx r =
      (apply_rule_engine cached_regexp r.cfg.rule_engine candidates ctx).0

  pub nothing_left :
      (cached_regexp : String → Option (String → Bool)) (candidates : List Provider)
      (ctx : RouteContext) (r : Router)
      → is_empty candidates ≡ true
      → eligible_for cached_regexp candidates ctx r ≡ []
  unfolding apply_rule_engine
  nothing_left cached_regexp [] ctx r h = ground arith
  nothing_left cached_regexp (p ∷ ps) ctx r h = absurd (ground arith)

  -- When `rand` keeps its promises, `OrderCandidates` returns each candidate that the rules leave to the
  -- request as often as it stands among them, and no other, in some order; but when the request names
  -- the model of one of them, the first of these alone.
  pub order_candidates-Arranged :
      (cached_regexp : String → Option (String → Bool)) (now : ℕ) (sig : Signals) (rand : Random)
      (candidates : List Provider) (ctx : RouteContext) (r : Router)
      → IsRandom rand
      → Arranged
          (physical_model_bypass_candidate (eligible_for cached_regexp candidates ctx r) ctx.model)
          (eligible_for cached_regexp candidates ctx r)
          (order_candidates texts cached_regexp now sig rand candidates ctx r).1
  unfolding order_candidates
  order_candidates-Arranged cached_regexp now sig rand candidates ctx r h =
      let left = eligible_for cached_regexp candidates ctx r in
      elim (Bool-cases (is_empty candidates)) [
        | inl y ↦
            rw (y, nothing_left cached_regexp candidates ctx r y, no_bypass ctx.model)
              (Perm.refl [])
        | inr n ↦ elim (Option-cases (physical_model_bypass_candidate left ctx.model)) [
          | inr (p, e) ↦ rw (n, e, order_candidates, Arranged) refl
          | inl e ↦
              rw (n, e, order_candidates, Arranged) (order_eligible-Perm now sig rand left ctx r h)
        ]
      ]
