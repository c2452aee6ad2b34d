-- ===== src/Router/Explain/Agreement.antt =====
-- `ExplainOrderCandidates` of internal/service/router/router.go explains what `OrderCandidates` does.
use gateyes.Common.{ℕ, ◌≡◌, refl, String, Bool, Option, List, Bool-cases, Option-cases, inl, inr}
use gateyes.Router.{Provider, RouteContext, physical_model_bypass_candidate}
use gateyes.Router.Rules.{is_empty, provider_name_list}
use gateyes.Router.Prefix.{Texts}
use gateyes.Router.Strategies.{Signals, Random}
use gateyes.Router.Order.{Router, order_eligible, order_candidates}
use gateyes.Router.Order.Rearranged.{eligible_for, nothing_left}
use gateyes.Router.Explain.{first_trace, explain_eligible, explain_order_candidates}

-- `ExplainOrderCandidates` leaves the router as `OrderCandidates` does and returns the candidates in
-- the same order; its trace names them in this order, and names those that the rules let through.
pub explain_order_candidates-order_candidates :
    (texts : Texts) (cached_regexp : String → Option (String → Bool)) (now : ℕ) (sig : Signals)
    (rand : Random) (candidates : List Provider) (ctx : RouteContext) (r : Router)
    → let (r', ordered, trace) =
        explain_order_candidates texts cached_regexp now sig rand candidates ctx r in
      ((r', ordered) ≡ order_candidates texts cached_regexp now sig rand candidates ctx r)
      × (trace.ordered ≡ provider_name_list ordered)
      × (trace.after_rule ≡ provider_name_list (eligible_for texts cached_regexp candidates ctx r))
unfolding explain_order_candidates explain_eligible first_trace order_candidates order_eligible
    provider_name_list
explain_order_candidates-order_candidates texts cached_regexp now sig rand candidates ctx r =
    let left = eligible_for texts cached_regexp candidates ctx r in
    elim (Bool-cases (is_empty candidates)) [
      | inl y ↦ rw (y, nothing_left texts cached_regexp candidates ctx r y) (refl, refl, refl)
      | inr n ↦ elim (Option-cases (physical_model_bypass_candidate left ctx.model)) [
        | inr (p, e) ↦ rw (n, e, explain_order_candidates, order_candidates) (refl, refl, refl)
        | inl e ↦ rw (n, e, explain_order_candidates, order_candidates) (refl, refl, refl)
      ]
    ]
