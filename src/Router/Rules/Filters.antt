-- ===== src/Router/Rules/Filters.antt =====
-- Which candidates the rules of internal/service/router/rule_engine.go leave.
use gateyes.Common.{
  ◌≡◌, refl, String, Bool, true, false, not, ◌&&◌, ◌||◌, Option, List, [], ◌∷◌, ◌++◌, if◌then◌else◌,
  arith, All, inl, inr, ◌⊎◌, ap, sym, ◌∙◌, Map,
}
use gateyes.Router.{Provider, RouteContext}
use gateyes.Router.Rules.{
  RouteAction, RouteRule, RuleEngine, is_empty, contains_string, provider_labels_match,
  filter_providers_by_name, filter_providers_by_labels, filter_providers, match_route_rule,
  apply_rules, apply_rule_engine,
}

unfoldable pub keep : (Provider → Bool) → List Provider → List Provider
keep test [] = []
keep test (p ∷ ps) = let rest = keep test ps in if test p then p ∷ rest else rest

-- The action names the provider, if it names any, and the provider has all labels asked for; an
-- action that asks for nothing lets no provider pass.
abbrev pub eligible : RouteAction → Provider → Bool
eligible action p =
    not (is_empty action.providers && is_empty action.provider_labels)
    && (is_empty action.providers || contains_string action.providers p.name)
    && provider_labels_match p.labels action.provider_labels

keep_none : (ps : List Provider) → keep (λ p. false) ps ≡ []
unfolding keep
keep_none [] = refl
keep_none (p ∷ ps) = keep_none ps

keep_all : (ps : List Provider) → keep (λ p. true) ps ≡ ps
unfolding keep
keep_all [] = refl
keep_all (p ∷ ps) = ap (◌∷◌ p) (keep_all ps)

by_name :
    (ps : List Provider) (names : List String)
    → filter_providers_by_name ps names ≡ keep (λ p. contains_string names p.name) ps
unfolding filter_providers_by_name keep
by_name [] names = refl
by_name (p ∷ ps) names = ground (arith, by_name ps names)

by_labels :
    (ps : List Provider) (a : RouteAction)
    → filter_providers_by_labels ps a.provider_labels
      ≡ keep (λ p. provider_labels_match p.labels a.provider_labels) ps
unfolding filter_providers_by_labels keep
by_labels [] a = refl
by_labels (p ∷ ps) a = ground (arith, by_labels ps a)

keep-keep :
    (f g : Provider → Bool) (ps : List Provider) → keep g (keep f ps) ≡ keep (λ p. f p && g p) ps
unfolding keep
keep-keep f g [] = refl
keep-keep f g (p ∷ ps) = ground (arith, keep-keep f g ps)

filtered :
    (ps : List Provider) (names : List String) (labels : Map String String)
    → filter_providers ps (record { providers = names; provider_labels = labels })
      ≡ keep (eligible (record { providers = names; provider_labels = labels })) ps
unfolding filter_providers provider_labels_match
filtered ps [] [] = sym (keep_none ps)
filtered ps [] (l ∷ ls) = by_labels ps (record { providers = []; provider_labels = l ∷ ls })
filtered ps (n ∷ ns) [] =
    by_name ps (n ∷ ns)
    ∙ sym (keep_all (keep (λ p. contains_string (n ∷ ns) p.name) ps))
    ∙ keep-keep (λ p. contains_string (n ∷ ns) p.name) (λ p. true) ps
filtered ps (n ∷ ns) (l ∷ ls) =
    by_labels (filter_providers_by_name ps (n ∷ ns))
      (record { providers = n ∷ ns; provider_labels = l ∷ ls })
    ∙ ap (keep (λ p. provider_labels_match p.labels (l ∷ ls))) (by_name ps (n ∷ ns))
    ∙ keep-keep (λ p. contains_string (n ∷ ns) p.name)
        (λ p. provider_labels_match p.labels (l ∷ ls)) ps

-- `filterProviders` leaves the candidates that are eligible under the action, in their order: the
-- action must ask for something, and a provider must have one of its names, if it gives names, and
-- all of its labels.
pub filter_providers_lem :
    (candidates : List Provider) (action : RouteAction)
    → filter_providers candidates action ≡ keep (eligible action) candidates
filter_providers_lem candidates action = filtered candidates action.providers action.provider_labels

empty_candidates : (rules : List RouteRule) → (is_empty rules || true) ≡ true
empty_candidates [] = refl
empty_candidates (r ∷ rules) = refl

not_empty :
    (before : List RouteRule) (rule : RouteRule) (after : List RouteRule)
    → is_empty (before ++ rule ∷ after) ≡ false
not_empty [] rule after = refl
not_empty (r ∷ before) rule after = refl

module _ (cached_regexp : String → Option (String → Bool)) where
  apply_rules-first :
      (before : List RouteRule) (rule : RouteRule) (after : List RouteRule)
      (candidates : List Provider) (ctx : RouteContext)
      → All (λ r. match_route_rule cached_regexp r.match_config ctx ≡ false) before
      → match_route_rule cached_regexp rule.match_config ctx ≡ true
      → (apply_rules cached_regexp (before ++ rule ∷ after) candidates ctx).0
        ≡ filter_providers candidates rule.action
  unfolding apply_rules
  apply_rules-first [] rule after candidates ctx _ h = rw h refl
  apply_rules-first (r ∷ before) rule after candidates ctx (n, ns) h =
      rw n (apply_rules-first before rule after candidates ctx ns h)

  apply_rules-none :
      (rules : List RouteRule) (candidates : List Provider) (ctx : RouteContext)
      → All (λ r. match_route_rule cached_regexp r.match_config ctx ≡ false) rules
      → (apply_rules cached_regexp rules candidates ctx).0 ≡ candidates
  unfolding apply_rules
  apply_rules-none [] candidates ctx _ = refl
  apply_rules-none (r ∷ rules) candidates ctx (n, ns) =
      rw n (apply_rules-none rules candidates ctx ns)

  -- With the engine enabled, the first rule that matches decides alone: it leaves the candidates that
  -- are eligible under its action, whatever rules follow.
  pub apply_rule_engine-first :
      (before : List RouteRule) (rule : RouteRule) (after : List RouteRule)
      (candidates : List Provider) (ctx : RouteContext)
      → All (λ r. match_route_rule cached_regexp r.match_config ctx ≡ false) before
      → match_route_rule cached_regexp rule.match_config ctx ≡ true
      → (apply_rule_engine cached_regexp
          (record { enabled = true; rules = before ++ rule ∷ after })
          candidates
          ctx).0
        ≡ keep (eligible rule.action) candidates
  unfolding apply_rule_engine keep
  apply_rule_engine-first before rule after [] ctx ns h =
      rw (empty_candidates (before ++ rule ∷ after)) refl
  apply_rule_engine-first before rule after (p ∷ ps) ctx ns h = rw (not_empty before rule after) (
      apply_rules-first before rule after (p ∷ ps) ctx ns h
      ∙ filter_providers_lem (p ∷ ps) rule.action)

  -- Without a matching rule, or with the engine disabled, every candidate stays.
  pub apply_rule_engine-none :
      (engine : RuleEngine) (candidates : List Provider) (ctx : RouteContext)
      → (engine.enabled ≡ false)
        ⊎ All (λ r. match_route_rule cached_regexp r.match_config ctx ≡ false) engine.rules
      → (apply_rule_engine cached_regexp engine candidates ctx).0 ≡ candidates
  unfolding apply_rule_engine
  apply_rule_engine-none engine candidates ctx (inl d) = rw d refl
  apply_rule_engine-none engine candidates ctx (inr ns) =
      ground (arith, apply_rules-none engine.rules candidates ctx ns)
