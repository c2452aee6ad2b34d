-- ===== src/Tools/Rules.antt =====
-- What `validateToolOwnership` of internal/service/responses/tool_ownership.go accepts.
use gateyes.Common.{
  ◌≡◌, ◌≢◌, refl, String, Bool, false, none, some, List, [], ◌∷◌, ◌==◌, string_eq, Map, insert,
  lookup, lookup-insert, All, arith, Bool-cases, Option-cases, inl, inr, subst,
}
use gateyes.Tools.{
  ToolOwner, gateway, client, provider, is_gateway, ToolDecision, ToolOwnershipConfig, RawTool,
  Classified, ok, err, classify_tools, then_executable, validate_tool_ownership, first_gateway,
  owners_from, tool_owner_by_name, has_gateway_owned_tool,
}

no_first_gateway :
    (ds : List ToolDecision) → first_gateway ds ≡ none → All (λ d. is_gateway d.owner ≡ false) ds
no_first_gateway [] h = tt
no_first_gateway (d ∷ ds) h = elim (Bool-cases (is_gateway d.owner)) [
  | inl y ↦ absurd (ground arith)
  | inr n ↦ (n, no_first_gateway ds (ground arith))
]

executable-no_executor :
    (c : Classified (List ToolDecision)) (ds : List ToolDecision)
    → then_executable false c ≡ ok ds
    → All (λ d. is_gateway d.owner ≡ false) ds
executable-no_executor (err e) ds h = absurd (ground arith)
executable-no_executor (ok es) ds h = elim (Option-cases (first_gateway es)) [
  | inl n ↦
      let same : es ≡ ds = ground arith in
      subst (All (λ (d : ToolDecision). is_gateway d.owner ≡ false)) same (no_first_gateway es n)
  | inr (name, f) ↦ absurd (ground arith)
]

no_gateway_owned :
    (ds : List ToolDecision)
    → All (λ d. is_gateway d.owner ≡ false) ds
    → has_gateway_owned_tool ds ≡ false
unfolding has_gateway_owned_tool
no_gateway_owned [] h = refl
no_gateway_owned (d ∷ ds) (h, hs) = rw (h, no_gateway_owned ds hs) refl

not_gateway : (o : ToolOwner) → is_gateway o ≡ false → some o ≢ some gateway
not_gateway gateway h = absurd (ground arith)
not_gateway client h = λ e. cc
not_gateway provider h = λ e. cc

owners_from-no_gateway :
    (n : String) (owners : Map String ToolOwner) (ds : List ToolDecision)
    → All (λ d. is_gateway d.owner ≡ false) ds
    → lookup n owners ≢ some gateway
    → lookup n (owners_from owners ds) ≢ some gateway
owners_from-no_gateway n owners [] h g = g
owners_from-no_gateway n owners (d ∷ ds) (h, hs) g =
    owners_from-no_gateway n (insert d.name d.owner owners) ds hs (elim (Bool-cases (d.name == n)) [
      | inl y ↦ rw (lookup-insert d.name n d.owner owners, y) (not_gateway d.owner h)
      | inr m ↦ rw (lookup-insert d.name n d.owner owners, m) g
    ])

module _ (trim lower : String → String) (fold : String → String → Bool) where
  -- Without an executor, a request that passes the validation has no tool of the gateway's: by no name does
  -- one get into the loop, which would call the executor.
  pub validate_tool_ownership-no_executor :
      (cfg : ToolOwnershipConfig) (tools : List RawTool) (ds : List ToolDecision) (n : String)
      → validate_tool_ownership trim lower fold cfg false tools ≡ ok ds
      → (has_gateway_owned_tool ds ≡ false) × (lookup n (tool_owner_by_name ds) ≢ some gateway)
  unfolding validate_tool_ownership tool_owner_by_name
  validate_tool_ownership-no_executor cfg tools ds n h =
      let none_there = executable-no_executor (classify_tools trim lower fold cfg tools) ds h in
      (
        no_gateway_owned ds none_there,
        owners_from-no_gateway n [] ds none_there (λ e. unfold lookup in cc),
      )
