-- ===== src/Tools.antt =====
-- internal/service/responses/tool_ownership.go: who runs the tools of a request, and the loop in which the
-- gateway runs its own ones and asks the provider again. TrimSpace, ToLower and EqualFold are
-- arguments; a tool's definition and a response hold what the code reads of them.
pub mod Turns
pub mod Loop
pub mod Rules
use gateyes.Common.{
  ℕ, ◌+◌, String, Bool, true, false, not, ◌&&◌, ◌||◌, Option, none, some, List, [], ◌∷◌, ◌++◌, map,
  ◌==◌, string_eq, nat_eq, length, if◌then◌else◌, Map, insert, lookup, ℤ, ◌+ℤ◌,
}

pub data ToolOwner : Type 0 where
  gateway client provider : ToolOwner

pub data ToolError : Type 0 where
  unknown_shape : ToolError
  not_one_rule : String → String → ToolError
  unsupported_owner : String → ToolError
  executor_unavailable : String → ToolError

pub record ToolDecision : Type 0 where
  pub name : String
  pub type : String
  pub owner : ToolOwner

pub record ToolOwnershipRule : Type 0 where
  pub name : String
  pub type : String
  pub owner : String

pub record ToolOwnershipConfig : Type 0 where
  pub enabled : Bool
  pub default_owner : String
  pub max_loop_rounds : ℤ
  pub rules : List ToolOwnershipRule

-- A tool's definition: no JSON object, or the texts at "type", "name" and at "name" in "function".
pub data RawTool : Type 0 where
  no_object : RawTool
  object : (type name : Option String) → Option (Option String) → RawTool

pub data Classified (A : Type 0) : Type 0 where
  ok : A → Classified A
  err : ToolError → Classified A

abbrev pub text_or_empty : Option String → String
text_or_empty none = ""
text_or_empty (some s) = s

abbrev pub is_gateway : ToolOwner → Bool
is_gateway gateway = true
is_gateway client = false
is_gateway provider = false

-- The name and the type, with those that "function" stands for.
abbrev pub with_function : Option (Option String) → String → String → String × String
with_function none typ name = (name, typ)
with_function (some function_name) typ name = (
  if name == "" then text_or_empty function_name else name,
  if typ == "" then "function" else typ,
)

abbrev pub owner_of : String → Option ToolOwner
owner_of owner =
    if owner == "gateway-owned"
    then some gateway
    else if owner == "client-owned"
    then some client
    else if owner == "provider-owned"
    then some provider
    else none

abbrev pub and_then :
    Classified ToolDecision → Classified (List ToolDecision) → Classified (List ToolDecision)
and_then (err e) rest = err e
and_then (ok d) (err e) = err e
and_then (ok d) (ok ds) = ok (d ∷ ds)

-- The first tool of the gateway, which nobody can run.
abbrev pub first_gateway : List ToolDecision → Option String
first_gateway [] = none
first_gateway (d ∷ ds) = if is_gateway d.owner then some (d.name) else first_gateway ds

abbrev pub executable : Bool → List ToolDecision → Classified (List ToolDecision)
executable true ds = ok ds
executable false ds = elim (first_gateway ds) [
  | none ↦ ok ds
  | some name ↦ err (executor_unavailable name)
]

abbrev pub then_executable : Bool → Classified (List ToolDecision) → Classified (List ToolDecision)
then_executable has_executor (err e) = err e
then_executable has_executor (ok ds) = executable has_executor ds

module _ (trim lower : String → String) (fold : String → String → Bool) where
  unfoldable pub tool_identity : RawTool → Option (String × String)
  tool_identity no_object = none
  tool_identity (object typ name function) =
      let (n, t) = with_function function (text_or_empty typ) (text_or_empty name) in
      if trim t == "" && trim n == "" then none else some (trim n, trim t)

  abbrev pub matches : ToolOwnershipRule → String → String → Bool
  matches rule name typ =
      (rule.name == "" || fold (trim rule.name) name)
      && (rule.type == "" || fold (trim rule.type) typ)

  unfoldable pub matching_tool_rules :
      List ToolOwnershipRule → String → String → List ToolOwnershipRule
  matching_tool_rules [] name typ = []
  matching_tool_rules (rule ∷ rules) name typ =
      let rest = matching_tool_rules rules name typ in
      if matches rule name typ then rule ∷ rest else rest

  abbrev pub or_default : ToolOwnershipConfig → List ToolOwnershipRule → List ToolOwnershipRule
  or_default cfg [] =
      if trim cfg.default_owner == ""
      then []
      else record { name = ""; type = ""; owner = cfg.default_owner } ∷ []
  or_default cfg (r ∷ rs) = r ∷ rs

  abbrev pub decide_by : String → String → List ToolOwnershipRule → Classified ToolDecision
  decide_by name typ (rule ∷ []) = elim (owner_of (lower (trim rule.owner))) [
    | none ↦ err (unsupported_owner (lower (trim rule.owner)))
    | some owner ↦ ok record { name = name; type = typ; owner = owner }
  ]
  decide_by name typ rules = err (not_one_rule name typ)

  unfoldable pub classify_tool : ToolOwnershipConfig → RawTool → Classified ToolDecision
  unfolding tool_identity matching_tool_rules
  classify_tool cfg raw = elim (tool_identity raw) [
    | none ↦ err unknown_shape
    | some (name, typ) ↦
        decide_by name typ (or_default cfg (matching_tool_rules cfg.rules name typ))
  ]

  unfoldable pub classify_loop : ToolOwnershipConfig → List RawTool → Classified (List ToolDecision)
  unfolding classify_tool
  classify_loop cfg [] = ok []
  classify_loop cfg (raw ∷ tools) = and_then (classify_tool cfg raw) (classify_loop cfg tools)

  -- With ownership off no tool is looked at.
  unfoldable pub classify_tools :
      ToolOwnershipConfig → List RawTool → Classified (List ToolDecision)
  unfolding classify_loop
  classify_tools cfg tools = if cfg.enabled then classify_loop cfg tools else ok []

  unfoldable pub validate_tool_ownership :
      ToolOwnershipConfig → Bool → List RawTool → Classified (List ToolDecision)
  unfolding classify_tools
  validate_tool_ownership cfg has_executor tools =
      then_executable has_executor (classify_tools cfg tools)

-- Go's map by name: of two tools with a name the last one counts.
abbrev pub owners_from : Map String ToolOwner → List ToolDecision → Map String ToolOwner
owners_from owners [] = owners
owners_from owners (d ∷ ds) = owners_from (insert d.name d.owner owners) ds

unfoldable pub tool_owner_by_name : List ToolDecision → Map String ToolOwner
unfolding insert
tool_owner_by_name ds = owners_from [] ds

unfoldable pub has_gateway_owned_tool : List ToolDecision → Bool
has_gateway_owned_tool [] = false
has_gateway_owned_tool (d ∷ ds) = is_gateway d.owner || has_gateway_owned_tool ds
