-- ===== src/Router/Prefix.antt =====
-- internal/service/router/prefix_affinity.go: requests with the same start of their prompt go to the
-- same provider. The hash, in hexadecimal, and Go's runes of a text are parameters. Times are
-- nanoseconds of the process's clock.
use gateyes.Common.{
  ℕ, ◌+◌, ◌-◌, String, ◌&&◌, ◌||◌, none, some, List, [], ◌∷◌, length, ltb, leb, ◌==◌, string_eq,
  if◌then◌else◌, Map, lookup, insert,
}
use gateyes.Router.{Provider, RouteContext}
use gateyes.Router.Session.{to_front}

pub record PrefixEntry : Type 0 where
  pub provider_name : String
  pub expires_at : ℕ

pub record PrefixAffinity : Type 0 where
  pub items : Map String PrefixEntry
  pub ttl : ℕ
  pub prefix_depth : ℕ

-- What Go's libraries do with a text.
pub record Texts : Type 0 where
  pub runes : String → List ℕ
  pub of_runes : List ℕ → String
  pub sha256 : String → String
  pub normal : String → String
  pub sum32 : String → ℕ

unfoldable pub new_prefix_affinity : ℕ → ℕ → PrefixAffinity
new_prefix_affinity depth ttl = record { items = []; ttl = ttl; prefix_depth = depth }

-- `runes[:n]`.
abbrev pub first_runes : ℕ → List ℕ → List ℕ
first_runes n [] = []
first_runes n (r ∷ rs) = if ltb 0 n then r ∷ first_runes (n - 1) rs else []

module _ (texts : Texts) where
  unfoldable pub hash_prefix : ℕ → String → String
  hash_prefix depth text =
      if text == ""
      then ""
      else if ltb 0 depth && ltb depth (length (texts.runes text))
      then texts.sha256 (texts.of_runes (first_runes depth (texts.runes text)))
      else texts.sha256 text

  unfoldable pub pin_prefix : ℕ → List Provider → RouteContext → PrefixAffinity → List Provider
  pin_prefix now candidates ctx pa =
      let key = hash_prefix pa.prefix_depth ctx.input_text in
      if leb (length candidates) 1 || key == "" then candidates else elim (lookup key pa.items) [
        | none ↦ candidates
        | some en ↦
            if ltb 0 pa.ttl && ltb en.expires_at now
            then candidates
            else to_front en.provider_name candidates
      ]

  unfoldable pub promote_prefix : ℕ → RouteContext → String → PrefixAffinity → PrefixAffinity
  promote_prefix now ctx provider_name pa =
      let key = hash_prefix pa.prefix_depth ctx.input_text in
      let expires = if ltb 0 pa.ttl then now + pa.ttl else 0 in
      if key == "" then pa else record pa {
        items =
            insert key (record { provider_name = provider_name; expires_at = expires }) pa.items;
      }
