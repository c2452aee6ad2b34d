-- ===== src/Router/Session/Reorder.antt =====
-- `Pin` of internal/service/router/session_affinity.go only reorders the candidates.
use gateyes.Common.{
  String, Option, none, some, List, [], ◌∷◌, ◌==◌, string_eq, Bool-cases, Option-cases, inl, inr,
  subst, ℕ, ◌||◌, leb, length,
}
use mathlib.Core.List.Perm
use mathlib.Core.List.{Perm}
use gateyes.Router.{Provider, RouteContext}
use gateyes.Router.Session.{SessionAffinity, take_out, to_front, pin, entry_for, swept}

abbrev front_of : List Provider → Option (Provider × List Provider) → List Provider
front_of ps none = ps
front_of ps (some x) = x.0 ∷ x.1

front_of-Perm : (n : String) (ps : List Provider) → Perm ps (front_of ps (take_out n ps))
unfolding take_out
front_of-Perm n [] = Perm.refl []
front_of-Perm n (p ∷ ps) = elim (Bool-cases (p.name == n)) [
  | inl e ↦ rw (e, front_of) (Perm.refl (p ∷ ps))
  | inr e ↦ elim (Option-cases (take_out n ps)) [
    | inl f ↦ rw (e, f, front_of) (Perm.refl (p ∷ ps))
    | inr (x, f) ↦
        let tail = subst (λ o. Perm ps (front_of ps o)) f (front_of-Perm n ps) in
        rw (e, f, front_of) (Perm.trans (Perm.cons p tail) (Perm.swap x.0 p x.1))
  ]
]

pub to_front-Perm : (n : String) (ps : List Provider) → Perm ps (to_front n ps)
unfolding to_front
to_front-Perm n ps = front_of-Perm n ps

-- What `Pin` returns is a rearrangement of the candidates: none is lost and none is added.
pub pin-Perm :
    (sum32 : String → ℕ) (now : ℕ) (ps : List Provider) (ctx : RouteContext) (s : SessionAffinity)
    → Perm ps (pin sum32 now ps ctx s).1
unfolding pin to_front
pin-Perm sum32 now ps ctx s = elim (Bool-cases (leb (length ps) 1 || ctx.session_id == "")) [
  | inl h ↦ rw h (Perm.refl ps)
  | inr h ↦
      rw h (
        front_of-Perm (entry_for sum32 s.ttl now ps ctx.session_id (swept now s)).1.provider_name
          ps)
]
