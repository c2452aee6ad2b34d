-- ===== src/Breaker/Keys.antt =====
-- The keys of the circuits, `key` of internal/service/responses/circuit_breaker.go: `fmt.Sprintf`
-- joins the tenant and the provider by a colon.
use Prim.Native.Char.{Char, code}
use Prim.Native.String.append
use Prim.Native.String.{◌++◌ as concat}
use gateyes.Common.{String, ◌≡◌, ◌≢◌, refl, sym, ap, ◌∙◌}
use gateyes.Breaker.{key}

-- The text holds no colon.
abbrev pub HasNoColon : String → Type 0
HasNoColon String.[] = Unit
HasNoColon (String.◌∷◌ c s) = (code c ≢ 58) × HasNoColon s

abbrev colon_then : String → String
colon_then p = concat ":" p

colon_then-cons : (p : String) → colon_then p ≡ String.◌∷◌ ":" p
colon_then-cons p = append.cons ":" String.[] p ∙ ap (String.◌∷◌ ":") (append.nil p)

cons-injective :
    (c d : Char) (s t : String)
    → ◌≡◌ {A = String} (String.◌∷◌ c s) (String.◌∷◌ d t)
    → (c ≡ d) × (s ≡ t)
cons-injective c d s t h = (cc, cc)

empty-join : (p : String) → concat String.[] (colon_then p) ≡ String.◌∷◌ ":" p
empty-join p = append.nil (colon_then p) ∙ colon_then-cons p

join-injective :
    (t t' p p' : String)
    → HasNoColon t
    → HasNoColon t'
    → concat t (colon_then p) ≡ concat t' (colon_then p')
    → (t ≡ t') × (p ≡ p')
join-injective String.[] String.[] p p' n n' h =
    (refl, (cons-injective ":" ":" p p' (sym (empty-join p) ∙ h ∙ empty-join p')).1)
join-injective String.[] (String.◌∷◌ c t') p p' n n' h = absurd (
    n'.0 (
      sym (
        ap code
          (cons-injective ":" c p _
            (sym (empty-join p) ∙ h ∙ append.cons c t' (colon_then p'))).0)))
join-injective (String.◌∷◌ c t) String.[] p p' n n' h = absurd (
    n.0 (
      ap code
        (cons-injective c ":" _ p' (sym (append.cons c t (colon_then p)) ∙ h ∙ empty-join p')).0))
join-injective (String.◌∷◌ c t) (String.◌∷◌ d t') p p' n n' h =
    let e =
      cons-injective c d _ _
        (sym (append.cons c t (colon_then p)) ∙ h ∙ append.cons d t' (colon_then p')) in
    let r = join-injective t t' p p' n.1 n'.1 e.1 in (cc (e.0, r.0), r.1)

-- Two circuits share a key only if tenant and provider agree, as long as no tenant's name holds a
-- colon.
pub key-injective :
    (t t' p p' : String) → HasNoColon t → HasNoColon t' → key t p ≡ key t' p' → (t ≡ t') × (p ≡ p')
unfolding key
key-injective t t' p p' n n' h = join-injective t t' p p' n n' h
