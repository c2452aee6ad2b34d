-- ===== src/Cache/Layers.antt =====
-- internal/service/cache/layered_cache.go and fallback_cache.go: two caches behind one interface,
-- each of which may be nil. `errors.Join` puts a line break between two messages.
pub mod Laws
use Prim.Native.String.{◌++◌ as concat}
use gateyes.Common.{ℕ, String, Option, none, some}
use gateyes.Cache.{Reply, hit, miss, failed, CacheOps}

pub record Pair {ℓ} (S T : Type ℓ) : Type ℓ where
  pub first : Option S
  pub second : Option T

unfoldable pub join : Option String → Option String → Option String
join none f = f
join (some e) none = some e
join (some e) (some f) = some (concat e (concat "\n" f))

-- The error beside a read that is no hit.
abbrev pub or_error {ℓ} : {V : Type ℓ} → Reply V → Reply V
or_error (hit v) = miss
or_error miss = miss
or_error (failed e) = failed e

module _ {ℓ} {S T V : Type ℓ} (ops : CacheOps S V) (ops' : CacheOps T V) where
  abbrev set_first : Option String → ℕ → String → Option V → ℕ → Option S → Option S × Option String
  set_first ctx now k v ttl none = (none, none)
  set_first ctx now k v ttl (some s) = let (s', e) = ops.set ctx now k v ttl s in (some s', e)

  abbrev set_second :
      Option String → ℕ → String → Option V → ℕ → Option T → Option T × Option String
  set_second ctx now k v ttl none = (none, none)
  set_second ctx now k v ttl (some t) = let (t', e) = ops'.set ctx now k v ttl t in (some t', e)

  abbrev delete_first : Option String → String → Option S → Option S
  delete_first ctx k none = none
  delete_first ctx k (some s) = some (ops.delete ctx k s).0

  abbrev delete_second : Option String → String → Option T → Option T
  delete_second ctx k none = none
  delete_second ctx k (some t) = some (ops'.delete ctx k t).0

  -- The second half of a layered read, after `l0` has missed with the error that it gave.
  unfoldable pub layered_rest :
      Option String → ℕ → String → Option S → Option T → Reply V → Pair S T × Reply V
  layered_rest ctx now k s none before = (record { first = s; second = none }, or_error before)
  layered_rest ctx now k s (some t) before =
      let (t', r) = ops'.get ctx now k t in
      (
        record { first = s; second = some t' },
        elim r [ hit v ↦ hit v | failed e ↦ failed e | miss ↦ or_error before ],
      )

  unfoldable pub layered_get : Option String → ℕ → String → Option S → Option T → Pair S T × Reply V
  unfolding layered_rest
  layered_get ctx now k none t = layered_rest ctx now k none t miss
  layered_get ctx now k (some s) t =
      let (s', r) = ops.get ctx now k s in
      elim r [
        | hit v ↦ (record { first = some s'; second = t }, hit v)
        | failed e ↦ layered_rest ctx now k (some s') t (failed e)
        | miss ↦ layered_rest ctx now k (some s') t miss
      ]

  unfoldable pub layered_set :
      Option String → ℕ → String → Option V → ℕ → Pair S T → Pair S T × Option String
  layered_set ctx now k v ttl c =
      let (s, e) = set_first ctx now k v ttl c.first in
      let (t, f) = set_second ctx now k v ttl c.second in
      (record { first = s; second = t }, join e f)

  -- Both `Delete` methods: from each cache, and no error.
  unfoldable pub delete_both : Option String → String → Pair S T → Pair S T × Option String
  delete_both ctx k c =
      (record { first = delete_first ctx k c.first; second = delete_second ctx k c.second }, none)

  unfoldable pub fallback_get :
      Option String → ℕ → String → Option S → Option T → Pair S T × Reply V
  fallback_get ctx now k none none = (record { first = none; second = none }, miss)
  fallback_get ctx now k none (some t) =
      let (t', r) = ops'.get ctx now k t in (record { first = none; second = some t' }, r)
  fallback_get ctx now k (some s) none =
      let (s', r) = ops.get ctx now k s in (record { first = some s'; second = none }, r)
  fallback_get ctx now k (some s) (some t) =
      let (s', r) = ops.get ctx now k s in
      let (t', r') = ops'.get ctx now k t in
      elim r [
        | hit v ↦ (record { first = some s'; second = some t }, hit v)
        | _ ↦ (record { first = some s'; second = some t' }, r')
      ]

  unfoldable pub fallback_set :
      Option String → ℕ → String → Option V → ℕ → Pair S T → Pair S T × Option String
  fallback_set ctx now k v ttl c =
      let (s, e) = set_first ctx now k v ttl c.first in
      let (t, f) = set_second ctx now k v ttl c.second in (record { first = s; second = t }, e)
