-- ===== src/Cache.antt =====
-- internal/service/cache: the cache of responses. `Memory` is memory_cache.go, `Layers` is
-- layered_cache.go and fallback_cache.go, over the operations that every cache offers.
pub mod Memory
pub mod Layers
use gateyes.Common.{ℕ, String, Option}

-- What `Get` returns: the entry, a miss, or an error.
pub data Reply {ℓ} (V : Type ℓ) : Type ℓ where
  hit : V → Reply V
  miss : Reply V
  failed : String → Reply V

-- The interface `Cache` of cache.go as functions on the cache's state. The context is
-- its error, `none` while it has not ended; `none` is a nil error, or a nil entry.
pub record CacheOps {ℓ} (S V : Type ℓ) : Type ℓ where
  pub get : Option String → ℕ → String → S → S × Reply V
  pub set : Option String → ℕ → String → Option V → ℕ → S → S × Option String
  pub delete : Option String → String → S → S × Option String
