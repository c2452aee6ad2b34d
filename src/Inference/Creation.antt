-- ===== src/Inference/Creation.antt =====
-- internal/application/inference/orchestrator.go: what `Create` does before its loops, in the order of
-- the source: admission, plugins, cache, router, and the record of the response.
use gateyes.Common.{String, Option, none, some, List, [], ◌∷◌}
use gateyes.Inference.{
  admit, before, lookup_cache, plan, create_record, Log, Dependencies, Reply, replies, fails, serve,
}

module _ {Req Resp Error : Type 0} where
  -- From the planned candidates on: the record of the response is created first.
  unfoldable pub create_planned :
      Dependencies Req Resp Error
      → (Log → Option Error)
      → Error
      → Req
      → List String × Option Error
      → Log
      → Log × Reply Resp Error
  create_planned d ended no_provider req (names, some e) log = (log, fails e)
  create_planned d ended no_provider req ([], none) log = (log, fails no_provider)
  create_planned d ended no_provider req (name ∷ names, none) log = elim d.repository [
    | none ↦ serve d ended no_provider req (name ∷ names) log
    | some answer ↦ elim (answer log) [
      | some e ↦ (create_record ∷ log, fails e)
      | none ↦ serve d ended no_provider req (name ∷ names) (create_record ∷ log)
    ]
  ]

  unfoldable pub create_routed :
      Dependencies Req Resp Error
      → (Log → Option Error)
      → Error
      → Req
      → Log
      → Log × Reply Resp Error
  create_routed d ended no_provider req log = elim d.router [
    | none ↦ (log, fails no_provider)
    | some planned ↦ create_planned d ended no_provider req (planned log req) (plan ∷ log)
  ]

  unfoldable pub create_cached :
      Dependencies Req Resp Error
      → (Log → Option Error)
      → Error
      → Req
      → Log
      → Log × Reply Resp Error
  create_cached d ended no_provider req log = elim d.cache [
    | none ↦ create_routed d ended no_provider req log
    | some c ↦
        let (found, err) = c.lookup log req in
        elim err [
          | some e ↦ (lookup_cache ∷ log, fails e)
          | none ↦ elim found [
            | none ↦ create_routed d ended no_provider req (lookup_cache ∷ log)
            | some x ↦ (
              lookup_cache ∷ log,
              replies
                  (record { response = some x.0; provider_name = x.1; retries = 0; fallback = 0 }),
            )
          ]
        ]
  ]

  unfoldable pub create_admitted :
      Dependencies Req Resp Error
      → (Log → Option Error)
      → Error
      → Req
      → Log
      → Log × Reply Resp Error
  create_admitted d ended no_provider req log = elim d.plugins [
    | none ↦ create_cached d ended no_provider req log
    | some p ↦
        let (req', err) = p.before_hook log req in
        elim err [
          | some e ↦ (before ∷ log, fails e)
          | none ↦ create_cached d ended no_provider req' (before ∷ log)
        ]
  ]

  -- `Create` on a request that is not nil, from an empty log. The first error is ErrNoProvider.
  unfoldable pub create :
      Dependencies Req Resp Error → (Log → Option Error) → Error → Req → Log × Reply Resp Error
  create d ended no_provider req = elim d.admission [
    | none ↦ create_admitted d ended no_provider req []
    | some answer ↦ elim (answer [] req) [
      | some e ↦ (admit ∷ [], fails e)
      | none ↦ create_admitted d ended no_provider req (admit ∷ [])
    ]
  ]
