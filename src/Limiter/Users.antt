-- ===== src/Limiter/Users.antt =====
-- The older queue of internal/service/limiter/limiter.go: `check`, which charges the global token
-- buckets and the caller's own request bucket, and one round of `refillLoop`. No Redis client.
use gateyes.Common.{
  ℕ, ◌*◌, String, Bool, true, false, not, ◌&&◌, ◌||◌, Option, none, some, ltb, ◌==◌, nat_eq,
  string_eq, if◌then◌else◌, lookup, insert,
}
use gateyes.Limiter.Bucket.{new_token_bucket}
use gateyes.Limiter.{
  BucketEntry, Heap, Limiter, consume_at, refill_entries, refill_all, ten_minutes, new_bucket,
}

-- `globalToken.TryConsume(tokens)` and, where a limit is set, `globalRPM.TryConsume(1)`.
unfoldable pub check_globals : ℕ → ℕ → Limiter → Limiter × Bool
check_globals now tokens l =
    let (h, some_tokens) = consume_at now l.global_token tokens l.heap in
    if not some_tokens
    then (record l { heap = h }, false)
    else if ltb 0 l.cfg.global_rpm
    then (let (h', ok) = consume_at now l.global_rpm 1 h in (record l { heap = h' }, ok))
    else (record l { heap = h }, true)

-- Requests a second: `GlobalQPS`, or the user's own limit.
unfoldable pub user_rate : ℕ → ℕ → ℕ
user_rate global_qps user_qps = if ltb 0 user_qps then user_qps else global_qps

unfoldable pub user_burst : ℕ → ℕ → ℕ → ℕ
user_burst burst user_qps rate =
    if ltb 0 user_qps && ltb 0 rate && ltb rate burst then rate else burst

unfoldable pub needs_bucket : ℕ → ℕ → Option BucketEntry → Heap → Bool
needs_bucket rate burst none h = true
needs_bucket rate burst (some e) h = elim (lookup e.bucket h.cells) [
  | none ↦ true
  | some b ↦ not (b.rate == 60 * rate) || not (b.burst == burst)
]

-- The user's bucket: made where there is none, and again where its limits have changed.
unfoldable pub ensure_user : ℕ → String → ℕ → ℕ → Limiter → Limiter
ensure_user now key rate burst l =
    if needs_bucket rate burst (lookup key l.user_tokens) l.heap
    then record l {
      user_tokens = insert key (record { bucket = l.heap.next; last_access = now }) l.user_tokens;
      heap = new_bucket (new_token_bucket (60 * rate) burst now) l.heap;
    }
    else l

-- `ub.bucket.TryConsume(1)`; the access is noted if it succeeds.
unfoldable pub consume_user : ℕ → String → Limiter → Limiter × Bool
consume_user now key l = elim (lookup key l.user_tokens) [
  | none ↦ (l, false)
  | some e ↦
      let (h, ok) = consume_at now e.bucket 1 l.heap in
      (
        if ok
            then record l {
              user_tokens = insert key (record e { last_access = now }) l.user_tokens;
              heap = h;
            }
            else record l { heap = h },
        ok,
      )
]

unfoldable pub check : ℕ → String → ℕ → ℕ → Limiter → Limiter × Bool
check now key user_qps tokens l =
    let (l', passed) = check_globals now tokens l in
    let rate = user_rate l.cfg.global_qps user_qps in
    if passed
    then consume_user now key
        (ensure_user now key rate (user_burst l.cfg.per_user_request_burst user_qps rate) l')
    else (l', false)

-- One tick of `refillLoop`.
unfoldable pub refill_tick : ℕ → Limiter → Limiter
refill_tick now l =
    let h = (consume_at now l.global_token 0 l.heap).0 in
    let h = (consume_at now l.global_rpm 0 h).0 in
    let h = (consume_at now l.global_requests 0 h).0 in
    let (users, h) = refill_entries now ten_minutes l.user_tokens h in
    let (tt_, h) = refill_all now l.tenant_tokens h in
    let (tr, h) = refill_all now l.tenant_rpm h in
    let (pt, h) = refill_all now l.provider_tokens h in
    let (pr, h) = refill_all now l.provider_rpm h in
    let (mt, h) = refill_all now l.model_tokens h in
    let (mr, h) = refill_all now l.model_rpm h in
    record l {
      user_tokens = users;
      tenant_tokens = tt_;
      tenant_rpm = tr;
      provider_tokens = pt;
      provider_rpm = pr;
      model_tokens = mt;
      model_rpm = mr;
      heap = h;
    }
