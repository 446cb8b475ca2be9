-- ===== src/Llm/Client/Breaker.antt =====
-- core/src/pipeline/llm/client.py: what `_post_json` keeps, and how often it sends.
use recruiter_pilot.Base.{
  ap, arith, is_some, leb, length, none, some, suc, true, zero, ℕ, ◌+◌, ◌<◌, ◌≡◌, ◌≤◌,
}
use recruiter_pilot.Llm.Client.{
  Body, Client, Config, Reply, Wire, attempts, check_breaker, connection_lost, cooling, on_failure,
  on_success, post_json, reset_breaker, response, send, settle, sleep_backoff, transport_error,
}
use recruiter_pilot.Llm.Json.{Json}
use recruiter_pilot.Llm.Values.{CallOutcome, raised, unavailable}

-- the breaker is open exactly where the failures in a row reached the threshold
abbrev pub IsConsistent : Config → Client → Type 0
IsConsistent c k = is_some k.opened_at ≡ leb c.breaker_threshold k.consecutive_failures

pub settle-keeps :
    (P : Client → Type 0) (c : Config) (k : Client) (again : Client × CallOutcome Json) (r : Reply)
    → P k
    → P again.0
    → P (on_failure c k)
    → P (on_success k)
    → P (settle c k again r).0
unfolding settle
settle-keeps P c k again connection_lost h a f s = a
settle-keeps P c k again transport_error h a f s = h
settle-keeps P c k again (response status none) h a f s = ground (arith, h, a, f, s)
settle-keeps P c k again (response status (some v)) h a f s = ground (arith, h, a, f, s)

on_failure-IsConsistent :
    (c : Config) (k : Client) → IsConsistent c k → IsConsistent c (on_failure c k)
unfolding on_failure
on_failure-IsConsistent c k h = ground arith

module _ (w : Wire) (c : Config) (body : Body) (positive : 0 < c.breaker_threshold) where
  attempts-IsConsistent :
      (left attempt : ℕ) (k : Client)
      → IsConsistent c k
      → IsConsistent c (attempts w c body left attempt k).0
  unfolding attempts send sleep_backoff on_success
  attempts-IsConsistent zero attempt k h = h
  attempts-IsConsistent (suc left) attempt k h =
      let failed = on_failure-IsConsistent c (send w body k) h in
      settle-keeps (IsConsistent c) c (send w body k) _ (w.reply (length k.requests)) h
        (attempts-IsConsistent left (suc attempt) _ failed) failed (ground arith)

  pub post_json-IsConsistent :
      (k : Client) → IsConsistent c k → IsConsistent c (post_json w c body k).0
  unfolding post_json check_breaker reset_breaker
  post_json-IsConsistent k h = ground (
    arith,
    attempts-IsConsistent (suc c.max_retries) 0 k,
    attempts-IsConsistent (suc c.max_retries) 0 (reset_breaker k),
  )

on_failure-requests : (c : Config) (k : Client) → (on_failure c k).requests ≡ k.requests
unfolding on_failure
on_failure-requests c k = ground arith

module _ (w : Wire) (c : Config) (body : Body) where
  attempts-requests :
      (left attempt : ℕ) (k : Client)
      → length (attempts w c body left attempt k).0.requests ≤ length k.requests + left
  unfolding attempts send sleep_backoff on_success
  attempts-requests zero attempt k = omega arith
  attempts-requests (suc left) attempt k =
      let after = ap length (on_failure-requests c (send w body k)) in
      settle-keeps (λ k'. length k'.requests ≤ length k.requests + suc left) c (send w body k) _
        (w.reply (length k.requests)) (omega arith)
        (omega (
          arith,
          after,
          attempts-requests left (suc attempt)
              (sleep_backoff w attempt (on_failure c (send w body k))),
        ))
        (omega (arith, after)) (omega arith)

  pub post_json-requests :
      (k : Client)
      → length (post_json w c body k).0.requests ≤ length k.requests + suc c.max_retries
  unfolding post_json check_breaker reset_breaker
  post_json-requests k = ground (
    arith,
    attempts-requests (suc c.max_retries) 0 k,
    attempts-requests (suc c.max_retries) 0 (reset_breaker k),
  )

  pub post_json-cooling :
      (k : Client) → cooling c k ≡ true → post_json w c body k ≡ (k, raised unavailable)
  unfolding post_json check_breaker cooling
  post_json-cooling k h = ground arith
