-- ===== src/Llm/Client/Closing.antt =====
-- core/src/pipeline/llm/client.py: how the circuit breaker opens and closes over a whole request.
use recruiter_pilot.Base.{
  arith, false, is_some, leb, length, none, refl, suc, true, zero, ℕ, ◌+◌, ◌<◌, ◌≡◌, ◌≤◌,
}
use recruiter_pilot.Llm.Client.{
  Body, Client, Config, Wire, attempts, check_breaker, connection_lost, cooling, on_failure,
  on_success, post_json, reset_breaker, send, settle, sleep_backoff,
}
use recruiter_pilot.Llm.Client.Breaker.{IsConsistent, post_json-IsConsistent, settle-keeps}
use recruiter_pilot.Llm.Values.{raised, unavailable}

-- closed, with at most `n` failures in a row
abbrev Quiet : ℕ → Client → Type 0
Quiet n k = (is_some k.opened_at ≡ false) × (k.consecutive_failures ≤ n)

module _ (w : Wire) (c : Config) (body : Body) where
  on_failure-Quiet :
      (n : ℕ) (k : Client)
      → suc n < c.breaker_threshold
      → Quiet n k
      → Quiet (suc n) (on_failure c k)
  unfolding on_failure
  on_failure-Quiet n k few h = ground arith

  attempts-Quiet :
      (left attempt n : ℕ) (k : Client)
      → n + left < c.breaker_threshold
      → Quiet n k
      → Quiet (n + left) (attempts w c body left attempt k).0
  unfolding attempts send sleep_backoff on_success
  attempts-Quiet zero attempt n k few h = ground arith
  attempts-Quiet (suc left) attempt n k few h =
      let failed = on_failure-Quiet n (send w body k) (omega arith) h in
      let rest =
        attempts-Quiet left (suc attempt) (suc n)
          (sleep_backoff w attempt (on_failure c (send w body k))) (omega arith) failed in
      settle-keeps (Quiet (n + suc left)) c (send w body k) _ (w.reply (length k.requests))
        (ground arith) (ground arith) (ground arith) (ground arith)

  -- Where the threshold exceeds the number of attempts of one request, the first request after the
  -- cooldown of an open breaker leaves the breaker closed, whatever the endpoint replies: also when
  -- every attempt of it fails.
  pub post_json-half_open :
      (k : Client)
      → suc c.max_retries < c.breaker_threshold
      → is_some k.opened_at ≡ true
      → cooling c k ≡ false
      → (post_json w c body k).0.opened_at ≡ none
  unfolding post_json check_breaker reset_breaker
  post_json-half_open k few was_open passed =
      ground (arith, attempts-Quiet (suc c.max_retries) 0 0 (reset_breaker k))

  attempts-outage :
      (lost : (n : ℕ) → w.reply n ≡ connection_lost) (left attempt : ℕ) (k : Client)
      → ((attempts w c body left attempt k).0.consecutive_failures ≡ k.consecutive_failures + left)
        × ((attempts w c body left attempt k).1 ≡ raised unavailable)
  unfolding attempts send sleep_backoff settle on_failure
  attempts-outage lost zero attempt k = (omega arith, refl)
  attempts-outage lost (suc left) attempt k = rw (lost (length k.requests)) (
      ground (
        arith,
        attempts-outage lost left (suc attempt)
            (sleep_backoff w attempt (on_failure c (send w body k))),
      ))

  -- When no connection to the endpoint comes about, a request through a closed breaker makes all its
  -- attempts, each of them is counted as a failure, the request is refused as unavailable, and the
  -- breaker is open afterwards exactly if the count reached the threshold.
  pub post_json-outage :
      (k : Client)
      → 0 < c.breaker_threshold
      → IsConsistent c k
      → k.opened_at ≡ none
      → ((n : ℕ) → w.reply n ≡ connection_lost)
      → ((post_json w c body k).1 ≡ raised unavailable)
        × ((post_json w c body k).0.consecutive_failures
            ≡ k.consecutive_failures + suc c.max_retries)
        × (is_some (post_json w c body k).0.opened_at
            ≡ leb c.breaker_threshold (k.consecutive_failures + suc c.max_retries))
  unfolding post_json check_breaker
  post_json-outage k positive consistent closed lost = ground (
    arith,
    attempts-outage lost (suc c.max_retries) 0 k,
    post_json-IsConsistent w c body positive k consistent,
  )
