-- ===== src/Llm/Client.antt =====
-- core/src/pipeline/llm/client.py: `LLMClient`'s state, its circuit breaker and `_post_json`.
-- The endpoint is outside the repository: `Wire` gives the reply to the n-th request that is sent and
-- the time it takes. Times are in milliseconds.
pub mod Breaker
pub mod Closing
use recruiter_pilot.Base.{
  Bool, List, Option, [], contains, false, if◌then◌else◌, is_some, leb, length, list_eq, ltb, min,
  nat_eq, none, not, option_eq, some, string_eq, suc, zero, ℕ, ◌*◌, ◌+◌, ◌^◌, ◌∷◌,
}
use recruiter_pilot.Base.Text.{Text}
use recruiter_pilot.Llm.Json.{Json}
use recruiter_pilot.Llm.Values.{
  CallOutcome, and_then, get, or_empty, raised, returned, unavailable, unhandled,
}

-- what is sent: the messages of a chat, or the texts to embed
pub record Message : Type 0 where
  pub role : Text
  pub content : Text

pub data Body : Type 0 where
  chat_body : List Message → ℕ → Body
  embed_body : List Text → Body

-- `ConnectError`, `ReadTimeout` and `RemoteProtocolError` are caught; any other exception of the HTTP
-- library is not. The payload of a reply is `none` where `response.json()` raises.
pub data Reply : Type 0 where
  connection_lost : Reply
  transport_error : Reply
  response : ℕ → Option Json → Reply

-- the arguments of `__init__` that the control flow reads
pub record Config : Type 0 where
  pub native_chat : Bool
  pub max_retries : ℕ
  pub breaker_threshold : ℕ
  pub breaker_cooldown : ℕ
  pub expected_dim : Option ℕ

-- the fields that change, `time.monotonic()`, and what was sent, the last first
pub record Client : Type 0 where
  pub consecutive_failures : ℕ
  pub opened_at : Option ℕ
  pub clock : ℕ
  pub requests : List Body

pub record Wire : Type 0 where
  pub reply : ℕ → Reply
  pub latency : ℕ → ℕ
  pub jitter : ℕ → ℕ

unfoldable pub fresh_client : ℕ → Client
fresh_client now = record { consecutive_failures = 0; opened_at = none; clock = now; requests = [] }

abbrev pub retry_statuses : List ℕ
retry_statuses = 429 ∷ 500 ∷ 502 ∷ 503 ∷ 504 ∷ []

-- still in the cooldown of an open breaker; the clock never runs back
unfoldable pub cooling : Config → Client → Bool
cooling c k = elim k.opened_at [ none ↦ false | some t ↦ ltb k.clock (t + c.breaker_cooldown) ]

unfoldable pub reset_breaker : Client → Client
reset_breaker k = record k { consecutive_failures = 0; opened_at = none }

-- `none` is the `LLMUnavailableError` of an open breaker
unfoldable pub check_breaker : Config → Client → Option Client
unfolding cooling reset_breaker
check_breaker c k =
    if not (is_some k.opened_at)
    then some k
    else if cooling c k
    then none
    else some (reset_breaker k)

unfoldable pub on_failure : Config → Client → Client
on_failure c k =
    let failures = suc k.consecutive_failures in
    if leb c.breaker_threshold failures
    then record k { consecutive_failures = failures; opened_at = some k.clock }
    else record k { consecutive_failures = failures }

unfoldable pub on_success : Client → Client
on_success k = record k { consecutive_failures = 0; opened_at = none }

-- `min(8.0, 2**attempt)` seconds, times one plus a draw from -0.25 to 0.25
unfoldable pub backoff : ℕ → ℕ → ℕ
backoff attempt draw = min 8 (2 ^ attempt) * (750 + min 500 draw)

abbrev pub wait : ℕ → Client → Client
wait ms k = record k { clock = k.clock + ms }

unfoldable pub sleep_backoff : Wire → ℕ → Client → Client
unfolding backoff
sleep_backoff w attempt k = wait (backoff attempt (w.jitter (length k.requests))) k

unfoldable pub send : Wire → Body → Client → Client
send w body k = record k {
  clock = k.clock + w.latency (length k.requests);
  requests = body ∷ k.requests;
}

abbrev usage_key : Text
usage_key = (117 ∷ 115 ∷ 97 ∷ 103 ∷ 101 ∷ [])

abbrev prompt_tokens_key : Text
prompt_tokens_key =
    (112 ∷ 114 ∷ 111 ∷ 109 ∷ 112 ∷ 116 ∷ 95 ∷ 116 ∷ 111 ∷ 107 ∷ 101 ∷ 110 ∷ 115 ∷ [])

-- the log line reads the token counts of the payload before it is returned
unfoldable pub with_usage : Json → CallOutcome Json
unfolding get or_empty
with_usage v =
    and_then (get usage_key v)
      λ found. and_then (get prompt_tokens_key (or_empty found)) λ _. returned v

-- one attempt, after its reply; `again` is the rest of the loop
unfoldable pub settle :
    Config → Client → Client × CallOutcome Json → Reply → Client × CallOutcome Json
unfolding on_failure on_success with_usage
settle c k again connection_lost = again
settle c k again transport_error = (k, raised unhandled)
settle c k again (response status payload) =
    if contains retry_statuses status
    then again
    else if leb 400 status
    then (on_failure c k, raised unavailable)
    else elim payload [ none ↦ (k, raised unhandled) | some v ↦ (on_success k, with_usage v) ]

-- `for attempt in range(self._max_retries + 1)`, with the number of attempts that are left
unfoldable pub attempts : Wire → Config → Body → ℕ → ℕ → Client → Client × CallOutcome Json
unfolding settle send sleep_backoff on_failure
attempts w c body zero attempt k = (k, raised unavailable)
attempts w c body (suc left) attempt k =
    let sent = send w body k in
    let again =
      attempts w c body left (suc attempt) (sleep_backoff w attempt (on_failure c sent)) in
    settle c sent again (w.reply (length k.requests))

unfoldable pub post_json : Wire → Config → Body → Client → Client × CallOutcome Json
unfolding check_breaker attempts
post_json w c body k = elim (check_breaker c k) [
  | none ↦ (k, raised unavailable)
  | some k' ↦ attempts w c body (suc c.max_retries) 0 k'
]
