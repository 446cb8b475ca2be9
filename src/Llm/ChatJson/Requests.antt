-- ===== src/Llm/ChatJson/Requests.antt =====
-- core/src/pipeline/llm/client.py: what `chat_json` sends, and what it returns.
use recruiter_pilot.Base.{
  Bool-cases, List, Option, arith, false, inl, inr, length, none, refl, some, suc, true, zero, ℕ,
  ◌*◌, ◌+◌, ◌<◌, ◌≡◌, ◌≤◌, ◌⊎◌,
}
use recruiter_pilot.Base.Text.{Text}
use recruiter_pilot.Llm.Chat.{chat, native_content, openai_content, ◌>=>◌}
use recruiter_pilot.Llm.ChatJson.{
  Decoded, Validated, ask_again, chat_json, chat_json_loop, check_output, conclude, judge,
}
use recruiter_pilot.Llm.Client.{Client, Config, Message, Wire, chat_body, cooling, post_json}
use recruiter_pilot.Llm.Client.Breaker.{
  IsConsistent, post_json-IsConsistent, post_json-cooling, post_json-requests,
}
use recruiter_pilot.Llm.Json.{Json}
use recruiter_pilot.Llm.Values.{CallOutcome, raised, returned, unavailable}

bind-client {ℓ κ} :
    {A : Type ℓ} {B : Type κ} (r : Client × CallOutcome A) (f : A → CallOutcome B)
    → (r >=> f).0 ≡ r.0
bind-client (k, returned a) f = refl
bind-client (k, raised e) f = refl

module _ (w : Wire) (c : Config) (messages : List Message) (max_tokens : ℕ) (k : Client) where
  -- a chat leaves the client as its request does
  chat_sent :
      (chat w c messages max_tokens k).0 ≡ (post_json w c (chat_body messages max_tokens) k).0
  unfolding chat
  chat_sent = elim (Bool-cases c.native_chat) [
    | inl e ↦ rw e (bind-client (post_json w c (chat_body messages max_tokens) k) native_content)
    | inr e ↦ rw e (bind-client (post_json w c (chat_body messages max_tokens) k) openai_content)
  ]

  chat-cooling : cooling c k ≡ true → chat w c messages max_tokens k ≡ (k, raised unavailable)
  unfolding chat
  chat-cooling h =
      let refused = post_json-cooling w c (chat_body messages max_tokens) k h in
      elim (Bool-cases c.native_chat) [
        | inl e ↦ rw e (rw refused refl)
        | inr e ↦ rw e (rw refused refl)
      ]

module _ {ℓ} {T : Type ℓ} (w : Wire) (c : Config) (loads : Text → Decoded) (extract : Text → Text)
    (validate : Json → Validated T) (max_tokens : ℕ) where
  conclude-keeps :
      (P : Client → Type 0) (again : Text × Text → Client × CallOutcome T) (k : Client)
      (r : T ⊎ (Text × Text))
      → P k
      → ((failure : Text × Text) → P (again failure).0)
      → P (conclude w c loads extract validate max_tokens again k r).0
  unfolding conclude
  conclude-keeps P again k (inl a) h f = h
  conclude-keeps P again k (inr failure) h f = f failure

  judge-keeps :
      (P : Client → Type 0) (again : Text × Text → Client × CallOutcome T)
      (answer : Client × CallOutcome Text)
      → P answer.0
      → ((failure : Text × Text) → P (again failure).0)
      → P (judge w c loads extract validate max_tokens again answer).0
  unfolding judge
  judge-keeps P again (k, raised e) h f = h
  judge-keeps P again (k, returned raw) h f =
      conclude-keeps P again k (check_output validate (loads (extract raw))) h f

  loop-IsConsistent :
      0 < c.breaker_threshold
      → (left : ℕ) (messages : List Message) (p s : Option Text) (k : Client) → IsConsistent c k
      → IsConsistent c (chat_json_loop w c loads extract validate max_tokens left messages p s k).0
  unfolding chat_json_loop
  loop-IsConsistent positive zero messages p s k h = h
  loop-IsConsistent positive (suc left) messages p s k h =
      let asked = ask_again messages p in
      let kept : IsConsistent c (chat w c asked max_tokens k).0 =
        rw (chat_sent w c asked max_tokens k)
          (post_json-IsConsistent w c (chat_body asked max_tokens) positive k h) in
      judge-keeps (IsConsistent c) _ (chat w c asked max_tokens k) kept
        (λ failure. loop-IsConsistent positive left asked _ _ _ kept)

  loop-requests :
      (left : ℕ) (messages : List Message) (p s : Option Text) (k : Client)
      → length (chat_json_loop w c loads extract validate max_tokens left messages p s k).0.requests
        ≤ length k.requests + left * suc c.max_retries
  unfolding chat_json_loop
  loop-requests zero messages p s k = omega arith
  loop-requests (suc left) messages p s k =
      let asked = ask_again messages p in
      let answer = chat w c asked max_tokens k in
      let sent : length answer.0.requests ≤ length k.requests + suc c.max_retries =
        rw (chat_sent w c asked max_tokens k)
          (post_json-requests w c (chat_body asked max_tokens) k) in
      judge-keeps (λ k'. length k'.requests ≤ length k.requests + suc left * suc c.max_retries) _
        answer (omega arith)
        (λ failure.
          omega (arith, loop-requests left asked (some failure.0) (some failure.1) answer.0))

  -- A call of `chat_json` that may retry `n` times sends at most `(n + 1) * (max_retries + 1)` requests
  -- and then comes to an end, and it keeps the breaker consistent: open exactly where the failures in a
  -- row reached the threshold. While the breaker is open and cooling down, the call sends nothing,
  -- changes nothing and raises `LLMUnavailableError`.
  pub chat_json-guarded :
      (n : ℕ) (messages : List Message) (k : Client)
      → 0 < c.breaker_threshold
      → IsConsistent c k
      → (length (chat_json w c loads extract validate max_tokens n messages k).0.requests
          ≤ length k.requests + suc n * suc c.max_retries)
        × IsConsistent c (chat_json w c loads extract validate max_tokens n messages k).0
        × (cooling c k ≡ false
            ⊎ (chat_json w c loads extract validate max_tokens n messages k
                ≡ (k, raised unavailable)))
  unfolding chat_json chat_json_loop judge ask_again
  chat_json-guarded n messages k positive h = (
    loop-requests (suc n) messages none none k,
    loop-IsConsistent positive (suc n) messages none none k h,
    elim (Bool-cases (cooling c k)) [
      | inl e ↦ inr (rw (chat-cooling w c messages max_tokens k e) refl)
      | inr e ↦ inl e
    ],
  )
