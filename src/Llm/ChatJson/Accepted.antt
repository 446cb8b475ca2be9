-- ===== src/Llm/ChatJson/Accepted.antt =====
-- core/src/pipeline/llm/client.py: the values that `chat_json` returns.
use recruiter_pilot.Base.{IfSome, List, Option, inl, inr, none, refl, some, suc, zero, ℕ, ◌≡◌, ◌⊎◌}
use recruiter_pilot.Base.Text.{Text}
use recruiter_pilot.Llm.Chat.{chat}
use recruiter_pilot.Llm.ChatJson.{
  Decoded, Validated, ask_again, chat_json, chat_json_loop, check_model, check_output,
  check_stripped, conclude, decode_error, decoded, invalid, judge, recursion_error, valid,
}
use recruiter_pilot.Llm.Client.{Client, Config, Message, Wire}
use recruiter_pilot.Llm.Embed.Counted.{IfReturned}
use recruiter_pilot.Llm.Json.{Json, strip_nuls}
use recruiter_pilot.Llm.Json.Clean.{IsNulFree, strip_nuls-exact}
use recruiter_pilot.Llm.Values.{CallOutcome, raised, returned}

module _ {ℓ} {T : Type ℓ} (w : Wire) (c : Config) (loads : Text → Decoded) (extract : Text → Text)
    (validate : Json → Validated T) (max_tokens : ℕ) where
  -- the schema made it from a value without U+0000
  abbrev pub IsAccepted : T → Type ℓ
  IsAccepted a = (obj : Json) × IsNulFree obj × (validate obj ≡ valid a)

  abbrev IfAccepted : T ⊎ (Text × Text) → Type ℓ
  IfAccepted (inl a) = IsAccepted a
  IfAccepted (inr failure) = Unit

  check_model-IfAccepted :
      (obj : Json) (r : Validated T) → IsNulFree obj → validate obj ≡ r → IfAccepted (check_model r)
  unfolding check_model
  check_model-IfAccepted obj (valid a) clean e = (obj, clean, e)
  check_model-IfAccepted obj (invalid exc) clean e = tt

  check_stripped-IfAccepted :
      (r : Option Json) → IfSome IsNulFree r → IfAccepted (check_stripped validate r)
  unfolding check_stripped
  check_stripped-IfAccepted none h = tt
  check_stripped-IfAccepted (some obj) h = check_model-IfAccepted obj (validate obj) h refl

  check_output-IfAccepted : (d : Decoded) → IfAccepted (check_output validate d)
  unfolding check_output
  check_output-IfAccepted (decode_error s) = tt
  check_output-IfAccepted recursion_error = tt
  check_output-IfAccepted (decoded v) =
      check_stripped-IfAccepted (strip_nuls 0 v) (strip_nuls-exact v).1

  conclude-IfReturned :
      (again : Text × Text → Client × CallOutcome T) (k : Client) (r : T ⊎ (Text × Text))
      → IfAccepted r
      → ((failure : Text × Text) → IfReturned IsAccepted (again failure).1)
      → IfReturned IsAccepted (conclude w c loads extract validate max_tokens again k r).1
  unfolding conclude
  conclude-IfReturned again k (inl a) h f = h
  conclude-IfReturned again k (inr failure) h f = f failure

  judge-IfReturned :
      (again : Text × Text → Client × CallOutcome T) (answer : Client × CallOutcome Text)
      → ((failure : Text × Text) → IfReturned IsAccepted (again failure).1)
      → IfReturned IsAccepted (judge w c loads extract validate max_tokens again answer).1
  unfolding judge
  judge-IfReturned again (k, raised e) f = tt
  judge-IfReturned again (k, returned raw) f =
      conclude-IfReturned again k _ (check_output-IfAccepted (loads (extract raw))) f

  loop-IfReturned :
      (left : ℕ) (messages : List Message) (p s : Option Text) (k : Client)
      → IfReturned IsAccepted
          (chat_json_loop w c loads extract validate max_tokens left messages p s k).1
  unfolding chat_json_loop
  loop-IfReturned zero messages p s k = tt
  loop-IfReturned (suc left) messages p s k =
      let asked = ask_again messages p in
      judge-IfReturned _ (chat w c asked max_tokens k) (λ failure. loop-IfReturned left asked _ _ _)

  -- What `chat_json` returns, at whichever attempt, is what the schema made of a JSON value in which no
  -- string and no key at any depth has a U+0000.
  pub chat_json-IsAccepted :
      (n : ℕ) (messages : List Message) (k : Client)
      → IfReturned IsAccepted (chat_json w c loads extract validate max_tokens n messages k).1
  unfolding chat_json
  chat_json-IsAccepted n messages k = loop-IfReturned (suc n) messages none none k
