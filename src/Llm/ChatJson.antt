-- ===== src/Llm/ChatJson.antt =====
-- core/src/pipeline/llm/client.py: `chat_json`.
-- `json.loads`, the search for the JSON in the answer and the schema's validation are arguments.
pub mod Requests
pub mod Accepted
use recruiter_pilot.Base.{
  List, Option, [], inl, inr, map, none, some, suc, take, zero, ℕ, ◌++◌, ◌∷◌, ◌⊎◌,
}
use recruiter_pilot.Base.Text.{Text}
use recruiter_pilot.Llm.Chat.{chat}
use recruiter_pilot.Llm.Client.{Client, Config, Message, Wire}
use recruiter_pilot.Llm.Json.{Json, strip_nuls}
use recruiter_pilot.Llm.Values.{CallOutcome, invalid_json, output_invalid, raised, returned}

-- what `json.loads` does with a text
pub data Decoded : Type 0 where
  decoded : Json → Decoded
  decode_error : Text → Decoded
  recursion_error : Decoded

-- one entry of `ValidationError.errors()`: the path and the kind, and `str(exc)` of the whole
pub record Invalid : Type 0 where
  pub errors : List (List Text × Text)
  pub message_text : Text

pub data Validated {ℓ} (A : Type ℓ) : Type ℓ where
  valid : A → Validated A
  invalid : Invalid → Validated A

unfoldable pub join : Text → List Text → Text
join sep [] = []
join sep (s ∷ []) = s
join sep (s ∷ t ∷ ss) = s ++ sep ++ join sep (t ∷ ss)

unfoldable pub validation_error_digest : Invalid → Text
unfolding join
validation_error_digest exc =
    take 500
      (join (59 ∷ 32 ∷ []) (map (λ e. join (46 ∷ []) e.0 ++ (58 ∷ 32 ∷ []) ++ e.1) exc.errors))

abbrev pub too_deep : Text
too_deep =
    (108 ∷ 108 ∷ 109 ∷ 32 ∷ 111 ∷ 117 ∷ 116 ∷ 112 ∷ 117 ∷ 116 ∷ 32 ∷ 110 ∷ 101 ∷ 115 ∷ 116 ∷ 101
      ∷ 100 ∷ 32 ∷ 116 ∷ 111 ∷ 111 ∷ 32 ∷ 100 ∷ 101 ∷ 101 ∷ 112 ∷ 108 ∷ 121 ∷ 32 ∷ 116 ∷ 111 ∷ 32
      ∷ 112 ∷ 97 ∷ 114 ∷ 115 ∷ 101 ∷ [])

-- the two renderings of a failure: for the retry prompt, and for the log and the exception
unfoldable pub check_model {ℓ} : {T : Type ℓ} → Validated T → T ⊎ (Text × Text)
unfolding validation_error_digest
check_model (valid a) = inl a
check_model (invalid exc) = inr (take 500 exc.message_text, validation_error_digest exc)

unfoldable pub check_stripped {ℓ} :
    {T : Type ℓ} → (Json → Validated T) → Option Json → T ⊎ (Text × Text)
unfolding check_model
check_stripped validate none = inr (too_deep, too_deep)
check_stripped validate (some obj) = check_model (validate obj)

unfoldable pub check_output {ℓ} : {T : Type ℓ} → (Json → Validated T) → Decoded → T ⊎ (Text × Text)
unfolding strip_nuls check_stripped
check_output validate (decode_error s) = inr (take 500 s, take 500 s)
check_output validate recursion_error = inr (too_deep, too_deep)
check_output validate (decoded v) = check_stripped validate (strip_nuls 0 v)

unfoldable pub correction : Text → Message
correction prompt_error = record {
  role = (117 ∷ 115 ∷ 101 ∷ 114 ∷ []);
  content =
      (89 ∷ 111 ∷ 117 ∷ 114 ∷ 32 ∷ 112 ∷ 114 ∷ 101 ∷ 118 ∷ 105 ∷ 111 ∷ 117 ∷ 115 ∷ 32 ∷ 114 ∷ 101
        ∷ 115 ∷ 112 ∷ 111 ∷ 110 ∷ 115 ∷ 101 ∷ 32 ∷ 102 ∷ 97 ∷ 105 ∷ 108 ∷ 101 ∷ 100 ∷ 32 ∷ 118 ∷ 97
        ∷ 108 ∷ 105 ∷ 100 ∷ 97 ∷ 116 ∷ 105 ∷ 111 ∷ 110 ∷ 58 ∷ 32 ∷ [])
      ++ prompt_error
      ++ (46 ∷ 32 ∷ 82 ∷ 101 ∷ 116 ∷ 117 ∷ 114 ∷ 110 ∷ 32 ∷ 79 ∷ 78 ∷ 76 ∷ 89 ∷ 32 ∷ 118 ∷ 97 ∷ 108
          ∷ 105 ∷ 100 ∷ 32 ∷ 74 ∷ 83 ∷ 79 ∷ 78 ∷ 32 ∷ 109 ∷ 97 ∷ 116 ∷ 99 ∷ 104 ∷ 105 ∷ 110 ∷ 103
          ∷ 32 ∷ 116 ∷ 104 ∷ 101 ∷ 32 ∷ 115 ∷ 99 ∷ 104 ∷ 101 ∷ 109 ∷ 97 ∷ 46 ∷ 32 ∷ 78 ∷ 111 ∷ 32
          ∷ 112 ∷ 114 ∷ 111 ∷ 115 ∷ 101 ∷ 44 ∷ 32 ∷ 110 ∷ 111 ∷ 32 ∷ 102 ∷ 101 ∷ 110 ∷ 99 ∷ 101
          ∷ 115 ∷ 46 ∷ []);
}

-- the messages of the next attempt
unfoldable pub ask_again : List Message → Option Text → List Message
unfolding correction
ask_again messages none = messages
ask_again messages (some e) = messages ++ correction e ∷ []

-- `safe_error or "no detail"`
unfoldable pub final_detail : Option Text → Text
final_detail none = (110 ∷ 111 ∷ 32 ∷ 100 ∷ 101 ∷ 116 ∷ 97 ∷ 105 ∷ 108 ∷ [])
final_detail (some []) = (110 ∷ 111 ∷ 32 ∷ 100 ∷ 101 ∷ 116 ∷ 97 ∷ 105 ∷ 108 ∷ [])
final_detail (some (c ∷ s)) = c ∷ s

module _ {ℓ} {T : Type ℓ} (w : Wire) (c : Config) (loads : Text → Decoded) (extract : Text → Text)
    (validate : Json → Validated T) (max_tokens : ℕ) where
  -- the end of one turn of the loop, where `again` is the rest of it
  unfoldable pub conclude :
      (Text × Text → Client × CallOutcome T) → Client → T ⊎ (Text × Text) → Client × CallOutcome T
  conclude again k (inl a) = (k, returned a)
  conclude again k (inr failure) = again failure

  -- what the loop does with the text that the model returned
  unfoldable pub judge :
      (Text × Text → Client × CallOutcome T) → Client × CallOutcome Text → Client × CallOutcome T
  unfolding check_output conclude
  judge again (k, raised e) = (k, raised e)
  judge again (k, returned raw) = conclude again k (check_output validate (loads (extract raw)))

  -- `for attempt in range(max_retries + 1)`, with the number of chats that are left
  unfoldable pub chat_json_loop :
      ℕ → List Message → Option Text → Option Text → Client → Client × CallOutcome T
  unfolding chat judge ask_again final_detail
  chat_json_loop zero messages prompt_error safe_error k =
      (k, raised (output_invalid (invalid_json (final_detail safe_error))))
  chat_json_loop (suc left) messages prompt_error safe_error k =
      let asked = ask_again messages prompt_error in
      let answer = chat w c asked max_tokens k in
      judge (λ failure. chat_json_loop left asked (some failure.0) (some failure.1) answer.0) answer

  unfoldable pub chat_json : ℕ → List Message → Client → Client × CallOutcome T
  unfolding chat_json_loop
  chat_json max_retries messages k = chat_json_loop (suc max_retries) messages none none k
