-- ===== src/Llm/Chat.antt =====
-- core/src/pipeline/llm/client.py: `chat`, over both endpoints.
use recruiter_pilot.Base.{Bool, List, [], false, if◌then◌else◌, not, true, ℕ, ◌∷◌}
use recruiter_pilot.Base.Text.{Text, strip}
use recruiter_pilot.Llm.Client.{Client, Config, Message, Wire, chat_body, post_json}
use recruiter_pilot.Llm.Json.{Json, json_string}
use recruiter_pilot.Llm.Values.{
  CallOutcome, and_then, empty_content, first_item, get, json_truthy, no_choices, no_content,
  or_empty, output_invalid, raised, returned,
}

infixl 5 ◌>=>◌
-- an outcome that keeps a client, and what is done with the value it returns
abbrev pub ◌>=>◌ {ℓ κ} :
    {A : Type ℓ} {B : Type κ}
    → Client × CallOutcome A
    → (A → CallOutcome B)
    → Client × CallOutcome B
(k, returned a) >=> f = (k, f a)
(k, raised e) >=> f = (k, raised e)

abbrev pub choices_key : Text
choices_key = (99 ∷ 104 ∷ 111 ∷ 105 ∷ 99 ∷ 101 ∷ 115 ∷ [])

abbrev pub message_key : Text
message_key = (109 ∷ 101 ∷ 115 ∷ 115 ∷ 97 ∷ 103 ∷ 101 ∷ [])

abbrev pub content_key : Text
content_key = (99 ∷ 111 ∷ 110 ∷ 116 ∷ 101 ∷ 110 ∷ 116 ∷ [])

abbrev pub reasoning_key : Text
reasoning_key = (114 ∷ 101 ∷ 97 ∷ 115 ∷ 111 ∷ 110 ∷ 105 ∷ 110 ∷ 103 ∷ [])

abbrev pub thinking_key : Text
thinking_key = (116 ∷ 104 ∷ 105 ∷ 110 ∷ 107 ∷ 105 ∷ 110 ∷ 103 ∷ [])

abbrev pub data_key : Text
data_key = (100 ∷ 97 ∷ 116 ∷ 97 ∷ [])

abbrev pub embedding_key : Text
embedding_key = (101 ∷ 109 ∷ 98 ∷ 101 ∷ 100 ∷ 100 ∷ 105 ∷ 110 ∷ 103 ∷ [])

unfoldable pub is_empty_text : Text → Bool
is_empty_text [] = true
is_empty_text (c ∷ s) = false

-- the text of a message, refused where it is not a string or is blank
unfoldable pub text_content : Json → CallOutcome Bool → CallOutcome Text
unfolding strip is_empty_text
text_content (json_string s) reasoning =
    if is_empty_text (strip s)
    then and_then reasoning (λ r. raised (output_invalid (empty_content r)))
    else returned s
text_content _ reasoning = raised (output_invalid no_content)

-- `bool(message.get("reasoning") or choices[0].get("reasoning"))`
unfoldable pub reasoning_present : Json → Json → CallOutcome Bool
unfolding json_truthy get
reasoning_present message choice = and_then (get reasoning_key message) λ own.
    if json_truthy own
    then returned true
    else and_then (get reasoning_key choice) λ r. returned (json_truthy r)

unfoldable pub openai_content : Json → CallOutcome Text
unfolding json_truthy get first_item or_empty text_content reasoning_present
openai_content payload = and_then (get choices_key payload) λ choices.
    if not (json_truthy choices)
    then raised (output_invalid no_choices)
    else and_then (first_item choices) λ choice. and_then (get message_key choice) λ found.
      let message = or_empty found in
      and_then (get content_key message)
        λ content. text_content content (reasoning_present message choice)

unfoldable pub native_content : Json → CallOutcome Text
unfolding json_truthy get or_empty text_content
native_content payload = and_then (get message_key payload) λ found.
    and_then (get content_key (or_empty found)) λ content.
      text_content content (and_then (get thinking_key payload) λ r. returned (json_truthy r))

-- `chat`, over `_chat_native` or `_chat_openai`
unfoldable pub chat : Wire → Config → List Message → ℕ → Client → Client × CallOutcome Text
unfolding post_json openai_content native_content
chat w c messages max_tokens k =
    if c.native_chat
    then post_json w c (chat_body messages max_tokens) k >=> native_content
    else post_json w c (chat_body messages max_tokens) k >=> openai_content
