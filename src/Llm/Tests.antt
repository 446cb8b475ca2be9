-- ===== src/Llm/Tests.antt =====
-- Runs of the model client against an endpoint that is overloaded once and then answers.
use recruiter_pilot.Base.{
  All, IfSome, List, [], arith, eqb, false, if◌then◌else◌, is_some, leb, length, none, refl, some,
  ◌*◌, ◌+◌, ◌∷◌, ◌≡◌, ◌≤◌, ◌⊎◌,
}
use recruiter_pilot.Base.Text.{Text, is_space}
use recruiter_pilot.Llm.Chat.{choices_key, content_key, data_key, embedding_key, message_key}
use recruiter_pilot.Llm.ChatJson.{Decoded, Validated, chat_json, decoded, valid}
use recruiter_pilot.Llm.ChatJson.Accepted.{IsAccepted, chat_json-IsAccepted}
use recruiter_pilot.Llm.ChatJson.Requests.{chat_json-guarded}
use recruiter_pilot.Llm.Client.{
  Client, Config, Message, Wire, chat_body, connection_lost, cooling, post_json, response,
}
use recruiter_pilot.Llm.Client.Breaker.{IsConsistent}
use recruiter_pilot.Llm.Client.Closing.{post_json-half_open, post_json-outage}
use recruiter_pilot.Llm.Embed.{embed}
use recruiter_pilot.Llm.Embed.Counted.{HasDim, IfReturned, embed-HasDim}
use recruiter_pilot.Llm.Extract.{extract_json}
use recruiter_pilot.Llm.Json.{
  Json, json_array, json_field, json_item, json_null, json_object, json_string, no_fields, no_items,
  strip_nuls,
}
use recruiter_pilot.Llm.Json.Clean.{IsNulFree, nesting, strip_nuls-exact}
use recruiter_pilot.Llm.Values.{raised, returned, unavailable}

abbrev answer_text : Text
answer_text = (123 ∷ 34 ∷ 97 ∷ 34 ∷ 58 ∷ 32 ∷ 49 ∷ 125 ∷ [])

abbrev answer : Json
answer = json_object (
    json_field choices_key
      (json_array (
        json_item
          (json_object (
            json_field message_key
              (json_object (json_field content_key (json_string answer_text) no_fields)) no_fields))
          no_items))
      no_fields)

abbrev overloaded_once : Wire
overloaded_once = record {
  reply = λ n. if eqb n 0 then response 503 none else response 200 (some answer);
  latency = λ n. 5;
  jitter = λ n. 250;
}

abbrev silent : Wire
silent = record { reply = λ n. connection_lost; latency = λ n. 5; jitter = λ n. 0 }

abbrev limits : Config
limits = record {
  native_chat = false;
  max_retries = 2;
  breaker_threshold = 10;
  breaker_cooldown = 30000;
  expected_dim = some 1;
}

abbrev fresh : Client
fresh = record { consecutive_failures = 0; opened_at = none; clock = 100; requests = [] }

abbrev was_open : Client
was_open = record { consecutive_failures = 10; opened_at = some 0; clock = 40000; requests = [] }

abbrev as_string : Text → Decoded
as_string s = decoded (json_string s)

abbrev whole : Text → Text
whole s = s

abbrev anything_valid : Json → Validated Json
anything_valid v = valid v

abbrev question : List Message
question =
    record { role = (117 ∷ 115 ∷ 101 ∷ 114 ∷ []); content = (112 ∷ 97 ∷ 114 ∷ 115 ∷ 101 ∷ []) } ∷ []

-- the second request is answered, and the client has slept one second in between
answered :
    (chat_json overloaded_once limits as_string whole anything_valid 64 1 question fresh).1
    ≡ returned (json_string answer_text)
unfolding chat_json is_space
answered = refl

extracted :
    extract_json
      (λ s. none)
      (83 ∷ 117 ∷ 114 ∷ 101 ∷ 58 ∷ 32 ∷ 123 ∷ 34 ∷ 97 ∷ 34 ∷ 58 ∷ 32 ∷ 49 ∷ 125 ∷ 32 ∷ 45 ∷ 32 ∷ 100
        ∷ 111 ∷ 110 ∷ 101 ∷ [])
    ≡ (123 ∷ 34 ∷ 97 ∷ 34 ∷ 58 ∷ 32 ∷ 49 ∷ 125 ∷ [])
unfolding extract_json is_space
extracted = refl

chat_json-guarded_example :
    (length
        (chat_json overloaded_once limits as_string whole anything_valid 64 1 question
          fresh).0.requests
      ≤ 0 + 2 * 3)
    × IsConsistent limits
        (chat_json overloaded_once limits as_string whole anything_valid 64 1 question fresh).0
    × (cooling limits fresh ≡ false
        ⊎ (chat_json overloaded_once limits as_string whole anything_valid 64 1 question fresh
            ≡ (fresh, raised unavailable)))
chat_json-guarded_example =
    chat_json-guarded overloaded_once limits as_string whole anything_valid 64 1 question fresh
      (omega arith) refl

chat_json-IsAccepted_example :
    IfReturned
      (IsAccepted overloaded_once limits as_string whole anything_valid 64)
      (chat_json overloaded_once limits as_string whole anything_valid 64 1 question fresh).1
chat_json-IsAccepted_example =
    chat_json-IsAccepted overloaded_once limits as_string whole anything_valid 64 1 question fresh

strip_nuls-exact_example :
    (is_some (strip_nuls 0 (json_array (json_item (json_string (97 ∷ 0 ∷ [])) no_items)))
      ≡ leb (nesting (json_array (json_item (json_string (97 ∷ 0 ∷ [])) no_items))) 200)
    × IfSome IsNulFree (strip_nuls 0 (json_array (json_item (json_string (97 ∷ 0 ∷ [])) no_items)))
strip_nuls-exact_example =
    strip_nuls-exact (json_array (json_item (json_string (97 ∷ 0 ∷ [])) no_items))

cooled : cooling limits was_open ≡ false
unfolding cooling
cooled = refl

post_json-half_open_example :
    (post_json silent limits (chat_body question 64) was_open).0.opened_at ≡ none
post_json-half_open_example =
    post_json-half_open silent limits (chat_body question 64) was_open (omega arith) refl cooled

post_json-outage_example :
    ((post_json silent limits (chat_body question 64) fresh).1 ≡ raised unavailable)
    × ((post_json silent limits (chat_body question 64) fresh).0.consecutive_failures ≡ 0 + 3)
    × (is_some (post_json silent limits (chat_body question 64) fresh).0.opened_at ≡ leb 10 (0 + 3))
post_json-outage_example =
    post_json-outage silent limits (chat_body question 64) fresh (omega arith) refl refl (λ n. refl)

abbrev one_vector : Wire
one_vector = record {
  reply = λ n. response 200 (
      some (
        json_object (
          json_field data_key
            (json_array (
              json_item
                (json_object
                  (json_field embedding_key (json_array (json_item json_null no_items)) no_fields))
                no_items))
            no_fields)));
  latency = λ n. 5;
  jitter = λ n. 0;
}

embed-HasDim_example :
    IfReturned
      (λ vs. (length vs ≡ 1) × All (HasDim (some 1)) vs)
      (embed (λ v. returned v) one_vector limits ((115 ∷ 107 ∷ 105 ∷ 108 ∷ 108 ∷ []) ∷ []) fresh).1
    × (embed (λ v. returned v) one_vector limits [] fresh ≡ (fresh, returned []))
embed-HasDim_example =
    embed-HasDim (λ v. returned v) one_vector limits ((115 ∷ 107 ∷ 105 ∷ 108 ∷ 108 ∷ []) ∷ []) fresh
