-- ===== src/Csrf/Tests.antt =====
-- Runs of the viewer's tokens on a session with two slots.
use recruiter_pilot.Base.{
  String, [], arith, false, length, list_eq, nat_eq, none, option_eq, refl, some, string_eq, true,
  ◌∷◌, ◌≡◌, ◌≢◌, ◌≤◌,
}
use recruiter_pilot.Base.Dict.{lookup}
use recruiter_pilot.Csrf.{
  FlaskSession, issue_token, mapping, max_tokens_per_session, session_key_for, table_value,
  text_entries, verify_and_consume,
}
use recruiter_pilot.Csrf.OneShot.{
  issue_token-verify_and_consume, max_tokens_per_session-kept, verify_and_consume-once,
}

-- the slot of a résumé is its own name here
abbrev digest : String → String
digest s = s

abbrev session : FlaskSession
session = record {
  csrf_token = some (table_value (("r1", some "t1") ∷ ("withdraw:r1", some "t2") ∷ []));
  csrf_page_token = none;
}

accepted_t1 : (verify_and_consume digest "r1" "reveal" session (some "t1")).0 ≡ true
unfolding verify_and_consume session_key_for mapping text_entries lookup
accepted_t1 = refl

verify_and_consume-once_example :
    (verify_and_consume digest "r1" "reveal"
      (verify_and_consume digest "r1" "reveal" session (some "t1")).1
      (some "t1")).0
    ≡ false
verify_and_consume-once_example =
    verify_and_consume-once digest "r1" "reveal" session (some "t1") (some "t1") accepted_t1

issue_token-verify_and_consume_example :
    (verify_and_consume digest "r2" "reveal"
      (issue_token digest "r2" "reveal" session "t4")
      (some "t4")).0
    ≡ true
issue_token-verify_and_consume_example =
    issue_token-verify_and_consume digest "r2" "reveal" session "t4" refl

small : length (mapping session) ≤ max_tokens_per_session
unfolding mapping text_entries
small = omega arith

max_tokens_per_session-kept_example :
    (length (mapping (issue_token digest "r2" "reveal" session "t4")) ≤ max_tokens_per_session)
    × (length (mapping (verify_and_consume digest "r2" "reveal" session (some "t3")).1)
        ≤ max_tokens_per_session)
max_tokens_per_session-kept_example =
    max_tokens_per_session-kept digest "r2" "reveal" session "t4" (some "t3") small

other_slot : "withdraw:r1" ≢ session_key_for digest "r1" "reveal"
unfolding session_key_for
other_slot = ground (arith, string_eq.equals_iff "withdraw:r1" "r1")
