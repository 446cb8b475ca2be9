-- ===== src/Csrf/OneShot.antt =====
-- What the one-shot tokens promise.
use recruiter_pilot.Auth.Keys.{truthy}
use recruiter_pilot.Base.{
  ==_refl, Bool-cases, Option, String, arith, false, if◌then◌else◌, inl, inr, is_some, length,
  list_eq, nat_eq, none, option_eq, refl, some, string_eq, true, ◌↔◌, ◌≡◌, ◌≢◌, ◌≤◌,
}
use recruiter_pilot.Base.Dict.{
  erase, insert, length-erase-le, length-insert, lookup, lookup-erase, lookup-insert,
}
use recruiter_pilot.Csrf.{
  FlaskSession, evict_oldest, is_misdirected, is_text, issue_token, mapping, max_tokens_per_session,
  session_key_for, store, verify_and_consume,
}
use recruiter_pilot.Csrf.Slots.{length-evict_oldest, mapping-store}

is_text_iff :
    (o x : Option String)
    → (is_text o x ≡ true) ↔ ((t : String) × (truthy t ≡ true) × (o ≡ some t) × (x ≡ some t))
is_text_iff none x = (λ h. ground arith, λ (t, full, e, f). ground arith)
is_text_iff (some t) none = (λ h. ground arith, λ (u, full, e, f). ground arith)
is_text_iff (some t) (some u) = (
  λ h. (t, ground arith, refl, ground (arith, string_eq.equals_iff t u)),
  λ (v, full, e, f). ground (arith, ==_refl v),
)

module _ (digest : String → String) (resume_id action : String) where
  abbrev slot : FlaskSession → Option String
  slot s = lookup (session_key_for digest resume_id action) (mapping s)

  erased :
      (s : FlaskSession)
      → slot (store s (erase (session_key_for digest resume_id action) (mapping s))) ≡ none
  erased s =
      let key = session_key_for digest resume_id action in
      rw (mapping-store s (erase key (mapping s)))
        (rw (lookup-erase key key (mapping s)) (rw (==_refl key) refl))

  -- the three ways out
  data Outcome (s : FlaskSession) (x : Option String) : Type 0 where
    accepted :
        is_text (slot s) x ≡ true
        → verify_and_consume digest resume_id action s x
          ≡ (true, store s (erase (session_key_for digest resume_id action) (mapping s)))
        → Outcome s x
    misdirected :
        is_misdirected (session_key_for digest resume_id action) x (mapping s) ≡ true
        → verify_and_consume digest resume_id action s x ≡ (false, s)
        → Outcome s x
    burnt :
        verify_and_consume digest resume_id action s x
          ≡ (false, store s (erase (session_key_for digest resume_id action) (mapping s)))
        → Outcome s x

  outcome : (s : FlaskSession) (x : Option String) → Outcome s x
  unfolding verify_and_consume
  outcome s x = elim (Bool-cases (is_text (slot s) x)) [
    | inl e ↦ accepted e (rw e refl)
    | inr e ↦
        elim (Bool-cases (is_misdirected (session_key_for digest resume_id action) x (mapping s))) [
          | inl f ↦ misdirected f (rw e (rw f refl))
          | inr f ↦ burnt (rw e (rw f refl))
        ]
  ]

  -- `verify_and_consume` answers yes exactly to the text that the slot of this résumé and this action
  -- holds, and never to an empty one.
  verify_and_consume_exact :
      (s : FlaskSession) (submitted : Option String)
      → ((verify_and_consume digest resume_id action s submitted).0 ≡ true) ↔ (
          (t : String) × (truthy t ≡ true)
          × (lookup (session_key_for digest resume_id action) (mapping s) ≡ some t)
          × (submitted ≡ some t))
  unfolding verify_and_consume
  verify_and_consume_exact s submitted = ground (arith, is_text_iff (slot s) submitted)

  nothing_accepted :
      (s : FlaskSession) (x : Option String)
      → slot s ≡ none
      → (verify_and_consume digest resume_id action s x).0 ≡ false
  nothing_accepted s x h = elim (outcome s x) [
    | accepted e out ↦ ground arith
    | misdirected e out ↦ rw out refl
    | burnt out ↦ rw out refl
  ]

  -- A token is good for one use: once it was accepted, no text is accepted for its slot, until a new
  -- token is issued.
  pub verify_and_consume-once :
      (s : FlaskSession) (submitted again : Option String)
      → (verify_and_consume digest resume_id action s submitted).0 ≡ true
      → (verify_and_consume digest resume_id action
          (verify_and_consume digest resume_id action s submitted).1
          again).0
        ≡ false
  verify_and_consume-once s submitted again h = elim (outcome s submitted) [
    | accepted e out ↦ rw out (nothing_accepted _ again (erased s))
    | misdirected e out ↦ ground arith
    | burnt out ↦ ground arith
  ]

  issued_slot :
      (s : FlaskSession) (token : String)
      → slot (issue_token digest resume_id action s token) ≡ some token
  unfolding issue_token
  issued_slot s token =
      let key = session_key_for digest resume_id action in
      rw
        (mapping-store s
          (insert key token (if is_some (slot s) then mapping s else evict_oldest (mapping s))))
        (rw
          (lookup-insert key key token
            (if is_some (slot s) then mapping s else evict_oldest (mapping s)))
          (rw (==_refl key) refl))

  -- Issuing a token and handing it in is accepted, whatever the session held before.
  pub issue_token-verify_and_consume :
      (s : FlaskSession) (token : String)
      → truthy token ≡ true
      → (verify_and_consume digest resume_id action
          (issue_token digest resume_id action s token)
          (some token)).0
        ≡ true
  issue_token-verify_and_consume s token h =
      (verify_and_consume_exact (issue_token digest resume_id action s token) (some token)).1
        (token, h, issued_slot s token, refl)

  issue_bound :
      (s : FlaskSession) (token : String)
      → length (mapping s) ≤ max_tokens_per_session
      → length (mapping (issue_token digest resume_id action s token)) ≤ max_tokens_per_session
  unfolding issue_token
  issue_bound s token h =
      let key = session_key_for digest resume_id action in
      elim (Bool-cases (is_some (slot s))) [
        | inl e ↦ rw e (
            rw (mapping-store s (insert key token (mapping s)))
              (rw (length-insert key token (mapping s)) (rw e h)))
        | inr e ↦ rw e (
            rw (mapping-store s (insert key token (evict_oldest (mapping s)))) (
              rw (length-insert key token (evict_oldest (mapping s)))
                (ground (arith, length-evict_oldest (mapping s)))))
      ]

  verify_bound :
      (s : FlaskSession) (x : Option String)
      → length (mapping s) ≤ max_tokens_per_session
      → length (mapping (verify_and_consume digest resume_id action s x).1) ≤ max_tokens_per_session
  verify_bound s x h =
      let key = session_key_for digest resume_id action in
      elim (outcome s x) [
        | accepted e out ↦ rw out (
            rw (mapping-store s (erase key (mapping s)))
              (omega (arith, h, length-erase-le key (mapping s))))
        | misdirected e out ↦ rw out h
        | burnt out ↦ rw out (
            rw (mapping-store s (erase key (mapping s)))
              (omega (arith, h, length-erase-le key (mapping s))))
      ]

  -- A session that holds at most 64 tokens still does after either operation.
  pub max_tokens_per_session-kept :
      (s : FlaskSession) (token : String) (submitted : Option String)
      → length (mapping s) ≤ max_tokens_per_session
      → (length (mapping (issue_token digest resume_id action s token)) ≤ max_tokens_per_session)
        × (length (mapping (verify_and_consume digest resume_id action s submitted).1)
            ≤ max_tokens_per_session)
  max_tokens_per_session-kept s token submitted h =
      (issue_bound s token h, verify_bound s submitted h)

  others_kept :
      (s : FlaskSession) (key : String)
      → key ≢ session_key_for digest resume_id action
      → lookup key (mapping (store s (erase (session_key_for digest resume_id action) (mapping s))))
        ≡ lookup key (mapping s)
  others_kept s key h =
      let own = session_key_for digest resume_id action in
      rw (mapping-store s (erase own (mapping s)))
        (ground (arith, lookup-erase key own (mapping s), string_eq.equals_iff key own))

  -- No other slot is touched by a verification.
  pub verify_and_consume-apart :
      (s : FlaskSession) (submitted : Option String) (key : String)
      → key ≢ session_key_for digest resume_id action
      → lookup key (mapping (verify_and_consume digest resume_id action s submitted).1)
        ≡ lookup key (mapping s)
  verify_and_consume-apart s submitted key h = elim (outcome s submitted) [
    | accepted e out ↦ rw out (others_kept s key h)
    | misdirected e out ↦ rw out refl
    | burnt out ↦ rw out (others_kept s key h)
  ]
