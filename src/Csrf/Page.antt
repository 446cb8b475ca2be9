-- ===== src/Csrf/Page.antt =====
-- What the page token promises.
use recruiter_pilot.Auth.Keys.{truthy}
use recruiter_pilot.Base.{
  ==_refl, Option, Option-cases, String, arith, inl, inr, list_eq, nat_eq, none, option_eq, refl,
  some, string_eq, true, ◌↔◌, ◌≡◌,
}
use recruiter_pilot.Csrf.{
  FlaskSession, issue_page_token, other_value, page_token, table_value, text_value,
  verify_page_token,
}

-- a session with a page token keeps it, and accepts no other text
holds_page_token :
    (s : FlaskSession) (t fresh : String) (submitted : Option String)
    → truthy t ≡ true
    → page_token s ≡ some t
    → (issue_page_token s fresh ≡ (t, s))
      × ((verify_page_token s submitted ≡ true) ↔ (submitted ≡ some t))
unfolding issue_page_token verify_page_token
holds_page_token s t fresh none full e = rw e (refl, (λ h. ground arith, λ h. ground arith))
holds_page_token s t fresh (some x) full e = rw e (
  refl,
  (
    λ h. ground (arith, string_eq.equals_iff t x),
    λ h. ground (arith, string_eq.equals_iff t x, ==_refl t),
  ),
)

page_token_full : (s : FlaskSession) (t : String) → page_token s ≡ some t → truthy t ≡ true
unfolding page_token
page_token_full s t h =
    elim s.csrf_page_token
        as (λ v. page_token (record s { csrf_page_token = v }) ≡ some t → truthy t ≡ true) [
          | none ↦ λ k. ground arith
          | some (text_value x) ↦ λ k. ground arith
          | some (table_value x) ↦ λ k. ground arith
          | some other_value ↦ λ k. ground arith
        ]
      h

fresh_page_token :
    (s : FlaskSession) (t : String)
    → truthy t ≡ true
    → page_token (record s { csrf_page_token = some (text_value t) }) ≡ some t
unfolding page_token
fresh_page_token s t h = rw h refl

-- The page token is stable and repeatable: issued a second time it is the same, and it is the only
-- text that is accepted, as often as it is handed in.
pub issue_page_token-stable :
    (s : FlaskSession) (token fresh : String) (submitted : Option String)
    → truthy token ≡ true
    → let (issued, s') = issue_page_token s token in
      (issue_page_token s' fresh ≡ (issued, s'))
      × ((verify_page_token s' submitted ≡ true) ↔ (submitted ≡ some issued))
unfolding issue_page_token
issue_page_token-stable s token fresh submitted h = elim (Option-cases (page_token s)) [
  | inl e ↦ rw e (
      holds_page_token (record s { csrf_page_token = some (text_value token) }) token fresh
        submitted h (fresh_page_token s token h))
  | inr (stored, e) ↦
      rw e (holds_page_token s stored fresh submitted (page_token_full s stored e) e)
]
