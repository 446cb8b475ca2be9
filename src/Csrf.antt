-- ===== src/Csrf.antt =====
-- The anti-forgery tokens of the viewer, core/frontend/csrf.py. Flask's signed session is a state that
-- is passed along; the truncated sha256 of the slot, the minted token (`secrets.token_urlsafe`) and
-- `urlsplit` are parameters.
pub mod OneShot
pub mod Page
pub mod Slots
mod Tests
use Prim.Native.String.{◌++◌ as concat}
use recruiter_pilot.Auth.Keys.{truthy}
use recruiter_pilot.Base.{
  Bool, List, Option, String, [], any, false, if◌then◌else◌, is_some, leb, length, list_eq, map,
  nat_eq, none, not, option_eq, some, string_eq, true, ℕ, ◌&&◌, ◌==◌, ◌∷◌,
}
use recruiter_pilot.Base.Dict.{Dict, erase, insert, lookup}

-- a value of the session: what an older release stored may have any shape
pub data Value : Type 0 where
  text_value : String → Value
  table_value : List (String × Option String) → Value
  other_value : Value

pub record FlaskSession : Type 0 where
  pub csrf_token : Option Value
  pub csrf_page_token : Option Value

-- `MAX_TOKENS_PER_SESSION`
abbrev pub max_tokens_per_session : ℕ
max_tokens_per_session = 64

-- the `str -> str` part of a stored table
unfoldable pub text_entries : List (String × Option String) → Dict String String
text_entries [] = []
text_entries ((k, none) ∷ entries) = text_entries entries
text_entries ((k, some v) ∷ entries) = (k, v) ∷ text_entries entries

-- `_mapping`
unfoldable pub mapping : FlaskSession → Dict String String
unfolding text_entries
mapping session = elim session.csrf_token [
  | some (table_value entries) ↦ text_entries entries
  | _ ↦ []
]

-- `flask.session[SESSION_KEY] = mapping`
unfoldable pub store : FlaskSession → Dict String String → FlaskSession
store session slots = record session {
  csrf_token = some (table_value (map (λ e. (e.0, some e.1)) slots));
}

-- `del mapping[next(iter(mapping))]` while the mapping is full
unfoldable pub evict_oldest : Dict String String → Dict String String
evict_oldest [] = []
evict_oldest (e ∷ slots) =
    let rest = evict_oldest slots in
    if leb max_tokens_per_session (length (e ∷ slots)) then rest else e ∷ slots

abbrev pub has_text : Option String → Bool
has_text none = false
has_text (some s) = truthy s

-- is the text, where there is one, that of the slot
abbrev pub is_text : Option String → Option String → Bool
is_text (some stored) (some submitted) = truthy stored && truthy submitted && stored == submitted
is_text none submitted = false
is_text (some stored) none = false

-- is the text a live token of another slot
unfoldable pub is_misdirected : String → Option String → Dict String String → Bool
is_misdirected key none slots = false
is_misdirected key (some submitted) slots =
    truthy submitted && any (λ e. not (e.0 == key) && e.1 == submitted) slots

-- `_session_key_for`, the digest being the cut sha256 of the seed
unfoldable pub session_key_for : (String → String) → String → String → String
session_key_for digest resume_id action =
    digest (if action == "reveal" then resume_id else concat action (concat ":" resume_id))

module _ (digest : String → String) (resume_id action : String) where
  abbrev key : String
  key = session_key_for digest resume_id action

  -- the minted token is the last argument
  unfoldable pub issue_token : FlaskSession → String → FlaskSession
  issue_token session token =
      let slots = mapping session in
      let room = if is_some (lookup key slots) then slots else evict_oldest slots in
      store session (insert key token room)

  unfoldable pub verify_and_consume : FlaskSession → Option String → Bool × FlaskSession
  verify_and_consume session submitted =
      let slots = mapping session in
      if is_text (lookup key slots) submitted
      then (true, store session (erase key slots))
      else if is_misdirected key submitted slots
      then (false, session)
      else (false, store session (erase key slots))

-- the page token that a session holds, where it is a text and not empty
unfoldable pub page_token : FlaskSession → Option String
page_token session = elim session.csrf_page_token [
  | some (text_value stored) ↦ if truthy stored then some stored else none
  | _ ↦ none
]

-- a stored token is answered as it is
abbrev pub page_token_or : FlaskSession → String → Option String → String × FlaskSession
page_token_or session token (some stored) = (stored, session)
page_token_or session token none =
    (token, record session { csrf_page_token = some (text_value token) })

unfoldable pub issue_page_token : FlaskSession → String → String × FlaskSession
issue_page_token session token = page_token_or session token (page_token session)

unfoldable pub verify_page_token : FlaskSession → Option String → Bool
unfolding page_token
verify_page_token session submitted = is_text (page_token session) submitted

-- `Origin`, or `Referer` where that is missing or empty
abbrev pub declared_by : Option String → Option String → Option String
declared_by origin referer = if has_text origin then origin else referer

unfoldable pub same_origin : (String → String) → String → Option String → Option String → Bool
same_origin origin_of host_url origin referer = elim (declared_by origin referer) [
  | none ↦ true
  | some declared ↦ if truthy declared then origin_of declared == origin_of host_url else true
]
