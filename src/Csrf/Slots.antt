-- ===== src/Csrf/Slots.antt =====
-- The slots of a session: how many, and which of them an operation touches.
use recruiter_pilot.Base.{
  String, [], ap, arith, length, list_eq, map, nat_eq, option_eq, refl, some, string_eq, ◌+◌, ◌∷◌,
  ◌≡◌, ◌≤◌,
}
use recruiter_pilot.Base.Dict.{Dict}
use recruiter_pilot.Csrf.{
  FlaskSession, evict_oldest, mapping, max_tokens_per_session, store, text_entries,
}

stored_entries :
    (slots : Dict String String) → text_entries (map (λ e. (e.0, some e.1)) slots) ≡ slots
unfolding text_entries
stored_entries [] = refl
stored_entries ((k, v) ∷ slots) = ap (◌∷◌ (k, v)) (stored_entries slots)

pub mapping-store :
    (s : FlaskSession) (slots : Dict String String) → mapping (store s slots) ≡ slots
unfolding mapping store
mapping-store s slots = stored_entries slots

pub length-evict_oldest :
    (slots : Dict String String) → length (evict_oldest slots) + 1 ≤ max_tokens_per_session
unfolding evict_oldest
length-evict_oldest [] = omega arith
length-evict_oldest (e ∷ slots) = ground (arith, length-evict_oldest slots)
