-- ===== src/Llm/Embed/Counted.antt =====
-- core/src/pipeline/llm/client.py: the number and the dimension of the vectors that `embed` returns.
use recruiter_pilot.Base.{
  All, List, Option, [], ap, arith, length, none, refl, some, suc, ℕ, ◌∷◌, ◌≡◌,
}
use recruiter_pilot.Base.Text.{Text}
use recruiter_pilot.Llm.Chat.{data_key, embedding_key, ◌>=>◌}
use recruiter_pilot.Llm.Client.{Client, Config, Wire, embed_body, post_json}
use recruiter_pilot.Llm.Embed.{
  as_vector, count_items, data_items, embed, read_embeddings, read_vector, read_vectors,
}
use recruiter_pilot.Llm.Json.{Items, Json, json_array, json_item, no_items}
use recruiter_pilot.Llm.Values.{CallOutcome, and_then, get, raised, returned}

abbrev pub HasDim {ℓ} : {F : Type ℓ} → Option ℕ → List F → Type 0
HasDim none v = Unit
HasDim (some d) v = length v ≡ d

-- what holds of the value, where one is returned
abbrev pub IfReturned {ℓ κ} : {A : Type ℓ} → (A → Type κ) → CallOutcome A → Type κ
IfReturned P (returned a) = P a
IfReturned P (raised e) = Unit

and_then-IfReturned {ℓ κ} :
    {A : Type ℓ} {B : Type κ} (P : A → Type 0) (Q : B → Type 0) (r : CallOutcome A)
    (f : A → CallOutcome B)
    → IfReturned P r
    → ((a : A) → P a → IfReturned Q (f a))
    → IfReturned Q (and_then r f)
and_then-IfReturned P Q (returned a) f h k = k a h
and_then-IfReturned P Q (raised e) f h k = tt

pub reply-IfReturned {ℓ κ} :
    {A : Type ℓ} {B : Type κ} (Q : B → Type 0) (r : Client × CallOutcome A) (f : A → CallOutcome B)
    → ((a : A) → IfReturned Q (f a))
    → IfReturned Q (r >=> f).1
reply-IfReturned Q (k, returned a) f h = h a
reply-IfReturned Q (k, raised e) f h = tt

pub anything {ℓ} : {A : Type ℓ} (r : CallOutcome A) → IfReturned {ℓ, 0} (λ a. Unit) r
anything (returned a) = tt
anything (raised e) = tt

module _ {ℓ} {F : Type ℓ} (to_float : Json → CallOutcome F) where
  as_vector-length :
      (xs : Items) → IfReturned (λ v. length v ≡ count_items xs) (as_vector to_float xs)
  unfolding as_vector count_items
  as_vector-length no_items = refl
  as_vector-length (json_item v vs) =
      and_then-IfReturned _ _ (to_float v) _ (anything (to_float v)) (λ x _.
        and_then-IfReturned _ _ (as_vector to_float vs) _ (as_vector-length vs) (λ xs h. ap suc h))

  read_vector-HasDim :
      (dim : Option ℕ) (v : Json) → IfReturned (HasDim dim) (read_vector to_float dim v)
  unfolding read_vector
  read_vector-HasDim none (json_array xs) = anything (as_vector to_float xs)
  read_vector-HasDim (some d) (json_array xs) = ground (arith, as_vector-length xs)
  read_vector-HasDim dim _ = tt

  read_vectors-HasDim :
      (dim : Option ℕ) (xs : Items)
      → IfReturned
          (λ vs. (length vs ≡ count_items xs) × All (HasDim dim) vs)
          (read_vectors to_float dim xs)
  unfolding read_vectors count_items
  read_vectors-HasDim dim no_items = (refl, tt)
  read_vectors-HasDim dim (json_item v vs) =
      and_then-IfReturned _ _ (get embedding_key v) _ (anything (get embedding_key v)) (λ entry _.
        and_then-IfReturned _ _ (read_vector to_float dim entry) _ (read_vector-HasDim dim entry)
          (λ x hx.
            and_then-IfReturned _ _ (read_vectors to_float dim vs) _ (read_vectors-HasDim dim vs)
              (λ xs h. (ap suc h.0, (hx, h.1)))))

  read_embeddings-HasDim :
      (dim : Option ℕ) (n : ℕ) (payload : Json)
      → IfReturned
          (λ vs. (length vs ≡ n) × All (HasDim dim) vs)
          (read_embeddings to_float dim n payload)
  unfolding read_embeddings
  read_embeddings-HasDim dim n payload =
      and_then-IfReturned _ _ (get data_key payload) _ (anything (get data_key payload)) (λ found _.
        and_then-IfReturned _ _ (data_items found) _ (anything (data_items found))
          (λ entries _. ground (arith, read_vectors-HasDim dim entries)))

  embed-IfReturned :
      (w : Wire) (c : Config) (texts : List Text) (k : Client)
      → IfReturned
          (λ vs. (length vs ≡ length texts) × All (HasDim c.expected_dim) vs)
          (embed to_float w c texts k).1
  unfolding embed
  embed-IfReturned w c [] k = (refl, tt)
  embed-IfReturned w c (t ∷ ts) k =
      reply-IfReturned _ (post_json w c (embed_body (t ∷ ts)) k) _
        (read_embeddings-HasDim c.expected_dim (length (t ∷ ts)))

  -- What `embed` returns has one vector for each text, and where a dimension is expected, each vector
  -- has it. For no text it returns no vector, and the client is as before: nothing is sent, not even
  -- the breaker is consulted.
  pub embed-HasDim :
      (w : Wire) (c : Config) (texts : List Text) (k : Client)
      → IfReturned
          (λ vs. (length vs ≡ length texts) × All (HasDim c.expected_dim) vs)
          (embed to_float w c texts k).1
        × (embed to_float w c [] k ≡ (k, returned []))
  unfolding embed
  embed-HasDim w c texts k = (embed-IfReturned w c texts k, refl)
