-- ===== src/Resumes/Races.antt =====
-- The parse task, the withdrawal and the drainer of core/src/worker/resume_tasks.py,
-- core/src/services/resume_service.py and core/src/worker/graph_tasks.py, in the orders in which they
-- can run.
pub mod Late
pub mod Lost
use recruiter_pilot.Base.{
  All, Bool, List, [], ap, arith, contains, contains-append, false, filter, is_some, length,
  list_eq, ltb, nat_eq, none, not, option_eq, refl, string_eq, suc, take, true, zero, ℕ, ◌&&◌, ◌++◌,
  ◌+◌, ◌<◌, ◌∷◌, ◌≡◌, ◌≤◌,
}
use recruiter_pilot.Resumes.Drain.{
  Drainer, apply_event, deliver, project_resume, project_to_graph, select_undelivered,
  skills_needed, unproject_resume,
}
use recruiter_pilot.Resumes.Model.{Event, OutboxRow, ResumeDb, status_eq}

-- nothing waits in the outbox
abbrev pub IsDrained : ResumeDb → Type 0
IsDrained db = All (λ o. is_some o.delivered_at ≡ true) db.outbox

-- a drain with time and attempts left, whose projections succeed
pub record IsUnhurried (d : Drainer) : Type 0 where
  pub room : 2 ≤ d.batch_size
  pub first_try : 0 < d.max_delivery_attempts
  pub succeeding : (n : ℕ) → d.succeeds n ≡ true
  pub in_time : (n : ℕ) → d.past_deadline n ≡ false
  pub affordable : (payload : ℕ) → d.skill_count payload ≤ d.skill_budget

pub select-drained :
    (d : Drainer) (p : OutboxRow → Bool) (old new : List OutboxRow)
    → All (λ o. is_some o.delivered_at ≡ true) old
    → filter (λ o. not (is_some o.delivered_at) && p o) (old ++ new)
      ≡ filter (λ o. not (is_some o.delivered_at) && p o) new
select-drained d p [] new h = refl
select-drained d p (o ∷ old) new h = rw h.0 (select-drained d p old new h.1)

pub contains-unproject : (i : ℕ) (graph : List ℕ) → contains (unproject_resume graph i) i ≡ false
unfolding unproject_resume
contains-unproject i [] = refl
contains-unproject i (j ∷ graph) = ground (arith, contains-unproject i graph)

pub contains-project : (i : ℕ) (graph : List ℕ) → contains (project_resume graph i) i ≡ true
unfolding project_resume
contains-project i graph = ground (arith, contains-append graph (i ∷ []) i)

-- the events that are appended to a drained outbox, not yet delivered
abbrev pub waiting : ℕ → ℕ → Event → OutboxRow
waiting n i e = record {
  outbox_id = n;
  aggregate_id = i;
  event = e;
  delivered_at = none;
  delivery_attempts = 0;
}

take-all {ℓ} : {A : Type ℓ} (n : ℕ) (xs : List A) → length xs ≤ n → take n xs ≡ xs
take-all zero [] h = refl
take-all zero (x ∷ xs) h = ground arith
take-all (suc n) [] h = refl
take-all (suc n) (x ∷ xs) h = ap (◌∷◌ x) (take-all n xs (omega arith))

module _ (d : Drainer) (unhurried : IsUnhurried d) where
  tried :
      (n i : ℕ) (e : Event) → ltb (waiting n i e).delivery_attempts d.max_delivery_attempts ≡ true
  tried n i e = ground (arith, unhurried.first_try)

  select_one :
      (old : List OutboxRow) (n i : ℕ) (e : Event)
      → All (λ o. is_some o.delivered_at ≡ true) old
      → select_undelivered d (old ++ waiting n i e ∷ []) ≡ waiting n i e ∷ []
  unfolding select_undelivered
  select_one old n i e drained =
      rw (select-drained d (λ o. ltb o.delivery_attempts d.max_delivery_attempts) old _ drained)
        (rw (tried n i e) (take-all d.batch_size _ (omega (arith, unhurried.room))))

  select_two :
      (old : List OutboxRow) (n m i : ℕ) (e f : Event)
      → All (λ o. is_some o.delivered_at ≡ true) old
      → select_undelivered d (old ++ waiting n i e ∷ waiting m i f ∷ [])
        ≡ waiting n i e ∷ waiting m i f ∷ []
  unfolding select_undelivered
  select_two old n m i e f drained =
      rw (select-drained d (λ o. ltb o.delivery_attempts d.max_delivery_attempts) old _ drained)
        (rw (tried n i e) (take-all d.batch_size _ (omega (arith, unhurried.room))))

  pub drain_one :
      (db : ResumeDb) (old : List OutboxRow) (n i : ℕ) (e : Event)
      → db.outbox ≡ old ++ waiting n i e ∷ []
      → All (λ o. is_some o.delivered_at ≡ true) old
      → (project_to_graph d db).1.graph ≡ apply_event db.graph (waiting n i e)
  unfolding project_to_graph deliver
  drain_one db old n i e shape drained =
      rw shape (rw (select_one old n i e drained) (ground (arith, unhurried.succeeding n)))

  pub drain_two :
      (db : ResumeDb) (old : List OutboxRow) (n m i : ℕ) (e f : Event)
      → db.outbox ≡ old ++ waiting n i e ∷ waiting m i f ∷ []
      → All (λ o. is_some o.delivered_at ≡ true) old
      → skills_needed d (waiting n i e) + skills_needed d (waiting m i f) ≤ d.skill_budget
      → (project_to_graph d db).1.graph
        ≡ apply_event (apply_event db.graph (waiting n i e)) (waiting m i f)
  unfolding project_to_graph deliver
  drain_two db old n m i e f shape drained cheap = rw shape (
      rw (select_two old n m i e f drained)
        (ground (arith, unhurried.succeeding n, unhurried.succeeding m, unhurried.in_time m)))
