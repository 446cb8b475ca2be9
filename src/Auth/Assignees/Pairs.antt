-- ===== src/Auth/Assignees/Pairs.antt =====
-- The assignment table as a set of (job, user) pairs.
use recruiter_pilot.Auth.Assignees.{assign, is_pair, unassign, upsert}
use recruiter_pilot.Auth.Model.{Assignment, Db, ok, role_eq}
use recruiter_pilot.Base.{
  Bool, List, [], any, arith, false, filter, list_eq, nat_eq, not, option_eq, refl, string_eq, ℕ,
  ◌&&◌, ◌==◌, ◌||◌, ◌∷◌, ◌≡◌,
}

abbrev pub assigned : List Assignment → ℕ → ℕ → Bool
assigned rows job_id user_id = any (is_pair job_id user_id) rows

-- the primary key of `job_assignees`
abbrev pub UniquePairs : List Assignment → Type 0
UniquePairs [] = Unit
UniquePairs (a ∷ rest) = (assigned rest a.job_id a.user_id ≡ false) × UniquePairs rest

assigned-upsert :
    (row : Assignment) (rows : List Assignment) (j u : ℕ)
    → assigned (upsert row rows) j u ≡ (is_pair j u row || assigned rows j u)
unfolding upsert
assigned-upsert row [] j u = refl
assigned-upsert row (a ∷ rows) j u = ground (arith, assigned-upsert row rows j u)

UniquePairs-upsert :
    (row : Assignment) (rows : List Assignment) → UniquePairs rows → UniquePairs (upsert row rows)
unfolding upsert
UniquePairs-upsert row [] h = (refl, tt)
UniquePairs-upsert row (a ∷ rows) h =
    ground (arith, UniquePairs-upsert row rows h.1, assigned-upsert row rows a.job_id a.user_id)

assigned-without :
    (job_id user_id : ℕ) (rows : List Assignment) (j u : ℕ)
    → assigned (filter (λ a. not (is_pair job_id user_id a)) rows) j u
      ≡ (assigned rows j u && not (j == job_id && u == user_id))
assigned-without job_id user_id [] j u = refl
assigned-without job_id user_id (a ∷ rows) j u =
    ground (arith, assigned-without job_id user_id rows j u)

-- An accepted assignment adds exactly its pair and keeps every other one, and the table has no pair
-- twice, also when the pair was there.
assign-pairs :
    (job_exists : ℕ → Bool) (db db' : Db) (job_id user_id by : ℕ)
    → UniquePairs db.job_assignees
    → assign job_exists db job_id user_id by ≡ ok db'
    → UniquePairs db'.job_assignees
      × ((j u : ℕ)
          → assigned db'.job_assignees j u
            ≡ (job_id == j && user_id == u || assigned db.job_assignees j u))
unfolding assign
assign-pairs job_exists db db' job_id user_id by unique h =
    let row : Assignment = record {
      job_id = job_id;
      user_id = user_id;
      assigned_by = by;
      assigned_at = db.now;
    } in
    let e : db'.job_assignees ≡ upsert row db.job_assignees = ground arith in
    (
      rw e (UniquePairs-upsert row db.job_assignees unique),
      λ j u. rw e (assigned-upsert row db.job_assignees j u),
    )

-- Removing a pair removes exactly that pair, and the flag says whether it was there.
pub unassign-pairs :
    (db : Db) (job_id user_id j u : ℕ)
    → ((unassign db job_id user_id).1 ≡ assigned db.job_assignees job_id user_id)
      × (assigned (unassign db job_id user_id).0.job_assignees j u
          ≡ (assigned db.job_assignees j u && not (j == job_id && u == user_id)))
unfolding unassign
unassign-pairs db job_id user_id j u = (refl, assigned-without job_id user_id db.job_assignees j u)
