-- ===== src/Jobs/Audited.antt =====
-- core/src/services/job_service.py: the audit of `update_job`.
use recruiter_pilot.Auth.Audit.{record_audit}
use recruiter_pilot.Auth.Model.{Actor, blind_review_change, ok, role_eq}
use recruiter_pilot.Base.{
  Bool, Bool-cases, Option, [], arith, false, find, find-holds, find-map, if◌then◌else◌, inl, inr,
  list_eq, map, nat_eq, none, option_eq, some, string_eq, true, ℕ, ◌++◌, ◌==◌, ◌∙◌, ◌∷◌, ◌≡◌, ◌≢◌,
  ◌⊎◌,
}
use recruiter_pilot.Jobs.{JobDb, JobRow, bool_beq, get_job, set_columns, update_job}

-- the audit log and the job's row after a partial update; nothing is sent, the value of before, or another
abbrev pub IsLogged : JobDb → JobDb → ℕ → JobRow → Actor → Option Bool → Type 0
IsLogged db db' i j actor none =
    (db'.job_auth.audit_log ≡ db.job_auth.audit_log) × (get_job db' i ≡ some j)
IsLogged db db' i j actor (some b) =
    (((j.blind_review ≡ b) × (db'.job_auth.audit_log ≡ db.job_auth.audit_log))
      ⊎ ((j.blind_review ≢ b)
          × (db'.job_auth.audit_log
              ≡ db.job_auth.audit_log
                ++ record {
                  actor = actor;
                  action = "blind_review_toggled";
                  subject_type = "job";
                  subject_id = i;
                  job_id = some i;
                  details = blind_review_change j.blind_review b;
                }
                  ∷ [])))
    × (get_job db' i ≡ some (record j { blind_review = b }))

bool_beq_same : (a b : Bool) → bool_beq a b ≡ true → a ≡ b
bool_beq_same a b h = ground (arith, h)

bool_beq_other : (a b : Bool) → bool_beq a b ≡ false → a ≢ b
bool_beq_other a b h = ground (arith, h)

get_job-sent :
    (db : JobDb) (i : ℕ) (j : JobRow) (blind : Option Bool)
    → get_job db i ≡ some j
    → find
        (λ k. k.job_key == i)
        (map (λ k. if k.job_key == i then set_columns blind k else k) db.jobs)
      ≡ some (set_columns blind j)
unfolding get_job set_columns
get_job-sent db i j none found =
    let here = find-holds (λ k. k.job_key == i) db.jobs j found in
    find-map (λ k. k.job_key == i) (λ k. if k.job_key == i then set_columns none k else k)
      (λ k. ground arith) db.jobs j found
    ∙ ground (arith, here)
get_job-sent db i j (some b) found =
    let here = find-holds (λ k. k.job_key == i) db.jobs j found in
    find-map (λ k. k.job_key == i) (λ k. if k.job_key == i then set_columns (some b) k else k)
      (λ k. ground arith) db.jobs j found
    ∙ ground (arith, here)

-- A partial update of a job that succeeds stores the value of `blind_review` that the payload sends, and
-- appends one audit row if that changes it: with the actor, the job, and the old value before the new
-- one. Where the payload leaves the column out, or sends the value that is there, no row is appended.
pub update_job-audited :
    (db db' : JobDb) (i : ℕ) (j : JobRow) (blind : Option Bool) (others : Bool) (actor : Actor)
    → get_job db i ≡ some j
    → update_job db i blind others actor ≡ ok db'
    → IsLogged db db' i j actor blind
unfolding update_job record_audit get_job set_columns
update_job-audited db db' i j none others actor found e =
    ground (arith, found, e, get_job-sent db i j none found)
update_job-audited db db' i j (some b) others actor found e =
    let sent = get_job-sent db i j (some b) found in
    elim (Bool-cases (bool_beq j.blind_review b)) [
      | inl same ↦ (
        inl (bool_beq_same j.blind_review b same, ground (arith, found, e, same)),
        ground (arith, found, e, same, sent),
      )
      | inr other ↦ (
        inr (bool_beq_other j.blind_review b other, ground (arith, found, e, other)),
        ground (arith, found, e, other, sent),
      )
    ]
