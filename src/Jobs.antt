-- ===== src/Jobs.antt =====
-- core/src/services/job_service.py: the status of a job, the write-back of its parse, and the partial
-- update with its audit. The columns that no branch reads are left out.
pub mod Forward
pub mod Audited
pub mod Tests
use recruiter_pilot.Auth.Audit.{record_audit}
use recruiter_pilot.Auth.Model.{
  Actor, AuditRow, Db, Result, blind_review_change, conflict, err, not_found, ok, role_eq, ◌>>=◌,
}
use recruiter_pilot.Base.{
  Bool, List, Option, String, [], any, false, find, if◌then◌else◌, list_eq, map, nat_eq, none, not,
  option_eq, some, string_eq, take, true, ℕ, ◌&&◌, ◌==◌, ◌∷◌,
}
use recruiter_pilot.Base.Dict.{lookup}
use recruiter_pilot.Base.Text.{Text}

-- a row of `jobs`; the extraction is named by a number
pub record JobRow : Type 0 where
  pub job_key : ℕ
  pub job_status : String
  pub description_parsed : Option ℕ
  pub job_parsed_at : Option ℕ
  pub job_failure : Option Text
  pub blind_review : Bool

pub record JobDb : Type 0 where
  pub job_auth : Db
  pub jobs : List JobRow

abbrev pub forward_transitions : List (String × String)
forward_transitions = ("draft", "open") ∷ ("open", "closed") ∷ ("closed", "archived") ∷ []

unfoldable pub get_job : JobDb → ℕ → Option JobRow
get_job db i = find (λ j. j.job_key == i) db.jobs

abbrev pub update_jobs : JobDb → (JobRow → Bool) → (JobRow → JobRow) → Bool × JobDb
update_jobs db p f = (any p db.jobs, record db { jobs = map (λ j. if p j then f j else j) db.jobs })

-- `ValueError` is the route's 409. The row is read and then updated without a guard on its status: this
-- function is the call that no other one interrupts.
unfoldable pub transition_status : JobDb → ℕ → String → Result JobDb
unfolding get_job lookup
transition_status db i to = elim (get_job db i) [
  | none ↦ err not_found
  | some j ↦
      if not (lookup j.job_status forward_transitions == some to)
      then err conflict
      else ok (update_jobs db (λ k. k.job_key == i) (λ k. record k { job_status = to })).1
]

-- `WHERE id = $1 AND status = 'draft'`
abbrev pub is_draft : ℕ → JobRow → Bool
is_draft i j = j.job_key == i && j.job_status == "draft"

-- `record_parsed`, `record_parse_failure` and `clear_parse_failure` of the jobs
unfoldable pub record_job_parsed : JobDb → ℕ → ℕ → ℕ → Bool × JobDb
record_job_parsed db i extracted parsed_at = update_jobs db (is_draft i) (λ j. record j {
  description_parsed = some extracted;
  job_parsed_at = some parsed_at;
  job_failure = none;
})

unfoldable pub record_job_failure : JobDb → ℕ → Text → JobDb
record_job_failure db i reason =
    let done =
      update_jobs db (is_draft i) (λ j. record j { job_failure = some (take 1000 reason) }) in
    done.1

unfoldable pub clear_parse_failure : JobDb → ℕ → JobDb
clear_parse_failure db i =
    let done = update_jobs db (is_draft i) (λ j. record j { job_failure = none }) in done.1

-- `blind`, where the payload sends it, and whether it sends any other column
unfoldable pub set_columns : Option Bool → JobRow → JobRow
set_columns none j = j
set_columns (some b) j = record j { blind_review = b }

abbrev pub toggle_audit : Actor → ℕ → Bool → Bool → AuditRow
toggle_audit actor i old new = record {
  actor = actor;
  action = "blind_review_toggled";
  subject_type = "job";
  subject_id = i;
  job_id = some i;
  details = blind_review_change old new;
}

abbrev pub bool_beq : Bool → Bool → Bool
bool_beq true b = b
bool_beq false b = not b

-- the update and the audit are one transaction
unfoldable pub update_job : JobDb → ℕ → Option Bool → Bool → Actor → Result JobDb
unfolding get_job set_columns record_audit
update_job db i blind others actor = elim (get_job db i) [
  | none ↦ err not_found
  | some j ↦
      let done = update_jobs db (λ k. k.job_key == i) (set_columns blind) in
      elim blind [
        | none ↦ if others then ok done.1 else ok db
        | some b ↦
            if bool_beq j.blind_review b
            then ok done.1
            else record_audit db.job_auth (toggle_audit actor i j.blind_review b) >>= λ auth.
                ok (record done.1 { job_auth = auth })
      ]
]
