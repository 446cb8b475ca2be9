-- ===== src/Resumes/Status.antt =====
-- core/src/services/resume_service.py: the guarded updates of the parse state, and the counts by
-- bucket.
pub mod Buckets
use recruiter_pilot.Base.{
  Bool, filter, is_some, length, list_eq, nat_eq, none, not, option_eq, some, string_eq, take, ℕ,
  ◌&&◌, ◌==◌,
}
use recruiter_pilot.Base.Text.{Text}
use recruiter_pilot.Resumes.Model.{
  ResumeDb, ResumeRow, ResumeStatus, failed, is_parseable, parsed, parsing, status_eq, update_where,
  uploaded,
}

abbrev pub max_reason_chars : ℕ
max_reason_chars = 1000

unfoldable pub claim_parsing : ResumeDb → ℕ → Bool × ResumeDb
claim_parsing db i =
    update_where db (λ r. r.resume_id == i && r.status == uploaded)
      (λ r. record r { status = parsing })

-- the columns of the parse result but the degraded flag are left out
unfoldable pub record_parsed : ResumeDb → ℕ → Bool → Bool × ResumeDb
unfolding is_parseable
record_parsed db i is_degraded =
    update_where db (λ r. r.resume_id == i && is_parseable r.status)
      (λ r. record r { status = parsed; degraded = is_degraded; failure_reason = none })

unfoldable pub record_parse_failure : ResumeDb → ℕ → Text → ResumeDb
unfolding is_parseable
record_parse_failure db i reason =
    let done =
      update_where db (λ r. r.resume_id == i && is_parseable r.status)
        (λ r. record r { status = failed; failure_reason = some (take max_reason_chars reason) }) in
    done.1

pub record Breakdown : Type 0 where
  pub uploaded_count : ℕ
  pub parsing_count : ℕ
  pub parsed_count : ℕ
  pub failed_count : ℕ
  pub withdrawn_count : ℕ
  pub degraded_count : ℕ

abbrev pub in_bucket : ResumeStatus → ResumeRow → Bool
in_bucket s r = not (is_some r.withdrawn_at) && r.status == s

unfoldable pub status_breakdown : ResumeDb → ℕ → Breakdown
status_breakdown db job =
    let rows = filter (λ r. r.resume_job == job) db.resumes in
    record {
      uploaded_count = length (filter (in_bucket uploaded) rows);
      parsing_count = length (filter (in_bucket parsing) rows);
      parsed_count = length (filter (in_bucket parsed) rows);
      failed_count = length (filter (in_bucket failed) rows);
      withdrawn_count = length (filter (λ r. is_some r.withdrawn_at) rows);
      degraded_count = length (filter (λ r. in_bucket parsed r && r.degraded) rows);
    }
