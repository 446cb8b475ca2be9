-- ===== src/Resumes/Withdrawal.antt =====
-- core/src/services/resume_service.py: `withdraw_resume` and `reinstate_resume`. Each runs in one
-- transaction: an error leaves the tables as they were.
pub mod Idempotent
use recruiter_pilot.Auth.Audit.{record_audit}
use recruiter_pilot.Auth.Model.{
  Actor, AuditRow, Details, Result, err, not_found, ok, reason_given, role_eq, unspecified, ◌>>=◌,
}
use recruiter_pilot.Base.{
  Bool, List, Option, String, [], false, if◌then◌else◌, is_some, list_eq, ltb, nat_eq, none, not,
  option_eq, some, string_eq, true, ℕ, ◌&&◌, ◌==◌, ◌∷◌,
}
use recruiter_pilot.Llm.Extract.{later}
use recruiter_pilot.Resumes.Model.{
  OutboxRow, ResumeDb, ResumeRow, enqueue_outbox, get_resume, resume_parsed, resume_withdrawn,
  status_eq, update_where,
}

abbrev pub resume_audit : Actor → String → ℕ → Details → AuditRow
resume_audit actor what i d = record {
  actor = actor;
  action = what;
  subject_type = "resume";
  subject_id = i;
  job_id = none;
  details = d;
}

-- `{"reason": reason} if reason else None`
unfoldable pub reason_details : Option String → Details
reason_details none = unspecified
reason_details (some r) = if r == "" then unspecified else reason_given r

abbrev pub set_withdrawn : ℕ → Option String → ResumeRow → ResumeRow
set_withdrawn now reason r = record r { withdrawn_at = some now; withdrawal_reason = reason }

unfoldable pub withdraw_resume : ResumeDb → ℕ → Option String → Actor → Result (Bool × ResumeDb)
unfolding get_resume record_audit enqueue_outbox reason_details
withdraw_resume db i reason actor =
    let done =
      update_where db (λ r. r.resume_id == i && not (is_some r.withdrawn_at))
        (set_withdrawn db.auth.now reason) in
    if not (is_some (get_resume db i))
    then err not_found
    else if not done.0
    then ok (false, db)
    else record_audit done.1.auth (resume_audit actor "withdraw_resume" i (reason_details reason))
      >>= λ auth. ok (true, enqueue_outbox (record done.1 { auth = auth }) i resume_withdrawn)

abbrev pub is_delivered_parse : ℕ → OutboxRow → Bool
is_delivered_parse i o = elim o.event [
  | resume_withdrawn ↦ false
  | resume_parsed payload ↦ o.aggregate_id == i && is_some o.delivered_at
]

abbrev pub delivery_time : OutboxRow → ℕ
delivery_time o = elim o.delivered_at [ none ↦ 0 | some t ↦ t ]

-- `ORDER BY delivered_at DESC, id DESC LIMIT 1`, where the table is in the order of the ids
unfoldable pub last_delivered : ℕ → List OutboxRow → Option OutboxRow
last_delivered i [] = none
last_delivered i (o ∷ os) =
    let later = last_delivered i os in
    if not (is_delivered_parse i o) then later else elim later [
      | none ↦ some o
      | some b ↦ if ltb (delivery_time b) (delivery_time o) then some o else some b
    ]

-- the event that replays a delivered payload, where there is one
unfoldable pub replay : ResumeDb → ℕ → Option OutboxRow → ResumeDb
unfolding enqueue_outbox
replay db i none = db
replay db i (some o) = enqueue_outbox db i o.event

abbrev pub set_reinstated : ResumeRow → ResumeRow
set_reinstated r = record r { withdrawn_at = none; withdrawal_reason = none }

unfoldable pub reinstate_resume : ResumeDb → ℕ → Actor → Result (Bool × ResumeDb)
unfolding get_resume record_audit replay last_delivered
reinstate_resume db i actor =
    let done = update_where db (λ r. r.resume_id == i && is_some r.withdrawn_at) set_reinstated in
    if not (is_some (get_resume db i))
    then err not_found
    else if not done.0
    then ok (false, db)
    else record_audit done.1.auth (resume_audit actor "reinstate_resume" i unspecified) >>= λ auth.
        ok (true, replay (record done.1 { auth = auth }) i (last_delivered i db.outbox))
