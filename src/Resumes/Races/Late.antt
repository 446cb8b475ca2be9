-- ===== src/Resumes/Races/Late.antt =====
-- A withdrawal around the parse task: core/src/worker/resume_tasks.py reads `withdrawn_at` at the start
-- of the task and uses it at the end.
use recruiter_pilot.Auth.Model.{Actor, ok, role_eq}
use recruiter_pilot.Base.{
  Option, String, contains, false, if◌then◌else◌, is_some, length, list_eq, nat_eq, none, option_eq,
  refl, some, string_eq, true, ℕ, ◌&&◌, ◌==◌, ◌≡◌,
}
use recruiter_pilot.Resumes.Drain.{Drainer, apply_event, project_to_graph}
use recruiter_pilot.Resumes.Model.{
  ResumeDb, ResumeRow, enqueue_outbox, get_resume, is_parseable, parsed, parsing, resume_withdrawn,
  status_eq, uploaded,
}
use recruiter_pilot.Resumes.Parse.{Ending, Snapshot, parse_finish, work_parsed}
use recruiter_pilot.Resumes.Races.{IsDrained, IsUnhurried, contains-unproject, drain_one}
use recruiter_pilot.Resumes.Status.{claim_parsing}
use recruiter_pilot.Resumes.Withdrawal.{withdraw_resume}
use recruiter_pilot.Resumes.Withdrawal.Idempotent.{MayAct, withdraw_resume-tables, withdrawn_tables}

-- Where nothing waits in the outbox, a withdrawal of a résumé that is not withdrawn, by an actor that the
-- audit table admits, takes the résumé out of the graph at the next drain, and with it out of the pool
-- that ranking starts from, if that drain is unhurried: it may take two rows, has a delivery attempt, has
-- time and budget, and its projections succeed.
pub withdraw_resume-leaves_pool :
    (d : Drainer) (i : ℕ) (db : ResumeDb) (r : ResumeRow) (reason : Option String) (actor : Actor)
    → IsUnhurried d
    → IsDrained db
    → get_resume db i ≡ some r
    → r.withdrawn_at ≡ none
    → MayAct db actor
    → let gone = withdrawn_tables i db reason actor in
      (withdraw_resume db i reason actor ≡ ok (true, gone))
      × (contains (project_to_graph d gone).1.graph i ≡ false)
unfolding apply_event enqueue_outbox
withdraw_resume-leaves_pool d i db r reason actor unhurried drained found live may =
    let gone = withdrawn_tables i db reason actor in
    (
      (withdraw_resume-tables i db r reason reason actor actor found live may).0,
      rw (drain_one d unhurried gone db.outbox (length db.outbox) i resume_withdrawn refl drained)
          (contains-unproject i db.graph),
    )

module _ (i : ℕ) where
  -- withdrawn, if it is this résumé
  abbrev pub GoneIf : ResumeRow → Type 0
  GoneIf x = x.resume_id ≡ i → is_some x.withdrawn_at ≡ true

  abbrev claimed_row : ResumeRow → ResumeRow
  claimed_row r =
      if r.resume_id == i && r.status == uploaded then record r { status = parsing } else r

  abbrev parsed_row : ResumeRow → ResumeRow
  parsed_row r =
      if r.resume_id == i && is_parseable r.status
      then record r { status = parsed; degraded = false; failure_reason = none }
      else r

module _ (i payload tries : ℕ) (db : ResumeDb) (r : ResumeRow) (reason : Option String)
    (actor : Actor) where
  -- the snapshot of a task that started before the withdrawal, and the tables at the withdrawal and
  -- at the end of the task
  abbrev pub task : Snapshot
  task = record { task_resume = i; read_withdrawn_at = none }

  abbrev pub withdrawn_meanwhile : ResumeDb
  withdrawn_meanwhile = withdrawn_tables i (claim_parsing db i).1 reason actor

  abbrev pub finished : Ending × ResumeDb
  finished = parse_finish withdrawn_meanwhile task tries (work_parsed payload false)
