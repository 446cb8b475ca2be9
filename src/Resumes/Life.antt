-- ===== src/Resumes/Life.antt =====
-- Everything that changes the tables of a résumé, as steps: core/src/services/resume_service.py,
-- core/src/worker/resume_tasks.py, graph_tasks.py and reconcile.py.
pub mod Final
use recruiter_pilot.Auth.Model.{Actor, ok}
use recruiter_pilot.Base.{Bool, Option, String, ℕ, ◌≡◌}
use recruiter_pilot.Resumes.Drain.{Drainer, project_to_graph}
use recruiter_pilot.Resumes.Model.{ResumeDb}
use recruiter_pilot.Resumes.Parse.{Snapshot, Work, parse_finish}
use recruiter_pilot.Resumes.Reconcile.{Queue, reconcile_stalled_parses}
use recruiter_pilot.Resumes.Status.{claim_parsing}
use recruiter_pilot.Resumes.Withdrawal.{reinstate_resume, withdraw_resume}

-- one operation of a request, of the worker or of its crons; a parse task ends in
-- `step_finished` with any snapshot, however old
pub data Step : ResumeDb → ResumeDb → Type 0 where
  step_claimed : {db : ResumeDb} (i : ℕ) → Step db (claim_parsing db i).1
  step_finished :
      {db : ResumeDb} (snap : Snapshot) (tries : ℕ) (result : Work)
      → Step db (parse_finish db snap tries result).1
  step_withdrawn :
      {db db' : ResumeDb} (i : ℕ) (reason : Option String) (actor : Actor) (applied : Bool)
      → withdraw_resume db i reason actor ≡ ok (applied, db')
      → Step db db'
  step_reinstated :
      {db db' : ResumeDb} (i : ℕ) (actor : Actor) (applied : Bool)
      → reinstate_resume db i actor ≡ ok (applied, db')
      → Step db db'
  step_drained : {db : ResumeDb} (d : Drainer) → Step db (project_to_graph d db).1
  step_reconciled : {db : ResumeDb} (q : Queue) → Step db (reconcile_stalled_parses q db).1.tables

pub data Reach : ResumeDb → ResumeDb → Type 0 where
  arrived : {db : ResumeDb} → Reach db db
  after : {db db' db'' : ResumeDb} → Reach db db' → Step db' db'' → Reach db db''
