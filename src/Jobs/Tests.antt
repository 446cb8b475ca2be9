-- ===== src/Jobs/Tests.antt =====
-- Runs on a table with one draft job.
use recruiter_pilot.Auth.Audit.{actor_exists, actor_identity, record_audit}
use recruiter_pilot.Auth.Model.{Actor, conflict, err, ok}
use recruiter_pilot.Base.{[], false, none, refl, some, true, ◌∷◌, ◌≡◌}
use recruiter_pilot.Jobs.{
  JobDb, JobRow, get_job, record_job_parsed, toggle_audit, transition_status, update_job,
}
use recruiter_pilot.Jobs.Audited.{IsLogged, update_job-audited}
use recruiter_pilot.Jobs.Forward.{
  AdvancedIn, JobReach-AdvancedIn, job_after, job_arrived, step_job_parsed,
}

abbrev draft_job : JobRow
draft_job = record {
  job_key = 1;
  job_status = "draft";
  description_parsed = none;
  job_parsed_at = none;
  job_failure = none;
  blind_review = true;
}

abbrev service_actor_row : Actor
service_actor_row = record {
  actor_kind = "service";
  actor_user_id = none;
  actor_service = some "api";
}

abbrev one_job : JobDb
one_job = record {
  job_auth = record { users = []; sessions = []; job_assignees = []; audit_log = []; now = 0 };
  jobs = draft_job ∷ [];
}

job_found : get_job one_job 1 ≡ some draft_job
unfolding get_job
job_found = refl

abbrev flipped : JobDb
flipped = record {
  job_auth = record {
    users = [];
    sessions = [];
    job_assignees = [];
    audit_log = toggle_audit service_actor_row 1 true false ∷ [];
    now = 0;
  };
  jobs = record draft_job { blind_review = false } ∷ [];
}

flips : update_job one_job 1 (some false) false service_actor_row ≡ ok flipped
unfolding update_job record_audit actor_identity actor_exists
flips = refl

opens : transition_status one_job 1 "closed" ≡ err conflict
unfolding transition_status
opens = refl

JobReach-AdvancedIn_example : AdvancedIn 1 draft_job (record_job_parsed one_job 1 8 9).1
JobReach-AdvancedIn_example =
    JobReach-AdvancedIn 1 one_job (record_job_parsed one_job 1 8 9).1 draft_job job_found
      (job_after job_arrived (step_job_parsed 1 8 9))

update_job-audited_example : IsLogged one_job flipped 1 draft_job service_actor_row (some false)
update_job-audited_example =
    update_job-audited one_job flipped 1 draft_job (some false) false service_actor_row job_found
      flips
