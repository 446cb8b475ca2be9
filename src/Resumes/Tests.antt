-- ===== src/Resumes/Tests.antt =====
-- Runs on a table with one résumé, one administrator and an empty outbox.
use recruiter_pilot.Auth.Audit.{actor_exists, actor_identity}
use recruiter_pilot.Auth.Model.{Actor, Db, User, ok, role_eq}
use recruiter_pilot.Auth.Sessions.{has_user}
use recruiter_pilot.Base.{
  All, List, [], arith, contains, false, list_eq, nat_eq, none, option_eq, refl, some, string_eq,
  true, ◌+◌, ◌∷◌, ◌≡◌, ◌≤◌,
}
use recruiter_pilot.Resumes.Drain.{Drainer, project_to_graph}
use recruiter_pilot.Resumes.Life.{after, arrived, step_claimed}
use recruiter_pilot.Resumes.Life.Final.{HasStatus, Reach-HasStatus}
use recruiter_pilot.Resumes.Mime.{Uploader, mime_txt}
use recruiter_pilot.Resumes.Model.{
  ResumeDb, ResumeRow, ResumeStatus, enqueue_outbox, get_resume, is_parseable, parsed,
  resume_parsed, resume_withdrawn, status_eq, uploaded,
}
use recruiter_pilot.Resumes.Parse.{Ending}
use recruiter_pilot.Resumes.Races.{IsUnhurried, waiting}
use recruiter_pilot.Resumes.Races.Late.{finished, withdraw_resume-leaves_pool}
use recruiter_pilot.Resumes.Races.Lost.{reinstate_resume-undelivered}
use recruiter_pilot.Resumes.Reconcile.{Queue, reconcile_stalled_parses}
use recruiter_pilot.Resumes.Status.{claim_parsing, status_breakdown}
use recruiter_pilot.Resumes.Status.Buckets.{status_breakdown-partition, tally}
use recruiter_pilot.Resumes.Upload.{
  File, UploadDb, accepted_as, duplicate_of, rejected_mime, result_row, resume_key, upload_ok,
  upload_resumes,
}
use recruiter_pilot.Resumes.Upload.Accepted.{IsUploaded, upload_resumes-IsUploaded}
use recruiter_pilot.Resumes.Withdrawal.{last_delivered, reinstate_resume, withdraw_resume}
use recruiter_pilot.Resumes.Withdrawal.Idempotent.{
  HasNoReason, IsWithdrawn, MayAct, reinstate_resume-withdraw, withdraw_resume-once,
  withdrawn_tables,
}

abbrev clerk : User
clerk = record {
  id = 7;
  cas_username = "clerk";
  display_name = none;
  email = none;
  role = some "recruiter";
  active = true;
  created_at = 0;
  last_seen_at = 0;
}

abbrev clerk_actor : Actor
clerk_actor = record { actor_kind = "user"; actor_user_id = some 7; actor_service = none }

abbrev tables_auth : Db
tables_auth = record {
  users = clerk ∷ [];
  sessions = [];
  job_assignees = [];
  audit_log = [];
  now = 5000;
}

abbrev resume_row : ResumeStatus → ResumeRow
resume_row s = record {
  resume_id = 3;
  resume_job = 1;
  status = s;
  degraded = false;
  uploaded_at = 100;
  failure_reason = none;
  withdrawn_at = none;
  withdrawal_reason = none;
  reconcile_attempts = 0;
}

abbrev sample_db : ResumeStatus → ResumeDb
sample_db s = record { auth = tables_auth; resumes = resume_row s ∷ []; outbox = []; graph = [] }

abbrev drainer : Drainer
drainer = record {
  batch_size = 10;
  max_delivery_attempts = 5;
  skill_budget = 50;
  succeeds = λ n. true;
  past_deadline = λ n. false;
  skill_count = λ n. 4;
}

drainer-IsUnhurried : IsUnhurried drainer
drainer-IsUnhurried = record {
  room = omega arith;
  first_try = omega arith;
  succeeding = λ n. refl;
  in_time = λ n. refl;
  affordable = λ n. omega arith;
}

found_row : (s : ResumeStatus) → get_resume (sample_db s) 3 ≡ some (resume_row s)
unfolding get_resume
found_row s = refl

clerk_may : (s : ResumeStatus) → MayAct (sample_db s) clerk_actor
unfolding actor_identity actor_exists has_user
clerk_may s = refl

clean_rows : (s : ResumeStatus) → All (HasNoReason 3) (sample_db s).resumes
clean_rows s = (λ e. (refl, refl), tt)

parsed_is_final : is_parseable parsed ≡ false
unfolding is_parseable
parsed_is_final = refl

nothing_delivered : last_delivered 3 [] ≡ none
unfolding last_delivered
nothing_delivered = refl

Reach-HasStatus_example :
    All (HasStatus 3 parsed parsed_is_final) (claim_parsing (sample_db parsed) 3).1.resumes
Reach-HasStatus_example =
    Reach-HasStatus 3 parsed parsed_is_final (sample_db parsed)
      (claim_parsing (sample_db parsed) 3).1 (after arrived (step_claimed 3)) (λ e. refl, tt)

withdraw_resume-once_example :
    (gone : ResumeDb) × (withdraw_resume (sample_db parsed) 3 (some "moved") clerk_actor
      ≡ ok (true, gone))
    × IsWithdrawn 3 (some "moved") clerk_actor (sample_db parsed) gone
    × (withdraw_resume gone 3 none clerk_actor ≡ ok (false, gone))
withdraw_resume-once_example =
    withdraw_resume-once 3 (sample_db parsed) (resume_row parsed) (some "moved") none clerk_actor
      clerk_actor (found_row parsed) refl (clerk_may parsed)

reinstate_resume-withdraw_example :
    (gone back : ResumeDb) × (withdraw_resume (sample_db parsed) 3 none clerk_actor
      ≡ ok (true, gone))
    × (reinstate_resume gone 3 clerk_actor ≡ ok (true, back))
    × (back.resumes ≡ resume_row parsed ∷ [])
reinstate_resume-withdraw_example =
    reinstate_resume-withdraw 3 (sample_db parsed) (resume_row parsed) none clerk_actor clerk_actor
      (found_row parsed) refl (clerk_may parsed) (clerk_may parsed) (clean_rows parsed)

withdraw_resume-leaves_pool_example :
    (withdraw_resume (sample_db parsed) 3 none clerk_actor
      ≡ ok (true, withdrawn_tables 3 (sample_db parsed) none clerk_actor))
    × (contains
          (project_to_graph drainer
            (withdrawn_tables 3 (sample_db parsed) none clerk_actor)).1.graph
          3
        ≡ false)
withdraw_resume-leaves_pool_example =
    withdraw_resume-leaves_pool drainer 3 (sample_db parsed) (resume_row parsed) none clerk_actor
      drainer-IsUnhurried tt (found_row parsed) refl (clerk_may parsed)

abbrev late_end : Ending × ResumeDb
late_end = finished 3 9 3 (sample_db uploaded) (resume_row uploaded) none clerk_actor

reinstate_resume-undelivered_example :
    (gone back : ResumeDb) × (withdraw_resume
        (enqueue_outbox (sample_db parsed) 3 (resume_parsed 9))
        3
        none
        clerk_actor
      ≡ ok (true, gone))
    × (reinstate_resume gone 3 clerk_actor ≡ ok (true, back))
    × (back.resumes ≡ resume_row parsed ∷ [])
    × (back.outbox ≡ waiting 0 3 (resume_parsed 9) ∷ waiting 1 3 resume_withdrawn ∷ [])
    × (contains (project_to_graph drainer back).1.graph 3 ≡ false)
reinstate_resume-undelivered_example =
    reinstate_resume-undelivered drainer 3 9 (sample_db parsed) (resume_row parsed) none clerk_actor
      clerk_actor drainer-IsUnhurried tt nothing_delivered (found_row parsed) refl
      (clerk_may parsed) (clerk_may parsed) (clean_rows parsed)

status_breakdown-partition_example :
    let b = status_breakdown (sample_db parsed) 1 in
    (b ≡ tally 1 (resume_row parsed ∷ []))
    × (1 ≡ b.uploaded_count + b.parsing_count + b.parsed_count + b.failed_count + b.withdrawn_count)
    × (b.degraded_count ≤ b.parsed_count)
status_breakdown-partition_example = status_breakdown-partition (sample_db parsed) 1

abbrev willing : Queue
willing = record { pool_present = true; arq_present = true; takes = λ i. true }

-- the stalled résumé is given to the queue once
requeued_once : (reconcile_stalled_parses willing (sample_db uploaded)).1.requeued ≡ 3 ∷ []
unfolding reconcile_stalled_parses
requeued_once = refl

abbrev plain : Uploader
plain = record {
  lower_text = λ s. s;
  posix_name = λ s. s;
  sha256 = λ bytes. bytes;
  uuid4 = λ n. n;
  encrypt_text = λ s. some s;
}

abbrev no_uploads : UploadDb
no_uploads = record { job_ids = 1 ∷ []; stored = []; blobs = []; drawn = 0 }

abbrev three_files : List File
three_files =
    ((97 ∷ 46 ∷ 116 ∷ 120 ∷ 116 ∷ []), (104 ∷ 101 ∷ 108 ∷ 108 ∷ 111 ∷ []))
    ∷ ((98 ∷ 46 ∷ 116 ∷ 120 ∷ 116 ∷ []), (104 ∷ 101 ∷ 108 ∷ 108 ∷ 111 ∷ []))
    ∷ ((99 ∷ 46 ∷ 112 ∷ 100 ∷ 102 ∷ []), (104 ∷ 101 ∷ 108 ∷ 108 ∷ 111 ∷ []))
    ∷ []

-- accepted, a duplicate, and a content that is not what the extension says
outcomes :
    upload_resumes plain no_uploads 1 three_files true none none [] []
    ≡ upload_ok
        (result_row
            ((97 ∷ 46 ∷ 116 ∷ 120 ∷ 116 ∷ []), (104 ∷ 101 ∷ 108 ∷ 108 ∷ 111 ∷ []))
            []
            (accepted_as 0 none)
          ∷ result_row
              ((98 ∷ 46 ∷ 116 ∷ 120 ∷ 116 ∷ []), (104 ∷ 101 ∷ 108 ∷ 108 ∷ 111 ∷ []))
              []
              (duplicate_of 0)
          ∷ result_row
              ((99 ∷ 46 ∷ 112 ∷ 100 ∷ 102 ∷ []), (104 ∷ 101 ∷ 108 ∷ 108 ∷ 111 ∷ []))
              []
              rejected_mime
          ∷ [])
        (record no_uploads {
          stored =
              record {
                stored_id = 0;
                stored_job = 1;
                stored_blob = resume_key 0 mime_txt;
                stored_name = (97 ∷ 46 ∷ 116 ∷ 120 ∷ 116 ∷ []);
                stored_mime = mime_txt;
                stored_size = 5;
                stored_sha = (104 ∷ 101 ∷ 108 ∷ 108 ∷ 111 ∷ []);
                stored_consent = true;
                stored_cover_text = none;
                stored_cover = none;
              }
              ∷ [];
          blobs = (resume_key 0 mime_txt, (104 ∷ 101 ∷ 108 ∷ 108 ∷ 111 ∷ [])) ∷ [];
          drawn = 1;
        })
unfolding upload_resumes
outcomes = refl

upload_resumes-IsUploaded_example :
    IsUploaded no_uploads three_files
      (upload_resumes plain no_uploads 1 three_files true none none [] [])
upload_resumes-IsUploaded_example =
    upload_resumes-IsUploaded plain no_uploads 1 three_files true none none [] [] (tt, tt)
