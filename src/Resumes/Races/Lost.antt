-- ===== src/Resumes/Races/Lost.antt =====
-- Reinstatements that bring nothing back: `reinstate_resume` of core/src/services/resume_service.py
-- replays the last delivered projection.
use mathlib.Core.List.{append_assoc}
use recruiter_pilot.Auth.Model.{Actor, ok, role_eq}
use recruiter_pilot.Base.{
  All, List, Option, String, [], ap, arith, contains, false, length, length-append, list_eq, nat_eq,
  none, option_eq, some, string_eq, suc, true, ℕ, ◌++◌, ◌∙◌, ◌∷◌, ◌≡◌,
}
use recruiter_pilot.Resumes.Drain.{Drainer, apply_event, project_to_graph, skills_needed}
use recruiter_pilot.Resumes.Model.{
  OutboxRow, ResumeDb, ResumeRow, enqueue_outbox, get_resume, resume_parsed, resume_withdrawn,
  status_eq,
}
use recruiter_pilot.Resumes.Races.{IsDrained, IsUnhurried, contains-unproject, drain_two, waiting}
use recruiter_pilot.Resumes.Withdrawal.{last_delivered, reinstate_resume, replay, withdraw_resume}
use recruiter_pilot.Resumes.Withdrawal.Idempotent.{
  HasNoReason, MayAct, cleared_tables, reinstate_resume-tables, reinstated_tables,
  withdraw_resume-tables, withdrawn_tables,
}

last_delivered-append :
    (i : ℕ) (old new : List OutboxRow)
    → last_delivered i new ≡ none
    → last_delivered i (old ++ new) ≡ last_delivered i old
unfolding last_delivered
last_delivered-append i [] new h = h
last_delivered-append i (o ∷ old) new h = ground (arith, last_delivered-append i old new h)

undelivered_pair :
    (i n m payload : ℕ)
    → last_delivered i (waiting n i (resume_parsed payload) ∷ waiting m i resume_withdrawn ∷ [])
      ≡ none
unfolding last_delivered
undelivered_pair i n m payload = ground arith

-- A résumé that is withdrawn and reinstated while its projection is all that waits in the outbox, and none
-- was delivered before, is lost to the graph: both calls apply, for actors that the audit table admits, and
-- the rows are as before (each row of the résumé not withdrawn and without a reason), but the events that
-- wait are the projection and, behind it, the withdrawal. The next drain, if it may take two rows, has a
-- delivery attempt, has time and budget, and its projections succeed, leaves the résumé without a node.
pub reinstate_resume-undelivered :
    (d : Drainer) (i payload : ℕ) (db : ResumeDb) (r : ResumeRow) (reason : Option String)
    (actor second : Actor)
    → IsUnhurried d
    → IsDrained db
    → last_delivered i db.outbox ≡ none
    → get_resume db i ≡ some r
    → r.withdrawn_at ≡ none
    → MayAct db actor
    → MayAct db second
    → All (HasNoReason i) db.resumes
    → (gone back : ResumeDb) × (withdraw_resume
          (enqueue_outbox db i (resume_parsed payload))
          i
          reason
          actor
        ≡ ok (true, gone))
      × (reinstate_resume gone i second ≡ ok (true, back))
      × (back.resumes ≡ db.resumes)
      × (back.outbox
          ≡ db.outbox
            ++ waiting (length db.outbox) i (resume_parsed payload)
              ∷ waiting (suc (length db.outbox)) i resume_withdrawn
              ∷ [])
      × (contains (project_to_graph d back).1.graph i ≡ false)
unfolding get_resume enqueue_outbox apply_event skills_needed replay
reinstate_resume-undelivered d i payload db r reason actor second unhurried drained never found live
      may may' clean =
    let queued = enqueue_outbox db i (resume_parsed payload) in
    let gone = withdrawn_tables i queued reason actor in
    let whole = reinstate_resume-tables i queued r reason actor second found live may' clean in
    let first = waiting (length db.outbox) i (resume_parsed payload) in
    let next = waiting (length (db.outbox ++ first ∷ [])) i resume_withdrawn in
    let shape : gone.outbox ≡ db.outbox ++ first ∷ next ∷ [] =
      append_assoc db.outbox (first ∷ []) (next ∷ []) in
    let nothing : last_delivered i gone.outbox ≡ none =
      ap (last_delivered i) shape
      ∙ last_delivered-append i db.outbox (first ∷ next ∷ []) (undelivered_pair i _ _ payload)
      ∙ never in
    let cleared = cleared_tables i gone second in
    let back_outbox : (reinstated_tables i gone second).outbox ≡ db.outbox ++ first ∷ next ∷ [] =
      ap (λ o. (replay cleared i o).outbox) nothing ∙ shape in
    let longer : length (db.outbox ++ first ∷ []) ≡ suc (length db.outbox) =
      omega (arith, length-append db.outbox (first ∷ [])) in
    (
      gone,
      reinstated_tables i gone second,
      (withdraw_resume-tables i queued r reason reason actor actor found live may).0,
      whole.0,
      whole.1,
      back_outbox ∙ ap (λ n. db.outbox ++ first ∷ waiting n i resume_withdrawn ∷ []) longer,
      ap (λ g. contains g i)
            (drain_two d unhurried (reinstated_tables i gone second) db.outbox (length db.outbox)
              (length (db.outbox ++ first ∷ [])) i (resume_parsed payload) resume_withdrawn
              back_outbox drained (ground (arith, unhurried.affordable payload)))
          ∙ contains-unproject i _,
    )
