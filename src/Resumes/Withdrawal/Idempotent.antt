-- ===== src/Resumes/Withdrawal/Idempotent.antt =====
-- core/src/services/resume_service.py: withdrawing and reinstating a résumé, once and twice.
use mathlib.Core.Path.{ap₂}
use recruiter_pilot.Auth.Audit.{actor_exists, actor_identity, record_audit}
use recruiter_pilot.Auth.Model.{Actor, AuditRow, Details, ok, reason_given, role_eq, unspecified}
use recruiter_pilot.Auth.Sessions.{has_user}
use recruiter_pilot.Base.{
  All, Bool, Bool-cases, List, Option, String, [], any-found_where, any-marked, arith, false,
  find-map_same, if◌then◌else◌, inl, inr, is_some, length, list_eq, map, nat_eq, none, none-left,
  not, option_eq, refl, some, string_eq, true, ℕ, ◌&&◌, ◌++◌, ◌==◌, ◌∙◌, ◌∷◌, ◌≡◌, ◌≢◌, ◌⊎◌,
}
use recruiter_pilot.Resumes.Model.{
  OutboxRow, ResumeDb, ResumeRow, enqueue_outbox, get_resume, resume_withdrawn, status_eq,
  update_where,
}
use recruiter_pilot.Resumes.Withdrawal.{
  last_delivered, reason_details, reinstate_resume, replay, resume_audit, set_reinstated,
  set_withdrawn, withdraw_resume,
}

-- the actor fits the constraints of the audit table
abbrev pub MayAct : ResumeDb → Actor → Type 0
MayAct db actor = (actor_identity actor && actor_exists db.auth actor) ≡ true

record_audit_ok :
    (db : ResumeDb) (actor : Actor) (row : AuditRow)
    → MayAct db actor
    → row.actor ≡ actor
    → record_audit db.auth row ≡ ok (record db.auth { audit_log = db.auth.audit_log ++ row ∷ [] })
unfolding record_audit
record_audit_ok db actor row h e = ground arith

module _ (i : ℕ) where
  abbrev pub with_id : ResumeRow → Bool
  with_id r = r.resume_id == i

  -- the tables after a withdrawal that applies
  abbrev pub withdrawn_tables : ResumeDb → Option String → Actor → ResumeDb
  withdrawn_tables db reason actor =
      let done =
        update_where db (λ r. r.resume_id == i && not (is_some r.withdrawn_at))
          (set_withdrawn db.auth.now reason) in
      enqueue_outbox
        (record done.1 {
          auth = record db.auth {
            audit_log =
                db.auth.audit_log
                ++ resume_audit actor "withdraw_resume" i (reason_details reason) ∷ [];
          };
        })
        i resume_withdrawn

  pub withdraw_resume-tables :
      (db : ResumeDb) (r : ResumeRow) (reason again : Option String) (actor second : Actor)
      → get_resume db i ≡ some r
      → r.withdrawn_at ≡ none
      → MayAct db actor
      → (withdraw_resume db i reason actor ≡ ok (true, withdrawn_tables db reason actor))
        × (withdraw_resume (withdrawn_tables db reason actor) i again second
            ≡ ok (false, withdrawn_tables db reason actor))
  unfolding withdraw_resume get_resume record_audit enqueue_outbox
  withdraw_resume-tables db r reason again actor second found live may =
      let live_here : ResumeRow → Bool = λ x. not (is_some x.withdrawn_at) in
      let hit = any-found_where with_id live_here r db.resumes found (ground arith) in
      let f = set_withdrawn db.auth.now reason in
      let kept =
        find-map_same with_id (λ x. if with_id x && live_here x then f x else x) (λ x. ground arith)
          db.resumes in
      let gone = none-left (λ x. with_id x && live_here x) f (λ x. ground arith) db.resumes in
      (rw (found, hit, may) refl, rw (kept, found, gone) refl)

-- the details of the audit row: the reason, where one is given
abbrev pub IsNoted : Option String → Details → Type 0
IsNoted none d = d ≡ unspecified
IsNoted (some s) d = ((s ≡ "") × (d ≡ unspecified)) ⊎ ((s ≢ "") × (d ≡ reason_given s))

reason_details-IsNoted : (reason : Option String) → IsNoted reason (reason_details reason)
unfolding reason_details
reason_details-IsNoted none = refl
reason_details-IsNoted (some s) = elim (Bool-cases (s == "")) [
  | inl e ↦ inl ((string_eq.equals_iff s "").0 e, rw e refl)
  | inr e ↦ inr (ground (arith, e, string_eq.equals_iff s ""), rw e refl)
]

-- the tables before and after a withdrawal: the row is stamped, one audit row and one event are appended,
-- and nothing else changes
abbrev pub IsWithdrawn : ℕ → Option String → Actor → ResumeDb → ResumeDb → Type 0
IsWithdrawn i reason actor db gone =
    (gone.resumes
      ≡ map
          (λ x.
            if x.resume_id == i && not (is_some x.withdrawn_at)
            then record x { withdrawn_at = some db.auth.now; withdrawal_reason = reason }
            else x)
          db.resumes)
    × (gone.outbox
        ≡ db.outbox
          ++ record {
            outbox_id = length db.outbox;
            aggregate_id = i;
            event = resume_withdrawn;
            delivered_at = none;
            delivery_attempts = 0;
          }
            ∷ [])
    × (gone.graph ≡ db.graph)
    × ((note : Details) × IsNoted reason note
        × (gone.auth ≡ record db.auth {
          audit_log =
              db.auth.audit_log
              ++ record {
                actor = actor;
                action = "withdraw_resume";
                subject_type = "resume";
                subject_id = i;
                job_id = none;
                details = note;
              }
                ∷ [];
        }))

-- A withdrawal of a résumé that is not withdrawn applies, for an actor that the constraints of the audit
-- table admit: it stamps the rows of the résumé that are not withdrawn, appends one audit row and one
-- undelivered `resume.withdrawn` event, and changes nothing else. A second withdrawal applies to nothing
-- and leaves the tables as they are.
pub withdraw_resume-once :
    (i : ℕ) (db : ResumeDb) (r : ResumeRow) (reason again : Option String) (actor second : Actor)
    → get_resume db i ≡ some r
    → r.withdrawn_at ≡ none
    → MayAct db actor
    → (gone : ResumeDb) × (withdraw_resume db i reason actor ≡ ok (true, gone))
      × IsWithdrawn i reason actor db gone
      × (withdraw_resume gone i again second ≡ ok (false, gone))
unfolding enqueue_outbox
withdraw_resume-once i db r reason again actor second found live may =
    let both = withdraw_resume-tables i db r reason again actor second found live may in
    (
      withdrawn_tables i db reason actor,
      both.0,
      (refl, refl, refl, (reason_details reason, reason_details-IsNoted reason, refl)),
      both.1,
    )

-- a row that is not withdrawn has no reason of a withdrawal
abbrev pub HasNoReason : ℕ → ResumeRow → Type 0
HasNoReason i r = r.resume_id ≡ i → (r.withdrawn_at ≡ none) × (r.withdrawal_reason ≡ none)

module _ (i now : ℕ) (reason : Option String) where
  one_back :
      (r : ResumeRow)
      → HasNoReason i r
      → let g =
          if r.resume_id == i && not (is_some r.withdrawn_at)
          then set_withdrawn now reason r
          else r in
        (if g.resume_id == i && is_some g.withdrawn_at then set_reinstated g else g) ≡ r
  one_back r h = ground (arith, h)

  there_and_back :
      (rows : List ResumeRow)
      → All (HasNoReason i) rows
      → map
          (λ r. if r.resume_id == i && is_some r.withdrawn_at then set_reinstated r else r)
          (map
            (λ r.
              if r.resume_id == i && not (is_some r.withdrawn_at)
              then set_withdrawn now reason r
              else r)
            rows)
        ≡ rows
  there_and_back [] h = refl
  there_and_back (r ∷ rows) h = ap₂ ◌∷◌ (one_back r h.0) (there_and_back rows h.1)

replay-resumes :
    (db : ResumeDb) (i : ℕ) (o : Option OutboxRow) → (replay db i o).resumes ≡ db.resumes
unfolding replay enqueue_outbox
replay-resumes db i none = refl
replay-resumes db i (some o) = refl

-- the tables after a reinstatement that applies, without and with the replayed event
abbrev pub cleared_tables : ℕ → ResumeDb → Actor → ResumeDb
cleared_tables i db actor =
    let done = update_where db (λ r. r.resume_id == i && is_some r.withdrawn_at) set_reinstated in
    record done.1 {
      auth = record db.auth {
        audit_log = db.auth.audit_log ++ resume_audit actor "reinstate_resume" i unspecified ∷ [];
      };
    }

abbrev pub reinstated_tables : ℕ → ResumeDb → Actor → ResumeDb
reinstated_tables i db actor = replay (cleared_tables i db actor) i (last_delivered i db.outbox)

-- an actor that may act may still do so after an audit row
audited-MayAct :
    (db db' : ResumeDb) (actor : Actor) (rows : List AuditRow)
    → db'.auth ≡ record db.auth { audit_log = rows }
    → MayAct db actor
    → MayAct db' actor
unfolding actor_exists has_user
audited-MayAct db db' actor rows same h = rw same h

pub reinstate_resume-tables :
    (i : ℕ) (db : ResumeDb) (r : ResumeRow) (reason : Option String) (actor second : Actor)
    → get_resume db i ≡ some r
    → r.withdrawn_at ≡ none
    → MayAct db second
    → All (HasNoReason i) db.resumes
    → let gone = withdrawn_tables i db reason actor in
      (reinstate_resume gone i second ≡ ok (true, reinstated_tables i gone second))
      × ((reinstated_tables i gone second).resumes ≡ db.resumes)
unfolding reinstate_resume get_resume enqueue_outbox
reinstate_resume-tables i db r reason actor second found live may clean =
    let live_here : ResumeRow → Bool = λ x. not (is_some x.withdrawn_at) in
    let hit = any-found_where (with_id i) live_here r db.resumes found (ground arith) in
    let f = set_withdrawn db.auth.now reason in
    let kept =
      find-map_same (with_id i) (λ x. if with_id i x && live_here x then f x else x)
        (λ x. ground arith) db.resumes in
    let marked =
      any-marked (λ x. with_id i x && live_here x) (λ x. with_id i x && is_some x.withdrawn_at) f
        (λ x h. ground arith) db.resumes hit in
    let back = there_and_back i db.auth.now reason db.resumes clean in
    let may' = audited-MayAct db (withdrawn_tables i db reason actor) second _ refl may in
    (
      rw
          (
            kept,
            found,
            marked,
            record_audit_ok (withdrawn_tables i db reason actor) second
                (resume_audit second "reinstate_resume" i unspecified) may' refl,
          )
          refl,
      replay-resumes _ i _ ∙ back,
    )

-- A withdrawal of a résumé and a reinstatement after it both apply, for actors that the audit table admits,
-- and give the rows of the table back as they were: the parse state, both columns of the withdrawal and
-- every other row. Before, each row of the résumé is not withdrawn and has no reason of a withdrawal.
pub reinstate_resume-withdraw :
    (i : ℕ) (db : ResumeDb) (r : ResumeRow) (reason : Option String) (actor second : Actor)
    → get_resume db i ≡ some r
    → r.withdrawn_at ≡ none
    → MayAct db actor
    → MayAct db second
    → All (HasNoReason i) db.resumes
    → (gone back : ResumeDb) × (withdraw_resume db i reason actor ≡ ok (true, gone))
      × (reinstate_resume gone i second ≡ ok (true, back))
      × (back.resumes ≡ db.resumes)
reinstate_resume-withdraw i db r reason actor second found live may may' clean =
    let whole = reinstate_resume-tables i db r reason actor second found live may' clean in
    (
      withdrawn_tables i db reason actor,
      reinstated_tables i (withdrawn_tables i db reason actor) second,
      (withdraw_resume-tables i db r reason reason actor actor found live may).0,
      whole.0,
      whole.1,
    )
