-- ===== src/Resumes/Model.antt =====
-- The tables `resumes` and `outbox` of core/src/models/ddl.py, `enqueue_outbox` of
-- core/src/services/outbox_service.py, and the nodes of the graph that ranking starts from.
use recruiter_pilot.Auth.Model.{Db, role_eq}
use recruiter_pilot.Base.{
  Bool, Eq, List, Option, String, [], any, arith, false, find, if◌then◌else◌, length, list_eq, map,
  nat_eq, none, option_eq, string_eq, true, ℕ, ◌++◌, ◌==◌, ◌↔◌, ◌∷◌, ◌≡◌,
}
use recruiter_pilot.Base.Text.{Text}

-- the enum `resume_status`
pub data ResumeStatus : Type 0 where
  uploaded parsing parsed failed : ResumeStatus

abbrev pub status_beq : ResumeStatus → ResumeStatus → Bool
status_beq uploaded uploaded = true
status_beq parsing parsing = true
status_beq parsed parsed = true
status_beq failed failed = true
status_beq _ _ = false

pub status_beq_iff : (a b : ResumeStatus) → (status_beq a b ≡ true) ↔ (a ≡ b)
status_beq_iff a b = ground arith

instance abbrev pub status_eq : Eq ResumeStatus
status_eq = record { equals = status_beq; equals_iff = status_beq_iff }

-- `degraded` is the flag inside the column `parsed`
pub record ResumeRow : Type 0 where
  pub resume_id : ℕ
  pub resume_job : ℕ
  pub status : ResumeStatus
  pub degraded : Bool
  pub uploaded_at : ℕ
  pub failure_reason : Option Text
  pub withdrawn_at : Option ℕ
  pub withdrawal_reason : Option String
  pub reconcile_attempts : ℕ

-- an event about a résumé; a payload is named by a number
pub data Event : Type 0 where
  resume_parsed : ℕ → Event
  resume_withdrawn : Event

pub record OutboxRow : Type 0 where
  pub outbox_id : ℕ
  pub aggregate_id : ℕ
  pub event : Event
  pub delivered_at : Option ℕ
  pub delivery_attempts : ℕ

-- the tables of the access control with the clock, the two tables, and the résumés that have a node
pub record ResumeDb : Type 0 where
  pub auth : Db
  pub resumes : List ResumeRow
  pub outbox : List OutboxRow
  pub graph : List ℕ

-- `UPDATE resumes SET ... WHERE id = $1 AND ...`: the result tells whether a row matched
abbrev pub update_where : ResumeDb → (ResumeRow → Bool) → (ResumeRow → ResumeRow) → Bool × ResumeDb
update_where db p f =
    (any p db.resumes, record db { resumes = map (λ r. if p r then f r else r) db.resumes })

unfoldable pub enqueue_outbox : ResumeDb → ℕ → Event → ResumeDb
enqueue_outbox db i e = record db {
  outbox =
      db.outbox
      ++ record {
        outbox_id = length db.outbox;
        aggregate_id = i;
        event = e;
        delivered_at = none;
        delivery_attempts = 0;
      }
        ∷ [];
}

unfoldable pub get_resume : ResumeDb → ℕ → Option ResumeRow
get_resume db i = find (λ r. r.resume_id == i) db.resumes

-- `status IN ('uploaded', 'parsing')`
unfoldable pub is_parseable : ResumeStatus → Bool
is_parseable uploaded = true
is_parseable parsing = true
is_parseable parsed = false
is_parseable failed = false
