-- ===== src/Resumes/Parse.antt =====
-- `parse_resume` of core/src/worker/resume_tasks.py: the row is read when the task starts; the document,
-- the model and the embedder, which take minutes and are outside this module, give `Work`; then the
-- result is written back.
use recruiter_pilot.Base.{
  Bool, Option, [], if◌then◌else◌, is_some, leb, none, not, some, suc, ℕ, ◌++◌, ◌∷◌,
}
use recruiter_pilot.Base.Text.{Text}
use recruiter_pilot.Parsing.Chunk.{digits}
use recruiter_pilot.Resumes.Model.{
  ResumeDb, enqueue_outbox, get_resume, is_parseable, resume_parsed,
}
use recruiter_pilot.Resumes.Status.{claim_parsing, record_parse_failure, record_parsed}

-- what the task read from the row at its start
pub record Snapshot : Type 0 where
  pub task_resume : ℕ
  pub read_withdrawn_at : Option ℕ

pub data Started : Type 0 where
  begun : Snapshot → ResumeDb → Started
  start_missing start_stale : Started

unfoldable pub parse_start : ResumeDb → ℕ → Started
unfolding get_resume claim_parsing is_parseable
parse_start db i = elim (get_resume db i) [
  | none ↦ start_missing
  | some r ↦
      if not (is_parseable r.status)
      then start_stale
      else begun (record { task_resume = i; read_withdrawn_at = r.withdrawn_at })
          (claim_parsing db i).1
]

-- the blob, the text, an empty chunk list or the model's output failed for good; the model is
-- unavailable, at a try of the task; or a parse with its payload and whether it is degraded
pub data Work : Type 0 where
  work_failed : Text → Work
  model_unavailable : ℕ → Work
  work_parsed : ℕ → Bool → Work

pub data Ending : Type 0 where
  ended_failed ended_stale ended_parsed ended_retry : Ending

-- `f"llm unavailable after {job_try} retries"`
unfoldable pub unavailable_reason : ℕ → Text
unfolding digits
unavailable_reason n =
    (108 ∷ 108 ∷ 109 ∷ 32 ∷ 117 ∷ 110 ∷ 97 ∷ 118 ∷ 97 ∷ 105 ∷ 108 ∷ 97 ∷ 98 ∷ 108 ∷ 101 ∷ 32 ∷ 97
      ∷ 102 ∷ 116 ∷ 101 ∷ 114 ∷ 32 ∷ [])
    ++ digits (suc n) n
    ++ (32 ∷ 114 ∷ 101 ∷ 116 ∷ 114 ∷ 105 ∷ 101 ∷ 115 ∷ [])

-- the transaction at the end
unfoldable pub write_back : ResumeDb → Snapshot → ℕ → Bool → Ending × ResumeDb
unfolding record_parsed enqueue_outbox
write_back db snap payload is_degraded =
    let done = record_parsed db snap.task_resume is_degraded in
    if not done.0
    then (ended_stale, done.1)
    else if is_some snap.read_withdrawn_at
    then (ended_parsed, done.1)
    else if is_degraded
    then (ended_parsed, done.1)
    else (ended_parsed, enqueue_outbox done.1 snap.task_resume (resume_parsed payload))

unfoldable pub parse_finish : ResumeDb → Snapshot → ℕ → Work → Ending × ResumeDb
unfolding record_parse_failure write_back unavailable_reason
parse_finish db snap max_tries (work_failed reason) =
    (ended_failed, record_parse_failure db snap.task_resume reason)
parse_finish db snap max_tries (model_unavailable job_try) =
    if leb max_tries job_try
    then (ended_failed, record_parse_failure db snap.task_resume (unavailable_reason job_try))
    else (ended_retry, db)
parse_finish db snap max_tries (work_parsed payload is_degraded) =
    write_back db snap payload is_degraded
