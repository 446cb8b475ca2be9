-- ===== src/Resumes/Life/Final.antt =====
-- The final parse states of core/src/services/resume_service.py over any run.
use mathlib.Core.Path.{subst}
use recruiter_pilot.Auth.Audit.{record_audit}
use recruiter_pilot.Auth.Model.{Actor, Db, Result, err, not_found, ok, role_eq, unspecified, ◌>>=◌}
use recruiter_pilot.Base.{
  All, All-image, All-map, Bool, Bool-cases, List, Option, String, [], all, arith, false,
  if◌then◌else◌, inl, inr, is_some, leb, list_eq, ltb, nat_eq, none, not, option_eq, some,
  string_eq, suc, take, true, ℕ, ◌&&◌, ◌+◌, ◌==◌, ◌∷◌, ◌≡◌,
}
use recruiter_pilot.Base.Text.{Text}
use recruiter_pilot.Resumes.Drain.{
  Drainer, deliver, drain_rows, project_to_graph, select_undelivered, skills_needed,
}
use recruiter_pilot.Resumes.Life.{
  Reach, Step, after, arrived, step_claimed, step_drained, step_finished, step_reconciled,
  step_reinstated, step_withdrawn,
}
use recruiter_pilot.Resumes.Model.{
  OutboxRow, ResumeDb, ResumeRow, ResumeStatus, enqueue_outbox, failed, get_resume, is_parseable,
  parsed, parsing, resume_withdrawn, status_beq_iff, status_eq, update_where, uploaded,
}
use recruiter_pilot.Resumes.Parse.{
  Snapshot, Work, model_unavailable, parse_finish, unavailable_reason, work_failed, work_parsed,
  write_back,
}
use recruiter_pilot.Resumes.Reconcile.{
  Queue, Tick, bump, give_up_reason, max_reconcile_attempts, reconcile_row, reconcile_rows,
  reconcile_stalled_parses, select_stalled,
}
use recruiter_pilot.Resumes.Status.{
  claim_parsing, max_reason_chars, record_parse_failure, record_parsed,
}
use recruiter_pilot.Resumes.Withdrawal.{
  last_delivered, reason_details, reinstate_resume, replay, resume_audit, set_reinstated,
  set_withdrawn, withdraw_resume,
}

module _ (i : ℕ) (s : ResumeStatus) (final : is_parseable s ≡ false) where
  -- the row of this résumé has this state
  abbrev pub HasStatus : ResumeRow → Type 0
  HasStatus r = r.resume_id ≡ i → r.status ≡ s

  abbrev AllHave : ResumeDb → Type 0
  AllHave db = All HasStatus db.resumes

  kept_by_update :
      (db : ResumeDb) (p : ResumeRow → Bool) (f : ResumeRow → ResumeRow)
      → ((r : ResumeRow) → HasStatus r → HasStatus (if p r then f r else r))
      → AllHave db
      → AllHave (update_where db p f).1
  kept_by_update db p f h all =
      All-image (λ r. if p r then f r else r) HasStatus db.resumes (All-map _ _ h db.resumes all)

  claim-HasStatus : (db : ResumeDb) (j : ℕ) → AllHave db → AllHave (claim_parsing db j).1
  unfolding claim_parsing is_parseable
  claim-HasStatus db j =
      kept_by_update db (λ r. r.resume_id == j && r.status == uploaded)
        (λ r. record r { status = parsing })
        (λ r h. ground (arith, h, final, status_beq_iff r.status uploaded))

  failure-HasStatus :
      (db : ResumeDb) (j : ℕ) (reason : Text)
      → AllHave db
      → AllHave (record_parse_failure db j reason)
  unfolding record_parse_failure
  failure-HasStatus db j reason =
      kept_by_update db (λ r. r.resume_id == j && is_parseable r.status)
        (λ r. record r { status = failed; failure_reason = some (take max_reason_chars reason) })
        (λ r h. ground (arith, h, final))

  parsed-HasStatus :
      (db : ResumeDb) (j : ℕ) (b : Bool) → AllHave db → AllHave (record_parsed db j b).1
  unfolding record_parsed
  parsed-HasStatus db j b =
      kept_by_update db (λ r. r.resume_id == j && is_parseable r.status)
        (λ r. record r { status = parsed; degraded = b; failure_reason = none })
        (λ r h. ground (arith, h, final))

  write_back-HasStatus :
      (db : ResumeDb) (snap : Snapshot) (payload : ℕ) (b : Bool)
      → AllHave (record_parsed db snap.task_resume b).1
      → AllHave (write_back db snap payload b).1
  unfolding write_back enqueue_outbox
  write_back-HasStatus db snap payload true h = ground (arith, h)
  write_back-HasStatus db snap payload false h = ground (arith, h)

  finish-HasStatus :
      (db : ResumeDb) (snap : Snapshot) (tries : ℕ) (result : Work)
      → AllHave db
      → AllHave (parse_finish db snap tries result).1
  unfolding parse_finish enqueue_outbox
  finish-HasStatus db snap tries (work_failed reason) h =
      failure-HasStatus db snap.task_resume reason h
  finish-HasStatus db snap tries (model_unavailable n) h =
      let gave_up = failure-HasStatus db snap.task_resume (unavailable_reason n) h in
      elim (Bool-cases (leb tries n)) [ inl e ↦ rw e gave_up | inr e ↦ rw e h ]
  finish-HasStatus db snap tries (work_parsed payload b) h =
      let written = parsed-HasStatus db snap.task_resume b h in
      write_back-HasStatus db snap payload b written

  reconcile_row-HasStatus :
      (q : Queue) (t : Tick) (r : ResumeRow)
      → AllHave t.tables
      → AllHave (reconcile_row q t r).tables
  unfolding reconcile_row
  reconcile_row-HasStatus q t r h =
      let bumped =
        kept_by_update t.tables (λ s. s.resume_id == r.resume_id) bump (λ x k. ground (arith, k))
          h in
      let gave_up =
        kept_by_update (update_where t.tables (λ s. s.resume_id == r.resume_id) bump).1
          (λ x. x.resume_id == r.resume_id && is_parseable x.status)
          (λ x. record x { status = failed; failure_reason = some give_up_reason })
          (λ x k. ground (arith, k, final)) bumped in
      elim (Bool-cases (ltb max_reconcile_attempts (suc r.reconcile_attempts))) [
        | inl e ↦ rw e gave_up
        | inr e ↦ elim (Bool-cases (q.takes r.resume_id)) [
          | inl e' ↦ rw (e, e') bumped
          | inr e' ↦ rw (e, e') bumped
        ]
      ]

  reconcile_rows-HasStatus :
      (q : Queue) (rs : List ResumeRow) (t : Tick)
      → AllHave t.tables
      → AllHave (reconcile_rows q t rs).tables
  unfolding reconcile_rows
  reconcile_rows-HasStatus q [] t h = h
  reconcile_rows-HasStatus q (r ∷ rs) t h =
      let next = reconcile_row-HasStatus q t r h in
      elim (Bool-cases (reconcile_row q t r).broken) [
        | inl e ↦ rw e next
        | inr e ↦ rw e (reconcile_rows-HasStatus q rs _ next)
      ]

  reconcile-HasStatus :
      (q : Queue) (db : ResumeDb) → AllHave db → AllHave (reconcile_stalled_parses q db).1.tables
  unfolding reconcile_stalled_parses
  reconcile-HasStatus q db h =
      let start : Tick = record { tables = db; requeued = []; abandoned = 0; broken = false } in
      let all = reconcile_rows-HasStatus q (select_stalled db) start h in
      elim (Bool-cases (not (q.pool_present && q.arq_present))) [
        | inl e ↦ rw e h
        | inr e ↦ elim (Bool-cases (reconcile_rows q start (select_stalled db)).broken) [
          | inl e' ↦ rw (e, e') all
          | inr e' ↦ rw (e, e') all
        ]
      ]

  abbrev OkHas : Result (Bool × ResumeDb) → Type 0
  OkHas (ok done) = AllHave done.1
  OkHas (err e) = Unit

  audited-OkHas :
      (r : Result Db) (f : Db → Bool × ResumeDb)
      → ((auth : Db) → AllHave (f auth).1)
      → OkHas (r >>= λ auth. ok (f auth))
  audited-OkHas (ok auth) f h = h auth
  audited-OkHas (err e) f h = tt

  guarded-OkHas :
      (missing idle : Bool) (db : ResumeDb) (rest : Result (Bool × ResumeDb))
      → AllHave db
      → OkHas rest
      → OkHas (if missing then err not_found else if idle then ok (false, db) else rest)
  guarded-OkHas true idle db rest h k = tt
  guarded-OkHas false true db rest h k = h
  guarded-OkHas false false db rest h k = k

  withdraw-OkHas :
      (db : ResumeDb) (j : ℕ) (reason : Option String) (actor : Actor)
      → AllHave db
      → OkHas (withdraw_resume db j reason actor)
  unfolding withdraw_resume enqueue_outbox
  withdraw-OkHas db j reason actor h =
      let written =
        kept_by_update db (λ r. r.resume_id == j && not (is_some r.withdrawn_at))
          (set_withdrawn db.auth.now reason) (λ x k. ground (arith, k)) h in
      let done =
        update_where db (λ r. r.resume_id == j && not (is_some r.withdrawn_at))
          (set_withdrawn db.auth.now reason) in
      let audited =
        record_audit done.1.auth (resume_audit actor "withdraw_resume" j (reason_details reason)) in
      let f : Db → Bool × ResumeDb =
        λ auth. (true, enqueue_outbox (record done.1 { auth = auth }) j resume_withdrawn) in
      guarded-OkHas (not (is_some (get_resume db j))) (not done.0) db
        (audited >>= λ auth. ok (f auth)) h (audited-OkHas audited f (λ auth. written))

  replay-HasStatus :
      (db : ResumeDb) (j : ℕ) (o : Option OutboxRow) → AllHave db → AllHave (replay db j o)
  unfolding replay enqueue_outbox
  replay-HasStatus db j none h = h
  replay-HasStatus db j (some o) h = h

  reinstate-OkHas :
      (db : ResumeDb) (j : ℕ) (actor : Actor) → AllHave db → OkHas (reinstate_resume db j actor)
  unfolding reinstate_resume
  reinstate-OkHas db j actor h =
      let cleared =
        kept_by_update db (λ r. r.resume_id == j && is_some r.withdrawn_at) set_reinstated
          (λ x k. ground (arith, k)) h in
      let done = update_where db (λ r. r.resume_id == j && is_some r.withdrawn_at) set_reinstated in
      let audited =
        record_audit done.1.auth (resume_audit actor "reinstate_resume" j unspecified) in
      let f : Db → Bool × ResumeDb =
        λ auth. (true, replay (record done.1 { auth = auth }) j (last_delivered j db.outbox)) in
      guarded-OkHas (not (is_some (get_resume db j))) (not done.0) db
        (audited >>= λ auth. ok (f auth)) h
        (audited-OkHas audited f (λ auth.
          replay-HasStatus (record done.1 { auth = auth }) j (last_delivered j db.outbox) cleared))

  deliver-resumes :
      (d : Drainer) (db : ResumeDb) (o : OutboxRow) → (deliver d db o).resumes ≡ db.resumes
  unfolding deliver
  deliver-resumes d db o = ground arith

  drain-HasStatus :
      (d : Drainer) (os : List OutboxRow) (spent : Option ℕ) (db : ResumeDb)
      → AllHave db
      → AllHave (drain_rows d spent db os).1
  unfolding drain_rows
  drain-HasStatus d [] spent db h = h
  drain-HasStatus d (o ∷ os) none db h =
      let kept =
        drain-HasStatus d os (some (skills_needed d o)) (deliver d db o)
          (rw (deliver-resumes d db o) h) in
      ground (arith, kept)
  drain-HasStatus d (o ∷ os) (some n) db h =
      let kept =
        drain-HasStatus d os (some (n + skills_needed d o)) (deliver d db o)
          (rw (deliver-resumes d db o) h) in
      ground (arith, kept, h)

  step-HasStatus : (db db' : ResumeDb) → Step db db' → AllHave db → AllHave db'
  unfolding project_to_graph
  step-HasStatus _ _ (step_claimed j) h = claim-HasStatus _ j h
  step-HasStatus _ _ (step_finished snap tries result) h = finish-HasStatus _ snap tries result h
  step-HasStatus db _ (step_withdrawn j reason actor applied e) h =
      subst OkHas e (withdraw-OkHas db j reason actor h)
  step-HasStatus db _ (step_reinstated j actor applied e) h =
      subst OkHas e (reinstate-OkHas db j actor h)
  step-HasStatus db _ (step_drained d) h =
      drain-HasStatus d (select_undelivered d db.outbox) none db h
  step-HasStatus db _ (step_reconciled q) h = reconcile-HasStatus q db h

  -- A parse state that is final, `parsed` or `failed`, is never left: whatever claims, parses that end
  -- with snapshots of any age, withdrawals, reinstatements, drains and reconciling ticks follow, in any
  -- order, every row of the résumé keeps it.
  pub Reach-HasStatus :
      (db db' : ResumeDb) → Reach db db' → All HasStatus db.resumes → All HasStatus db'.resumes
  Reach-HasStatus db _ arrived h = h
  Reach-HasStatus db _ (after reach step) h = step-HasStatus _ _ step (Reach-HasStatus db _ reach h)
