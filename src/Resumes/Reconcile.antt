-- ===== src/Resumes/Reconcile.antt =====
-- core/src/worker/reconcile.py: `reconcile_stalled_parses`. The queue is the list of the résumés whose
-- job it was given; whether it takes a job or raises is an argument. The statements of the database succeed.
pub mod GivingUp
use recruiter_pilot.Auth.Admin.Survival.{next}
use recruiter_pilot.Base.{
  Bool, List, [], false, filter, if◌then◌else◌, is_some, leb, list_eq, ltb, nat_eq, not, option_eq,
  some, string_eq, suc, take, true, ℕ, ◌&&◌, ◌++◌, ◌+◌, ◌==◌, ◌∷◌,
}
use recruiter_pilot.Base.Text.{Text}
use recruiter_pilot.Resumes.Model.{
  ResumeDb, ResumeRow, failed, is_parseable, status_eq, update_where,
}

abbrev pub stalled_after : ℕ
stalled_after = 1800

abbrev pub reconcile_batch : ℕ
reconcile_batch = 10

abbrev pub max_reconcile_attempts : ℕ
max_reconcile_attempts = 3

unfoldable pub is_stalled : ℕ → ResumeRow → Bool
unfolding is_parseable
is_stalled now r =
    is_parseable r.status && not (is_some r.withdrawn_at) && ltb (r.uploaded_at + stalled_after) now

unfoldable pub insert_by_upload : ResumeRow → List ResumeRow → List ResumeRow
insert_by_upload r [] = r ∷ []
insert_by_upload r (s ∷ ss) =
    let rest = insert_by_upload r ss in
    if leb r.uploaded_at s.uploaded_at then r ∷ s ∷ ss else s ∷ rest

unfoldable pub sort_by_upload : List ResumeRow → List ResumeRow
unfolding insert_by_upload
sort_by_upload [] = []
sort_by_upload (r ∷ rs) = insert_by_upload r (sort_by_upload rs)

unfoldable pub select_stalled : ResumeDb → List ResumeRow
unfolding is_stalled sort_by_upload
select_stalled db =
    take reconcile_batch (sort_by_upload (filter (is_stalled db.auth.now) db.resumes))

abbrev pub bump : ResumeRow → ResumeRow
bump r = record r { reconcile_attempts = suc r.reconcile_attempts }

abbrev pub give_up_reason : Text
give_up_reason =
    (97 ∷ 98 ∷ 97 ∷ 110 ∷ 100 ∷ 111 ∷ 110 ∷ 101 ∷ 100 ∷ 32 ∷ 97 ∷ 102 ∷ 116 ∷ 101 ∷ 114 ∷ 32 ∷ 51
      ∷ 32 ∷ 114 ∷ 101 ∷ 99 ∷ 111 ∷ 110 ∷ 99 ∷ 105 ∷ 108 ∷ 101 ∷ 32 ∷ 97 ∷ 116 ∷ 116 ∷ 101 ∷ 109
      ∷ 112 ∷ 116 ∷ 115 ∷ 32 ∷ 8212 ∷ 32 ∷ 116 ∷ 104 ∷ 101 ∷ 32 ∷ 112 ∷ 97 ∷ 114 ∷ 115 ∷ 101 ∷ 32
      ∷ 110 ∷ 101 ∷ 118 ∷ 101 ∷ 114 ∷ 32 ∷ 114 ∷ 101 ∷ 97 ∷ 99 ∷ 104 ∷ 101 ∷ 100 ∷ 32 ∷ 97 ∷ 32
      ∷ 116 ∷ 101 ∷ 114 ∷ 109 ∷ 105 ∷ 110 ∷ 97 ∷ 108 ∷ 32 ∷ 115 ∷ 116 ∷ 97 ∷ 116 ∷ 101 ∷ [])

unfoldable pub give_up : ResumeDb → ℕ → ResumeDb
unfolding is_parseable
give_up db i =
    let done =
      update_where db (λ r. r.resume_id == i && is_parseable r.status)
        (λ r. record r { status = failed; failure_reason = some give_up_reason }) in
    done.1

-- what the context of the worker holds, and whether the queue takes the job of a résumé or raises
pub record Queue : Type 0 where
  pub pool_present : Bool
  pub arq_present : Bool
  pub takes : ℕ → Bool

-- the tables, the résumés that were given to the queue, and whether an exception ended the loop
pub record Tick : Type 0 where
  pub tables : ResumeDb
  pub requeued : List ℕ
  pub abandoned : ℕ
  pub broken : Bool

-- the status that is returned
pub data TickEnd : Type 0 where
  tick_unavailable tick_error tick_done : TickEnd

-- one turn of the loop; the row's own count is the one that `_BUMP_ATTEMPTS` returns, plus one. No
-- transaction is open, so that what was written before an exception stays.
unfoldable pub reconcile_row : Queue → Tick → ResumeRow → Tick
unfolding give_up
reconcile_row q t r =
    let bumped = update_where t.tables (λ s. s.resume_id == r.resume_id) bump in
    if ltb max_reconcile_attempts (suc r.reconcile_attempts)
    then record t { tables = give_up bumped.1 r.resume_id; abandoned = suc t.abandoned }
    else if q.takes r.resume_id
    then record t { tables = bumped.1; requeued = t.requeued ++ r.resume_id ∷ [] }
    else record t { tables = bumped.1; broken = true }

unfoldable pub reconcile_rows : Queue → Tick → List ResumeRow → Tick
unfolding reconcile_row
reconcile_rows q t [] = t
reconcile_rows q t (r ∷ rs) =
    let next = reconcile_row q t r in
    let rest = reconcile_rows q next rs in if next.broken then next else rest

unfoldable pub reconcile_stalled_parses : Queue → ResumeDb → TickEnd × Tick
unfolding reconcile_rows select_stalled
reconcile_stalled_parses q db =
    let start : Tick = record { tables = db; requeued = []; abandoned = 0; broken = false } in
    let t = reconcile_rows q start (select_stalled db) in
    if not (q.pool_present && q.arq_present)
    then (tick_unavailable, start)
    else if t.broken
    then (tick_error, t)
    else (tick_done, t)
