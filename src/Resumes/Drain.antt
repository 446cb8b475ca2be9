-- ===== src/Resumes/Drain.antt =====
-- `project_to_graph` of core/src/worker/graph_tasks.py on the events of résumés. Whether a projection
-- succeeds, whether the deadline has passed and how many skills a payload names are arguments, each by
-- the id of the outbox row.
use recruiter_pilot.Base.{
  Bool, List, Option, [], contains, filter, if◌then◌else◌, is_some, list_eq, ltb, map, nat_eq, none,
  not, option_eq, some, string_eq, suc, take, ℕ, ◌&&◌, ◌++◌, ◌+◌, ◌==◌, ◌||◌, ◌∷◌,
}
use recruiter_pilot.Resumes.Model.{OutboxRow, ResumeDb, resume_parsed, resume_withdrawn, status_eq}

pub record Drainer : Type 0 where
  pub batch_size : ℕ
  pub max_delivery_attempts : ℕ
  pub skill_budget : ℕ
  pub succeeds : ℕ → Bool
  pub past_deadline : ℕ → Bool
  pub skill_count : ℕ → ℕ

-- the rows that `_SELECT_SQL` gives; the table is in the order of the ids
unfoldable pub select_undelivered : Drainer → List OutboxRow → List OutboxRow
select_undelivered d rows = take d.batch_size (
    filter (λ o. not (is_some o.delivered_at) && ltb o.delivery_attempts d.max_delivery_attempts)
      rows)

abbrev set_row : ℕ → (OutboxRow → OutboxRow) → List OutboxRow → List OutboxRow
set_row i f rows = map (λ o. if o.outbox_id == i then f o else o) rows

-- `MERGE`, and `DETACH DELETE`, of a résumé's node
unfoldable pub project_resume : List ℕ → ℕ → List ℕ
project_resume graph i = if contains graph i then graph else graph ++ i ∷ []

unfoldable pub unproject_resume : List ℕ → ℕ → List ℕ
unproject_resume graph i = filter (λ j. not (j == i)) graph

unfoldable pub apply_event : List ℕ → OutboxRow → List ℕ
unfolding project_resume unproject_resume
apply_event graph o = elim o.event [
  | resume_parsed payload ↦ project_resume graph o.aggregate_id
  | resume_withdrawn ↦ unproject_resume graph o.aggregate_id
]

unfoldable pub deliver : Drainer → ResumeDb → OutboxRow → ResumeDb
unfolding apply_event
deliver d db o =
    if d.succeeds o.outbox_id
    then record db {
      outbox = set_row o.outbox_id (λ r. record r { delivered_at = some db.auth.now }) db.outbox;
      graph = apply_event db.graph o;
    }
    else record db {
      outbox =
          set_row o.outbox_id (λ r. record r { delivery_attempts = suc r.delivery_attempts })
            db.outbox;
    }

unfoldable pub skills_needed : Drainer → OutboxRow → ℕ
skills_needed d o = elim o.event [
  | resume_parsed payload ↦ d.skill_count payload
  | resume_withdrawn ↦ 0
]

-- the loop; `spent` is the number of skills of the rows before, `none` before the first
unfoldable pub drain_rows : Drainer → Option ℕ → ResumeDb → List OutboxRow → ℕ × ResumeDb
unfolding deliver skills_needed
drain_rows d spent db [] = (0, db)
drain_rows d none db (o ∷ os) =
    let rest = drain_rows d (some (skills_needed d o)) (deliver d db o) os in
    if d.succeeds o.outbox_id then (suc rest.0, rest.1) else rest
drain_rows d (some n) db (o ∷ os) =
    let rest = drain_rows d (some (n + skills_needed d o)) (deliver d db o) os in
    if d.past_deadline o.outbox_id || ltb d.skill_budget (n + skills_needed d o)
    then (0, db)
    else if d.succeeds o.outbox_id
    then (suc rest.0, rest.1)
    else rest

unfoldable pub project_to_graph : Drainer → ResumeDb → ℕ × ResumeDb
unfolding select_undelivered drain_rows
project_to_graph d db = drain_rows d none db (select_undelivered d db.outbox)
