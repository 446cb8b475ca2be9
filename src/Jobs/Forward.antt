-- ===== src/Jobs/Forward.antt =====
-- core/src/services/job_service.py: the status of a job only moves forward.
use text.Mathlib.TextEquality.{eq_iff}
use recruiter_pilot.Auth.Audit.{record_audit}
use recruiter_pilot.Auth.Model.{Actor, ok, role_eq}
use recruiter_pilot.Base.{
  Bool, Bool-cases, Option, Option-cases, String, ap, arith, eqb_iff, find, find-holds, find-map,
  if◌then◌else◌, inl, inr, list_eq, map, nat_eq, none, option_eq, refl, some, string_eq, suc, sym,
  true, ℕ, ◌==◌, ◌∙◌, ◌≡◌, ◌≤◌, ◌⊎◌,
}
use recruiter_pilot.Base.Dict.{lookup}
use recruiter_pilot.Base.Text.{Text}
use recruiter_pilot.Jobs.{
  JobDb, JobRow, clear_parse_failure, forward_transitions, get_job, is_draft, record_job_failure,
  record_job_parsed, set_columns, transition_status, update_job, update_jobs,
}

-- draft, open, closed, archived
abbrev pub rank : String → ℕ
rank s = if s == "open" then 1 else if s == "closed" then 2 else if s == "archived" then 3 else 0

moved :
    (s to a b : String)
    → (s == a) ≡ true
    → (b == to) ≡ true
    → suc (rank a) ≡ rank b
    → suc (rank s) ≡ rank to
moved s to a b from into h =
    ap (λ x. suc (rank x)) ((eq_iff s a).0 from) ∙ h ∙ ap rank ((eq_iff b to).0 into)

transition_rank :
    (s to : String) → (lookup s forward_transitions == some to) ≡ true → suc (rank s) ≡ rank to
unfolding lookup
transition_rank s to h = elim (Bool-cases (s == "draft")) [
  | inl draft ↦ moved s to "draft" "open" draft (ground arith) refl
  | inr e ↦ elim (Bool-cases (s == "open")) [
    | inl on ↦ moved s to "open" "closed" on (ground arith) refl
    | inr e' ↦ elim (Bool-cases (s == "closed")) [
      | inl done ↦ moved s to "closed" "archived" done (ground arith) refl
      | inr e'' ↦ ground arith
    ]
  ]
]

-- what a step may change in a row: the status moves forward, and the write-back of a parse
-- reaches drafts only
abbrev pub Advanced : JobRow → JobRow → Type 0
Advanced j k =
    (k.job_key ≡ j.job_key)
    × (rank j.job_status ≤ rank k.job_status)
    × (1 ≤ rank j.job_status
        → (k.description_parsed ≡ j.description_parsed) × (k.job_failure ≡ j.job_failure))

pub data JobStep : JobDb → JobDb → Type 0 where
  step_transition :
      {db db' : JobDb} (i : ℕ) (to : String) → transition_status db i to ≡ ok db' → JobStep db db'
  step_job_parsed :
      {db : JobDb} (i extracted at : ℕ) → JobStep db (record_job_parsed db i extracted at).1
  step_job_failed :
      {db : JobDb} (i : ℕ) (reason : Text) → JobStep db (record_job_failure db i reason)
  step_cleared : {db : JobDb} (i : ℕ) → JobStep db (clear_parse_failure db i)
  step_updated :
      {db db' : JobDb} (i : ℕ) (blind : Option Bool) (others : Bool) (actor : Actor)
      → update_job db i blind others actor ≡ ok db'
      → JobStep db db'

-- a step changes the rows one by one
abbrev AdvancedBy : JobDb → JobDb → (JobRow → JobRow) → Type 0
AdvancedBy db db' f = (db'.jobs ≡ map f db.jobs) × ((j : JobRow) → Advanced j (f j))

draft_only :
    (i : ℕ) (f : JobRow → JobRow) (j : JobRow)
    → (f j).job_key ≡ j.job_key
    → (f j).job_status ≡ j.job_status
    → Advanced j (if is_draft i j then f j else j)
draft_only i f j key same = elim (Bool-cases (is_draft i j)) [
  | inl e ↦
      let draft : j.job_status ≡ "draft" = (eq_iff j.job_status "draft").0 (ground arith) in
      let low : rank j.job_status ≡ 0 = ap rank draft in
      rw e (key, omega (arith, ap rank same), λ h. ground (arith, low, h))
  | inr e ↦ rw e (refl, omega arith, λ h. (refl, refl))
]

columns-Advanced :
    (i : ℕ) (blind : Option Bool) (j : JobRow)
    → Advanced j (if j.job_key == i then set_columns blind j else j)
unfolding set_columns
columns-Advanced i none j = ground arith
columns-Advanced i (some b) j = ground arith

set_status : ℕ → String → JobRow → JobRow
set_status i to k = if k.job_key == i then record k { job_status = to } else k

transition_ok :
    (db db' : JobDb) (i : ℕ) (to : String)
    → transition_status db i to ≡ ok db'
    → (a : JobRow) × (get_job db i ≡ some a)
      × (suc (rank a.job_status) ≡ rank to)
      × (db'.jobs ≡ map (set_status i to) db.jobs)
unfolding transition_status set_status
transition_ok db db' i to e = elim (Option-cases (get_job db i)) [
  | inl nowhere ↦ ground (arith, nowhere, e)
  | inr (a, found) ↦ (
    a,
    found,
    transition_rank a.job_status to (ground (arith, found, e)),
    ground (arith, found, e),
  )
]

-- where the job was, a row that it advanced to is
abbrev pub AdvancedIn : ℕ → JobRow → JobDb → Type 0
AdvancedIn n j db = (k : JobRow) × (get_job db n ≡ some k) × Advanced j k

module _ (n : ℕ) (db db' : JobDb) (j : JobRow) (found : get_job db n ≡ some j) where
  by_map :
      (f : JobRow → JobRow)
      → ((k : JobRow) → (f k).job_key ≡ k.job_key)
      → db'.jobs ≡ map f db.jobs
      → Advanced j (f j)
      → AdvancedIn n j db'
  unfolding get_job
  by_map f same e h = (
    f j,
    ap (find (λ k. k.job_key == n)) e
        ∙ find-map (λ k. k.job_key == n) f (λ k. ap (λ m. m == n) (same k)) db.jobs j found,
    h,
  )

  transition-Advanced :
      (i : ℕ) (to : String) → transition_status db i to ≡ ok db' → AdvancedIn n j db'
  unfolding get_job set_status
  transition-Advanced i to e =
      let (a, at_i, up, jobs') = transition_ok db db' i to e in
      let key : j.job_key ≡ n =
        (eqb_iff j.job_key n).0 (find-holds (λ k. k.job_key == n) db.jobs j found) in
      by_map (set_status i to) (λ k. ground arith) jobs'
        (elim (Bool-cases (j.job_key == i)) [
          | inl e ↦
              let key_i : j.job_key ≡ i = (eqb_iff j.job_key i).0 e in
              let same : some a ≡ some j = sym at_i ∙ ap (get_job db) (sym key_i ∙ key) ∙ found in
              let status : a.job_status ≡ j.job_status = ground (arith, same) in
              let draft : suc (rank j.job_status) ≡ rank to =
                ap (λ x. suc (rank x)) (sym status) ∙ up in
              rw e (refl, omega (arith, draft), λ h. (refl, refl))
          | inr e ↦ rw e (refl, omega arith, λ h. (refl, refl))
        ])

drafts-Advanced :
    (n : ℕ) (db : JobDb) (j : JobRow) (i : ℕ) (f : JobRow → JobRow)
    → ((k : JobRow) → (f k).job_key ≡ k.job_key)
    → (f j).job_status ≡ j.job_status
    → get_job db n ≡ some j
    → AdvancedIn n j (update_jobs db (is_draft i) f).1
drafts-Advanced n db j i f same status found =
    by_map n db (update_jobs db (is_draft i) f).1 j found (λ k. if is_draft i k then f k else k)
      (λ k. ground (arith, same k)) refl (draft_only i f j (same j) status)

update_job_ok :
    (db db' : JobDb) (i : ℕ) (blind : Option Bool) (others : Bool) (actor : Actor)
    → update_job db i blind others actor ≡ ok db'
    → (db'.jobs ≡ db.jobs)
      ⊎ (db'.jobs ≡ map (λ k. if k.job_key == i then set_columns blind k else k) db.jobs)
unfolding update_job record_audit
update_job_ok db db' i blind others actor e = elim (Option-cases (get_job db i)) [
  | inl nowhere ↦ ground (arith, nowhere, e)
  | inr (a, found) ↦ ground (arith, found, e)
]

Advanced-refl : (j : JobRow) → Advanced j j
Advanced-refl j = (refl, omega arith, λ h. (refl, refl))

Advanced-trans : (j k l : JobRow) → Advanced j k → Advanced k l → Advanced j l
Advanced-trans j k l h g = (
  g.0 ∙ h.0,
  omega (arith, h.1, g.1),
  λ up.
      let first = h.2 up in
      let second = g.2 (omega (arith, h.1, up)) in (second.0 ∙ first.0, second.1 ∙ first.1),
)

set_columns_key :
    (i : ℕ) (blind : Option Bool) (k : JobRow)
    → (if k.job_key == i then set_columns blind k else k).job_key ≡ k.job_key
unfolding set_columns
set_columns_key i none k = ground arith
set_columns_key i (some b) k = ground arith

step-AdvancedIn :
    (n : ℕ) (db db' : JobDb) (j : JobRow)
    → get_job db n ≡ some j
    → JobStep db db'
    → AdvancedIn n j db'
unfolding record_job_parsed record_job_failure clear_parse_failure get_job
step-AdvancedIn n db db' j found (step_transition i to e) =
    transition-Advanced n db db' j found i to e
step-AdvancedIn n db _ j found (step_job_parsed i extracted at) =
    drafts-Advanced n db j i _ (λ k. refl) refl found
step-AdvancedIn n db _ j found (step_job_failed i reason) =
    drafts-Advanced n db j i _ (λ k. refl) refl found
step-AdvancedIn n db _ j found (step_cleared i) = drafts-Advanced n db j i _ (λ k. refl) refl found
step-AdvancedIn n db db' j found (step_updated i blind others actor e) =
    elim (update_job_ok db db' i blind others actor e) [
      | inl same ↦ (j, ap (find (λ k. k.job_key == n)) same ∙ found, Advanced-refl j)
      | inr changed ↦
          by_map n db db' j found _ (set_columns_key i blind) changed (columns-Advanced i blind j)
    ]

pub data JobReach : JobDb → JobDb → Type 0 where
  job_arrived : {db : JobDb} → JobReach db db
  job_after : {db db' db'' : JobDb} → JobReach db db' → JobStep db' db'' → JobReach db db''

-- Over any run of transitions, write-backs and updates, one call after the other, a job keeps its row, its status only moves
-- forward along draft, open, closed, archived, and once it has left draft, the extraction and the
-- failure reason of its parse stay as they were.
pub JobReach-AdvancedIn :
    (n : ℕ) (db db' : JobDb) (j : JobRow)
    → get_job db n ≡ some j
    → JobReach db db'
    → AdvancedIn n j db'
JobReach-AdvancedIn n db _ j found job_arrived = (j, found, Advanced-refl j)
JobReach-AdvancedIn n db _ j found (job_after reach step) =
    let (k, found', h) = JobReach-AdvancedIn n db _ j found reach in
    let (l, found'', g) = step-AdvancedIn n _ _ k found' step in
    (l, found'', Advanced-trans j k l h g)
