-- ===== src/Resumes/Status/Buckets.antt =====
-- core/src/services/resume_service.py: the buckets of `status_breakdown`.
use recruiter_pilot.Base.{
  Bool, Bool-cases, List, Option, [], ap, arith, false, filter, if◌then◌else◌, inl, inr, is_some,
  length, list_eq, nat_eq, none, option_eq, refl, some, string_eq, suc, true, ℕ, ◌&&◌, ◌+◌, ◌==◌,
  ◌∷◌, ◌≡◌, ◌≤◌,
}
use recruiter_pilot.Resumes.Model.{
  ResumeDb, ResumeRow, ResumeStatus, failed, parsed, parsing, status_eq, uploaded,
}
use recruiter_pilot.Resumes.Status.{Breakdown, in_bucket, status_breakdown}

buckets_cover :
    (rows : List ResumeRow)
    → length rows
      ≡ length (filter (in_bucket uploaded) rows)
        + length (filter (in_bucket parsing) rows)
        + length (filter (in_bucket parsed) rows)
        + length (filter (in_bucket failed) rows)
        + length (filter (λ r. is_some r.withdrawn_at) rows)
buckets_cover [] = refl
buckets_cover (r ∷ rows) = ground (arith, buckets_cover rows)

degraded_within :
    (rows : List ResumeRow)
    → length (filter (λ r. in_bucket parsed r && r.degraded) rows)
      ≤ length (filter (in_bucket parsed) rows)
degraded_within [] = omega arith
degraded_within (r ∷ rows) = ground (arith, degraded_within rows)

-- one row in the counts of the rows after it
abbrev pub counted : ResumeRow → Breakdown → Breakdown
counted r b = elim r.withdrawn_at [
  | some t ↦ record b { withdrawn_count = suc b.withdrawn_count }
  | none ↦ elim r.status [
    | uploaded ↦ record b { uploaded_count = suc b.uploaded_count }
    | parsing ↦ record b { parsing_count = suc b.parsing_count }
    | failed ↦ record b { failed_count = suc b.failed_count }
    | parsed ↦ record b {
      parsed_count = suc b.parsed_count;
      degraded_count = if r.degraded then suc b.degraded_count else b.degraded_count;
    }
  ]
]

-- the counts of one pass over the rows of a job
abbrev pub tally : ℕ → List ResumeRow → Breakdown
tally job [] = record {
  uploaded_count = 0;
  parsing_count = 0;
  parsed_count = 0;
  failed_count = 0;
  withdrawn_count = 0;
  degraded_count = 0;
}
tally job (r ∷ rows) =
    let rest = tally job rows in if r.resume_job == job then counted r rest else rest

-- a row of the job before the others, by its columns
mine :
    (db : ResumeDb) (job : ℕ) (r : ResumeRow) (rows : List ResumeRow)
    → (r.resume_job == job) ≡ true
    → status_breakdown (record db { resumes = rows }) job ≡ tally job rows
    → (w : Option ℕ) (s : ResumeStatus) (flag : Bool)
    → let r' : ResumeRow = record r { withdrawn_at = w; status = s; degraded = flag } in
      status_breakdown (record db { resumes = r' ∷ rows }) job ≡ tally job (r' ∷ rows)
unfolding status_breakdown
mine db job r rows e rest (some t) s flag =
    rw e (ap {A = Breakdown} (λ b. record b { withdrawn_count = suc b.withdrawn_count }) rest)
mine db job r rows e rest none uploaded flag =
    rw e (ap {A = Breakdown} (λ b. record b { uploaded_count = suc b.uploaded_count }) rest)
mine db job r rows e rest none parsing flag =
    rw e (ap {A = Breakdown} (λ b. record b { parsing_count = suc b.parsing_count }) rest)
mine db job r rows e rest none failed flag =
    rw e (ap {A = Breakdown} (λ b. record b { failed_count = suc b.failed_count }) rest)
mine db job r rows e rest none parsed true = rw e (
    ap {A = Breakdown}
      (λ b. record b { parsed_count = suc b.parsed_count; degraded_count = suc b.degraded_count })
      rest)
mine db job r rows e rest none parsed false =
    rw e (ap {A = Breakdown} (λ b. record b { parsed_count = suc b.parsed_count }) rest)

breakdown_of :
    (db : ResumeDb) (job : ℕ) (rows : List ResumeRow)
    → status_breakdown (record db { resumes = rows }) job ≡ tally job rows
unfolding status_breakdown
breakdown_of db job [] = refl
breakdown_of db job (r ∷ rows) =
    let rest = breakdown_of db job rows in
    elim (Bool-cases (r.resume_job == job)) [
      | inr e ↦ rw e rest
      | inl e ↦ mine db job r rows e rest r.withdrawn_at r.status r.degraded
    ]

-- The breakdown of a job is what one pass over its rows counts: each row counts in one of the five buckets,
-- a withdrawn one as withdrawn whatever its parse state, any other under its parse state, and a parsed one
-- with the degraded flag also as degraded. So the five buckets add up to the rows of the job.
pub status_breakdown-partition :
    (db : ResumeDb) (job : ℕ)
    → let b = status_breakdown db job in
      (b ≡ tally job db.resumes)
      × (length (filter (λ r. r.resume_job == job) db.resumes)
          ≡ b.uploaded_count + b.parsing_count + b.parsed_count + b.failed_count
            + b.withdrawn_count)
      × (b.degraded_count ≤ b.parsed_count)
unfolding status_breakdown
status_breakdown-partition db job =
    let rows = filter (λ r. r.resume_job == job) db.resumes in
    (breakdown_of db job db.resumes, buckets_cover rows, degraded_within rows)
