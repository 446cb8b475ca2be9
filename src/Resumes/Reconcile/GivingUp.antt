-- ===== src/Resumes/Reconcile/GivingUp.antt =====
-- core/src/worker/reconcile.py: what one tick does with the résumés that it selects.
use recruiter_pilot.Base.{
  All, Bool, List, [], false, filter, leb, length, list_eq, map, nat_eq, not, option_eq, string_eq,
  suc, ℕ, ◌++◌, ◌+◌, ◌==◌, ◌∷◌, ◌≡◌,
}
use recruiter_pilot.Resumes.Model.{ResumeDb, ResumeRow, is_parseable, status_eq, update_where}
use recruiter_pilot.Resumes.Reconcile.{Queue, Tick, bump, give_up}

-- no row of the résumé is waiting for a parse
abbrev pub IsSettled : ℕ → ResumeDb → Type 0
IsSettled i db = All (λ x. x.resume_id ≡ i → is_parseable x.status ≡ false) db.resumes

-- the résumés that were already requeued three times
abbrev pub is_exhausted : ResumeRow → Bool
is_exhausted r = leb 3 r.reconcile_attempts

module _ (q : Queue) where
  -- what the loop has done
  abbrev IsTicked : Tick → List ResumeRow → Tick → Type 0
  IsTicked t rs done =
      (done.broken ≡ false)
      × (done.requeued
          ≡ t.requeued ++ map (λ r. r.resume_id) (filter (λ r. not (is_exhausted r)) rs))
      × (done.abandoned ≡ t.abandoned + length (filter is_exhausted rs))
      × All (λ r. IsSettled r.resume_id done.tables) (filter is_exhausted rs)

  module _ (t : Tick) (r : ResumeRow) where
    abbrev bumped_tables : ResumeDb
    bumped_tables =
        let done = update_where t.tables (λ s. s.resume_id == r.resume_id) bump in done.1

    abbrev gave_up : Tick
    gave_up = record t { tables = give_up bumped_tables r.resume_id; abandoned = suc t.abandoned }

    abbrev gave_back : Tick
    gave_back = record t { tables = bumped_tables; requeued = t.requeued ++ r.resume_id ∷ [] }
