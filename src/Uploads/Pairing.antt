-- ===== src/Uploads/Pairing.antt =====
-- core/src/services/bulk_ingest_service.py: which cover letter belongs to which résumé. `Path.stem`, the two
-- suffix expressions and `_norm_base` are arguments.
pub mod Kept
use recruiter_pilot.Base.{
  Bool, List, Option, [], contains, false, filter, if◌then◌else◌, length, list_eq, ltb, nat_eq,
  none, not, option_eq, some, string_eq, true, ℕ, ◌++◌, ◌∷◌,
}
use recruiter_pilot.Base.Dict.{Dict, insert, lookup}
use recruiter_pilot.Base.Text.{Text}
use recruiter_pilot.Resumes.Mime.{Uploader}
use recruiter_pilot.Resumes.Upload.{File, basename_lower}

pub record Namer : Type 0 where
  pub uploader : Uploader
  pub path_stem : Text → Text
  pub cover_suffix : Text → Option Text
  pub resume_suffix : Text → Option Text
  pub norm_base : Text → Text

abbrev pub max_stem_len : ℕ
max_stem_len = 256

pub data PairNote : Type 0 where
  demoted_cover missing_cover : PairNote

pub record ApplicantFiles : Type 0 where
  pub resume_file : File
  pub cover_file : Option File
  pub pair_note : Option PairNote

-- `rejected_keys` are the names of the résumés that only the manifest has
pub record PairingResult : Type 0 where
  pub pairs : List ApplicantFiles
  pub rejected_keys : List Text

abbrev pub applicant : File → Option File → Option PairNote → ApplicantFiles
applicant file cover note = record { resume_file = file; cover_file = cover; pair_note = note }

-- the cover letter that the manifest names: the file, the note, the names that are used
unfoldable pub named_cover :
    Dict Text File → List Text → Option Text → Option File × Option PairNote × List Text
unfolding lookup
named_cover by_name used none = (none, none, used)
named_cover by_name used (some key) = elim (lookup key by_name) [
  | none ↦ (none, some missing_cover, used)
  | some f ↦ (some f, none, key ∷ used)
]

abbrev pub add_pair : ApplicantFiles → PairingResult × List Text → PairingResult × List Text
add_pair a (r, used) = (record r { pairs = a ∷ r.pairs }, used)

abbrev pub add_rejected : Text → PairingResult × List Text → PairingResult × List Text
add_rejected key (r, used) = (record r { rejected_keys = key ∷ r.rejected_keys }, used)

unfoldable pub pair_from_manifest :
    Dict Text File → List Text → Dict Text (Option Text) → PairingResult × List Text
unfolding lookup named_cover
pair_from_manifest by_name used [] = (record { pairs = []; rejected_keys = [] }, used)
pair_from_manifest by_name used ((key, wanted) ∷ manifest) =
    let named = named_cover by_name (key ∷ used) wanted in
    let with_used = pair_from_manifest by_name named.2 manifest in
    let skipped = pair_from_manifest by_name used manifest in
    elim (lookup key by_name) [
      | none ↦ add_rejected key skipped
      | some f ↦
          if contains used key then skipped else add_pair (applicant f named.0 named.1) with_used
    ]

abbrev pub or_no_covers : Option (List File) → List File
or_no_covers none = []
or_no_covers (some cands) = cands

-- `cands.pop(0) if cands else None`
abbrev pub pop_first :
    Text → Dict Text (List File) → Option (List File) → Option File × Dict Text (List File)
pop_first base d none = (none, d)
pop_first base d (some []) = (none, d)
pop_first base d (some (f ∷ fs)) = (some f, insert base fs d)

unfoldable pub pop_cover : Text → Dict Text (List File) → Option File × Dict Text (List File)
unfolding lookup insert
pop_cover base d = pop_first base d (lookup base d)

unfoldable pub demote_all : List File → List ApplicantFiles
demote_all [] = []
demote_all (f ∷ fs) = applicant f none (some demoted_cover) ∷ demote_all fs

unfoldable pub demote_covers : Dict Text (List File) → List ApplicantFiles
unfolding demote_all
demote_covers [] = []
demote_covers ((base, cands) ∷ d) = demote_all cands ++ demote_covers d

module _ (nm : Namer) where
  abbrev pub name_key : File → Text
  name_key f = basename_lower nm.uploader f.0

  -- the role, true for a cover letter, and the base
  unfoldable pub classify : Text → Bool × Text
  unfolding basename_lower
  classify filename =
      let stem = nm.path_stem (basename_lower nm.uploader filename) in
      if ltb max_stem_len (length stem)
      then (false, nm.norm_base stem)
      else elim (nm.cover_suffix stem) [
        | some b ↦ (true, nm.norm_base b)
        | none ↦ elim (nm.resume_suffix stem) [
          | some b ↦ (false, nm.norm_base b)
          | none ↦ (false, nm.norm_base stem)
        ]
      ]

  -- `{basename_lower(f[0]): f for f in files}`
  unfoldable pub index_names : Dict Text File → List File → Dict Text File
  unfolding insert
  index_names d [] = d
  index_names d (f ∷ fs) = index_names (insert (name_key f) f d) fs

  -- `covers_by_base.setdefault(base, []).append(f)`
  unfoldable pub covers_by_base : Dict Text (List File) → List File → Dict Text (List File)
  unfolding insert lookup
  covers_by_base d [] = d
  covers_by_base d (f ∷ fs) =
      let c = classify f.0 in
      let old = or_no_covers (lookup c.1 d) in
      let with_cover = covers_by_base (insert c.1 (old ++ f ∷ []) d) fs in
      let without = covers_by_base d fs in if c.0 then with_cover else without

  unfoldable pub attach_covers :
      Dict Text (List File) → List File → List ApplicantFiles × Dict Text (List File)
  unfolding pop_cover
  attach_covers d [] = ([], d)
  attach_covers d (f ∷ fs) =
      let c = classify f.0 in
      let popped = pop_cover c.1 d in
      let after_pop = attach_covers popped.1 fs in
      let skipped = attach_covers d fs in
      if c.0 then skipped else (applicant f popped.0 none ∷ after_pop.0, after_pop.1)

  -- the second and the third step, on the files that the manifest left
  unfoldable pub pair_by_convention : List File → List ApplicantFiles
  unfolding covers_by_base attach_covers demote_covers
  pair_by_convention remaining =
      let attached = attach_covers (covers_by_base [] remaining) remaining in
      attached.0 ++ demote_covers attached.1

  -- an empty manifest is as no manifest
  unfoldable pub pair_applicants : List File → Dict Text (Option Text) → PairingResult
  unfolding index_names pair_from_manifest pair_by_convention
  pair_applicants files manifest =
      let explicit = pair_from_manifest (index_names [] files) [] manifest in
      let remaining = filter (λ f. not (contains explicit.1 (name_key f))) files in
      record explicit.0 { pairs = explicit.0.pairs ++ pair_by_convention remaining }
