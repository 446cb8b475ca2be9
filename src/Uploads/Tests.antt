-- ===== src/Uploads/Tests.antt =====
-- Two small archives.
use recruiter_pilot.Base.{
  All, List, [], arith, false, if◌then◌else◌, list_eq, nat_eq, none, option_eq, refl, some,
  string_eq, take, ◌==◌, ◌||◌, ◌∷◌, ◌≡◌,
}
use recruiter_pilot.Base.Text.{Text}
use recruiter_pilot.Parsing.Split.{is_nonempty}
use recruiter_pilot.Resumes.Upload.{File}
use recruiter_pilot.Uploads.{
  ZipEntry, dotdot_segment, expand_zip_entries, expanded, extension, is_absolute, split_slashes,
  validate_entry_name,
}
use recruiter_pilot.Uploads.Accepting.{IsNamed, expand_zip_entries-accepts}
use recruiter_pilot.Uploads.Confined.{IsExpanded, contents, expand_zip_entries-IsExpanded}
use recruiter_pilot.Uploads.Pairing.{Namer, applicant, classify, demoted_cover, pair_applicants}
use recruiter_pilot.Uploads.Pairing.Kept.{count, count_pairs, pair_applicants-kept}

abbrev two_members : List ZipEntry
two_members =
    record {
      entry_name = (97 ∷ 47 ∷ 98 ∷ 46 ∷ 116 ∷ 120 ∷ 116 ∷ []);
      entry_chunks = (104 ∷ 105 ∷ []) ∷ (33 ∷ []) ∷ [];
      entry_corrupt = false;
    }
    ∷ record {
      entry_name = (99 ∷ 46 ∷ 116 ∷ 120 ∷ 116 ∷ []);
      entry_chunks = (104 ∷ 111 ∷ []) ∷ [];
      entry_corrupt = false;
    }
    ∷ []

abbrev txt_only : List Text
txt_only = (116 ∷ 120 ∷ 116 ∷ []) ∷ []

-- a name that climbs is refused, with a backslash too
climbing_name : validate_entry_name (97 ∷ 92 ∷ 46 ∷ 46 ∷ 92 ∷ 98 ∷ []) ≡ some dotdot_segment
unfolding validate_entry_name
climbing_name = refl

expand_zip_entries-IsExpanded_example :
    IsExpanded
      (λ s. s)
      txt_only
      two_members
      (expand_zip_entries (λ s. s) txt_only (some two_members))
expand_zip_entries-IsExpanded_example = expand_zip_entries-IsExpanded (λ s. s) txt_only two_members

two_members-IsNamed : All (IsNamed (λ s. s) txt_only) two_members
unfolding extension split_slashes is_absolute
two_members-IsNamed = ((refl, refl, refl, refl), ((refl, refl, refl, refl), tt))

expand_zip_entries-accepts_example :
    expand_zip_entries (λ s. s) txt_only (some two_members) ≡ expanded (contents two_members)
expand_zip_entries-accepts_example =
    expand_zip_entries-accepts (λ s. s) txt_only two_members (omega arith) two_members-IsNamed
      ((refl, omega arith), ((refl, omega arith), tt)) (omega arith)

abbrev simple_namer : Namer
simple_namer = record {
  uploader = record {
    lower_text = λ s. s;
    posix_name = λ s. s;
    sha256 = λ bytes. bytes;
    uuid4 = λ n. n;
    encrypt_text = λ s. some s;
  };
  path_stem = λ s. s;
  cover_suffix = λ s. if s == (97 ∷ 99 ∷ []) || s == (98 ∷ 99 ∷ []) then some (take 1 s) else none;
  resume_suffix = λ s. none;
  norm_base = λ s. s;
}

-- the covers of a and b, and the résumé of a
abbrev batch_files : List File
batch_files = ((98 ∷ 99 ∷ []), []) ∷ ((97 ∷ []), []) ∷ ((97 ∷ 99 ∷ []), []) ∷ []

paired_and_demoted :
    (pair_applicants simple_namer batch_files []).pairs
    ≡ applicant ((97 ∷ []), []) (some ((97 ∷ 99 ∷ []), [])) none
      ∷ applicant ((98 ∷ 99 ∷ []), []) none (some demoted_cover)
      ∷ []
unfolding pair_applicants classify
paired_and_demoted = refl

-- two files of one name that a manifest pairs: the first is in no pair
shadowed_file :
    (pair_applicants simple_namer
      (((97 ∷ []), (1 ∷ [])) ∷ ((97 ∷ []), (2 ∷ [])) ∷ [])
      (((97 ∷ []), none) ∷ [])).pairs
    ≡ applicant ((97 ∷ []), (2 ∷ [])) none none ∷ []
unfolding pair_applicants classify
shadowed_file = refl

pair_applicants-kept_example :
    count_pairs (λ f. is_nonempty f.0) (pair_applicants simple_namer batch_files []).pairs
    ≡ count (λ f. is_nonempty f.0) batch_files
pair_applicants-kept_example = pair_applicants-kept (λ f. is_nonempty f.0) simple_namer batch_files
