-- ===== src/Uploads/Pairing/Kept.antt =====
-- core/src/services/bulk_ingest_service.py: the files of a batch in its pairs.
use recruiter_pilot.Base.{
  Bool, Bool-cases, List, Option, [], ap, arith, contains, filter, inl, inr, length, list_eq,
  nat_eq, none, not, option_eq, refl, some, string_eq, ℕ, ◌++◌, ◌+◌, ◌==◌, ◌∙◌, ◌∷◌, ◌≡◌,
}
use recruiter_pilot.Base.Dict.{Dict, insert, lookup}
use recruiter_pilot.Base.Text.{Text}
use recruiter_pilot.Resumes.Upload.{File}
use recruiter_pilot.Uploads.Pairing.{
  ApplicantFiles, Namer, attach_covers, classify, covers_by_base, demote_all, demote_covers,
  name_key, or_no_covers, pair_applicants, pair_by_convention, pair_from_manifest, pop_cover,
  pop_first,
}

-- the files of an applicant, and of all of them
abbrev pub one_cover : Option File → List File
one_cover none = []
one_cover (some c) = c ∷ []

abbrev pub files_of : ApplicantFiles → List File
files_of a = a.resume_file ∷ one_cover a.cover_file

module _ (p : File → Bool) where
  -- how many of the files pass the test
  abbrev pub count : List File → ℕ
  count fs = length (filter p fs)

  unfoldable pub count_pairs : List ApplicantFiles → ℕ
  count_pairs [] = 0
  count_pairs (a ∷ rest) = count (files_of a) + count_pairs rest

  unfoldable count_covers : Dict Text (List File) → ℕ
  count_covers [] = 0
  count_covers ((base, cands) ∷ d) = count cands + count_covers d

  count-append : (xs ys : List File) → count (xs ++ ys) ≡ count xs + count ys
  count-append [] ys = omega arith
  count-append (x ∷ xs) ys = ground (arith, count-append xs ys)

  count_pairs-append :
      (xs ys : List ApplicantFiles) → count_pairs (xs ++ ys) ≡ count_pairs xs + count_pairs ys
  unfolding count_pairs
  count_pairs-append [] ys = omega arith
  count_pairs-append (x ∷ xs) ys = omega (arith, count_pairs-append xs ys)

  count_covers-insert :
      (k : Text) (v : List File) (d : Dict Text (List File))
      → count_covers (insert k v d) + count (or_no_covers (lookup k d)) ≡ count_covers d + count v
  unfolding count_covers insert lookup
  count_covers-insert k v [] = omega arith
  count_covers-insert k v ((j, w) ∷ d) = elim (Bool-cases (k == j)) [
    | inl e ↦ rw (e, count_covers) (omega arith)
    | inr e ↦ rw (e, count_covers) (omega (arith, count_covers-insert k v d))
  ]

  count-pop_first :
      (base : Text) (d : Dict Text (List File)) (o : Option (List File))
      → lookup base d ≡ o
      → count (one_cover (pop_first base d o).0) + count_covers (pop_first base d o).1
        ≡ count_covers d
  count-pop_first base d none e = omega arith
  count-pop_first base d (some []) e = omega arith
  count-pop_first base d (some (f ∷ fs)) e =
      let kept : count_covers (insert base fs d) + count (f ∷ fs) ≡ count_covers d + count fs =
        rw e at (count_covers-insert base fs d) in
      omega (arith, kept, count-append (f ∷ []) fs)

  count-demote_all : (fs : List File) → count_pairs (demote_all fs) ≡ count fs
  unfolding count_pairs demote_all
  count-demote_all [] = refl
  count-demote_all (f ∷ fs) = omega (arith, count-demote_all fs, count-append (f ∷ []) fs)

  count-demote_covers : (d : Dict Text (List File)) → count_pairs (demote_covers d) ≡ count_covers d
  unfolding count_pairs demote_covers count_covers
  count-demote_covers [] = refl
  count-demote_covers ((base, cands) ∷ d) = omega (
    arith,
    count_pairs-append (demote_all cands) (demote_covers d),
    count-demote_all cands,
    count-demote_covers d,
  )

  module _ (nm : Namer) where
    abbrev is_cover : File → Bool
    is_cover f = (classify nm f.0).0

    abbrev with_cover : Dict Text (List File) → File → Dict Text (List File)
    with_cover d f =
        insert (classify nm f.0).1 (or_no_covers (lookup (classify nm f.0).1 d) ++ f ∷ []) d

    count_covers-grouped :
        (d : Dict Text (List File)) (fs : List File)
        → count_covers (covers_by_base nm d fs) ≡ count_covers d + count (filter is_cover fs)
    unfolding covers_by_base
    count_covers-grouped d [] = omega arith
    count_covers-grouped d (f ∷ fs) = elim (Bool-cases (is_cover f)) [
      | inl e ↦
          rw (e, is_cover)
            (omega (
              arith,
              count_covers-grouped (with_cover d f) fs,
              count_covers-insert (classify nm f.0).1
                  (or_no_covers (lookup (classify nm f.0).1 d) ++ f ∷ []) d,
              count-append (or_no_covers (lookup (classify nm f.0).1 d)) (f ∷ []),
              count-append (f ∷ []) (filter is_cover fs),
            ))
      | inr e ↦ rw (e, is_cover) (count_covers-grouped d fs)
    ]

    count-attach_covers :
        (d : Dict Text (List File)) (fs : List File)
        → count_pairs (attach_covers nm d fs).0
            + count_covers (attach_covers nm d fs).1
            + count (filter is_cover fs)
          ≡ count_covers d + count fs
    unfolding attach_covers count_pairs
    count-attach_covers d [] = omega arith
    count-attach_covers d (f ∷ fs) = elim (Bool-cases (is_cover f)) [
      | inl e ↦
          rw (e, is_cover)
            (omega (
              arith,
              count-attach_covers d fs,
              count-append (f ∷ []) fs,
              count-append (f ∷ []) (filter is_cover fs),
            ))
      | inr e ↦
          let base = (classify nm f.0).1 in
          rw (e, is_cover)
            (omega (
              arith,
              count-attach_covers (pop_cover base d).1 fs,
              count-pop_first base d (lookup base d) refl,
              count-append (f ∷ []) fs,
              count-append (f ∷ []) (one_cover (pop_cover base d).0),
            ))
    ]

    count-pair_by_convention : (fs : List File) → count_pairs (pair_by_convention nm fs) ≡ count fs
    unfolding pair_by_convention count_covers
    count-pair_by_convention fs =
        let attached = attach_covers nm (covers_by_base nm [] fs) fs in
        omega (
          arith,
          count_pairs-append attached.0 (demote_covers attached.1),
          count-demote_covers attached.1,
          count-attach_covers (covers_by_base nm [] fs) fs,
          count_covers-grouped [] fs,
        )

    all_left : (fs : List File) → filter (λ f. not (contains [] (name_key nm f))) fs ≡ fs
    all_left [] = refl
    all_left (f ∷ fs) = ap (◌∷◌ f) (all_left fs)

    -- Without a manifest no file is lost and none is doubled: whatever test is chosen, as many files of the pairs
    -- pass it as files that were uploaded.
    pub pair_applicants-kept :
        (files : List File) → count_pairs (pair_applicants nm files []).pairs ≡ count files
    unfolding pair_applicants pair_from_manifest
    pair_applicants-kept files =
        ap (λ fs. count_pairs (pair_by_convention nm fs)) (all_left files)
        ∙ count-pair_by_convention files
