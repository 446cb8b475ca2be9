-- ===== src/Resumes/Upload/Accepted.antt =====
-- core/src/services/resume_service.py: what an upload leaves in the table.
use mathlib.Core.Path.{ap₂}
use recruiter_pilot.Base.{
  All, All-append, Bool, Bool-cases, List, Option, Option-cases, Pairwise, Pairwise-append, [],
  arith, contains, false, find, find-none, inl, inr, length, list_eq, ltb, map, nat_eq, none,
  option_eq, refl, some, string_eq, true, ℕ, ◌<◌, ◌∷◌, ◌≡◌, ◌≤◌,
}
use recruiter_pilot.Base.Dict.{Dict, lookup}
use recruiter_pilot.Base.Text.{Text}
use recruiter_pilot.Parsing.Split.{is_nonempty}
use recruiter_pilot.Resumes.Mime.{Mime, Uploader, detect_mime, max_upload_bytes}
use recruiter_pilot.Resumes.Upload.{
  Batch, BlobKey, File, StoredRow, UploadDb, UploadResult, Uploaded, accept_file, add_result,
  after_file, attach_cover, basename_lower, insert_upload, key_of_blob, new_row, put_blob,
  roll_back, same_content, upload_batch, upload_err, upload_file, upload_files, upload_ok,
  upload_resumes, validate_cover_letter_file,
}

-- the limits of the upload code, and the consent
abbrev pub IsAdmissible : StoredRow → Type 0
IsAdmissible r =
    (0 < r.stored_size) × (r.stored_size ≤ max_upload_bytes) × (r.stored_consent ≡ true)

-- two rows of different jobs or of different contents
abbrev pub Differ : StoredRow → StoredRow → Type 0
Differ r s = same_content s.stored_job s.stored_sha r ≡ false

abbrev pub IsStored : UploadDb → Type 0
IsStored db = All IsAdmissible db.stored × Pairwise Differ db.stored

nonempty_length : (s : List ℕ) → is_nonempty s ≡ true → 0 < length s
nonempty_length [] h = ground arith
nonempty_length (c ∷ s) h = omega arith

-- the rows are as before, whatever comes of the cover letter
abbrev KeepsRows : UploadDb → Uploaded (Option BlobKey × Option Text) → Type 0
KeepsRows db (upload_ok cover db') = db'.stored ≡ db.stored
KeepsRows db (upload_err e db') = db'.stored ≡ db.stored

-- what one file leaves, where it does not end the batch
abbrev IsHandled : File → Uploaded UploadResult → Type 0
IsHandled file (upload_ok r db) = IsStored db × (r.original_filename ≡ file.0)
IsHandled file (upload_err e db) = Unit

-- what the files of a batch leave
abbrev AreHandled : List File → Uploaded (List UploadResult) → Type 0
AreHandled files (upload_ok rs db) =
    IsStored db × (map (λ r. r.original_filename) rs ≡ map (λ f. f.0) files)
AreHandled files (upload_err e db) = Unit

module _ (u : Uploader) (b : Batch) (agreed : b.batch_consent ≡ true) where
  insert_upload-IsStored :
      (db : UploadDb) (file : File) (mime : Mime) (cover : Option BlobKey)
      → IsStored db
      → is_nonempty file.1 ≡ true
      → length file.1 ≤ max_upload_bytes
      → find (same_content b.batch_job (u.sha256 file.1)) db.stored ≡ none
      → IsStored (insert_upload u b db file mime cover)
  unfolding insert_upload
  insert_upload-IsStored db file mime cover h some_bytes few fresh_content =
      let row = new_row u b db file mime cover in
      (
        All-append IsAdmissible db.stored (row ∷ []) h.0
            ((nonempty_length file.1 some_bytes, few, agreed), tt),
        Pairwise-append Differ db.stored row h.1
            (find-none (same_content b.batch_job (u.sha256 file.1)) db.stored fresh_content),
      )

  attach_cover-KeepsRows :
      (db : UploadDb) (paired : Option File) → KeepsRows db (attach_cover u b db paired)
  unfolding attach_cover
  attach_cover-KeepsRows db none = refl
  attach_cover-KeepsRows db (some paired) =
      elim (Option-cases (validate_cover_letter_file u db.drawn paired)) [
        | inl e ↦ rw (e, KeepsRows) refl
        | inr (blob, e) ↦ rw (e, KeepsRows) refl
      ]

  accept_file-IsHandled :
      (db : UploadDb) (file : File) (notes : List Text) (mime : Mime)
      (covered : Uploaded (Option BlobKey × Option Text))
      → KeepsRows db covered
      → IsStored db
      → is_nonempty file.1 ≡ true
      → length file.1 ≤ max_upload_bytes
      → find (same_content b.batch_job (u.sha256 file.1)) db.stored ≡ none
      → IsHandled file (accept_file u b file notes mime covered)
  unfolding accept_file
  accept_file-IsHandled db file notes mime (upload_err e db') kept h some_bytes few new_content = tt
  accept_file-IsHandled db file notes mime (upload_ok cover db') kept h some_bytes few new_content =
      (
        insert_upload-IsStored db' file mime cover.0 (rw kept h) some_bytes few
            (rw kept new_content),
        refl,
      )

  upload_file-IsHandled :
      (db : UploadDb) (file : File) → IsStored db → IsHandled file (upload_file u b db file)
  unfolding upload_file
  upload_file-IsHandled db file h = elim (Bool-cases (is_nonempty file.1)) [
    | inr e ↦ rw e (h, refl)
    | inl some_bytes ↦ rw some_bytes (elim (Bool-cases (ltb max_upload_bytes (length file.1))) [
      | inl e ↦ rw e (h, refl)
      | inr few ↦ rw few (elim (Option-cases (detect_mime u file.0 file.1)) [
        | inl e ↦ rw e (h, refl)
        | inr (mime, e) ↦
            rw e
              (elim (Option-cases (find (same_content b.batch_job (u.sha256 file.1)) db.stored)) [
                | inr (dup, e') ↦ rw e' (h, refl)
                | inl e' ↦ rw e' (
                    accept_file-IsHandled db file _ mime _
                      (attach_cover-KeepsRows db (lookup (basename_lower u file.0) b.cover_map)) h
                      some_bytes (ground arith) e')
              ])
      ])
    ])
  ]

  add_result-AreHandled :
      (file : File) (files : List File) (r : UploadResult) (rest : Uploaded (List UploadResult))
      → r.original_filename ≡ file.0
      → AreHandled files rest
      → AreHandled (file ∷ files) (add_result r rest)
  add_result-AreHandled file files r (upload_err e db) named h = tt
  add_result-AreHandled file files r (upload_ok rs db) named h = (h.0, ap₂ ◌∷◌ named h.1)

  after_file-AreHandled :
      (file : File) (files : List File) (first : Uploaded UploadResult)
      (rest : UploadDb → Uploaded (List UploadResult))
      → IsHandled file first
      → ((db : UploadDb) → IsStored db → AreHandled files (rest db))
      → AreHandled (file ∷ files) (after_file first rest)
  after_file-AreHandled file files (upload_err e db) rest h k = tt
  after_file-AreHandled file files (upload_ok r db) rest h k =
      add_result-AreHandled file files r (rest db) h.1 (k db h.0)

  upload_files-AreHandled :
      (files : List File) (db : UploadDb)
      → IsStored db
      → AreHandled files (upload_files u b db files)
  unfolding upload_files
  upload_files-AreHandled [] db h = (h, refl)
  upload_files-AreHandled (f ∷ fs) db h =
      after_file-AreHandled f fs (upload_file u b db f) _ (upload_file-IsHandled db f h)
        (λ db' k. upload_files-AreHandled fs db' k)

-- what an upload gives: the table with a result for each file, or the rows of before
abbrev pub IsUploaded : UploadDb → List File → Uploaded (List UploadResult) → Type 0
IsUploaded before files (upload_ok rs db) =
    IsStored db × (map (λ r. r.original_filename) rs ≡ map (λ f. f.0) files)
IsUploaded before files (upload_err e db) = db.stored ≡ before.stored

module _ (u : Uploader) where
  roll_back-IsUploaded :
      (b : Batch) (db : UploadDb) (files : List File) (r : Uploaded (List UploadResult))
      → AreHandled files r
      → IsUploaded db files (roll_back db r)
  roll_back-IsUploaded b db files (upload_ok rs db') h = h
  roll_back-IsUploaded b db files (upload_err e db') h = refl

  upload_batch-AreHandled :
      (b : Batch) (db : UploadDb) (cover : Option (BlobKey × List ℕ)) (pasted : Option Text)
      (files : List File)
      → b.batch_consent ≡ true
      → IsStored db
      → AreHandled files (upload_batch u b db cover pasted files)
  unfolding upload_batch
  upload_batch-AreHandled b db none none files agreed h =
      upload_files-AreHandled u b agreed files db h
  upload_batch-AreHandled b db (some blob) none files agreed h =
      upload_files-AreHandled u b agreed files (put_blob db blob) h
  upload_batch-AreHandled b db none (some s) files agreed h =
      elim (Option-cases (u.encrypt_text s)) [
        | inl e ↦ rw (e, AreHandled) tt
        | inr (t, e) ↦
            rw (e, AreHandled)
              (upload_files-AreHandled u (record b { batch_cover_text = some t }) agreed files db h)
      ]
  upload_batch-AreHandled b db (some blob) (some s) files agreed h =
      elim (Option-cases (u.encrypt_text s)) [
        | inl e ↦ rw (e, AreHandled) tt
        | inr (t, e) ↦
            rw (e, AreHandled)
              (upload_files-AreHandled u (record b { batch_cover_text = some t }) agreed files
                (put_blob db blob) h)
      ]

  abbrev batch_of :
      Bool → ℕ → Option (BlobKey × List ℕ) → Dict Text File → Dict Text (List Text) → Batch
  batch_of consent job cover covers warns = record {
    batch_job = job;
    batch_consent = consent;
    batch_cover = key_of_blob cover;
    batch_cover_text = none;
    cover_map = covers;
    warn_map = warns;
  }

  -- From a table in which every row has between 1 byte and 10 MiB and an acknowledged consent and no job has
  -- the same content twice, an upload whose files are all handled gives one result for each file, in their
  -- order, and leaves such a table; an upload that is refused leaves the rows as they were.
  pub upload_resumes-IsUploaded :
      (db : UploadDb) (job : ℕ) (files : List File) (consent : Bool) (cover_file : Option File)
      (cover_text : Option Text) (covers : Dict Text File) (warns : Dict Text (List Text))
      → IsStored db
      → IsUploaded db files
          (upload_resumes u db job files consent cover_file cover_text covers warns)
  unfolding upload_resumes
  upload_resumes-IsUploaded db job files consent cover_file cover_text covers warns h =
      let handled : consent ≡ true
          → (cover : Option (BlobKey × List ℕ))
          → IsUploaded db files (
              roll_back db (
                upload_batch u (batch_of consent job cover covers warns) db cover cover_text
                  files)) =
        λ given cover. roll_back-IsUploaded (batch_of consent job cover covers warns) db files _ (
          upload_batch-AreHandled (batch_of consent job cover covers warns) db cover cover_text
            files given h) in
      elim (Bool-cases consent) [
        | inr no_consent_given ↦ rw (no_consent_given, IsUploaded) refl
        | inl given ↦ rw (given) (elim (Bool-cases (contains db.job_ids job)) [
          | inr unknown ↦ rw (unknown) refl
          | inl known ↦ rw known (elim (Option-cases cover_file) [
            | inl e ↦ rw e (handled given none)
            | inr (file, e) ↦
                rw e (elim (Option-cases (validate_cover_letter_file u db.drawn file)) [
                  | inl e' ↦ rw e' refl
                  | inr (blob, e') ↦ rw e' (handled given (some blob))
                ])
          ])
        ])
      ]
