-- ===== src/Resumes/Upload.antt =====
-- core/src/services/resume_service.py: `upload_resumes` and the checks of a file. Bytes and texts are
-- lists of numbers. `str.lower`, `PurePosixPath(...).name`, the SHA-256, the n-th `uuid4` and the encryption of
-- a pasted cover letter are arguments.
pub mod Accepted
use recruiter_pilot.Base.{
  Bool, List, Option, [], contains, find, if◌then◌else◌, length, list_eq, ltb, map, nat_eq, none,
  not, option_eq, some, string_eq, suc, ℕ, ◌&&◌, ◌++◌, ◌==◌, ◌∷◌,
}
use recruiter_pilot.Base.Dict.{Dict, lookup}
use recruiter_pilot.Base.Text.{Text}
use recruiter_pilot.Parsing.Split.{is_nonempty}
use recruiter_pilot.Resumes.Mime.{Mime, Uploader, detect_mime, max_upload_bytes}

-- a server-generated key
pub data BlobKey : Type 0 where
  resume_key cover_key : ℕ → Mime → BlobKey

-- a row of `resumes` as it is inserted
pub record StoredRow : Type 0 where
  pub stored_id : ℕ
  pub stored_job : ℕ
  pub stored_blob : BlobKey
  pub stored_name : Text
  pub stored_mime : Mime
  pub stored_size : ℕ
  pub stored_sha : Text
  pub stored_consent : Bool
  pub stored_cover_text : Option Text
  pub stored_cover : Option BlobKey

-- `drawn` counts the UUIDs
pub record UploadDb : Type 0 where
  pub job_ids : List ℕ
  pub stored : List StoredRow
  pub blobs : List (BlobKey × List ℕ)
  pub drawn : ℕ

pub data UploadError : Type 0 where
  no_consent job_not_found bad_cover_letter encryption_failed : UploadError

pub data UploadOutcome : Type 0 where
  rejected_empty rejected_size rejected_mime : UploadOutcome
  duplicate_of : ℕ → UploadOutcome
  accepted_as : ℕ → Option Text → UploadOutcome

pub record UploadResult : Type 0 where
  pub original_filename : Text
  pub upload_outcome : UploadOutcome
  pub warnings : List Text

abbrev pub File : Type 0
File = Text × List ℕ

-- the key that is minted, with the bytes; `none` is the `ValueError`
unfoldable pub validate_cover_letter_file : Uploader → ℕ → File → Option (BlobKey × List ℕ)
unfolding detect_mime
validate_cover_letter_file u n file =
    if not (is_nonempty file.1)
    then none
    else if ltb max_upload_bytes (length file.1)
    then none
    else elim (detect_mime u file.0 file.1) [
      | none ↦ none
      | some mime ↦ some (cover_key (u.uuid4 n) mime, file.1)
    ]

abbrev pub put_blob : UploadDb → BlobKey × List ℕ → UploadDb
put_blob db blob = record db { blobs = blob ∷ db.blobs; drawn = suc db.drawn }

-- `PurePosixPath(filename.replace("\\", "/")).name.lower()`
unfoldable pub basename_lower : Uploader → Text → Text
basename_lower u filename =
    u.lower_text (u.posix_name (map (λ c. if c == 92 then 47 else c) filename))

-- what a step of the batch gives; an error keeps the blobs that were put before it
pub data Uploaded {ℓ} (A : Type ℓ) : Type ℓ where
  upload_ok : A → UploadDb → Uploaded A
  upload_err : UploadError → UploadDb → Uploaded A

-- the arguments of the batch that every file shares, with the key of the batch's cover letter and the
-- encrypted text
pub record Batch : Type 0 where
  pub batch_job : ℕ
  pub batch_consent : Bool
  pub batch_cover : Option BlobKey
  pub batch_cover_text : Option Text
  pub cover_map : Dict Text File
  pub warn_map : Dict Text (List Text)

-- the cover letter of one file: the paired one, or that of the batch
unfoldable pub attach_cover :
    Uploader → Batch → UploadDb → Option File → Uploaded (Option BlobKey × Option Text)
unfolding validate_cover_letter_file
attach_cover u b db none = upload_ok (b.batch_cover, none) db
attach_cover u b db (some paired) = elim (validate_cover_letter_file u db.drawn paired) [
  | none ↦ upload_err bad_cover_letter db
  | some blob ↦ upload_ok (some blob.0, some paired.0) (put_blob db blob)
]

abbrev pub new_row : Uploader → Batch → UploadDb → File → Mime → Option BlobKey → StoredRow
new_row u b db file mime cover = record {
  stored_id = u.uuid4 db.drawn;
  stored_job = b.batch_job;
  stored_blob = resume_key (u.uuid4 db.drawn) mime;
  stored_name = file.0;
  stored_mime = mime;
  stored_size = length file.1;
  stored_sha = u.sha256 file.1;
  stored_consent = b.batch_consent;
  stored_cover_text = b.batch_cover_text;
  stored_cover = cover;
}

-- the blob and the row
unfoldable pub insert_upload : Uploader → Batch → UploadDb → File → Mime → Option BlobKey → UploadDb
insert_upload u b db file mime cover =
    let row = new_row u b db file mime cover in
    record (put_blob db (row.stored_blob, file.1)) { stored = db.stored ++ row ∷ [] }

unfoldable pub same_content : ℕ → Text → StoredRow → Bool
same_content job sha r = r.stored_job == job && r.stored_sha == sha

abbrev pub result_row : File → List Text → UploadOutcome → UploadResult
result_row file notes chosen = record {
  original_filename = file.0;
  upload_outcome = chosen;
  warnings = notes;
}

-- the end for a file that passed every check, after its cover letter
unfoldable pub accept_file :
    Uploader
    → Batch
    → File
    → List Text
    → Mime
    → Uploaded (Option BlobKey × Option Text)
    → Uploaded UploadResult
unfolding insert_upload
accept_file u b file notes mime (upload_err e db) = upload_err e db
accept_file u b file notes mime (upload_ok cover db) =
    upload_ok (result_row file notes (accepted_as (u.uuid4 db.drawn) cover.1))
      (insert_upload u b db file mime cover.0)

unfoldable pub upload_file : Uploader → Batch → UploadDb → File → Uploaded UploadResult
unfolding detect_mime same_content accept_file attach_cover basename_lower lookup
upload_file u b db file =
    let row_key = basename_lower u file.0 in
    let notes : List Text = elim (lookup row_key b.warn_map) [ none ↦ [] | some ws ↦ ws ] in
    if not (is_nonempty file.1)
    then upload_ok (result_row file notes rejected_empty) db
    else if ltb max_upload_bytes (length file.1)
    then upload_ok (result_row file notes rejected_size) db
    else elim (detect_mime u file.0 file.1) [
      | none ↦ upload_ok (result_row file notes rejected_mime) db
      | some mime ↦ elim (find (same_content b.batch_job (u.sha256 file.1)) db.stored) [
        | some dup ↦ upload_ok (result_row file notes (duplicate_of dup.stored_id)) db
        | none ↦ accept_file u b file notes mime (attach_cover u b db (lookup row_key b.cover_map))
      ]
    ]

abbrev pub add_result : UploadResult → Uploaded (List UploadResult) → Uploaded (List UploadResult)
add_result r (upload_err e db) = upload_err e db
add_result r (upload_ok rs db) = upload_ok (r ∷ rs) db

abbrev pub after_file :
    Uploaded UploadResult → (UploadDb → Uploaded (List UploadResult)) → Uploaded (List UploadResult)
after_file (upload_err e db) rest = upload_err e db
after_file (upload_ok r db) rest = add_result r (rest db)

unfoldable pub upload_files : Uploader → Batch → UploadDb → List File → Uploaded (List UploadResult)
unfolding upload_file
upload_files u b db [] = upload_ok [] db
upload_files u b db (f ∷ fs) = after_file (upload_file u b db f) (λ db'. upload_files u b db' fs)

-- a failed transaction keeps the rows of before, and the blobs that were put
abbrev pub roll_back : UploadDb → Uploaded (List UploadResult) → Uploaded (List UploadResult)
roll_back db (upload_ok rs db') = upload_ok rs db'
roll_back db (upload_err e db') = upload_err e (record db' { stored = db.stored })

-- the transaction: the blob of the batch's cover letter, the encryption, the files
unfoldable pub upload_batch :
    Uploader
    → Batch
    → UploadDb
    → Option (BlobKey × List ℕ)
    → Option Text
    → List File
    → Uploaded (List UploadResult)
unfolding upload_files
upload_batch u b db cover none files =
    let stored_cover_db = elim cover as (λ c. UploadDb) [
      | none ↦ db
      | some blob ↦ put_blob db blob
    ] in
    upload_files u b stored_cover_db files
upload_batch u b db cover (some s) files =
    let stored_cover_db = elim cover as (λ c. UploadDb) [
      | none ↦ db
      | some blob ↦ put_blob db blob
    ] in
    elim (u.encrypt_text s) [
      | none ↦ upload_err encryption_failed stored_cover_db
      | some e ↦ upload_files u (record b { batch_cover_text = some e }) stored_cover_db files
    ]

abbrev pub key_of_blob : Option (BlobKey × List ℕ) → Option BlobKey
key_of_blob none = none
key_of_blob (some blob) = some blob.0

unfoldable pub upload_resumes :
    Uploader
    → UploadDb
    → ℕ
    → List File
    → Bool
    → Option File
    → Option Text
    → Dict Text File
    → Dict Text (List Text)
    → Uploaded (List UploadResult)
unfolding upload_batch validate_cover_letter_file
upload_resumes u db job files consent cover_file cover_text covers warns =
    let batch : Option (BlobKey × List ℕ) → Uploaded (List UploadResult) = λ cover. roll_back db (
      upload_batch u
        (record {
          batch_job = job;
          batch_consent = consent;
          batch_cover = key_of_blob cover;
          batch_cover_text = none;
          cover_map = covers;
          warn_map = warns;
        })
        db cover cover_text files) in
    if not consent
    then upload_err no_consent db
    else if not (contains db.job_ids job)
    then upload_err job_not_found db
    else elim cover_file [
      | none ↦ batch none
      | some file ↦ elim (validate_cover_letter_file u db.drawn file) [
        | none ↦ upload_err bad_cover_letter db
        | some blob ↦ batch (some blob)
      ]
    ]
