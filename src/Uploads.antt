-- ===== src/Uploads.antt =====
-- core/src/services/zip_upload.py: the expansion of an uploaded archive. What `zipfile` reads is an argument: the
-- names and, of each member, the chunks that `read` gives and whether the member's check fails after them.
pub mod Accepting
pub mod Confined
pub mod Pairing
pub mod Tests
use recruiter_pilot.Base.{
  Bool, List, Option, [], any, false, if◌then◌else◌, leb, length, list_eq, ltb, map, nat_eq, none,
  not, option_eq, some, string_eq, ℕ, ◌&&◌, ◌++◌, ◌+◌, ◌==◌, ◌||◌, ◌∷◌,
}
use recruiter_pilot.Base.Text.{Text}
use recruiter_pilot.Parsing.Split.{is_nonempty}
use recruiter_pilot.Resumes.Mime.{after_last_dot}
use recruiter_pilot.Resumes.Upload.{File}

abbrev pub max_entry_uncompressed_bytes : ℕ
max_entry_uncompressed_bytes = 10485760

abbrev pub max_total_uncompressed_bytes : ℕ
max_total_uncompressed_bytes = 104857600

abbrev pub max_zip_entries : ℕ
max_zip_entries = 50

pub data ZipRejected : Type 0 where
  empty_name absolute_name dotdot_segment disallowed_extension : ZipRejected
  entry_too_big total_too_big too_many bad_zip_file : ZipRejected

pub data Expanded {ℓ} (A : Type ℓ) : Type ℓ where
  expanded : A → Expanded A
  zip_rejected : ZipRejected → Expanded A

-- a member of the archive
pub record ZipEntry : Type 0 where
  pub entry_name : Text
  pub entry_chunks : List (List ℕ)
  pub entry_corrupt : Bool

-- `str.split("/")`
unfoldable pub split_slashes : Text → List Text
split_slashes [] = [] ∷ []
split_slashes (c ∷ s) =
    let rest = split_slashes s in
    if c == 47 then [] ∷ rest else elim rest [ [] ↦ (c ∷ []) ∷ [] | seg ∷ segs ↦ (c ∷ seg) ∷ segs ]

abbrev pub is_ascii_letter : ℕ → Bool
is_ascii_letter c = leb 65 c && leb c 90 || leb 97 c && leb c 122

-- `startswith("/")`, or a drive like `C:`
unfoldable pub is_absolute : Text → Bool
is_absolute [] = false
is_absolute (c ∷ []) = c == 47
is_absolute (c ∷ d ∷ s) = c == 47 || is_ascii_letter c && d == 58

abbrev pub with_slashes : Text → Text
with_slashes name = map (λ c. if c == 92 then 47 else c) name

abbrev pub is_dotdot : Text → Bool
is_dotdot segment = segment == (46 ∷ 46 ∷ [])

-- `none` where the name passes
unfoldable pub validate_entry_name : Text → Option ZipRejected
unfolding split_slashes is_absolute
validate_entry_name name =
    if not (is_nonempty name)
    then some empty_name
    else if is_absolute (with_slashes name)
    then some absolute_name
    else if any is_dotdot (split_slashes (with_slashes name))
    then some dotdot_segment
    else none

unfoldable pub extension : (Text → Text) → Text → Text
unfolding after_last_dot
extension lower name = elim (after_last_dot name) [ none ↦ [] | some ext ↦ lower ext ]

unfoldable pub validate_entries : (Text → Text) → List Text → List ZipEntry → Option ZipRejected
unfolding validate_entry_name extension
validate_entries lower allowed [] = none
validate_entries lower allowed (e ∷ es) =
    let rest = validate_entries lower allowed es in
    elim (validate_entry_name e.entry_name) [
      | some r ↦ some r
      | none ↦
          if any (λ x. x == extension lower e.entry_name) allowed
          then rest
          else some disallowed_extension
    ]

abbrev pub add_chunk : List ℕ → Expanded (List ℕ × ℕ) → Expanded (List ℕ × ℕ)
add_chunk chunk (zip_rejected r) = zip_rejected r
add_chunk chunk (expanded p) = expanded (chunk ++ p.0, p.1)

-- the `while True` over the chunks of one member: the joined bytes, and the running total
unfoldable pub read_member : Bool → List (List ℕ) → ℕ → ℕ → Expanded (List ℕ × ℕ)
read_member corrupt [] entry_total total =
    if corrupt then zip_rejected bad_zip_file else expanded ([], total)
read_member corrupt (chunk ∷ chunks) entry_total total =
    let rest = read_member corrupt chunks (entry_total + length chunk) (total + length chunk) in
    if not (is_nonempty chunk)
    then expanded ([], total)
    else if ltb max_entry_uncompressed_bytes (entry_total + length chunk)
    then zip_rejected entry_too_big
    else if ltb max_total_uncompressed_bytes (total + length chunk)
    then zip_rejected total_too_big
    else add_chunk chunk rest

abbrev pub add_entry : File → Expanded (List File) → Expanded (List File)
add_entry file (zip_rejected r) = zip_rejected r
add_entry file (expanded files) = expanded (file ∷ files)

abbrev pub after_member :
    Text → Expanded (List ℕ × ℕ) → (ℕ → Expanded (List File)) → Expanded (List File)
after_member name (zip_rejected r) rest = zip_rejected r
after_member name (expanded p) rest = add_entry (name, p.0) (rest p.1)

unfoldable pub read_entries : ℕ → List ZipEntry → Expanded (List File)
unfolding read_member
read_entries total [] = expanded []
read_entries total (e ∷ es) =
    after_member e.entry_name (read_member e.entry_corrupt e.entry_chunks 0 total)
      (λ total'. read_entries total' es)

-- the archive is `none` where `ZipFile` raises `BadZipFile`
unfoldable pub expand_zip_entries :
    (Text → Text) → List Text → Option (List ZipEntry) → Expanded (List File)
unfolding read_entries validate_entries
expand_zip_entries lower allowed none = zip_rejected bad_zip_file
expand_zip_entries lower allowed (some infos) =
    if ltb max_zip_entries (length infos)
    then zip_rejected too_many
    else elim (validate_entries lower allowed infos) [
      | some r ↦ zip_rejected r
      | none ↦ read_entries 0 infos
    ]
