-- ===== src/Resumes/Mime.antt =====
-- core/src/services/resume_service.py: `detect_mime`, with what lies outside the upload code.
use recruiter_pilot.Base.{
  Bool, List, Option, [], false, if◌then◌else◌, leb, list_eq, nat_eq, none, option_eq, some,
  string_eq, true, ℕ, ◌&&◌, ◌==◌, ◌||◌, ◌∷◌,
}
use recruiter_pilot.Base.Text.{Text}

abbrev pub max_upload_bytes : ℕ
max_upload_bytes = 10485760

pub data Mime : Type 0 where
  mime_pdf mime_docx mime_rtf mime_txt : Mime

abbrev pub mime_beq : Mime → Mime → Bool
mime_beq mime_pdf mime_pdf = true
mime_beq mime_docx mime_docx = true
mime_beq mime_rtf mime_rtf = true
mime_beq mime_txt mime_txt = true
mime_beq _ _ = false

-- `filename.rsplit(".", 1)[-1]` of a name with a dot, and "" otherwise
unfoldable pub after_last_dot : Text → Option Text
after_last_dot [] = none
after_last_dot (c ∷ s) = elim (after_last_dot s) [
  | some ext ↦ some ext
  | none ↦ if c == 46 then some s else none
]

unfoldable pub ext_mime : Text → Option Mime
ext_mime ext =
    if ext == (112 ∷ 100 ∷ 102 ∷ [])
    then some mime_pdf
    else if ext == (100 ∷ 111 ∷ 99 ∷ 120 ∷ [])
    then some mime_docx
    else if ext == (114 ∷ 116 ∷ 102 ∷ [])
    then some mime_rtf
    else if ext == (116 ∷ 120 ∷ 116 ∷ [])
    then some mime_txt
    else none

unfoldable pub starts_with_bytes : List ℕ → List ℕ → Bool
starts_with_bytes [] bytes = true
starts_with_bytes (p ∷ ps) [] = false
starts_with_bytes (p ∷ ps) (b ∷ bytes) = p == b && starts_with_bytes ps bytes

-- `bytes.lstrip()` knows the ASCII white space only
unfoldable pub lstrip_bytes : List ℕ → List ℕ
lstrip_bytes [] = []
lstrip_bytes (b ∷ bytes) =
    let rest = lstrip_bytes bytes in if leb 9 b && leb b 13 || b == 32 then rest else b ∷ bytes

unfoldable pub sniff_mime : List ℕ → Mime
unfolding starts_with_bytes lstrip_bytes
sniff_mime bytes =
    if starts_with_bytes (37 ∷ 80 ∷ 68 ∷ 70 ∷ []) bytes
    then mime_pdf
    else if starts_with_bytes (80 ∷ 75 ∷ 3 ∷ 4 ∷ []) bytes
    then mime_docx
    else if starts_with_bytes (123 ∷ 92 ∷ 114 ∷ 116 ∷ 102 ∷ []) (lstrip_bytes bytes)
    then mime_rtf
    else mime_txt

-- what lies outside this module
pub record Uploader : Type 0 where
  pub lower_text : Text → Text
  pub posix_name : Text → Text
  pub sha256 : List ℕ → Text
  pub uuid4 : ℕ → ℕ
  pub encrypt_text : Text → Option Text

-- `none` is the `UnsupportedMimeError`
unfoldable pub detect_mime : Uploader → Text → List ℕ → Option Mime
unfolding after_last_dot ext_mime sniff_mime
detect_mime u filename bytes =
    let ext : Text = elim (after_last_dot filename) [ none ↦ [] | some e ↦ u.lower_text e ] in
    elim (ext_mime ext) [
      | none ↦ none
      | some expected ↦ if mime_beq (sniff_mime bytes) expected then some expected else none
    ]
