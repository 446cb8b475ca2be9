-- ===== src/Uploads/Confined.antt =====
-- core/src/services/zip_upload.py: what an accepted archive gives.
use mathlib.Core.Path.{ap₂}
use recruiter_pilot.Auth.Model.{role_eq}
use recruiter_pilot.Base.{
  All, All-image, Bool, Bool-cases, List, Option, Option-cases, [], any, ap, arith, false,
  if◌then◌else◌, inl, inr, is_some, length, length-append, length-map, list_eq, ltb, map, nat_eq,
  none, not, option_eq, refl, some, string_eq, suc, true, zero, ℕ, ◌++◌, ◌+◌, ◌==◌, ◌||◌, ◌∷◌, ◌≡◌,
  ◌≤◌,
}
use recruiter_pilot.Base.Text.{Text, starts_with_char}
use recruiter_pilot.Parsing.Split.{is_nonempty}
use recruiter_pilot.Resumes.Upload.{File}
use recruiter_pilot.Uploads.{
  Expanded, ZipEntry, add_chunk, add_entry, after_member, expand_zip_entries, expanded, extension,
  is_absolute, is_dotdot, max_entry_uncompressed_bytes, max_total_uncompressed_bytes,
  max_zip_entries, read_entries, read_member, split_slashes, validate_entries, validate_entry_name,
  with_slashes, zip_rejected,
}

-- the depth below the root after a walk along the segments; `none` where it leaves the root
abbrev pub climb : ℕ → List Text → Option ℕ
climb d [] = some d
climb zero (s ∷ ss) =
    let below = climb 1 ss in
    let same = climb 0 ss in
    if is_dotdot s then none else if not (is_nonempty s) || s == (46 ∷ []) then same else below
climb (suc d) (s ∷ ss) =
    let above = climb d ss in
    let below = climb (suc (suc d)) ss in
    let same = climb (suc d) ss in
    if is_dotdot s then above else if not (is_nonempty s) || s == (46 ∷ []) then same else below

climb-stays : (ss : List Text) (d : ℕ) → any is_dotdot ss ≡ false → is_some (climb d ss) ≡ true
climb-stays [] d h = refl
climb-stays (s ∷ ss) zero h = ground (arith, h, climb-stays ss 0, climb-stays ss 1)
climb-stays (s ∷ ss) (suc d) h =
    ground (arith, h, climb-stays ss (suc d), climb-stays ss (suc (suc d)))

-- the bytes of a member: its chunks up to the first empty one
abbrev pub joined : List (List ℕ) → List ℕ
joined [] = []
joined (chunk ∷ chunks) =
    let rest = joined chunks in if is_nonempty chunk then chunk ++ rest else []

-- a name that stays below the root, and has an allowed extension
abbrev pub IsConfined : (Text → Text) → List Text → Text → Type 0
IsConfined lower allowed name =
    (is_some (climb 0 (split_slashes (with_slashes name))) ≡ true)
    × (starts_with_char 47 (with_slashes name) ≡ false)
    × (any (λ x. x == extension lower name) allowed ≡ true)

validate_entry_name-IsConfined :
    (name : Text)
    → validate_entry_name name ≡ none
    → (any is_dotdot (split_slashes (with_slashes name)) ≡ false)
      × (is_absolute (with_slashes name) ≡ false)
unfolding validate_entry_name
validate_entry_name-IsConfined name h = ground (arith, h)

is_absolute-slash : (s : Text) → is_absolute s ≡ false → starts_with_char 47 s ≡ false
unfolding is_absolute
is_absolute-slash [] h = refl
is_absolute-slash (c ∷ []) h = ground (arith, h)
is_absolute-slash (c ∷ d ∷ s) h = ground (arith, h)

-- what the chunks of one member leave
abbrev IsRead : List (List ℕ) → ℕ → ℕ → Expanded (List ℕ × ℕ) → Type 0
IsRead chunks entry_total total (expanded p) =
    (p.0 ≡ joined chunks)
    × (p.1 ≡ total + length p.0)
    × (entry_total + length p.0 ≤ max_entry_uncompressed_bytes)
    × (p.1 ≤ max_total_uncompressed_bytes)
IsRead chunks entry_total total (zip_rejected r) = Unit

add_chunk-IsRead :
    (chunk : List ℕ) (chunks : List (List ℕ)) (n m : ℕ) (r : Expanded (List ℕ × ℕ))
    → is_nonempty chunk ≡ true
    → IsRead chunks (n + length chunk) (m + length chunk) r
    → IsRead (chunk ∷ chunks) n m (add_chunk chunk r)
add_chunk-IsRead chunk chunks n m (zip_rejected r) e h = tt
add_chunk-IsRead chunk chunks n m (expanded p) e h = (
  rw e (ap (◌++◌ chunk) h.0),
  omega (arith, h, length-append chunk p.0),
  omega (arith, h, length-append chunk p.0),
  h.3,
)

read_member-IsRead :
    (corrupt : Bool) (chunks : List (List ℕ)) (n m : ℕ)
    → n ≤ max_entry_uncompressed_bytes
    → m ≤ max_total_uncompressed_bytes
    → IsRead chunks n m (read_member corrupt chunks n m)
unfolding read_member
read_member-IsRead true [] n m hn hm = tt
read_member-IsRead false [] n m hn hm = (refl, omega arith, omega arith, hm)
read_member-IsRead corrupt (chunk ∷ chunks) n m hn hm = elim (Bool-cases (is_nonempty chunk)) [
  | inr e ↦ rw (e, IsRead) (rw e refl, omega arith, omega arith, hm)
  | inl e ↦ elim (Bool-cases (ltb max_entry_uncompressed_bytes (n + length chunk))) [
    | inl big ↦ rw (e, big, IsRead) tt
    | inr few ↦ elim (Bool-cases (ltb max_total_uncompressed_bytes (m + length chunk))) [
      | inl big ↦ rw (e, few, big, IsRead) tt
      | inr room ↦
          rw (e, few, room)
            (add_chunk-IsRead chunk chunks n m _ e (
              read_member-IsRead corrupt chunks (n + length chunk) (m + length chunk)
                (ground (arith, few)) (ground (arith, room))))
    ]
  ]
]

abbrev pub contents : List ZipEntry → List File
contents es = map (λ e. (e.entry_name, joined e.entry_chunks)) es

abbrev pub total_size : List File → ℕ
total_size [] = 0
total_size (f ∷ fs) = length f.1 + total_size fs

abbrev pub HasFewBytes : File → Type 0
HasFewBytes f = length f.1 ≤ max_entry_uncompressed_bytes

-- what the members from a running total on leave
abbrev AreRead : List ZipEntry → ℕ → Expanded (List File) → Type 0
AreRead es total (expanded files) =
    (files ≡ contents es)
    × All HasFewBytes files
    × (total + total_size files ≤ max_total_uncompressed_bytes)
AreRead es total (zip_rejected r) = Unit

add_entry-AreRead :
    (e : ZipEntry) (es : List ZipEntry) (total : ℕ) (p : List ℕ × ℕ) (r : Expanded (List File))
    → IsRead e.entry_chunks 0 total (expanded p)
    → AreRead es p.1 r
    → AreRead (e ∷ es) total (add_entry (e.entry_name, p.0) r)
add_entry-AreRead e es total p (zip_rejected r) h k = tt
add_entry-AreRead e es total p (expanded files) h k =
    (ap₂ ◌∷◌ (ap (λ b. (e.entry_name, b)) h.0) k.0, (omega (arith, h), k.1), omega (arith, h, k))

after_member-AreRead :
    (e : ZipEntry) (es : List ZipEntry) (total : ℕ) (r : Expanded (List ℕ × ℕ))
    (rest : ℕ → Expanded (List File))
    → IsRead e.entry_chunks 0 total r
    → ((total' : ℕ) → total' ≤ max_total_uncompressed_bytes → AreRead es total' (rest total'))
    → AreRead (e ∷ es) total (after_member e.entry_name r rest)
after_member-AreRead e es total (zip_rejected r) rest h k = tt
after_member-AreRead e es total (expanded p) rest h k =
    add_entry-AreRead e es total p (rest p.1) h (k p.1 h.3)

read_entries-AreRead :
    (es : List ZipEntry) (total : ℕ)
    → total ≤ max_total_uncompressed_bytes
    → AreRead es total (read_entries total es)
unfolding read_entries
read_entries-AreRead [] total h = (refl, tt, omega arith)
read_entries-AreRead (e ∷ es) total h =
    after_member-AreRead e es total (read_member e.entry_corrupt e.entry_chunks 0 total) _
      (read_member-IsRead e.entry_corrupt e.entry_chunks 0 total (omega arith) h)
      (λ total' h'. read_entries-AreRead es total' h')

module _ (lower : Text → Text) (allowed : List Text) where
  validate_entries-IsConfined :
      (es : List ZipEntry)
      → validate_entries lower allowed es ≡ none
      → All (λ e. IsConfined lower allowed e.entry_name) es
  unfolding validate_entries
  validate_entries-IsConfined [] h = tt
  validate_entries-IsConfined (e ∷ es) h = elim (Option-cases (validate_entry_name e.entry_name)) [
    | inr (r, bad) ↦ absurd (ground (arith, bad, h))
    | inl good ↦
        let ok = validate_entry_name-IsConfined e.entry_name good in
        (
          (
            climb-stays (split_slashes (with_slashes e.entry_name)) 0 ok.0,
            is_absolute-slash (with_slashes e.entry_name) ok.1,
            ground (arith, good, h),
          ),
          validate_entries-IsConfined es (ground (arith, good, h)),
        )
  ]

  -- what a call gives: a rejection, or files that are safe
  abbrev pub IsExpanded : List ZipEntry → Expanded (List File) → Type 0
  IsExpanded infos (zip_rejected r) = Unit
  IsExpanded infos (expanded files) =
      (files ≡ contents infos)
      × (length files ≤ max_zip_entries)
      × All (λ f. IsConfined lower allowed f.0) files
      × All HasFewBytes files
      × (total_size files ≤ max_total_uncompressed_bytes)

  read_entries-IsExpanded :
      (infos : List ZipEntry) (r : Expanded (List File))
      → length infos ≤ max_zip_entries
      → All (λ e. IsConfined lower allowed e.entry_name) infos
      → AreRead infos 0 r
      → IsExpanded infos r
  read_entries-IsExpanded infos (zip_rejected r) few safe h = tt
  read_entries-IsExpanded infos (expanded files) few safe h = (
    h.0,
    omega (
      arith,
      few,
      ap length h.0,
      length-map {B = File} (λ e. (e.entry_name, joined e.entry_chunks)) infos,
    ),
    rw h.0 (
        All-image (λ e. (e.entry_name, joined e.entry_chunks)) (λ f. IsConfined lower allowed f.0)
          infos safe),
    h.1,
    omega (arith, h.2),
  )

  -- An archive is either rejected, or it is expanded into its members in their order, each with the joined
  -- chunks that were read of it. Then there are at most 50, each has at most 10 MiB and all of them
  -- have at most 100 MiB, whatever sizes the archive declares; each extension is allowed, no
  -- name begins with a slash (a backslash counts as one), and a walk along the segments of a name never
  -- leaves the directory that it starts in.
  pub expand_zip_entries-IsExpanded :
      (infos : List ZipEntry) → IsExpanded infos (expand_zip_entries lower allowed (some infos))
  unfolding expand_zip_entries
  expand_zip_entries-IsExpanded infos = elim (Bool-cases (ltb max_zip_entries (length infos))) [
    | inl many ↦ rw (many, IsExpanded) tt
    | inr few ↦ elim (Option-cases (validate_entries lower allowed infos)) [
      | inr (r, bad) ↦ rw (few, bad, IsExpanded) tt
      | inl good ↦
          rw (few, good)
            (read_entries-IsExpanded infos (read_entries 0 infos) (ground (arith, few))
              (validate_entries-IsConfined infos good) (read_entries-AreRead infos 0 (omega arith)))
    ]
  ]
