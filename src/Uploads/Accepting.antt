-- ===== src/Uploads/Accepting.antt =====
-- core/src/services/zip_upload.py: the archives that are accepted.
use recruiter_pilot.Base.{
  All, Bool-cases, List, [], any, ap, arith, false, inl, inr, length, length-append, list_eq, ltb,
  nat_eq, none, option_eq, refl, some, string_eq, true, ℕ, ◌++◌, ◌+◌, ◌==◌, ◌∷◌, ◌≡◌, ◌≤◌,
}
use recruiter_pilot.Base.Text.{Text}
use recruiter_pilot.Parsing.Split.{is_nonempty}
use recruiter_pilot.Uploads.{
  ZipEntry, expand_zip_entries, expanded, extension, is_absolute, is_dotdot,
  max_entry_uncompressed_bytes, max_total_uncompressed_bytes, max_zip_entries, read_entries,
  read_member, split_slashes, validate_entries, validate_entry_name, with_slashes,
}
use recruiter_pilot.Uploads.Confined.{contents, joined, total_size}

-- a member that can be read, within the cap of its bytes
abbrev pub IsReadable : ZipEntry → Type 0
IsReadable e =
    (e.entry_corrupt ≡ false) × (length (joined e.entry_chunks) ≤ max_entry_uncompressed_bytes)

nonempty-chunk :
    (c : List ℕ) (cs : List (List ℕ))
    → is_nonempty c ≡ true
    → length (joined (c ∷ cs)) ≡ length c + length (joined cs)
nonempty-chunk c cs e = rw e (length-append c (joined cs))

read_member-fits :
    (chunks : List (List ℕ)) (n m : ℕ)
    → n + length (joined chunks) ≤ max_entry_uncompressed_bytes
    → m + length (joined chunks) ≤ max_total_uncompressed_bytes
    → read_member false chunks n m ≡ expanded (joined chunks, m + length (joined chunks))
unfolding read_member
read_member-fits [] n m h k = ap (λ t. expanded ([], t)) (omega arith)
read_member-fits (c ∷ cs) n m h k = elim (Bool-cases (is_nonempty c)) [
  | inr e ↦ rw e (ap (λ t. expanded ([], t)) (omega arith))
  | inl e ↦
      let size = nonempty-chunk c cs e in
      let few : ltb max_entry_uncompressed_bytes (n + length c) ≡ false = ground (arith, h, size) in
      let room : ltb max_total_uncompressed_bytes (m + length c) ≡ false =
        ground (arith, k, size) in
      let rest =
        read_member-fits cs (n + length c) (m + length c) (omega (arith, h, size))
          (omega (arith, k, size)) in
      rw (e, few, room, rest)
        (ap (λ t. expanded (c ++ joined cs, t)) (omega (arith, length-append c (joined cs))))
]

read_entries-fits :
    (es : List ZipEntry) (total : ℕ)
    → All IsReadable es
    → total + total_size (contents es) ≤ max_total_uncompressed_bytes
    → read_entries total es ≡ expanded (contents es)
unfolding read_entries
read_entries-fits [] total h k = refl
read_entries-fits (e ∷ es) total h k =
    let one : read_member e.entry_corrupt e.entry_chunks 0 total
        ≡ expanded (joined e.entry_chunks, total + length (joined e.entry_chunks)) =
      rw h.0.0
        (read_member-fits e.entry_chunks 0 total (omega (arith, h.0.1)) (omega (arith, k))) in
    rw (one, read_entries-fits es (total + length (joined e.entry_chunks)) h.1 (omega (arith, k)))
      refl

module _ (lower : Text → Text) (allowed : List Text) where
  -- the name rules: not empty, relative, no `..`, an allowed extension
  abbrev pub IsNamed : ZipEntry → Type 0
  IsNamed e =
      (is_nonempty e.entry_name ≡ true)
      × (is_absolute (with_slashes e.entry_name) ≡ false)
      × (any is_dotdot (split_slashes (with_slashes e.entry_name)) ≡ false)
      × (any (λ x. x == extension lower e.entry_name) allowed ≡ true)

  validate_entries-none :
      (es : List ZipEntry) → All IsNamed es → validate_entries lower allowed es ≡ none
  unfolding validate_entries validate_entry_name
  validate_entries-none [] h = refl
  validate_entries-none (e ∷ es) h = ground (arith, h, validate_entries-none es h.1)

  -- An archive that has at most 50 members, all of them readable, with relative names without a `..` segment
  -- and with an allowed extension, at most 10 MiB each and at most 100 MiB together, is expanded
  -- into its members in their order.
  pub expand_zip_entries-accepts :
      (infos : List ZipEntry)
      → length infos ≤ max_zip_entries
      → All IsNamed infos
      → All IsReadable infos
      → total_size (contents infos) ≤ max_total_uncompressed_bytes
      → expand_zip_entries lower allowed (some infos) ≡ expanded (contents infos)
  unfolding expand_zip_entries
  expand_zip_entries-accepts infos few named readable room =
      let small : ltb max_zip_entries (length infos) ≡ false = ground (arith, few) in
      rw (small, validate_entries-none infos named)
        (read_entries-fits infos 0 readable (omega (arith, room)))
