-- ===== src/Importer/Files.antt =====
-- backend/internal/challengeimport/importer.go: sanitizeFilename.
use ctf_recruit.Base.{
  ℕ, zero, suc, Text, false, ◌≡◌, ◌≢◌, refl, inl, inr, ◌⊎◌, ◌||◌, [], ◌∷◌, codes, trim_space,
  base_name, last_element, trim_back, replace_all, contains, contains_text, has_prefix, ◌==◌,
  nat_eq, text_eq, nat_beq, nat_beq_iff, text_beq, text_beq_iff, if◌then◌else◌, Bool-cases, arith,
  replace_from,
}

unfoldable pub sanitize_filename : Text → Text
unfolding base_name replace_all
sanitize_filename name =
    let clean = replace_all (base_name (trim_space name)) (codes "..") [] in
    if clean == [] || clean == codes "." || clean == codes "/"
    then codes "attachment.bin"
    else clean

-- A text with no slash.
abbrev pub NoSlash : Text → Type 0
NoSlash s = contains s b'/' ≡ false

last_element-NoSlash : (s : Text) → NoSlash (last_element s)
unfolding last_element contains
last_element-NoSlash [] = refl
last_element-NoSlash (c ∷ s) = elim (Bool-cases (contains s b'/')) [
  | inl below ↦ rw below (last_element-NoSlash s)
  | inr none_below ↦ elim (Bool-cases (nat_beq c b'/')) [
    | inl here ↦ rw (none_below, here) none_below
    | inr other ↦ rw (none_below, other) (ground (arith, nat_beq_iff c b'/', nat_beq_iff b'/' c))
  ]
]

-- Taking occurrences out of a text brings in no slash.
replace_from-NoSlash : (n : ℕ) (s : Text) → NoSlash s → NoSlash (replace_from n (codes "..") [] s)
unfolding contains replace_from
replace_from-NoSlash n [] h = refl
replace_from-NoSlash (suc n) (c ∷ s) h = replace_from-NoSlash n s (ground arith)
replace_from-NoSlash zero (c ∷ s) h = elim (Bool-cases (has_prefix (c ∷ s) (codes ".."))) [
  | inl found ↦ rw found (replace_from-NoSlash 1 s (ground arith))
  | inr other ↦ let rest = replace_from-NoSlash zero s (ground arith) in rw other (ground arith)
]

-- A text with no two dots in a row.
abbrev pub NoDots : Text → Type 0
NoDots s = contains_text s (codes "..") ≡ false

replace_all-NoDots : (s : Text) → NoDots (replace_from zero (codes "..") [] s)
unfolding replace_from has_prefix contains_text
replace_all-NoDots [] = refl
replace_all-NoDots (c ∷ []) = ground arith
replace_all-NoDots (c ∷ d ∷ s) =
    let below = replace_all-NoDots (d ∷ s) in
    let later = replace_all-NoDots s in ground (arith, below, later)

base_name-NoSlash : (path : Text) → NoSlash (base_name path) ⊎ (base_name path ≡ codes "/")
unfolding base_name contains
base_name-NoSlash path = elim (Bool-cases (text_beq path [])) [
  | inl empty ↦ inl (rw empty refl)
  | inr given ↦ elim (Bool-cases (text_beq (last_element (trim_back path b'/')) [])) [
    | inl slashes ↦ inr (rw (given, slashes) refl)
    | inr named ↦ inl (rw (given, named) (last_element-NoSlash (trim_back path b'/')))
  ]
]

clean : Text → Text
clean name = replace_all (base_name (trim_space name)) (codes "..") []

clean-NoSlash : (name : Text) → NoSlash (clean name) ⊎ (clean name ≡ codes "/")
unfolding clean replace_all
clean-NoSlash name = elim (base_name-NoSlash (trim_space name)) [
  | inl none_in ↦ inl (replace_from-NoSlash zero (base_name (trim_space name)) none_in)
  | inr root ↦ inr (rw root refl)
]

clean-NoDots : (name : Text) → NoDots (clean name)
unfolding clean replace_all
clean-NoDots name = replace_all-NoDots (base_name (trim_space name))

-- A name of one file below a directory: it is not empty, it has no slash and no two dots in a row,
-- and is not the directory itself.
pub record IsFileName (s : Text) : Type 0 where
  pub given : s ≢ []
  pub flat : NoSlash s
  pub no_parent : NoDots s
  pub not_here : s ≢ codes "."

fallback-IsFileName : IsFileName (codes "attachment.bin")
unfolding contains_text has_prefix contains
fallback-IsFileName = record { given = λ e. cc; flat = refl; no_parent = refl; not_here = λ e. cc }

-- Whatever name an attachment is given, the name that it is stored under is that of one file below
-- its directory, and no path out of it.
pub sanitize_filename-IsFileName : (name : Text) → IsFileName (sanitize_filename name)
unfolding sanitize_filename clean
sanitize_filename-IsFileName name =
    let c = clean name in
    elim (Bool-cases (c == [] || c == codes "." || c == codes "/")) [
      | inl bad ↦ rw bad fallback-IsFileName
      | inr good ↦
          let apart : (c ≢ []) × (c ≢ codes ".") × (c ≢ codes "/") =
            ground
              (arith, text_beq_iff c [], text_beq_iff c (codes "."), text_beq_iff c (codes "/")) in
          let flat : NoSlash c = elim (clean-NoSlash name) [
            | inl none_in ↦ none_in
            | inr root ↦ absurd (apart.2 root)
          ] in
          rw good (record {
            given = apart.0;
            flat = flat;
            no_parent = clean-NoDots name;
            not_here = apart.1;
          })
    ]
