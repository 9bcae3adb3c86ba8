-- ===== src/Importer/Normalized.antt =====
-- backend/internal/challengeimport/importer.go: which specifications NormalizeSpec returns.
use ctf_recruit.Base.{
  ℕ, suc, Text, Bool, true, false, ◌≡◌, refl, ap, subst, inl, inr, ◌⊎◌, Option, none, some, List,
  [], ◌∷◌, Result, ok, err, trim_space, to_lower, ◌==◌, text_eq, Bool-cases, text_beq, text_beq_iff,
  All, trim_left, is_space, lower_code,
}
use ctf_recruit.Base.Trim.{trim_space-twice}
use ctf_recruit.Runtime.Rules.{ok_injective}
use ctf_recruit.Game
use ctf_recruit.Game.{flag_type_static, flag_type_case_insensitive, flag_type_regex}
use ctf_recruit.Game.Store.{Outside}
use ctf_recruit.Game.Flags.{validate_flag_type_config, compile_flag_regex, normalize_flag_type}
use ctf_recruit.Importer.{
  ChallengeFlag, ChallengeRuntime, AttachmentSpec, ChallengeSpec, flag_missing, flag_invalid,
  filename_missing, source_missing,
}
use ctf_recruit.Importer.Normal.{
  wrapped, normalize_meta, normalize_flag, cleaned_attachment, normalize_attachments,
  normalize_runtime, normalize_section, normalize_spec,
}
use ctf_recruit.Importer.NormalMeta.{
  guard_inv, bind_inv, wrapped_inv, IsName, trim_space-IsName, IsName-given, IsNormalMeta,
  normalize_meta-IsNormalMeta, normalize_meta-same,
}
use ctf_recruit.Importer.NormalRuntime.{
  IsNormalRuntime, normalize_runtime-IsNormalRuntime, normalize_runtime-same,
}

module _ (o : Outside) where
  -- A kind of flag that the judge knows, with an expression that compiles where it needs one.
  pub record IsNormalFlag (f : ChallengeFlag) : Type 0 where
    pub value : IsName f.value
    pub judged :
        (f.flag_type ≡ flag_type_static)
        ⊎ (f.flag_type ≡ flag_type_case_insensitive)
        ⊎ ((f.flag_type ≡ flag_type_regex)
            × (re : o.Regexp) × (compile_flag_regex o f.value ≡ ok re))

  validate-judged :
      (flag_type t value : Text)
      → IsName value
      → validate_flag_type_config o flag_type value ≡ ok t
      → IsNormalFlag (record { flag_type = t; value = value })
  unfolding validate_flag_type_config text_beq
  validate-judged flag_type t value name h =
      let k = normalize_flag_type flag_type in
      elim (Bool-cases (k == flag_type_static)) [
        | inl static ↦
            let same = (text_beq_iff k flag_type_static).0 static in
            record { value = name; judged = inl (same_kind (rw static at h) same) }
        | inr not_static ↦ elim (Bool-cases (k == flag_type_case_insensitive)) [
          | inl folded ↦
              let same = (text_beq_iff k flag_type_case_insensitive).0 folded in
              record {
                value = name;
                judged = inr (inl (same_kind (rw (not_static, folded) at h) same));
              }
          | inr not_folded ↦ elim (Bool-cases (k == flag_type_regex)) [
            | inr unknown ↦ absurd (refused (rw (not_static, not_folded, unknown) at h))
            | inl regex ↦
                let same = (text_beq_iff k flag_type_regex).0 regex in
                let (re, compiles, last) =
                  bind_inv (compile_flag_regex o value) _ t
                    (rw (not_static, not_folded, regex) at h) in
                record { value = name; judged = inr (inr (same_kind last same, re, compiles)) }
          ]
        ]
      ]
    where
      same_kind :
          {k wanted : Text}
          → ◌≡◌ {A = Result Game.Error Text} (ok k) (ok t)
          → k ≡ wanted
          → t ≡ wanted
      same_kind h same = cc

      refused : ¬ ◌≡◌ {A = Result Game.Error Text} (err Game.invalid_flag_strategy) (ok t)
      refused h = cc

  normalize_flag-IsNormalFlag : (f t : ChallengeFlag) → normalize_flag o f ≡ ok t → IsNormalFlag t
  unfolding normalize_flag
  normalize_flag-IsNormalFlag f t h =
      let (given, h1) = guard_inv (trim_space f.value == []) flag_missing _ t h in
      let value = trim_space f.value in
      let checked = validate_flag_type_config o f.flag_type value in
      let (kind, h2, h3) = bind_inv (wrapped flag_invalid checked) _ t h1 in
      subst IsNormalFlag (ok_injective h3) (
        validate-judged f.flag_type kind value (trim_space-IsName f.value given)
          (wrapped_inv flag_invalid checked kind h2))

  validate-same :
      (f : ChallengeFlag)
      → IsNormalFlag f
      → validate_flag_type_config o f.flag_type f.value ≡ ok f.flag_type
  unfolding validate_flag_type_config normalize_flag_type text_beq trim_space trim_left is_space
      to_lower lower_code
  validate-same f n = elim n.judged [
    | inl static ↦ rw static refl
    | inr (inl folded) ↦ rw folded refl
    | inr (inr (regex, re, compiles)) ↦ rw (regex, compiles) refl
  ]

  normalize_flag-same : (f : ChallengeFlag) → IsNormalFlag f → normalize_flag o f ≡ ok f
  unfolding normalize_flag
  normalize_flag-same f n = rw (IsName-given f.value n.value, n.value.0, validate-same f n) refl

-- An attachment with a name and a source.
pub record IsNormalAttachment (a : AttachmentSpec) : Type 0 where
  pub filename : IsName a.filename
  pub source : IsName a.source
  pub content_type : trim_space a.content_type ≡ a.content_type

normalize_attachments-normal :
    (i : ℕ) (xs ts : List AttachmentSpec)
    → normalize_attachments i xs ≡ ok ts
    → All IsNormalAttachment ts
unfolding normalize_attachments
normalize_attachments-normal i [] ts h = subst (All IsNormalAttachment) (ok_injective h) tt
normalize_attachments-normal i (a ∷ xs) ts h =
    let (filename, h1) = guard_inv (trim_space a.filename == []) (filename_missing i) _ ts h in
    let (source, h2) = guard_inv (trim_space a.source == []) (source_missing i) _ ts h1 in
    let (more, h3, h4) = bind_inv (normalize_attachments (suc i) xs) _ ts h2 in
    let here : IsNormalAttachment (cleaned_attachment a) = record {
      filename = trim_space-IsName a.filename filename;
      source = trim_space-IsName a.source source;
      content_type = trim_space-twice a.content_type;
    } in
    subst (All IsNormalAttachment) (ok_injective h4)
      (here, normalize_attachments-normal (suc i) xs more h3)

cleaned_attachment-same : (a : AttachmentSpec) → IsNormalAttachment a → cleaned_attachment a ≡ a
cleaned_attachment-same a n = λ i. record {
  filename = n.filename.0 i;
  source = n.source.0 i;
  content_type = n.content_type i;
}

normalize_attachments-same :
    (i : ℕ) (xs : List AttachmentSpec)
    → All IsNormalAttachment xs
    → normalize_attachments i xs ≡ ok xs
unfolding normalize_attachments
normalize_attachments-same i [] n = refl
normalize_attachments-same i (a ∷ xs) (n, ns) =
    rw
      (
        IsName-given a.filename n.filename,
        IsName-given a.source n.source,
        normalize_attachments-same (suc i) xs ns,
      )
      (ap (λ b. ok (b ∷ xs)) (cleaned_attachment-same a n))

-- A section that is there belongs to a dynamic challenge.
abbrev pub IsNormalSection : Bool → Option ChallengeRuntime → Type 0
IsNormalSection dynamic none = Unit
IsNormalSection dynamic (some r) = (dynamic ≡ true) × IsNormalRuntime r

normalize_section-normal :
    (dynamic : Bool) (s t : Option ChallengeRuntime)
    → normalize_section dynamic s ≡ ok t
    → IsNormalSection dynamic t
unfolding normalize_section
normalize_section-normal dynamic none t h = subst (IsNormalSection dynamic) (ok_injective h) tt
normalize_section-normal true (some r) t h =
    let (r', h1, h2) = bind_inv (normalize_runtime r) _ t h in
    subst (IsNormalSection true) (ok_injective h2) (refl, normalize_runtime-IsNormalRuntime r r' h1)
normalize_section-normal false (some r) t h = absurd (cc)

normalize_section-same :
    (dynamic : Bool) (s : Option ChallengeRuntime)
    → IsNormalSection dynamic s
    → normalize_section dynamic s ≡ ok s
unfolding normalize_section
normalize_section-same dynamic none n = refl
normalize_section-same dynamic (some r) (is_dynamic, n) =
    rw (is_dynamic, normalize_runtime-same r n) refl

pub record IsNormal (o : Outside) (s : ChallengeSpec) : Type 0 where
  pub metadata : IsNormalMeta s.metadata
  pub flag : IsNormalFlag o s.flag
  pub description : trim_space s.content.description ≡ s.content.description
  pub author : trim_space s.content.author ≡ s.content.author
  pub owner : trim_space s.ownership.author ≡ s.ownership.author
  pub runtime : IsNormalSection s.metadata.dynamic s.runtime
  pub attachments : All IsNormalAttachment s.attachments

normalize_spec-same : (o : Outside) (s : ChallengeSpec) → IsNormal o s → normalize_spec o s ≡ ok s
unfolding normalize_spec
normalize_spec-same o s n =
    rw
      (
        normalize_meta-same s.metadata n.metadata,
        normalize_flag-same o s.flag n.flag,
        normalize_attachments-same 0 s.attachments n.attachments,
        normalize_section-same s.metadata.dynamic s.runtime n.runtime,
      )
      (λ i. ok (record s {
        content = record { description = n.description i; author = n.author i };
        ownership = record { author = n.owner i };
      }))

-- What NormalizeSpec returns is normal: no blank slug, title, category or flag, positive points, a
-- status of the four with the older flag for visible challenges in step, a kind of flag that the
-- judge knows, attachments with a name and a source, and a runtime section only for a dynamic
-- challenge, with a known protocol, positive port, time to live and limits and no negative bound. A
-- specification that is normal is returned as it is, so a second pass changes nothing.
pub normalize_spec-IsNormal :
    (o : Outside) (s t : ChallengeSpec)
    → normalize_spec o s ≡ ok t
    → IsNormal o t × (normalize_spec o t ≡ ok t)
unfolding normalize_spec
normalize_spec-IsNormal o s t h =
    let (m, made, h1) = bind_inv (normalize_meta s.metadata) _ t h in
    let (flag, judged, h2) = bind_inv (normalize_flag o s.flag) _ t h1 in
    let (attachments, named, h3) = bind_inv (normalize_attachments 0 s.attachments) _ t h2 in
    let (runtime, bounded, h4) = bind_inv (normalize_section s.metadata.dynamic s.runtime) _ t h3 in
    let (metadata, dynamic) = normalize_meta-IsNormalMeta s.metadata m made in
    let cleaned : ChallengeSpec = record {
      metadata = m;
      flag = flag;
      content = record {
        description = trim_space s.content.description;
        author = trim_space s.content.author;
      };
      ownership = record { author = trim_space s.ownership.author };
      runtime = runtime;
      attachments = attachments;
    } in
    let normal : IsNormal o cleaned = record {
      metadata = metadata;
      flag = normalize_flag-IsNormalFlag o s.flag flag judged;
      description = trim_space-twice s.content.description;
      author = trim_space-twice s.content.author;
      owner = trim_space-twice s.ownership.author;
      runtime = rw dynamic (normalize_section-normal s.metadata.dynamic s.runtime runtime bounded);
      attachments = normalize_attachments-normal 0 s.attachments attachments named;
    } in
    let n : IsNormal o t = subst (IsNormal o) (ok_injective h4) normal in
    (n, normalize_spec-same o t n)
