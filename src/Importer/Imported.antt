-- ===== src/Importer/Imported.antt =====
-- backend/internal/challengeimport/importer.go: what ImportSpec leaves in the tables.
use ctf_recruit.Base.{
  ℕ, Text, Bool, ◌≡◌, refl, ap, ◌∙◌, sym, inl, inr, List, [], ◌∷◌, Memᴰ, ℤ, Result, ok, err,
  Bool-cases, Option-cases, Result-cases, trim_space, ◌==◌, text_eq,
}
use ctf_recruit.Base.Exec.{◌>>◌}
use ctf_recruit.Runtime.Rules.{bind_elim, ok_injective}
use ctf_recruit.Game.Store
use ctf_recruit.Admin.{Error, invalid_challenge_input}
use ctf_recruit.Admin.World.{Outside, World, M, Db, ChallengeRow, exec, transaction, rolled_back}
use ctf_recruit.Admin.Rules.{exec-ok, chain_inv, transaction-err, transaction-ok}
use ctf_recruit.Importer.Normal.{normalize_spec}
use ctf_recruit.Importer.{ChallengeSpec, AttachmentSpec}
use ctf_recruit.Importer.Tables.{normalized_owner_refs, upsert_challenge, row_of_spec}
use ctf_recruit.Importer.Import.{
  staged_reply, import_rest, cleaned_up, Disk, ImportResult, StagedAttachment, set_owners,
  sync_runtime, sync_all, stage_attachments, stage_all, import_body, import_spec,
}
use ctf_recruit.Importer.Kept.{
  upsert_challenge-Mem, Keeps, Keeps-bind, set_owners-Keeps, sync_runtime-Keeps, sync_all-Keeps,
}

module _ (o : Outside) (g : Store.Outside) (disk : Disk o.State) (dir : Text) where
  import_rest-Keeps :
      (path : Text) (s : ChallengeSpec) (staged : List StagedAttachment) (at : ℤ) (id : ℕ)
      → Keeps o (import_rest o g disk dir path s staged at id)
  import_rest-Keeps path s staged at id =
      let owned : M o (Unit {0}) = set_owners o g disk dir id at (normalized_owner_refs s) in
      let synced : M o Bool = sync_runtime o g disk dir id s.runtime in
      let files : M o ℕ = sync_all o g disk dir id staged in
      Keeps-bind o (owned >> synced) _
        (Keeps-bind o owned (λ _. synced)
          (set_owners-Keeps o g disk dir id at (normalized_owner_refs s))
          (λ _. sync_runtime-Keeps o g disk dir id s.runtime))
        (λ b. Keeps-bind o files _ (sync_all-Keeps o g disk dir id staged) (λ n w. refl))

  import_rest_key :
      (path : Text) (s : ChallengeSpec) (staged : List StagedAttachment) (at : ℤ) (id : ℕ)
      (w : World o) (r : ImportResult)
      → (import_rest o g disk dir path s staged at id w).0 ≡ ok r
      → (r.challenge_id ≡ id) × (r.slug ≡ s.metadata.slug)
  import_rest_key path s staged at id w r h =
      let owned : M o (Unit {0}) = set_owners o g disk dir id at (normalized_owner_refs s) in
      let synced : M o Bool = sync_runtime o g disk dir id s.runtime in
      let files : M o ℕ = sync_all o g disk dir id staged in
      let (b, _, e) = chain_inv (owned >> synced) _ w r h in
      let (n, _, e') = chain_inv files _ ((owned >> synced) w).1 r (ap (λ x. x.0) (sym e) ∙ h) in
      let same = sym (ok_injective (ap (λ x. x.0) (sym e') ∙ ap (λ x. x.0) (sym e) ∙ h)) in
      (ap (λ r. r.challenge_id) same, ap (λ r. r.slug) same)

  -- The row of the specification, under the key that is reported.
  import_body-Mem :
      (contest path : Text) (s : ChallengeSpec) (staged : List StagedAttachment) (at : ℤ)
      (w : World o) (r : ImportResult)
      → (import_body o g disk dir contest path s staged at w).0 ≡ ok r
      → (Memᴰ
          (row_of_spec s r.challenge_id)
          (import_body o g disk dir contest path s staged at w).1.db.challenges)
        × (r.slug ≡ s.metadata.slug)
  unfolding import_body
  import_body-Mem contest path s staged at w r h =
      let row = exec o (λ t. upsert_challenge (trim_space contest) s) in
      let (id, got, e) = chain_inv row (import_rest o g disk dir path s staged at) w r h in
      let (reply, done) = exec-ok o (λ t. upsert_challenge (trim_space contest) s) w id got in
      let (key, slug) =
        import_rest_key path s staged at id (row w).1 r (ap (λ x. x.0) (sym e) ∙ h) in
      let kept = import_rest-Keeps path s staged at id (row w).1 in
      let there = upsert_challenge-Mem s (trim_space contest) w.db id reply in
      (rw (e, key, kept, done) there, slug)

  staged_reply-db :
      (a : AttachmentSpec) (path : Text) (w : World o)
      → (staged_reply o g disk dir (disk.stage path a w.out) w).1.db ≡ w.db
  staged_reply-db a path w = elim (Option-cases (disk.stage path a w.out).0) [
    | inl gone ↦ rw gone refl
    | inr (target, there) ↦ rw there refl
  ]

  stage_attachments-db :
      (path : Text) (items : List AttachmentSpec) (w : World o)
      → (stage_attachments o g disk dir path items w).1.db ≡ w.db
  unfolding stage_attachments
  stage_attachments-db path [] w = refl
  stage_attachments-db path (a ∷ rest) w =
      let here = staged_reply-db a path w in
      bind_elim (λ x. x.1.db ≡ w.db) (λ w. staged_reply o g disk dir (disk.stage path a w.out) w) _
        w
        (λ item h.
          bind_elim (λ x. x.1.db ≡ w.db) (stage_attachments o g disk dir path rest) _ _
            (λ items h. stage_attachments-db path rest _ ∙ here)
            (λ e h. stage_attachments-db path rest _ ∙ here))
        (λ e h. here)

  stage_all-db :
      (path : Text) (items : List AttachmentSpec) (w : World o)
      → (stage_all o g disk dir path items w).1.db ≡ w.db
  stage_all-db path [] w = refl
  stage_all-db path (a ∷ rest) w = elim (Bool-cases (dir == [])) [
    | inl missing ↦ rw missing refl
    | inr given ↦ rw given (stage_attachments-db path (a ∷ rest) w)
  ]

  -- What an import reports, and the row that it has left.
  pub record IsImported (path : Text) (spec : ChallengeSpec) (r : ImportResult) (db' : Db)
      : Type 0 where
    pub normal : ChallengeSpec
    pub accepted : normalize_spec g spec ≡ ok normal
    pub row : ChallengeRow
    pub written : Memᴰ row db'.challenges
    pub id : row.id ≡ r.challenge_id
    pub slug : (row.slug ≡ normal.metadata.slug) × (r.slug ≡ normal.metadata.slug)
    pub title : row.title ≡ normal.metadata.title
    pub category : row.category ≡ normal.metadata.category
    pub description : row.description ≡ normal.content.description
    pub points : row.points ≡ normal.metadata.points
    pub difficulty : row.difficulty ≡ normal.metadata.difficulty
    pub flag_type : row.flag_type ≡ normal.flag.flag_type
    pub flag_value : row.flag_value ≡ normal.flag.value
    pub dynamic : row.dynamic_enabled ≡ normal.metadata.dynamic
    pub status : row.status ≡ normal.metadata.status
    pub visible : row.visible ≡ normal.metadata.visible
    pub sort_order : row.sort_order ≡ normal.metadata.sort_order

  -- The specification of ImportSpec: an error with the tables as they were, or a row.
  pub data Imported (path : Text) (spec : ChallengeSpec) (db : Db) (r : Result Error ImportResult)
      (db' : Db) : Type 0 where
    refused : (e : Error) → r ≡ err e → db' ≡ rolled_back db db' → Imported path spec db r db'
    imported :
        (result : ImportResult)
        → r ≡ ok result
        → IsImported path spec result db'
        → Imported path spec db r db'

  transaction-Imported :
      (contest path : Text) (spec s : ChallengeSpec) (staged : List StagedAttachment) (db : Db)
      (w : World o)
      → normalize_spec g spec ≡ ok s
      → w.db ≡ db
      → let x =
          cleaned_up o g disk dir staged
            (transaction o (import_body o g disk dir contest path s staged) w) in
        Imported path spec db x.0 x.1.db
  transaction-Imported contest path spec s staged db w h same =
      let body = import_body o g disk dir contest path s staged in
      elim (Result-cases (transaction o body w).0) [
        | inl (r, good) ↦
            let (w1, at, _, reply, done) = transaction-ok o body w r good in
            rw good (
              imported r refl (record {
                normal = s;
                accepted = h;
                row = row_of_spec s r.challenge_id;
                written = rw done (import_body-Mem contest path s staged at w1 r reply).0;
                id = refl;
                slug = (refl, (import_body-Mem contest path s staged at w1 r reply).1);
                title = refl;
                category = refl;
                description = refl;
                points = refl;
                difficulty = refl;
                flag_type = refl;
                flag_value = refl;
                dynamic = refl;
                status = refl;
                visible = refl;
                sort_order = refl;
              }))
        | inr (e, bad) ↦ rw bad (refused e refl (rw (← same) (transaction-err o body w e bad)))
      ]

  -- An import ends in one of two ways. It returns an error, and every table is as it was, the counts
  -- of keys given out aside. Or it returns a key, the specification is one that NormalizeSpec accepts,
  -- and the table of challenges has a row with this key whose columns are those of the normalized
  -- specification.
  pub import_spec-Imported :
      (contest path : Text) (spec : ChallengeSpec) (w : World o)
      → Imported path spec w.db
          (import_spec o g disk dir contest path spec w).0
          (import_spec o g disk dir contest path spec w).1.db
  unfolding import_spec
  import_spec-Imported contest path spec w = elim (Bool-cases (trim_space contest == [])) [
    | inl blank ↦ rw blank (refused invalid_challenge_input refl refl)
    | inr given ↦ elim (Result-cases (normalize_spec g spec)) [
      | inr (e, h) ↦ rw (given, h) (refused invalid_challenge_input refl refl)
      | inl (s, h) ↦
          let stage = stage_all o g disk dir path s.attachments in
          let same = stage_all-db path s.attachments w in
          rw (given, h)
            (bind_elim (λ x. Imported path spec w.db x.0 x.1.db) stage _ w
              (λ staged k. transaction-Imported contest path spec s staged w.db (stage w).1 h same)
              (λ e k. refused e refl (rw same refl)))
    ]
  ]
