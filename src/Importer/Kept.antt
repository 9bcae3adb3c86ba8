-- ===== src/Importer/Kept.antt =====
-- backend/internal/challengeimport/importer.go: what the writes of an import do to the challenges.
use mathlib.Core.List.Memᴰ
use ctf_recruit.Base.{
  ℕ, arith, Text, Bool, false, ◌≡◌, refl, ap, ◌∙◌, sym, inl, inr, Option, none, some, List, [], ◌∷◌,
  Memᴰ, map, ℤ, Result, ok, err, Bool-cases, Option-cases, ◌==◌, text_eq, ◌&&◌, contains, length,
}
use ctf_recruit.Base.Exec.{◌>>=◌, ◌>>◌, pure}
use ctf_recruit.Runtime.Rules.{bind_elim, ok_injective}
use ctf_recruit.Game.Store
use ctf_recruit.Admin.{Error, store_error}
use ctf_recruit.Admin.World.{Outside, World, M, Db, ChallengeRow, exec, query}
use ctf_recruit.Admin.Store.{first, bind_author, clear_authors}
use ctf_recruit.Admin.Rules.{exec_cases, query-db}
use ctf_recruit.Admin.Repository.{set_challenge_authors, bind_all}
use ctf_recruit.Importer.Files.{sanitize_filename}
use ctf_recruit.Importer.{ChallengeSpec, ChallengeRuntime}
use ctf_recruit.Importer.Tables.{
  upsert_challenge, row_of_spec, overwritten, on_conflict, upsert_config, resolve_user_id,
  insert_file, delete_files,
}
use ctf_recruit.Importer.Import.{
  Disk, StagedAttachment, resolve_owners, set_owners, sync_runtime, insert_files, sync_attachments,
  sync_all, moved, cleared,
}

module _ (s : ChallengeSpec) where
  overwritten-Mem :
      (xs : List ChallengeRow) (c : ChallengeRow)
      → first (λ c. c.slug == s.metadata.slug) xs ≡ some c
      → Memᴰ (row_of_spec s c.id) (map (overwritten s) xs)
  unfolding first
  overwritten-Mem [] c h = cc
  overwritten-Mem (x ∷ xs) c h = elim (Bool-cases (x.slug == s.metadata.slug)) [
    | inl same ↦
        let at : x ≡ c = same_row x c (rw same at h) in
        rw same (Memᴰ.head (ap (λ y. row_of_spec s y.id) (sym at)))
    | inr other ↦ Memᴰ.tail (overwritten-Mem xs c (rw other at h))
  ]
    where
      same_row : (a b : ChallengeRow) → some a ≡ some b → a ≡ b
      same_row a b e = cc

  on_conflict-Mem :
      (db : Db) (id : ℕ) (old : Option ChallengeRow)
      → first (λ c. c.slug == s.metadata.slug) db.challenges ≡ old
      → (on_conflict s db old).0 ≡ ok id
      → Memᴰ (row_of_spec s id) (on_conflict s db old).1.challenges
  on_conflict-Mem db id none e h =
      rw (← ok_injective h) (Memᴰ.append_right db.challenges (Memᴰ.head refl))
  on_conflict-Mem db id (some c) e h = rw (← ok_injective h) (overwritten-Mem db.challenges c e)

  -- The row that was inserted or overwritten.
  pub upsert_challenge-Mem :
      (contest : Text) (db : Db) (id : ℕ)
      → (upsert_challenge contest s db).0 ≡ ok id
      → Memᴰ (row_of_spec s id) (upsert_challenge contest s db).1.challenges
  unfolding upsert_challenge
  upsert_challenge-Mem contest db id h =
      elim (Bool-cases
        (contains db.contests contest && contains db.categories s.metadata.category)) [
          | inr missing ↦ absurd (refused (rw missing at h))
          | inl known ↦ rw known (
              on_conflict-Mem db id (first (λ c. c.slug == s.metadata.slug) db.challenges) refl
                (rw known at h))
        ]
    where
      refused : ¬ ◌≡◌ {A = Result Error ℕ} (err store_error) (ok id)
      refused e = cc

bind_author-challenges :
    (c user : ℕ) (at : ℤ) (db : Db) → (bind_author c user at db).1.challenges ≡ db.challenges
unfolding bind_author
bind_author-challenges c user at db = ground arith

upsert_config-challenges :
    (c : ℕ) (r : ChallengeRuntime) (db : Db) → (upsert_config c r db).1.challenges ≡ db.challenges
unfolding upsert_config
upsert_config-challenges c r db = ground arith

insert_file-challenges :
    (c : ℕ) (name path type : Text) (size : ℕ) (db : Db)
    → (insert_file c name path type size db).1.challenges ≡ db.challenges
unfolding insert_file
insert_file-challenges c name path type size db = ground arith

module _ (o : Outside) where
  -- A call that leaves the challenges as they are.
  abbrev pub Keeps : {A : Type 0} → M o A → Type 0
  Keeps m = (w : World o) → (m w).1.db.challenges ≡ w.db.challenges

  pub Keeps-bind :
      {A B : Type 0} (m : M o A) (f : A → M o B)
      → Keeps m
      → ((a : A) → Keeps (f a))
      → Keeps (m >>= f)
  Keeps-bind m f k l w =
      bind_elim (λ x. x.1.db.challenges ≡ w.db.challenges) m f w (λ a h. l a (m w).1 ∙ k w)
        (λ e h. k w)

  exec-Keeps :
      {A : Type 0} (f : ℤ → Db → Result Error A × Db)
      → ((t : ℤ) (db : Db) → (f t db).1.challenges ≡ db.challenges)
      → Keeps (exec o f)
  exec-Keeps f k w = elim (exec_cases o f w) [
    | inl (_, same) ↦ rw same refl
    | inr (_, done) ↦ rw done (k (o.db_now w.out) w.db)
  ]

  pure-Keeps : {A : Type 0} (a : A) → Keeps (λ w. (ok a, w))
  pure-Keeps a w = refl

  bind_all-Keeps : (id : ℕ) (at : ℤ) (users : List ℕ) → Keeps (bind_all o id at users)
  unfolding bind_all
  bind_all-Keeps id at [] = pure-Keeps tt
  bind_all-Keeps id at (user ∷ users) =
      Keeps-bind (exec o (λ t. bind_author id user at)) _
        (exec-Keeps (λ t. bind_author id user at) (λ t db. bind_author-challenges id user at db))
        (λ _. bind_all-Keeps id at users)

  set_challenge_authors-Keeps :
      (id : ℕ) (at : ℤ) (users : List ℕ) → Keeps (set_challenge_authors o id at users)
  unfolding set_challenge_authors clear_authors
  set_challenge_authors-Keeps id at users =
      Keeps-bind _ _ (exec-Keeps (λ t. clear_authors id) (λ t db. refl))
        (λ _. bind_all-Keeps id at users)

module _ (o : Outside) (g : Store.Outside) (disk : Disk o.State) (dir : Text) where
  resolve_owners-Keeps :
      (refs : List Text) (seen : List ℕ) → Keeps o (resolve_owners o g disk dir refs seen)
  unfolding resolve_owners
  resolve_owners-Keeps [] seen w = refl
  resolve_owners-Keeps (ref ∷ refs) seen w =
      Keeps-bind o (query o (λ db. ok (resolve_user_id ref db))) _
        (λ w. ap (λ db. db.challenges) (query-db o (λ db. ok (resolve_user_id ref db)) w))
        (λ found. resolve_owners-Keeps refs _) w

  pub set_owners-Keeps :
      (id : ℕ) (at : ℤ) (refs : List Text) → Keeps o (set_owners o g disk dir id at refs)
  set_owners-Keeps id at [] = pure-Keeps o tt
  set_owners-Keeps id at (ref ∷ refs) =
      Keeps-bind o _ _ (resolve_owners-Keeps (ref ∷ refs) [])
        (λ users. set_challenge_authors-Keeps o id at users)

  pub sync_runtime-Keeps :
      (id : ℕ) (r : Option ChallengeRuntime) → Keeps o (sync_runtime o g disk dir id r)
  unfolding upsert_config
  sync_runtime-Keeps id none = pure-Keeps o {A = Bool} false
  sync_runtime-Keeps id (some r) =
      Keeps-bind o _ _
        (exec-Keeps o (λ t. upsert_config id r) (λ t db. upsert_config-challenges id r db))
        (λ _ w. refl)

  moved-Keeps :
      (id : ℕ) (name path : Text)
      → Keeps o (λ w. moved o g disk dir (disk.move id name path w.out) w)
  moved-Keeps id name path w = elim (Option-cases (disk.move id name path w.out).0) [
    | inl gone ↦ rw gone refl
    | inr (target, there) ↦ rw there refl
  ]

  cleared-Keeps : (id : ℕ) → Keeps o (λ w. cleared o g disk dir (disk.clear id w.out) w)
  cleared-Keeps id w = elim (Bool-cases (disk.clear id w.out).0) [
    | inl done ↦ rw done refl
    | inr failed ↦ rw failed refl
  ]

  insert_files-Keeps :
      (id : ℕ) (items : List StagedAttachment) → Keeps o (insert_files o g disk dir id items)
  unfolding insert_files
  insert_files-Keeps id [] = pure-Keeps o tt
  insert_files-Keeps id (a ∷ rest) =
      Keeps-bind o _ _ (moved-Keeps id (sanitize_filename a.filename) a.temp_path) (λ path.
        Keeps-bind o (exec o (λ t. insert_file id a.filename path a.content_type a.size_bytes)) _
          (exec-Keeps o (λ t. insert_file id a.filename path a.content_type a.size_bytes)
            (λ t db. insert_file-challenges id a.filename path a.content_type a.size_bytes db))
          (λ _. insert_files-Keeps id rest))

  pub sync_all-Keeps :
      (id : ℕ) (items : List StagedAttachment) → Keeps o (sync_all o g disk dir id items)
  unfolding sync_attachments delete_files
  sync_all-Keeps id [] = pure-Keeps o {A = ℕ} 0
  sync_all-Keeps id (a ∷ rest) =
      let removed : M o (Unit {0}) = exec o (λ t. delete_files id) in
      let emptied : M o (Unit {0}) = λ w. cleared o g disk dir (disk.clear id w.out) w in
      let inserted : M o (Unit {0}) = insert_files o g disk dir id (a ∷ rest) in
      let count : M o ℕ = pure (length (a ∷ rest)) in
      Keeps-bind o (removed >> emptied >> inserted) (λ _. count)
        (Keeps-bind o (removed >> emptied) (λ _. inserted)
          (Keeps-bind o removed (λ _. emptied) (exec-Keeps o (λ t. delete_files id) (λ t db. refl))
            (λ _. cleared-Keeps id))
          (λ _. insert_files-Keeps id (a ∷ rest)))
        (λ _ w. refl)
