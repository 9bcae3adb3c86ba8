-- ===== src/Admin/Ownership.antt =====
-- backend/internal/admin/service.go: what an author may not do with a challenge of others.
use ctf_recruit.Base.{
  ℕ, Text, true, false, not, ◌≡◌, refl, ◌∙◌, sym, ap, inl, inr, List, ℤ, ok, err, Result-cases,
  Option-cases, codes, text_beq, text_eq, nat_eq, arith, subst,
}
use ctf_recruit.Base.Exec.{◌>>=◌, reject_if}
use ctf_recruit.ChallengeStatus.{normalize_input_status}
use ctf_recruit.Game.Store
use ctf_recruit.Game.Flags.{validate_flag_type_config}
use ctf_recruit.Admin.{
  Error, resource_not_found, invalid_challenge_input, store_error, manager_error, file_error,
  not_a_candidate, Actor, restrict_to_owned_challenges, UpsertChallengeInput, CreateAttachmentInput,
}
use ctf_recruit.Admin.World.{Outside, World, Db, query, read_clock}
use ctf_recruit.Admin.Store.{owns, is_shown, select_challenge}
use ctf_recruit.Admin.Repository.{
  get_challenge, check_ownership, list_challenge_authors, update_challenge_authors,
  create_attachment,
}
use ctf_recruit.Runtime.Rules.{ok_injective}
use ctf_recruit.Admin.Rules.{
  IsRefusal, bind-IsRefusal, then-IsRefusal, query-IsRefusal, query-db, query-ok, first-none,
}
use ctf_recruit.Admin.Service.{
  normalize_input, service_update_challenge, service_update_authors, service_create_attachment,
  service_attachment, challenge_owned_by_user, write_attachment_file, sanitize_filename,
  allowed_or_error,
}

-- An author who is no author of this challenge.
pub record IsOutsider (actor : Actor) (challenge : ℕ) (db : Db) : Type 0 where
  pub author : actor.role ≡ codes "author"
  pub stranger : owns challenge actor.user_id db ≡ false

is_restricted :
    (actor : Actor) → actor.role ≡ codes "author" → restrict_to_owned_challenges actor ≡ true
unfolding text_beq
is_restricted actor e = rw e refl

select_challenge-outsider :
    (actor : Actor) (challenge : ℕ) (db : Db)
    → IsOutsider actor challenge db
    → select_challenge actor challenge db ≡ err resource_not_found
unfolding select_challenge
select_challenge-outsider actor challenge db out =
    rw (first-none (is_shown actor challenge db) db.challenges hidden) refl
  where
    hidden : (c : _) → is_shown actor challenge db c ≡ false
    hidden c = rw (is_restricted actor out.author, out.stranger) (ground arith)

module _ (o : Outside) where
  get_challenge-IsRefusal :
      (actor : Actor) (challenge : ℕ) (w : World o)
      → IsOutsider actor challenge w.db
      → IsRefusal o w.db (get_challenge o actor challenge w)
  unfolding get_challenge
  get_challenge-IsRefusal actor challenge w out =
      let refused =
        query-IsRefusal o (select_challenge actor challenge) w resource_not_found
          (select_challenge-outsider actor challenge w.db out) in
      bind-IsRefusal o w.db (query o (select_challenge actor challenge)) _ w refused

  -- The checks of the input leave everything as it is.
  normalize_input-quiet :
      (g : Store.Outside) (input : UpsertChallengeInput) (w : World o)
      → (normalize_input o g input w).1 ≡ w
  unfolding normalize_input
  normalize_input-quiet g input w =
      elim (Result-cases (validate_flag_type_config g input.flag_type input.flag_value)) [
        | inr (e, h) ↦ rw h refl
        | inl (kind, h) ↦ elim (Result-cases (normalize_input_status input.status input.visible)) [
          | inr (e, h') ↦ rw (h, h') refl
          | inl (status, h') ↦ rw (h, h') refl
        ]
      ]

  update-IsRefusal :
      (g : Store.Outside) (actor : Actor) (challenge : ℕ) (input : UpsertChallengeInput)
      (w : World o)
      → IsOutsider actor challenge w.db
      → IsRefusal o w.db (service_update_challenge o g actor challenge input w)
  unfolding service_update_challenge
  update-IsRefusal g actor challenge input w out =
      let same = normalize_input-quiet g input w in
      let same_db : (normalize_input o g input w).1.db ≡ w.db = ap (λ (v : World o). v.db) same in
      then-IsRefusal o w.db (normalize_input o g input) _ w same_db (λ normal h.
        let refused : IsRefusal o w.db
            (get_challenge o actor challenge (normalize_input o g input w).1) =
          rw same (get_challenge-IsRefusal actor challenge w out) in
        bind-IsRefusal o w.db (get_challenge o actor challenge) _ _ refused)

  check_ownership-IsRefusal :
      (actor : Actor) (challenge : ℕ) (w : World o)
      → IsOutsider actor challenge w.db
      → IsRefusal o w.db (check_ownership o actor challenge w)
  unfolding check_ownership
  check_ownership-IsRefusal actor challenge w out =
      let asked = query o (λ db. ok (owns challenge actor.user_id db)) in
      rw (is_restricted actor out.author) (
        then-IsRefusal o w.db asked _ w (query-db o (λ db. ok (owns challenge actor.user_id db)) w)
          (λ allowed h.
            let no : allowed ≡ false =
              ok_injective
                (sym (query-ok o (λ db. ok (owns challenge actor.user_id db)) w allowed h))
              ∙ out.stranger in
            rw no (
              (resource_not_found, refl),
              query-db o (λ db. ok (owns challenge actor.user_id db)) w,
            )))

  set_authors-IsRefusal :
      (g : Store.Outside) (actor : Actor) (challenge : ℕ) (ids : List ℤ) (w : World o)
      → actor.role ≡ codes "author"
      → IsRefusal o w.db (service_update_authors o g actor challenge ids w)
  unfolding service_update_authors update_challenge_authors text_beq
  set_authors-IsRefusal g actor challenge ids w author =
      rw author ((resource_not_found, refl), refl)

  write_attachment_file-db :
      (g : Store.Outside) (challenge : ℕ) (filename body : Text) (w : World o)
      → (write_attachment_file o g challenge filename body w).1.db ≡ w.db
  unfolding write_attachment_file read_clock
  write_attachment_file-db g challenge filename body w =
      let t = o.now w.out in
      elim (Option-cases (o.write_file challenge t.0 (sanitize_filename filename) body t.1).0) [
        | inl failed ↦ rw failed refl
        | inr (path, written) ↦ rw written refl
      ]

  attach-IsRefusal :
      (g : Store.Outside) (actor : Actor) (challenge : ℕ) (input : CreateAttachmentInput)
      (body : Text) (w : World o)
      → IsOutsider actor challenge w.db
      → IsRefusal o w.db (service_create_attachment o g actor challenge input body w)
  unfolding service_create_attachment create_attachment
  attach-IsRefusal g actor challenge input body w out =
      let s = write_attachment_file-db g challenge input.filename body w in
      then-IsRefusal o w.db (write_attachment_file o g challenge input.filename body) _ w s
        (λ path h.
          let w1 = (write_attachment_file o g challenge input.filename body w).1 in
          let out1 : IsOutsider actor challenge w1.db =
            subst (IsOutsider actor challenge) (sym s) out in
          let refused : IsRefusal o w1.db (
              create_attachment o actor challenge input.filename path input.content_type
                input.size_bytes w1) =
            bind-IsRefusal o w1.db (check_ownership o actor challenge) _ w1
              (check_ownership-IsRefusal actor challenge w1 out1) in
          let ((e, failed), same) = refused in rw failed ((e, refl), same ∙ s))

  -- What follows a challenge that an author was not shown, whatever the error.
  refused_reply :
      (g : Store.Outside) (e : Error) (db : Db) (w : World o)
      → w.db ≡ db
      → IsRefusal o db (
          (allowed_or_error o g (err e) >>= λ allowed. reject_if (not allowed) resource_not_found)
            w)
  refused_reply g resource_not_found db w s = ((resource_not_found, refl), s)
  refused_reply g invalid_challenge_input db w s = ((invalid_challenge_input, refl), s)
  refused_reply g store_error db w s = ((store_error, refl), s)
  refused_reply g manager_error db w s = ((manager_error, refl), s)
  refused_reply g file_error db w s = ((file_error, refl), s)
  refused_reply g (not_a_candidate user) db w s = ((not_a_candidate user, refl), s)

  download-IsRefusal :
      (g : Store.Outside) (actor : Actor) (challenge id : ℕ) (w : World o)
      → IsOutsider actor challenge w.db
      → IsRefusal o w.db (service_attachment o g actor challenge id w)
  unfolding service_attachment challenge_owned_by_user
  download-IsRefusal g actor challenge id w out =
      let as_author : Actor = record { user_id = actor.user_id; role = codes "author" } in
      let ((e, failed), same) =
        get_challenge-IsRefusal as_author challenge w
          (record { author = refl; stranger = out.stranger }) in
      let guard = challenge_owned_by_user o g challenge actor.user_id >>= λ allowed.
      reject_if (not allowed) resource_not_found in
      let refused : IsRefusal o w.db (guard w) =
        rw failed (refused_reply g e w.db (get_challenge o as_author challenge w).1 same) in
      rw (is_restricted actor out.author) (bind-IsRefusal o w.db guard _ w refused)

  -- An author has no part in a challenge that it is no author of: whatever the database and the disk
  -- answer, its calls to read the challenge, to change it, to list its authors, to set them, to
  -- attach a file to it and to fetch a file of it all end in an error, and leave every table as it
  -- was, the audit log included.
  pub outsider-IsRefusal :
      (g : Store.Outside) (actor : Actor) (challenge : ℕ) (w : World o)
      → actor.role ≡ codes "author"
      → owns challenge actor.user_id w.db ≡ false
      → IsRefusal o w.db (get_challenge o actor challenge w)
        × ((input : UpsertChallengeInput)
            → IsRefusal o w.db (service_update_challenge o g actor challenge input w))
        × IsRefusal o w.db (list_challenge_authors o actor challenge w)
        × ((ids : List ℤ) → IsRefusal o w.db (service_update_authors o g actor challenge ids w))
        × ((input : CreateAttachmentInput) (body : Text)
            → IsRefusal o w.db (service_create_attachment o g actor challenge input body w))
        × ((id : ℕ) → IsRefusal o w.db (service_attachment o g actor challenge id w))
  unfolding list_challenge_authors
  outsider-IsRefusal g actor challenge w author stranger =
      let out : IsOutsider actor challenge w.db = record { author = author; stranger = stranger } in
      (
        get_challenge-IsRefusal actor challenge w out,
        λ input. update-IsRefusal g actor challenge input w out,
        bind-IsRefusal o w.db (check_ownership o actor challenge) _ w
            (check_ownership-IsRefusal actor challenge w out),
        λ ids. set_authors-IsRefusal g actor challenge ids w author,
        λ input body. attach-IsRefusal g actor challenge input body w out,
        λ id. download-IsRefusal g actor challenge id w out,
      )
