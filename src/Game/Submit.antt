-- ===== src/Game/Submit.antt =====
-- backend/internal/game/service.go: what SubmitFlag does to the tables.
use ctf_recruit.Base.{
  ℕ, suc, Text, Bool, true, false, ◌≡◌, refl, sym, ◌∙◌, ◌⊎◌, inl, inr, List, ◌∷◌, ℤ, Result, ok,
  err, Result-cases, Bool-cases, count, ltb, ◌==◌, nat_eq,
}
use ctf_recruit.Base.Exec.{◌>>=◌, pure}
use ctf_recruit.Game.{Error, store_error, Attachment, SubmitResult}
use ctf_recruit.Game.Store.{
  Outside, World, M, Db, ChallengeRow, SubmissionRow, exec, query, select_challenge,
  select_attachments, list_challenge_attachments, get_challenge, insert_submission,
  create_submission, select_solved, has_solved, insert_solve, create_solve, challenge_of,
}
use ctf_recruit.Game.Flags.{evaluate_flag}
use ctf_recruit.Game.Service.{lift, rejected, repeated, accepted, on_solved, on_judged, submit_flag}
use ctf_recruit.Runtime.Rules.{ok_injective}

-- No other request writes between the statements of this one.
abbrev pub IsAlone : Outside → Type 0
IsAlone o = (s : o.State) (db : Db) → o.others s db ≡ db

module _ (o : Outside) where
  -- A statement fails and leaves the tables alone, or is carried out at some instant.
  exec_alone :
      {A : Type 0} (f : ℤ → Db → Result Error A × Db) (db : Db) (w : World o)
      → IsAlone o
      → w.db ≡ db
      → (((exec o f w).0 ≡ err store_error) × ((exec o f w).1.db ≡ db))
        ⊎ ((now : ℤ) × ((exec o f w).0 ≡ (f now db).0) × ((exec o f w).1.db ≡ (f now db).1))
  unfolding exec
  exec_alone f db w alone s = elim (Bool-cases (o.db_fault w.out).0) [
    | inl fault ↦ inl (rw fault refl, rw fault (alone w.out w.db ∙ s))
    | inr fine ↦ inr (
      (o.now (o.db_fault w.out).1).0,
      rw (fine, alone w.out w.db, s) refl,
      rw (fine, alone w.out w.db, s) refl,
    )
  ]

  -- The row that a submission adds.
  abbrev pub submission : ℕ → ChallengeRow → Text → Bool → Text → ℤ → Db → SubmissionRow
  submission user c flag correct ip now db = record {
    id = db.next_submission;
    challenge_id = c.id;
    user_id = user;
    submitted_flag = flag;
    is_correct = correct;
    submitted_at = now;
    source_ip = ip;
  }

  -- The tables with one submission more.
  abbrev pub submitted_db : ℕ → ChallengeRow → Text → Bool → Text → ℤ → Db → Db
  submitted_db user c flag correct ip now db = record db {
    submissions = submission user c flag correct ip now db ∷ db.submissions;
    next_submission = suc db.next_submission;
  }

  -- The specification of `SubmitFlag` for a challenge that is there and a flag that is judged.
  pub data Counted (user : ℕ) (c : ChallengeRow) (flag ip : Text) (db : Db)
      : Bool → Result Error SubmitResult → Db → Type 0 where
    wrong :
        (now : ℤ)
        → Counted user c flag ip db false
            (ok (rejected o db.next_submission))
            (submitted_db user c flag false ip now db)
    again :
        (now : ℤ)
        → select_solved c.id user db ≡ true
        → Counted user c flag ip db true
            (ok (repeated o db.next_submission))
            (submitted_db user c flag true ip now db)
    solved :
        (now at : ℤ)
        → select_solved c.id user db ≡ false
        → Counted user c flag ip db true
            (ok (accepted o db.next_submission c.points at))
            (record (submitted_db user c flag true ip now db) {
              solves =
                  record {
                    id = db.next_solve;
                    challenge_id = c.id;
                    user_id = user;
                    submission_id = db.next_submission;
                    awarded_points = c.points;
                    solved_at = at;
                  }
                  ∷ db.solves;
              next_solve = suc db.next_solve;
            })

  -- All of its outcomes. An error leaves the solves as they were, and at most a submission behind.
  pub data Submitted (user : ℕ) (ref flag ip : Text) (db : Db) (r : Result Error SubmitResult)
      (db' : Db) : Type 0 where
    failed :
        (e : Error)
        → r ≡ err e
        → (db' ≡ db)
          ⊎ ((c : ChallengeRow) × (correct : Bool) × (now : ℤ) × (db'
                ≡ submitted_db user c flag correct ip now db))
        → Submitted user ref flag ip db r db'
    counted :
        (c : ChallengeRow) (correct : Bool)
        → select_challenge ref db ≡ ok c
        → evaluate_flag o c.flag_type c.flag_value flag ≡ ok correct
        → Counted user c flag ip db correct r db'
        → Submitted user ref flag ip db r db'

  -- To prove `G` of a statement and what follows it: prove it of a failure, of the value that the
  -- statement gives on the tables, and of its error.
  exec_elim :
      {A B : Type 0} (G : Result Error B × World o → Type 0) (f : ℤ → Db → Result Error A × Db)
      (k : A → M o B) (db : Db) (w : World o)
      → IsAlone o
      → w.db ≡ db
      → ((w' : World o) → w'.db ≡ db → G (err store_error, w'))
      → ((now : ℤ) (a : A) (w' : World o) → (f now db).0 ≡ ok a → w'.db ≡ (f now db).1 → G (k a w'))
      → ((now : ℤ) (e : Error) (w' : World o)
          → (f now db).0 ≡ err e
          → w'.db ≡ (f now db).1
          → G (err e, w'))
      → G ((exec o f >>= k) w)
  exec_elim G f k db w alone s broken good bad = elim (exec_alone f db w alone s) [
    | inl (fault, same) ↦ rw fault (broken (exec o f w).1 same)
    | inr (now, reply, written) ↦ elim (Result-cases (f now db).0) [
      | inl (a, value) ↦ rw (reply ∙ value) (good now a (exec o f w).1 value written)
      | inr (e, error) ↦ rw (reply ∙ error) (bad now e (exec o f w).1 error written)
    ]
  ]

  module _ (user : ℕ) (ref flag ip : Text) (db : Db) (alone : IsAlone o) where
    abbrev Goal : Result Error SubmitResult × World o → Type 0
    Goal x = Submitted user ref flag ip db x.0 x.1.db

    -- The submission is made, and what follows ends in an error.
    stopped :
        (c : ChallengeRow) (correct : Bool) (now : ℤ) (e : Error) (w : World o)
        → w.db ≡ submitted_db user c flag correct ip now db
        → Goal (err e, w)
    stopped c correct now e w s = failed e refl (inr (c, correct, now, s))

    -- The solve of a user who had not solved the challenge.
    create_solve-Goal :
        (c : ChallengeRow) (now : ℤ) (w : World o)
        → select_challenge ref db ≡ ok c
        → evaluate_flag o c.flag_type c.flag_value flag ≡ ok true
        → select_solved c.id user db ≡ false
        → w.db ≡ submitted_db user c flag true ip now db
        → Goal (
            (create_solve o c.id user db.next_submission c.points >>= λ at.
            pure (accepted o db.next_submission c.points at))
              w)
    unfolding create_solve insert_solve select_solved
    create_solve-Goal c now w found verdict fresh s =
        elim (Bool-cases (ltb 0 (count (λ x. x.submission_id == db.next_submission) db.solves))) [
          | inl taken ↦
              exec_elim Goal f k before w alone s (λ w' s'. stopped c true now store_error w' s')
                (λ at a w' value s'. absurd (refused_not at a (rw (fresh, taken) refl) value))
                (λ at e w' bad s'. stopped c true now e w' (s' ∙ rw (fresh, taken) refl))
          | inr free ↦
              exec_elim Goal f k before w alone s (λ w' s'. stopped c true now store_error w' s')
                (λ at a w' value s'.
                  let same : at ≡ a = ok_injective (sym (rw (fresh, free) refl) ∙ value) in
                  rw (s', ← same, fresh, free)
                    (counted c true found verdict (Counted.solved now at fresh)))
                (λ at e w' bad s'. absurd (granted_not at e (rw (fresh, free) refl) bad))
        ]
      where
        before : Db
        before = submitted_db user c flag true ip now db

        f : ℤ → Db → Result Error ℤ × Db
        f = insert_solve c.id user db.next_submission c.points

        k : ℤ → M o SubmitResult
        k at = pure (accepted o db.next_submission c.points at)

        refused_not : (at a : ℤ) → (f at before).0 ≡ err store_error → ¬ (f at before).0 ≡ ok a
        refused_not at a p q = cc

        granted_not : (at : ℤ) (e : Error) → (f at before).0 ≡ ok at → ¬ (f at before).0 ≡ err e
        granted_not at e p q = cc

    on_solved-Goal :
        (c : ChallengeRow) (files : List Attachment) (now : ℤ) (w : World o) (b : Bool)
        → select_challenge ref db ≡ ok c
        → evaluate_flag o c.flag_type c.flag_value flag ≡ ok true
        → select_solved c.id user db ≡ b
        → w.db ≡ submitted_db user c flag true ip now db
        → Goal (on_solved o (challenge_of c files) user db.next_submission b w)
    on_solved-Goal c files now w true found verdict was s =
        rw s (counted c true found verdict (Counted.again now was))
    on_solved-Goal c files now w false found verdict was s =
        create_solve-Goal c now w found verdict was s

    on_judged-Goal :
        (c : ChallengeRow) (files : List Attachment) (now : ℤ) (w : World o) (correct : Bool)
        → select_challenge ref db ≡ ok c
        → evaluate_flag o c.flag_type c.flag_value flag ≡ ok correct
        → w.db ≡ submitted_db user c flag correct ip now db
        → Goal (on_judged o (challenge_of c files) user db.next_submission correct w)
    unfolding has_solved query select_solved
    on_judged-Goal c files now w false found verdict s =
        rw s (counted c false found verdict (Counted.wrong now))
    on_judged-Goal c files now w true found verdict s =
        exec_elim Goal (λ now db. (ok (select_solved c.id user db), db))
          (on_solved o (challenge_of c files) user db.next_submission)
          (submitted_db user c flag true ip now db) w alone s
          (λ w' s'. stopped c true now store_error w' s')
          (λ _ b w' value s'. on_solved-Goal c files now w' b found verdict (ok_injective value) s')
          (λ _ e w' bad s'. cc)

    judge-Goal :
        (c : ChallengeRow) (files : List Attachment) (w : World o) (v : Result Error Bool)
        → select_challenge ref db ≡ ok c
        → evaluate_flag o c.flag_type c.flag_value flag ≡ v
        → w.db ≡ db
        → Goal (
            (lift o v >>= λ correct. create_submission o c.id user flag correct ip >>= λ (n, _).
            on_judged o (challenge_of c files) user n correct)
              w)
    unfolding create_submission insert_submission
    judge-Goal c files w (err e) found verdict s = failed e refl (inl s)
    judge-Goal c files w (ok correct) found verdict s =
        exec_elim Goal (insert_submission c.id user flag correct ip)
          (λ (n, _). on_judged o (challenge_of c files) user n correct) db w alone s
          (λ w' s'. failed store_error refl (inl s'))
          (λ now x w' value s'.
            rw (← ok_injective value) (on_judged-Goal c files now w' correct found verdict s'))
          (λ _ e w' bad s'. cc)

    submit_flag-Goal : (w : World o) → w.db ≡ db → Goal (submit_flag o user ref flag ip w)
    unfolding submit_flag get_challenge query list_challenge_attachments
    submit_flag-Goal w s =
        elim (exec_alone (λ now db. (select_challenge ref db, db)) db w alone s) [
          | inl (fault, same) ↦ rw fault (failed store_error refl (inl same))
          | inr (_, reply, same) ↦ elim (Result-cases (select_challenge ref db)) [
            | inr (e, missing) ↦ rw (reply ∙ missing) (failed e refl (inl same))
            | inl (c, found) ↦
                rw (reply ∙ found)
                  (elim (exec_alone (λ now db. (ok (select_attachments c.id db), db)) db
                    (exec o (λ now db. (select_challenge ref db, db)) w).1 alone same) [
                      | inl (fault, same') ↦ rw fault (failed store_error refl (inl same'))
                      | inr (_, reply', same') ↦
                          rw reply' (judge-Goal c (select_attachments c.id db) _ _ found refl same')
                    ])
          ]
        ]

  -- Where no other request writes between its statements, every call of `SubmitFlag`, whatever the
  -- database answers, does what the specification says: the submission is recorded with its
  -- verdict; a right flag of a user who had not solved the challenge adds one solve worth the
  -- challenge's points and the reply awards these; a wrong one, and one for a challenge solved
  -- before, adds none and awards nothing; an error leaves the solves as they were.
  pub submit_flag-Submitted :
      (user : ℕ) (ref flag ip : Text) (w : World o)
      → IsAlone o
      → Submitted user ref flag ip w.db
          (submit_flag o user ref flag ip w).0
          (submit_flag o user ref flag ip w).1.db
  submit_flag-Submitted user ref flag ip w alone =
      submit_flag-Goal user ref flag ip w.db alone w refl
