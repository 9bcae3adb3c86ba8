-- ===== src/Game/Solves.antt =====
-- backend/internal/game/service.go, backend/internal/store/game_repository.go: the solves, where
-- other requests write between the statements of this one.
use ctf_recruit.Base.{
  ℕ, ◌≤◌, Text, Bool, true, false, ◌≡◌, inl, inr, arith, ℤ, Result, ok, err, Bool-cases, count,
  ◌&&◌, ◌==◌, nat_eq, nat_beq_iff,
}
use ctf_recruit.Base.Exec.{◌>>=◌}
use ctf_recruit.Game.{Error, Challenge}
use ctf_recruit.Game.Store.{
  Outside, World, M, Db, exec, query, get_challenge, list_challenge_attachments, create_submission,
  insert_submission, has_solved, create_solve, insert_solve, is_solve, select_solved,
  select_challenge,
}
use ctf_recruit.Game.Flags.{evaluate_flag}
use ctf_recruit.Game.Service.{lift, on_solved, on_judged, submit_flag}
use ctf_recruit.Runtime.Rules.{bind_elim}

-- A call that keeps a property of the tables.
abbrev pub Keeps : {o : Outside} {A : Type 0} → (Db → Type 0) → M o A → Type 0
Keeps {o} P m = (w : World o) → P w.db → P (m w).1.db

module _ (o : Outside) (P : Db → Type 0) where
  -- Whatever the other requests write keeps the property.
  abbrev pub OthersKeep : Type 0
  OthersKeep = (s : o.State) (db : Db) → P db → P (o.others s db)

  Keeps-bind :
      {A B : Type 0} (m : M o A) (f : A → M o B)
      → Keeps P m
      → ((a : A) → Keeps P (f a))
      → Keeps P (m >>= f)
  Keeps-bind m f first next w p =
      bind_elim (λ x. P x.1.db) m f w (λ a h. next a (m w).1 (first w p)) (λ e h. first w p)

  Keeps-exec :
      {A : Type 0} (f : ℤ → Db → Result Error A × Db)
      → OthersKeep
      → ((now : ℤ) (db : Db) → P db → P (f now db).1)
      → Keeps P (exec o f)
  unfolding exec
  Keeps-exec f others step w p = elim (Bool-cases (o.db_fault w.out).0) [
    | inl fault ↦ rw fault (others w.out w.db p)
    | inr fine ↦ rw fine (step _ _ (others w.out w.db p))
  ]

  Keeps-query : {A : Type 0} (f : Db → Result Error A) → OthersKeep → Keeps P (query o f)
  unfolding query
  Keeps-query f others = Keeps-exec (λ now db. (f db, db)) others (λ now db p. p)

  Keeps-lift : {A : Type 0} (r : Result Error A) → Keeps P (lift o r)
  Keeps-lift (ok a) w p = p
  Keeps-lift (err e) w p = p

  -- What the two insertions keep, every submission keeps.
  pub submit_flag-Keeps :
      OthersKeep
      → ((challenge user : ℕ) (flag : Text) (correct : Bool) (ip : Text) (now : ℤ) (db : Db)
          → P db
          → P (insert_submission challenge user flag correct ip now db).1)
      → ((challenge user submission : ℕ) (points now : ℤ) (db : Db)
          → P db
          → P (insert_solve challenge user submission points now db).1)
      → (user : ℕ) (ref flag ip : Text) → Keeps P (submit_flag o user ref flag ip)
  unfolding submit_flag get_challenge list_challenge_attachments create_submission has_solved
      create_solve
  submit_flag-Keeps others submits solves user ref flag ip =
      Keeps-bind (get_challenge o ref) _
        (Keeps-bind (query o (select_challenge ref)) _ (Keeps-query _ others) λ c.
          Keeps-bind (list_challenge_attachments o c.id) _ (Keeps-query _ others) λ files w p. p)
        λ (c, value).
          Keeps-bind (lift o (evaluate_flag o c.flag_type value flag)) _ (Keeps-lift _) λ correct.
            Keeps-bind (create_submission o c.id user flag correct ip) _
              (Keeps-exec _ others (submits c.id user flag correct ip)) λ (n, _). judged c n correct
    where
      solved : (c : Challenge) (n : ℕ) (b : Bool) → Keeps P (on_solved o c user n b)
      solved c n true = λ w p. p
      solved c n false =
          Keeps-bind (create_solve o c.id user n c.points) _
            (Keeps-exec _ others (solves c.id user n c.points)) λ at w p. p

      judged : (c : Challenge) (n : ℕ) (correct : Bool) → Keeps P (on_judged o c user n correct)
      judged c n false = λ w p. p
      judged c n true = Keeps-bind (has_solved o c.id user) _ (Keeps-query _ others) (solved c n)

-- No user has two solves of one challenge.
abbrev pub SolvedOnce : ℕ → ℕ → Db → Type 0
SolvedOnce challenge user db = count (is_solve challenge user) db.solves ≤ 1

insert_solve-SolvedOnce :
    (c u challenge user submission : ℕ) (points now : ℤ) (db : Db)
    → SolvedOnce c u db
    → SolvedOnce c u (insert_solve challenge user submission points now db).1
unfolding insert_solve select_solved is_solve
insert_solve-SolvedOnce c u challenge user submission points now db once =
    elim (Bool-cases ((challenge == c) && (user == u))) [
      | inl same ↦
          let at_challenge : challenge ≡ c = ground (arith, nat_beq_iff challenge c) in
          let at_user : user ≡ u = ground (arith, nat_beq_iff user u) in
          rw (at_challenge, at_user) (own c u submission points now db once)
      | inr other ↦ ground arith
    ]
  where
    own :
        (c u submission : ℕ) (points now : ℤ) (db : Db)
        → SolvedOnce c u db
        → SolvedOnce c u (insert_solve c u submission points now db).1
    own c u submission points now db once = ground (arith, nat_beq_iff c c, nat_beq_iff u u)

-- A user gets the points of a challenge once: at most one solve of a user and a challenge stays at
-- most one after every submission of any user, also where other requests that keep this write
-- between the statements of this one, and two submissions both find the challenge unsolved.
pub submit_flag-SolvedOnce :
    (o : Outside) (c u user : ℕ) (ref flag ip : Text) (w : World o)
    → OthersKeep o (SolvedOnce c u)
    → SolvedOnce c u w.db
    → SolvedOnce c u (submit_flag o user ref flag ip w).1.db
unfolding insert_submission
submit_flag-SolvedOnce o c u user ref flag ip w others =
    submit_flag-Keeps o (SolvedOnce c u) others (λ challenge user flag correct ip now db p. p)
      (insert_solve-SolvedOnce c u) user ref flag ip w
