-- ===== src/Admin/Replaced.antt =====
-- backend/internal/admin/service.go: UpdateChallengeAuthors.
use ctf_recruit.Base.{
  ℕ, Text, Bool, true, false, not, ◌&&◌, ◌≡◌, refl, ◌∙◌, sym, ap, subst, inl, inr, List, [], ◌∷◌, ℤ,
  pos, Result, ok, err, Bool-cases, ltb, count, codes, ◌==◌, nat_eq, nat_beq_iff, text_eq,
  text_beq_iff, int_eq, if◌then◌else◌, contains, arith,
}
use ctf_recruit.Base.Exec.{◌>>◌, pure, reject_if}
use ctf_recruit.Base.Decimal.{decimal}
use ctf_recruit.Runtime.Rules.{ok_injective}
use ctf_recruit.Game.Store
use ctf_recruit.Admin.{Error, resource_not_found, Actor, ChallengeAuthor}
use ctf_recruit.Admin.World.{Outside, World, M, Db, AuditRow, query, transaction}
use ctf_recruit.Admin.Store.{is_author, exists_challenge, select_authors, select_candidate}
use ctf_recruit.Admin.Repository.{
  ensure_candidates, set_challenge_authors, update_challenge_authors,
}
use ctf_recruit.Admin.Records.{create_audit_log, insert_audit_log}
use ctf_recruit.Admin.Rules.{chain_inv, exec_cases, query-db, query-ok, transaction-ok}
use ctf_recruit.Admin.Authors.{
  count-distinct_ids, set_count, SameButAuthors, set_challenge_authors-ok,
}
use ctf_recruit.Admin.Service.{distinct_ids, audit, service_update_authors}

module _ (o : Outside) where
  -- Every candidate was one, and the loop only read.
  ensure_candidates-ok :
      (users : List ℕ) (w : World o)
      → (ensure_candidates o users w).0 ≡ ok tt
      → ((ensure_candidates o users w).1.db ≡ w.db)
        × ((u : ℕ) → contains users u ≡ true → select_candidate u w.db ≡ ok tt)
  unfolding ensure_candidates contains
  ensure_candidates-ok [] w h = (refl, λ u no. absurd (cc))
  ensure_candidates-ok (user ∷ users) w h =
      let asked = query o (select_candidate user) in
      let (_, is_one, rest) = chain_inv asked _ w tt h in
      let here = query-ok o (select_candidate user) w tt is_one in
      let s = query-db o (select_candidate user) w in
      let (same, later) = ensure_candidates-ok users (asked w).1 (ap (λ x. x.0) (sym rest) ∙ h) in
      (
        ap (λ x. x.1.db) rest ∙ same ∙ s,
        λ u among. elim (Bool-cases (u == user)) [
          | inl is_user ↦ rw ((nat_beq_iff u user).0 is_user) here
          | inr other ↦ rw (← s) (later u (rw other at among))
        ],
      )

  -- The audit log has one more entry, or its error was dropped.
  audit_lem :
      (g : Store.Outside) (actor : ℕ) (action kind id : Text) (w : World o)
      → ((audit o g actor action kind id w).0 ≡ ok tt)
        × ((logs : List AuditRow) × ((audit o g actor action kind id w).1.db
              ≡ record w.db { audit_logs = logs }))
  unfolding create_audit_log insert_audit_log
  audit_lem g actor action kind id w =
      elim (exec_cases o (insert_audit_log actor action kind id) w) [
        | inl (fault, same) ↦ (refl, (w.db.audit_logs, same))
        | inr (reply, done) ↦ (refl, (_, done))
      ]

  -- A call that ends in an entry of the audit log.
  pub audited :
      {A : Type 0} (g : Store.Outside) (actor : ℕ) (action kind id : Text) (a : A) (w : World o)
      → (((audit o g actor action kind id >> pure a) w).0 ≡ ok a)
        × ((logs : List AuditRow) × (((audit o g actor action kind id >> pure a) w).1.db
              ≡ record w.db { audit_logs = logs }))
  audited g actor action kind id a w =
      let (noted, (logs, after)) = audit_lem g actor action kind id w in (refl, (logs, after))

-- The authors of a challenge after they were set to some users: these are its authors, each once; the
-- authors of the other challenges and all other tables but the audit log are as they were.
pub record AuthorsSet (challenge : ℕ) (ids : List ℤ) (db db' : Db) : Type 0 where
  pub members :
      (u : ℕ)
      → count (is_author challenge u) db'.authors
        ≡ (if ltb 0 u && contains ids (pos u) then 1 else 0)
  pub others :
      (d u : ℕ)
      → (d == challenge) ≡ false
      → count (is_author d u) db'.authors ≡ count (is_author d u) db.authors
  pub rest : db' ≡ record db { authors = db'.authors; audit_logs = db'.audit_logs }

contains-count : (n : ℕ) (xs : List ℕ) → contains xs n ≡ ltb 0 (count (λ m. m == n) xs)
unfolding contains
contains-count n [] = ground arith
contains-count n (x ∷ xs) = ground (arith, contains-count n xs, nat_beq_iff n x, nat_beq_iff x n)

-- The authors are set, everything else is as it was, and the reply shows them.
record Done (challenge : ℕ) (users : List ℕ) (shown : List ChallengeAuthor) (db db' : Db)
    : Type 0 where
  candidates : (u : ℕ) → contains users u ≡ true → select_candidate u db ≡ ok tt
  counts : (d u : ℕ) → count (is_author d u) db'.authors ≡ set_count challenge users db.authors d u
  frame : SameButAuthors db db'
  reply : shown ≡ select_authors challenge db'

module _ (o : Outside) where
  -- What follows the query for the challenge.
  abbrev known_then : ℕ → List ℕ → Bool → M o (List ChallengeAuthor)
  known_then challenge users known =
      reject_if (not known) resource_not_found
      >> ensure_candidates o users
      >> transaction o (λ at. set_challenge_authors o challenge at users)
      >> query o (λ db. ok (select_authors challenge db))

  known_then-ok :
      (challenge : ℕ) (users : List ℕ) (known : Bool) (w : World o) (shown : List ChallengeAuthor)
      → (known_then challenge users known w).0 ≡ ok shown
      → Done challenge users shown w.db (known_then challenge users known w).1.db
  known_then-ok challenge users false w shown h = absurd (failed h)
    where
      failed : ¬ ◌≡◌ {A = Result Error (List ChallengeAuthor)} (err resource_not_found) (ok shown)
      failed h = cc
  known_then-ok challenge users true w shown h =
      let body = λ (at : ℤ). set_challenge_authors o challenge at users in
      let checked = reject_if (not true) resource_not_found >> ensure_candidates o users in
      let list = query o (λ db. ok (select_authors challenge db)) in
      let (_, h1, e1) = chain_inv (checked >> transaction o body) (λ _. list) w shown h in
      let (_, h2, e2) = chain_inv checked (λ _. transaction o body) w tt h1 in
      let (same, candidates) = ensure_candidates-ok o users w h2 in
      let w2 = (ensure_candidates o users w).1 in
      let (w3, at, s3, made, committed) =
        transaction-ok o body w2 tt (ap (λ x. x.0) (sym e2) ∙ h1) in
      let (counts, frame) = set_challenge_authors-ok o challenge at users w3 made in
      let w4 = (transaction o body w2).1 in
      let arrives : ((checked >> transaction o body) w).1 ≡ w4 = ap (λ x. x.1) e2 in
      let last = ((checked >> transaction o body) w).1 in
      let listed =
        query-ok o (λ db. ok (select_authors challenge db)) last shown
          (ap (λ x. x.0) (sym e1) ∙ h) in
      let final_db = (set_challenge_authors o challenge at users w3).1.db in
      let at_last : last.db ≡ final_db = ap (λ (v : World o). v.db) arrives ∙ committed in
      let final : (known_then challenge users true w).1.db ≡ final_db =
        ap (λ x. x.1.db) e1 ∙ query-db o (λ db. ok (select_authors challenge db)) last ∙ at_last in
      let done : Done challenge users shown w3.db final_db = record {
        candidates = λ u among. ap (select_candidate u) (s3 ∙ same) ∙ candidates u among;
        counts = counts;
        frame = frame;
        reply = sym (ok_injective listed) ∙ ap (select_authors challenge) at_last;
      } in
      subst (λ db. Done challenge users shown db (known_then challenge users true w).1.db)
        (s3 ∙ same) (subst (Done challenge users shown w3.db) (sym final) done)

  update_authors-ok :
      (actor : Actor) (challenge : ℕ) (users : List ℕ) (w : World o) (shown : List ChallengeAuthor)
      → (update_challenge_authors o actor challenge users w).0 ≡ ok shown
      → (actor.role ≡ codes "admin")
        × Done challenge users shown w.db (update_challenge_authors o actor challenge users w).1.db
  unfolding update_challenge_authors
  update_authors-ok actor challenge users w shown h =
      elim (Bool-cases (actor.role == codes "admin")) [
        | inr other ↦ absurd (failed (rw other at h))
        | inl admin ↦
            let asked = query o (λ db. ok (exists_challenge challenge db)) in
            let (known, there, r1) =
              chain_inv asked (known_then challenge users) w shown (rw admin at h) in
            let s = query-db o (λ db. ok (exists_challenge challenge db)) w in
            let done =
              known_then-ok challenge users known (asked w).1 shown
                (ap (λ x. x.0) (sym r1) ∙ rw admin at h) in
            (
              (text_beq_iff actor.role (codes "admin")).0 admin,
              rw (admin, r1)
                  (subst
                    (λ db.
                      Done challenge users shown db
                        (known_then challenge users known (asked w).1).1.db)
                    s done),
            )
      ]
    where
      failed : ¬ ◌≡◌ {A = Result Error (List ChallengeAuthor)} (err resource_not_found) (ok shown)
      failed h = cc

-- Who is left of the ids.
contains-distinct_ids :
    (u : ℕ) (ids : List ℤ) → contains (distinct_ids [] ids) u ≡ (ltb 0 u && contains ids (pos u))
unfolding contains
contains-distinct_ids u ids =
    let counted = count-distinct_ids u [] ids in
    let among = contains-count u (distinct_ids [] ids) in ground (arith, counted, among)

module _ (o : Outside) where
  -- UpdateChallengeAuthors, when it succeeds: the caller is an administrator; each of the ids that is
  -- positive is that of a user with the role of an author or an administrator; the authors of the
  -- challenge are then exactly these users, each once however often it was given; the authors of
  -- other challenges and every other table but the audit log are as they were; and the reply lists
  -- the authors as the table has them.
  pub service_update_authors-AuthorsSet :
      (g : Store.Outside) (actor : Actor) (challenge : ℕ) (ids : List ℤ) (w : World o)
      (shown : List ChallengeAuthor)
      → (service_update_authors o g actor challenge ids w).0 ≡ ok shown
      → let db' = (service_update_authors o g actor challenge ids w).1.db in
        (actor.role ≡ codes "admin")
        × ((u : ℕ) → (ltb 0 u && contains ids (pos u)) ≡ true → select_candidate u w.db ≡ ok tt)
        × AuthorsSet challenge ids w.db db'
        × (shown ≡ select_authors challenge db')
  unfolding service_update_authors
  service_update_authors-AuthorsSet g actor challenge ids w shown h =
      let users = distinct_ids [] ids in
      let call = update_challenge_authors o actor challenge users in
      let (authors, updated, e) = chain_inv call _ w shown h in
      let w1 = (call w).1 in
      let (admin, done) = update_authors-ok o actor challenge users w authors updated in
      let (noted, (logs, after)) =
        audited o g actor.user_id (codes "challenge.authors.update") (codes "challenge")
          (decimal challenge) authors w1 in
      let same : authors ≡ shown = ok_injective (sym (ap (λ x. x.0) e ∙ noted) ∙ h) in
      let final : (service_update_authors o g actor challenge ids w).1.db
          ≡ record w1.db { audit_logs = logs } =
        ap (λ x. x.1.db) e ∙ after in
      let set : AuthorsSet challenge ids w.db (record w1.db { audit_logs = logs }) = record {
        members = λ u.
            let one = done.counts challenge u in
            let among = contains-distinct_ids u ids in ground (arith, one, among);
        others = λ d u other. let count_d = done.counts d u in ground (arith, count_d);
        rest = ap (λ (db : Db). record db { audit_logs = logs }) done.frame;
      } in
      (
        admin,
        λ u given. done.candidates u (contains-distinct_ids u ids ∙ given),
        subst (AuthorsSet challenge ids w.db) (sym final) set,
        sym same ∙ done.reply ∙ ap (select_authors challenge) (sym final),
      )
