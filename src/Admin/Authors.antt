-- ===== src/Admin/Authors.antt =====
-- backend/internal/store/admin_repository.go and backend/internal/admin/service.go: what setting the
-- authors of a challenge does to the table.
use ctf_recruit.Base.{
  ℕ, ◌+◌, Bool, not, ◌&&◌, ◌||◌, ◌≡◌, refl, ◌∙◌, sym, ap, subst, inl, inr, List, [], ◌∷◌, ◌++◌, ℤ,
  pos, pos_part, Result, ok, err, Bool-cases, ltb, leb_ℤ, count, keep, ◌==◌, nat_eq, nat_beq_iff,
  int_eq, if◌then◌else◌, contains, arith, beq_ℤ_iff,
}
use ctf_recruit.Admin.{Error, store_error}
use ctf_recruit.Admin.World.{Outside, World, Db, AuthorRow, exec}
use ctf_recruit.Admin.Store.{is_author, owns, exists_challenge, bind_author, clear_authors}
use ctf_recruit.Admin.Repository.{bind_all, set_challenge_authors}
use ctf_recruit.Admin.Rules.{chain_inv, exec-ok}
use ctf_recruit.Admin.Service.{distinct_ids}

module _ {ℓ} {A : Type ℓ} where
  pub count-append : (p : A → Bool) (xs ys : List A) → count p (xs ++ ys) ≡ count p xs + count p ys
  count-append p [] ys = omega arith
  count-append p (x ∷ xs) ys = ground (arith, count-append p xs ys)

-- The ids that are left: the positive ones, once each.
pub count-distinct_ids :
    (n : ℕ) (seen : List ℕ) (ids : List ℤ)
    → count (λ m. m == n) (distinct_ids seen ids)
      ≡ (if ltb 0 n && not (contains seen n) && contains ids (pos n) then 1 else 0)
unfolding distinct_ids contains
count-distinct_ids n seen [] = ground arith
count-distinct_ids n seen (id ∷ ids) =
    let k = pos_part id in
    let below = count-distinct_ids n seen ids in
    let above = count-distinct_ids n (k ∷ seen) ids in
    elim (Bool-cases (leb_ℤ id (pos 0) || contains seen k)) [
      | inl dropped ↦ rw dropped (ground (arith, below, beq_ℤ_iff (pos n) id))
      | inr fresh ↦ rw fresh (ground (arith, above, beq_ℤ_iff (pos n) id, nat_beq_iff n k))
    ]

-- How often an author stands in the table after it is bound.
bind_author-count :
    (challenge user : ℕ) (now : ℤ) (db : Db)
    → (bind_author challenge user now db).0 ≡ ok tt
    → (d u : ℕ)
    → count (is_author d u) (bind_author challenge user now db).1.authors ≡ (
        if d == challenge && u == user && not (owns challenge user db)
        then 1 + count (is_author d u) db.authors
        else count (is_author d u) db.authors)
unfolding bind_author
bind_author-count challenge user now db h d u =
    let known = exists_challenge challenge db && ltb 0 (count (λ u. u.id == user) db.users) in
    let row : AuthorRow = record { challenge_id = challenge; user_id = user; created_at = now } in
    elim (Bool-cases known) [
      | inr unknown ↦ absurd (failed (rw unknown at h))
      | inl there ↦ elim (Bool-cases (owns challenge user db)) [
        | inl bound ↦ rw (there, bound) (ground arith)
        | inr new ↦
            rw (there, new)
              (count-append (is_author d u) db.authors (row ∷ [])
                ∙ ground (
                  arith,
                  nat_beq_iff d challenge,
                  nat_beq_iff u user,
                  nat_beq_iff challenge d,
                  nat_beq_iff user u,
                ))
      ]
    ]
  where
    failed : ¬ ◌≡◌ {A = Result Error (Unit {0})} (err store_error) (ok tt)
    failed h = cc

-- Everything but the authors is left alone.
abbrev pub SameButAuthors : Db → Db → Type 0
SameButAuthors db db' = db' ≡ record db { authors = db'.authors }

bind_author-same :
    (challenge user : ℕ) (now : ℤ) (db : Db)
    → SameButAuthors db (bind_author challenge user now db).1
unfolding bind_author
bind_author-same challenge user now db =
    let known = exists_challenge challenge db && ltb 0 (count (λ u. u.id == user) db.users) in
    elim (Bool-cases known) [
      | inr unknown ↦ rw unknown refl
      | inl there ↦ elim (Bool-cases (owns challenge user db)) [
        | inl bound ↦ rw (there, bound) refl
        | inr new ↦ rw (there, new) refl
      ]
    ]

-- How often an author stands in the table after all have been bound to a challenge.
abbrev bound_count : ℕ → List ℕ → List AuthorRow → ℕ → ℕ → ℕ
bound_count challenge users rows d u =
    if d == challenge && contains users u && not (ltb 0 (count (is_author d u) rows))
    then 1
    else count (is_author d u) rows

-- One more author, and then the others.
bound_count-cons :
    (challenge user : ℕ) (users : List ℕ) (now : ℤ) (db : Db) (rows : List AuthorRow)
    → (bind_author challenge user now db).0 ≡ ok tt
    → rows ≡ (bind_author challenge user now db).1.authors
    → (d u : ℕ)
    → bound_count challenge users rows d u ≡ bound_count challenge (user ∷ users) db.authors d u
unfolding contains owns
bound_count-cons challenge user users now db rows made done d u =
    let counts = bind_author-count challenge user now db made d u in
    elim (Bool-cases (d == challenge && u == user)) [
      | inl same ↦
          let is_d : d ≡ challenge = ground (arith, nat_beq_iff d challenge) in
          let is_u : u ≡ user = ground (arith, nat_beq_iff u user) in
          let owned : owns challenge user db ≡ ltb 0 (count (is_author d u) db.authors) =
            rw (is_d, is_u) refl in
          rw done (ground (arith, counts, owned))
      | inr other ↦ rw done (ground (arith, counts))
    ]

module _ (o : Outside) where
  bind_all-ok :
      (challenge : ℕ) (at : ℤ) (users : List ℕ) (w : World o)
      → (bind_all o challenge at users w).0 ≡ ok tt
      → let db' = (bind_all o challenge at users w).1.db in
        ((d u : ℕ)
          → count (is_author d u) db'.authors ≡ bound_count challenge users w.db.authors d u)
        × SameButAuthors w.db db'
  unfolding bind_all contains
  bind_all-ok challenge at [] w h = (λ d u. ground arith, refl)
  bind_all-ok challenge at (user ∷ users) w h =
      let f = λ (t : ℤ). bind_author challenge user at in
      let (_, bound, rest) = chain_inv (exec o f) _ w tt h in
      let (made, done) = exec-ok o f w tt bound in
      let w1 = (exec o f w).1 in
      let (counts, frame) = bind_all-ok challenge at users w1 (ap (λ x. x.0) (sym rest) ∙ h) in
      let rows = ap (λ (db : Db). db.authors) done in
      let first : SameButAuthors w.db w1.db =
        subst (SameButAuthors w.db) (sym done) (bind_author-same challenge user at w.db) in
      rw rest (
        λ d u.
            counts d u ∙ bound_count-cons challenge user users at w.db w1.db.authors made rows d u,
        frame
            ∙ ap
                (λ (db : Db). record db {
                  authors = (bind_all o challenge at users w1).1.db.authors;
                })
                first,
      )

-- The authors of a challenge are cleared, those of the others stay.
count-cleared :
    (challenge d u : ℕ) (rows : List AuthorRow)
    → count (is_author d u) (keep (λ a. not (a.challenge_id == challenge)) rows)
      ≡ (if d == challenge then 0 else count (is_author d u) rows)
count-cleared challenge d u [] = ground arith
count-cleared challenge d u (a ∷ rows) = ground (
  arith,
  count-cleared challenge d u rows,
  nat_beq_iff a.challenge_id challenge,
  nat_beq_iff a.challenge_id d,
  nat_beq_iff d challenge,
)

-- How often an author stands in the table after the authors of a challenge have been set.
abbrev pub set_count : ℕ → List ℕ → List AuthorRow → ℕ → ℕ → ℕ
set_count challenge users rows d u =
    if d == challenge then (if contains users u then 1 else 0) else count (is_author d u) rows

module _ (o : Outside) where
  pub set_challenge_authors-ok :
      (challenge : ℕ) (at : ℤ) (users : List ℕ) (w : World o)
      → (set_challenge_authors o challenge at users w).0 ≡ ok tt
      → let db' = (set_challenge_authors o challenge at users w).1.db in
        ((d u : ℕ) → count (is_author d u) db'.authors ≡ set_count challenge users w.db.authors d u)
        × SameButAuthors w.db db'
  unfolding set_challenge_authors clear_authors
  set_challenge_authors-ok challenge at users w h =
      let f = λ (t : ℤ). clear_authors challenge in
      let (_, cleared, rest) = chain_inv (exec o f) _ w tt h in
      let (_, done) = exec-ok o f w tt cleared in
      let w1 = (exec o f w).1 in
      let (counts, frame) = bind_all-ok o challenge at users w1 (ap (λ x. x.0) (sym rest) ∙ h) in
      let rows = ap (λ (db : Db). db.authors) done in
      rw rest (
        λ d u.
            let before =
              ap (count (is_author d u)) rows ∙ count-cleared challenge d u w.db.authors in
            let after = counts d u in ground (arith, before, after),
        frame
            ∙ ap
                (λ (db : Db). record db {
                  authors = (bind_all o challenge at users w1).1.db.authors;
                })
                done,
      )
