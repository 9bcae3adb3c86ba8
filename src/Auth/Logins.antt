-- ===== src/Auth/Logins.antt =====
-- backend/internal/auth/service.go: who is let in by Login.
use mathlib.Core.List.Memᴰ
use ctf_recruit.Base.{
  ℕ, zero, suc, Text, Bool, true, false, ◌≡◌, refl, sym, ◌∙◌, subst, inl, inr, ◌⊎◌, Option, none,
  some, List, [], ◌∷◌, map, Memᴰ, ℤ, Result, ok, err, Result-cases, Bool-cases, Option-cases, keep,
  codes, trim_space, text_eq, text_beq_iff, arith, count, ltb, ◌==◌, nat_eq, to_lower,
}
use ctf_recruit.Base.Exec.{reject_if, ◌>>◌}
use ctf_recruit.Auth.{Error, invalid_credentials, store_error, User, LoginInput, AuthResult}
use ctf_recruit.Auth.Token.{Codec, TokenManager, sign}
use ctf_recruit.Auth.Users.{
  Outside, World, Db, limit_one, goes_by, user_found, logged_in, exec, query, update_login,
  update_last_login, get_user_by_identifier, select_by_identifier,
}
use ctf_recruit.Auth.Service.{
  claims_of, result_of, issue_token, admit, is_refused, login, check_password, read_clock, lift,
  with_login,
}

module _ {ℓ} {A : Type ℓ} where
  -- The row that LIMIT 1 leaves is one of the rows.
  pub limit_one-Mem : (n : ℕ) (xs : List A) (x : A) → limit_one n xs ≡ some x → Memᴰ x xs
  unfolding limit_one
  limit_one-Mem n [] x h = cc
  limit_one-Mem zero (y ∷ []) x h = Memᴰ.head (cc)
  limit_one-Mem (suc n) (y ∷ []) x h = Memᴰ.head (cc)
  limit_one-Mem zero (y ∷ z ∷ xs) x h = Memᴰ.head (cc)
  limit_one-Mem (suc n) (y ∷ z ∷ xs) x h = Memᴰ.tail (limit_one-Mem n (z ∷ xs) x h)

  -- What is kept is in the list, and passes the test.
  pub keep-Mem :
      (p : A → Bool) (xs : List A) (x : A) → Memᴰ x (keep p xs) → Memᴰ x xs × (p x ≡ true)
  keep-Mem p [] x m = (m, absurd (Memᴰ.not-nil m))
  keep-Mem p (y ∷ xs) x m = elim (Bool-cases (p y)) [
    | inr out ↦ let (below, passes) = keep-Mem p xs x (rw out at m) in (Memᴰ.tail below, passes)
    | inl here ↦ elim (Memᴰ.cases_cons (rw here at m)) [
      | inl same ↦ (Memᴰ.head same, rw same here)
      | inr later ↦ let (below, passes) = keep-Mem p xs x later in (Memᴰ.tail below, passes)
    ]
  ]

abbrev pub map_ok : {A B : Type 0} → (A → B) → Result Error A → Result Error B
map_ok f (ok a) = ok (f a)
map_ok f (err e) = err e

-- The user and the table after the login was noted or not: where it was noted, both have its time.
pub data Noted (user : User) (db : Db) : User → Db → Type 0 where
  unnoted : Noted user db user db
  noted :
      (at : ℤ)
      → Noted user db
          (record user { last_login_at = some at })
          (record db { users = map (logged_in user.id at) db.users })

-- A user who may come in: of the table, by one of its names, active, and with its password.
pub record Entitled (o : Outside) (input : LoginInput) (db : Db) (user : User) : Type 0 where
  pub known : Memᴰ user db.users
  pub named : goes_by (to_lower (trim_space input.identifier)) user ≡ true
  pub active : user.status ≡ codes "active"
  pub proved : o.check user.password_hash input.password ≡ true

-- The specification of Login: refused with the table as it was, or let in as a user who is entitled,
-- with the signature of this user's claims or the error of signing.
pub data LoggedIn (o : Outside) (k : Codec) (m : TokenManager) (input : LoginInput) (db : Db)
    (r : Result Error AuthResult) (db' : Db) : Type 0 where
  refused : r ≡ err invalid_credentials → db' ≡ db → LoggedIn o k m input db r db'
  let_in :
      (user shown : User) (now : ℤ)
      → Entitled o input db user
      → Noted user db shown db'
      → r ≡ map_ok (result_of o k m shown) (sign k m (claims_of o k m shown) now)
      → LoggedIn o k m input db r db'

module _ (o : Outside) where
  -- A statement either fails with the table as it was, or has its effect.
  pub exec_cases :
      {A : Type 0} (f : Db → Result Error A × Db) (w : World o)
      → (((o.db_fault w.out).0 ≡ true)
          × ((exec o f w).0 ≡ err store_error)
          × ((exec o f w).1.db ≡ w.db))
        ⊎ (((o.db_fault w.out).0 ≡ false)
            × ((exec o f w).0 ≡ (f w.db).0)
            × ((exec o f w).1.db ≡ (f w.db).1))
  unfolding exec
  exec_cases f w = elim (Bool-cases (o.db_fault w.out).0) [
    | inl fault ↦ inl (fault, rw fault refl, rw fault refl)
    | inr fine ↦ inr (fine, rw fine refl, rw fine refl)
  ]

  -- A user that is found by a name has it, and the table stays.
  found_user :
      (identifier : Text) (w : World o)
      → ((get_user_by_identifier o identifier w).1.db ≡ w.db)
        × ((u : User)
            → (get_user_by_identifier o identifier w).0 ≡ ok u
            → Memᴰ u w.db.users × (goes_by (to_lower identifier) u ≡ true))
  unfolding get_user_by_identifier query select_by_identifier
  found_user identifier w =
      elim (exec_cases (λ db. (select_by_identifier (o.row w.out) (to_lower identifier) db, db))
        w) [
          | inl (_, fault, same) ↦ (same, λ u h. cc)
          | inr (_, reply, same) ↦ (
            same,
            λ u h.
                elim (Option-cases
                  (limit_one (o.row w.out) (keep (goes_by (to_lower identifier)) w.db.users))) [
                    | inl missing ↦ absurd (none_not u missing (sym reply ∙ h))
                    | inr (v, one) ↦
                        keep-Mem (goes_by (to_lower identifier)) w.db.users u
                          (limit_one-Mem (o.row w.out) _ u (same_user u v one (sym reply ∙ h)))
                  ],
          )
        ]
    where
      none_not : (u : User) {c : Option User} → c ≡ none → ¬ user_found c ≡ ok u
      none_not u {c} e h = cc

      same_user : (u v : User) {c : Option User} → c ≡ some v → user_found c ≡ ok u → c ≡ some u
      same_user u v {c} e h = cc

module _ (o : Outside) (k : Codec) (m : TokenManager) where
  -- A token is issued from the clock alone.
  pub issue_token_lem :
      (user : User) (w : World o)
      → ((issue_token o k m user w).0
          ≡ map_ok (result_of o k m user) (sign k m (claims_of o k m user) (o.now w.out).0))
        × ((issue_token o k m user w).1.db ≡ w.db)
  unfolding issue_token read_clock lift
  issue_token_lem user w = elim (Result-cases (sign k m (claims_of o k m user) (o.now w.out).0)) [
    | inl (a, e) ↦ (rw e refl, rw e refl)
    | inr (b, e) ↦ (rw e refl, rw e refl)
  ]

  Noted-update :
      (user : User) (at : ℤ) (db : Db)
      → Noted user db
          (with_login o k m user at (update_last_login user.id at db).0)
          (update_last_login user.id at db).1
  unfolding update_last_login
  Noted-update user at db = elim (Bool-cases (ltb 0 (count (λ u. u.id == user.id) db.users))) [
    | inl there ↦ rw there (Noted.noted at)
    | inr gone ↦ rw gone Noted.unnoted
  ]

  abbrev pub Answer : User → Db → Result Error AuthResult × World o → Type 0
  Answer user db x =
      (shown : User) × (now : ℤ) × Noted user db shown x.1.db
      × (x.0 ≡ map_ok (result_of o k m shown) (sign k m (claims_of o k m shown) now))

  -- The update of the last login, with the user as Login shows it.
  update_login-Noted :
      (user : User) (at : ℤ) (w : World o)
      → Noted user w.db
          (with_login o k m user at (update_login o user.id at w).0)
          (update_login o user.id at w).1.db
  unfolding update_login
  update_login-Noted user at w = elim (exec_cases o (update_last_login user.id at) w) [
    | inl (_, fault, same) ↦ rw (fault, same) Noted.unnoted
    | inr (_, reply, done) ↦ rw (reply, done) (Noted-update user at w.db)
  ]

  -- After the guards the time is noted or not, and a token for the user is issued.
  pub admit_lem : (user : User) (w : World o) → Answer user w.db (admit o k m user w)
  unfolding admit read_clock
  admit_lem user w =
      let at = (o.now w.out).0 in
      let w0 = (read_clock o w).1 in
      let w1 = (update_login o user.id at w0).1 in
      let shown = with_login o k m user at (update_login o user.id at w0).0 in
      let issued = issue_token_lem shown w1 in
      (shown, (o.now w1.out).0, rw issued.1 (update_login-Noted user at w0), issued.0)

  -- The guards of Login.
  guards :
      (user : User) (password : Text)
      → is_refused o k m user password ≡ false
      → (user.status ≡ codes "active") × (o.check user.password_hash password ≡ true)
  unfolding check_password
  guards user password h = ground (arith, text_beq_iff user.status (codes "active"))

  -- What follows the lookup.
  on_found :
      (input : LoginInput) (db : Db) (user : User) (w : World o)
      → w.db ≡ db
      → Memᴰ user db.users
      → goes_by (to_lower (trim_space input.identifier)) user ≡ true
      → let x =
          (reject_if (is_refused o k m user input.password) invalid_credentials >> admit o k m user)
            w in
        LoggedIn o k m input db x.0 x.1.db
  on_found input db user w s known named =
      elim (Bool-cases (is_refused o k m user input.password)) [
        | inl bad ↦ rw bad (refused refl s)
        | inr good ↦
            let (active, proved) = guards user input.password good in
            let (shown, now, login_noted, reply) = admit_lem user w in
            rw good (
              let_in user shown now
                (record { known = known; named = named; active = active; proved = proved })
                (subst (λ d. Noted user d shown (admit o k m user w).1.db) s login_noted) reply)
      ]

  -- Every call of Login, whatever the database answers: it is refused as invalid credentials with
  -- the table as it was, or it lets in a user of the table who goes by the identifier (in any case,
  -- less the space around it), is active and has this password. The reply then has a token of this
  -- user's id and role, and shows the user without its hash; the one change to the table is the time
  -- of this user's last login.
  pub login-LoggedIn :
      (input : LoginInput) (w : World o)
      → LoggedIn o k m input w.db (login o k m input w).0 (login o k m input w).1.db
  unfolding login
  login-LoggedIn input w =
      let name = trim_space input.identifier in
      let (same, found) = found_user o name w in
      elim (Result-cases (get_user_by_identifier o name w).0) [
        | inl (user, e) ↦
            let (known, named) = found user e in
            rw e (on_found input w.db user (get_user_by_identifier o name w).1 same known named)
        | inr (failed, e) ↦ rw e (refused refl same)
      ]
