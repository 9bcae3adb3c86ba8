-- ===== src/Auth/Answered.antt =====
-- backend/internal/auth/service.go: what Login replies and writes, spelled out column by column.
use ctf_recruit.Base.{
  ℕ, Text, true, false, ◌≡◌, refl, ◌∙◌, inl, inr, ◌⊎◌, some, List, [], ◌∷◌, map, Memᴰ, ℤ, Result,
  ok, err, Result-cases, Bool-cases, codes, trim_space, ◌==◌, nat_eq, nat_beq_iff, text_eq,
  text_beq_iff, to_lower, Changed, ◌||◌, arith,
}
use ctf_recruit.Base.Trim.{to_lower-twice}
use ctf_recruit.Auth.{Error, invalid_credentials, User, LoginInput, AuthResult}
use ctf_recruit.Auth.Token.{Codec, TokenManager, sign}
use ctf_recruit.Auth.Users.{Outside, World, Db, logged_in}
use ctf_recruit.Auth.Service.{claims_of, login}
use ctf_recruit.Auth.Logins.{LoggedIn, Entitled, Noted, login-LoggedIn}

-- A user who may come in: of the table, by one of its names, active, and with its password.
pub record MayEnter (o : Outside) (input : LoginInput) (db : Db) (user : User) : Type 0 where
  pub known : Memᴰ user db.users
  pub named :
      (to_lower user.username ≡ to_lower (trim_space input.identifier))
      ⊎ (to_lower user.email ≡ to_lower (trim_space input.identifier))
  pub active : user.status ≡ codes "active"
  pub proved : o.check user.password_hash input.password ≡ true

-- The login was not noted, or the rows with the user's key have its time, and so has the user shown.
pub data IsNoted (user : User) (db : Db) (shown : User) (db' : Db) : Type 0 where
  unnoted : shown ≡ user → db' ≡ db → IsNoted user db shown db'
  noted :
      (at : ℤ) (rows : List User)
      → shown ≡ record user { last_login_at = some at }
      → db' ≡ record db { users = rows }
      → Changed
          (λ u. u.id ≡ user.id)
          (λ u u'. u' ≡ record u { last_login_at = some at })
          db.users
          rows
      → IsNoted user db shown db'

-- The specification of Login.
pub data LoginAnswered (o : Outside) (k : Codec) (m : TokenManager) (input : LoginInput) (db : Db)
    (r : Result Error AuthResult) (db' : Db) : Type 0 where
  refused : r ≡ err invalid_credentials → db' ≡ db → LoginAnswered o k m input db r db'
  let_in :
      (user shown : User) (now : ℤ) (token : Text) (expires : ℤ)
      → MayEnter o input db user
      → IsNoted user db shown db'
      → sign k m (record { user_id = user.id; role = user.role }) now ≡ ok (token, expires)
      → r
        ≡ ok (record {
          token = token;
          expires_at = expires;
          user = record shown { password_hash = [] };
        })
      → LoginAnswered o k m input db r db'
  unsigned :
      (user shown : User) (now : ℤ) (e : Error)
      → MayEnter o input db user
      → IsNoted user db shown db'
      → sign k m (record { user_id = user.id; role = user.role }) now ≡ err e
      → r ≡ err e
      → LoginAnswered o k m input db r db'

logged_in-Changed :
    (id : ℕ) (at : ℤ) (rows : List User)
    → Changed
        (λ u. u.id ≡ id)
        (λ u u'. u' ≡ record u { last_login_at = some at })
        rows
        (map (logged_in id at) rows)
logged_in-Changed id at [] = tt
logged_in-Changed id at (u ∷ rows) = elim (Bool-cases (u.id == id)) [
  | inl hit ↦ (inl ((nat_beq_iff u.id id).0 hit, rw hit refl), logged_in-Changed id at rows)
  | inr miss ↦ (inr (other miss, rw miss refl), logged_in-Changed id at rows)
]
  where
    other : (u.id == id) ≡ false → ¬ u.id ≡ id
    other miss same = let e : (u.id == id) ≡ true = (nat_beq_iff u.id id).1 same in cc

Entitled-MayEnter :
    (o : Outside) (input : LoginInput) (db : Db) (user : User)
    → Entitled o input db user
    → MayEnter o input db user
Entitled-MayEnter o input db user e =
    let name = to_lower (trim_space input.identifier) in
    let named : (to_lower user.username == name || to_lower user.email == name) ≡ true =
      rw (to_lower-twice (trim_space input.identifier)) at e.named in
    record {
      known = e.known;
      named = elim (Bool-cases (to_lower user.username == name)) [
        | inl by_name ↦ inl ((text_beq_iff (to_lower user.username) name).0 by_name)
        | inr other ↦ inr ((text_beq_iff (to_lower user.email) name).0 (ground arith))
      ];
      active = e.active;
      proved = e.proved;
    }

-- The user that is shown goes by the same key and role.
Noted-shown :
    (user shown : User) (db db' : Db)
    → Noted user db shown db'
    → (shown.id ≡ user.id) × (shown.role ≡ user.role)
Noted-shown user shown db db' Noted.unnoted = (refl, refl)
Noted-shown user shown db db' (Noted.noted at) = (refl, refl)

Noted-IsNoted :
    (user shown : User) (db db' : Db) → Noted user db shown db' → IsNoted user db shown db'
Noted-IsNoted user shown db db' Noted.unnoted = unnoted refl refl
Noted-IsNoted user shown db db' (Noted.noted at) =
    noted at (map (logged_in user.id at) db.users) refl refl (logged_in-Changed user.id at db.users)

module _ (o : Outside) (k : Codec) (m : TokenManager) where
  -- Every call of Login, whatever the database answers, ends in one of three ways. It is refused as
  -- invalid credentials with the table as it was. Or it lets in a user of the table whose name or
  -- address is the identifier (in any case, less the space around it), who is active and has this
  -- password: the reply has what is signed for this user's id and role, and shows the user with an
  -- empty hash; and at most the time of the last login is changed, in the rows with the user's key.
  -- Or all this is so but signing gives an error, and the reply is this error.
  pub login-Answered :
      (input : LoginInput) (w : World o)
      → LoginAnswered o k m input w.db (login o k m input w).0 (login o k m input w).1.db
  login-Answered input w = go (login-LoggedIn o k m input w)
    where
      go :
          {r : Result Error AuthResult} {db' : Db}
          → LoggedIn o k m input w.db r db'
          → LoginAnswered o k m input w.db r db'
      go (LoggedIn.refused e same) = refused e same
      go {db' = db'} (LoggedIn.let_in user shown now entitled login_noted reply) =
          let may = Entitled-MayEnter o input w.db user entitled in
          let note = Noted-IsNoted user shown w.db db' login_noted in
          let (same_id, same_role) = Noted-shown user shown w.db db' login_noted in
          elim (Result-cases (sign k m (claims_of o k m shown) now)) [
            | inl ((token, expires), signed) ↦
                let_in user shown now token expires may note (rw (← same_id, ← same_role) signed)
                  (reply ∙ rw signed refl)
            | inr (e, failed) ↦
                unsigned user shown now e may note (rw (← same_id, ← same_role) failed)
                  (reply ∙ rw failed refl)
          ]
