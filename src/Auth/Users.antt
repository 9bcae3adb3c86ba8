-- ===== src/Auth/Users.antt =====
-- backend/internal/store/user_repository.go: the table of users and the statements on it, with the
-- constraints of backend/migrations/0001_initial_schema.sql.
use ctf_recruit.Base.{
  ℕ, zero, suc, Text, Bool, not, ◌||◌, Option, none, some, List, [], ◌∷◌, map, ℤ, Result, ok, err,
  ltb, keep, count, codes, to_lower, ◌==◌, nat_eq, text_eq, if◌then◌else◌, contains,
}
use ctf_recruit.Base.Exec.{Exec}
use ctf_recruit.Auth.{Error, user_not_found, store_error, User, CreateUserParams}

-- The names of the roles, the users with their role's name, and the sequence of their keys.
pub record Db : Type 0 where
  pub roles : List Text
  pub users : List User
  pub next_id : ℕ

-- The clock, the failures of the database, which of several rows it returns under LIMIT 1, and
-- bcrypt: hashing draws a salt, and may fail.
pub record Outside : Type 1 where
  pub State : Type 0
  pub now : State → ℤ × State
  pub db_fault : State → Bool × State
  pub row : State → ℕ
  pub hash : Text → State → Result Error Text × State
  pub check : Text → Text → Bool

pub record World (o : Outside) : Type 0 where
  pub db : Db
  pub out : o.State

abbrev pub M : Outside → Type 0 → Type 0
M o A = Exec (World o) Error A

-- LIMIT 1: the row with this number, or the last one.
unfoldable pub limit_one {ℓ} : {A : Type ℓ} → ℕ → List A → Option A
limit_one n [] = none
limit_one n (x ∷ []) = some x
limit_one zero (x ∷ y ∷ xs) = some x
limit_one (suc n) (x ∷ y ∷ xs) = limit_one n (y ∷ xs)

-- The user that CreateUser returns: the statement does not return the hash.
abbrev pub created : CreateUserParams → ℕ → User
created params id = record {
  id = id;
  role = params.role_name;
  username = params.username;
  email = params.email;
  display_name = params.display_name;
  status = codes "active";
  last_login_at = none;
  password_hash = [];
}

-- Does a user go by this user name or this address already?
abbrev pub is_taken : CreateUserParams → List User → Bool
is_taken params users =
    ltb 0 (count (λ u. u.username == params.username || u.email == params.email) users)

-- INSERT ... SELECT FROM roles: no role, no row. A key that is drawn for a refused row is used up.
unfoldable pub insert_user : CreateUserParams → Db → Result Error User × Db
insert_user params db =
    if not (contains db.roles params.role_name)
    then (err store_error, db)
    else if is_taken params db.users
    then (err store_error, record db { next_id = suc db.next_id })
    else (
      ok (created params db.next_id),
      record db {
        users =
            record (created params db.next_id) { password_hash = params.password_hash } ∷ db.users;
        next_id = suc db.next_id;
      },
    )

-- WHERE lower(u.username) = lower($1) OR lower(u.email) = lower($1)
abbrev pub goes_by : Text → User → Bool
goes_by identifier u =
    to_lower u.username == to_lower identifier || to_lower u.email == to_lower identifier

abbrev pub user_found : Option User → Result Error User
user_found none = err user_not_found
user_found (some u) = ok u

unfoldable pub select_by_identifier : ℕ → Text → Db → Result Error User
unfolding limit_one
select_by_identifier n identifier db = user_found (limit_one n (keep (goes_by identifier) db.users))

unfoldable pub select_by_id : ℕ → ℕ → Db → Result Error User
unfolding limit_one
select_by_id n id db = user_found (limit_one n (keep (λ u. u.id == id) db.users))

abbrev pub logged_in : ℕ → ℤ → User → User
logged_in id at u = if u.id == id then record u { last_login_at = some at } else u

unfoldable pub update_last_login : ℕ → ℤ → Db → Result Error (Unit {0}) × Db
update_last_login id at db =
    if ltb 0 (count (λ u. u.id == id) db.users)
    then (ok tt, record db { users = map (logged_in id at) db.users })
    else (err user_not_found, db)

module _ (o : Outside) where
  -- A statement of the database: it fails with no effect, or does what it says.
  unfoldable pub exec : {A : Type 0} → (Db → Result Error A × Db) → M o A
  exec f w =
      let s = (o.db_fault w.out).1 in
      if (o.db_fault w.out).0
      then (err store_error, record w { out = s })
      else ((f w.db).0, record w { db = (f w.db).1; out = s })

  unfoldable pub query : {A : Type 0} → (Db → Result Error A) → M o A
  unfolding exec
  query f = exec (λ db. (f db, db))

  unfoldable pub create_user : CreateUserParams → M o User
  unfolding exec insert_user
  create_user params = exec (insert_user params)

  unfoldable pub get_user_by_identifier : Text → M o User
  unfolding query select_by_identifier
  get_user_by_identifier identifier w =
      query (select_by_identifier (o.row w.out) (to_lower identifier)) w

  unfoldable pub get_user_by_id : ℕ → M o User
  unfolding query select_by_id
  get_user_by_id id w = query (select_by_id (o.row w.out) id) w

  -- UpdateLastLogin does not name the error of no row apart here: its caller drops it.
  unfoldable pub update_login : ℕ → ℤ → M o (Unit {0})
  unfolding exec update_last_login
  update_login id at = exec (update_last_login id at)
