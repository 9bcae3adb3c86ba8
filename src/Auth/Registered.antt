-- ===== src/Auth/Registered.antt =====
-- backend/internal/auth/service.go: a user who registers can log in.
use ctf_recruit.Base.{
  ℕ, Text, Bool, true, false, ◌≡◌, refl, sym, ap, ◌∙◌, subst, inl, inr, ◌⊎◌, some, List, [], ◌∷◌, ℤ,
  Result, ok, err, Result-cases, Bool-cases, keep, codes, trim_space, to_lower, text_eq,
  text_beq_iff, if◌then◌else◌, arith, All, leb_ℤ, contains,
}
use ctf_recruit.Base.Trim.{to_lower-twice}
use ctf_recruit.Runtime.Rules.{ok_injective}
use ctf_recruit.Auth.{
  Error, store_error, token_expired, User, TokenClaims, RegisterInput, LoginInput, AuthResult,
  CreateUserParams,
}
use ctf_recruit.Auth.Token.{Codec, TokenManager, sign, verify, unix}
use ctf_recruit.Auth.Tokens.{IsCodec, sign_ok, verify-sign}
use ctf_recruit.Auth.Users.{
  Outside, World, Db, created, goes_by, limit_one, insert_user, create_user, query, is_taken,
  get_user_by_identifier, select_by_identifier,
}
use ctf_recruit.Auth.Logins.{map_ok, Noted, noted, unnoted, exec_cases, issue_token_lem, admit_lem}
use ctf_recruit.Auth.Service.{
  params_of, result_of, claims_of, hash_password, register, admit, is_refused, login,
  check_password,
}

-- The user as the table keeps it.
abbrev pub stored : CreateUserParams → ℕ → User
stored params id = record (created params id) { password_hash = params.password_hash }

-- An inserted user is the newest row.
insert_user-ok :
    (params : CreateUserParams) (db : Db) (u : User)
    → (insert_user params db).0 ≡ ok u
    → (u ≡ created params db.next_id)
      × ((insert_user params db).1.users ≡ stored params db.next_id ∷ db.users)
unfolding insert_user
insert_user-ok params db u h = elim (Bool-cases (contains db.roles params.role_name)) [
  | inr no_role ↦ absurd (failed (rw no_role refl) h)
  | inl role ↦ elim (Bool-cases (is_taken params db.users)) [
    | inl taken ↦ absurd (failed (rw (role, taken) refl) h)
    | inr free ↦ (sym (ok_injective (sym (rw (role, free) refl) ∙ h)), rw (role, free) refl)
  ]
]
  where
    failed : {r : Result Error User} → r ≡ err store_error → ¬ r ≡ ok u
    failed e h = cc

-- What a registration that succeeds has done: the row it added, and the user it shows.
pub record Registered (o : Outside) (input : RegisterInput) (db db' : Db) (user : User)
    : Type 0 where
  pub hash : Text
  pub salted : (s : o.State) × ((o.hash input.password s).0 ≡ ok hash)
  pub row : User
  pub kept : row.password_hash ≡ hash
  pub shown : user ≡ record row { password_hash = [] }
  pub added : db'.users ≡ row ∷ db.users
  pub player : row.role ≡ codes "player"
  pub active : row.status ≡ codes "active"
  pub username : row.username ≡ trim_space input.username
  pub email : row.email ≡ to_lower (trim_space input.email)

module _ (o : Outside) (k : Codec) (m : TokenManager) where
  create_user-Registered :
      (input : RegisterInput) (hash : Text) (s : o.State) (w : World o) (u : User)
      → (o.hash input.password s).0 ≡ ok hash
      → (create_user o (params_of o k m input hash) w).0 ≡ ok u
      → Registered o input w.db (create_user o (params_of o k m input hash) w).1.db u
  unfolding create_user
  create_user-Registered input hash s w u salted h =
      let params = params_of o k m input hash in
      elim (exec_cases o (insert_user params) w) [
        | inl (_, fault, _) ↦ absurd (cc)
        | inr (_, reply, done) ↦
            let (same, added) = insert_user-ok params w.db u (sym reply ∙ h) in
            record {
              hash = hash;
              salted = (s, salted);
              row = stored params w.db.next_id;
              kept = refl;
              shown = same;
              added = rw done added;
              player = refl;
              active = refl;
              username = refl;
              email = refl;
            }
      ]

  blank : User → User
  blank u = record u { password_hash = [] }

  -- Every reply shows its user without the hash.
  shown_user :
      (user : User) (signed : Result Error (Text × ℤ)) (r : AuthResult)
      → map_ok (result_of o k m user) signed ≡ ok r
      → r.user ≡ record user { password_hash = [] }
  shown_user user (ok signed) r h = sym (ap (λ (x : AuthResult). x.user) (ok_injective h))
  shown_user user (err e) r h = absurd (cc)

  register-Registered :
      (input : RegisterInput) (w : World o) (r : AuthResult)
      → (register o k m input w).0 ≡ ok r
      → Registered o input w.db (register o k m input w).1.db r.user
  unfolding register hash_password blank
  register-Registered input w r h =
      let w1 = (hash_password o input.password w).1 in
      elim (Result-cases (o.hash input.password w.out).0) [
        | inr (e, failed) ↦ absurd (not_ok e (rw failed at h))
        | inl (hash, salted) ↦
            let params = params_of o k m input hash in
            elim (Result-cases (create_user o params w1).0) [
              | inr (e, failed) ↦ absurd (not_ok e (rw (salted, failed) at h))
              | inl (user, made) ↦
                  let row = create_user-Registered input hash w.out w1 user salted made in
                  let (reply, same) = issue_token_lem o k m user (create_user o params w1).1 in
                  let shows = shown_user user _ r (sym reply ∙ rw (salted, made) at h) in
                  rw (salted, made, same)
                    (subst (λ u. Registered o input w.db (create_user o params w1).1.db u)
                      (row.shown ∙ sym (shows ∙ ap (λ (u : User). blank u) row.shown)) row)
            ]
      ]
    where
      not_ok : (e : Error) → ¬ ◌≡◌ {A = Result Error AuthResult} (err e) (ok r)
      not_ok e h = cc

-- The same, up to case and the space around them.
abbrev pub SameName : Text → Text → Type 0
SameName a b = to_lower (trim_space a) ≡ to_lower (trim_space b)

goes_by-own :
    (o : Outside) (input : RegisterInput) (db db' : Db) (shown : User) (identifier : Text)
    (new : Registered o input db db' shown)
    → SameName identifier input.username ⊎ SameName identifier input.email
    → goes_by (to_lower (trim_space identifier)) new.row ≡ true
goes_by-own o input db db' shown identifier new same =
    let a = to_lower new.row.username in
    let b = to_lower new.row.email in
    let c = to_lower (to_lower (trim_space identifier)) in
    let is_c : c ≡ to_lower (trim_space identifier) = to_lower-twice (trim_space identifier) in
    let is_b : b ≡ to_lower (trim_space input.email) =
      ap to_lower new.email ∙ to_lower-twice (trim_space input.email) in
    let is_a : a ≡ to_lower (trim_space input.username) = ap to_lower new.username in
    elim same [
      | inl by_name ↦ ground (arith, text_beq_iff a c)
      | inr by_email ↦ ground (arith, text_beq_iff b c)
    ]

-- Where nobody else goes by the name, LIMIT 1 has one row to choose from.
only_row :
    (n : ℕ) (p : User → Bool) (row : User) (rows : List User)
    → p row ≡ true
    → All (λ u. p u ≡ false) rows
    → limit_one n (keep p (row ∷ rows)) ≡ some row
unfolding limit_one
only_row n p row rows here others = rw (here, none_kept rows others) refl
  where
    none_kept : (xs : List User) → All (λ u. p u ≡ false) xs → keep p xs ≡ []
    none_kept [] none_p = refl
    none_kept (x ∷ xs) (no_x, none_p) = rw no_x (none_kept xs none_p)

module _ (o : Outside) (k : Codec) (m : TokenManager) where
  -- bcrypt accepts a password against its own hashes.
  abbrev pub ChecksHashes : Type 0
  ChecksHashes =
      (password hash : Text) (s : o.State)
      → (o.hash password s).0 ≡ ok hash
      → o.check hash password ≡ true

  abbrev pub verdict : ℤ → AuthResult → ℕ → Result Error TokenClaims
  verdict later r id =
      if leb_ℤ (unix r.expires_at) (unix later)
      then err token_expired
      else ok (record { user_id = id; role = codes "player" })

  -- The token of a reply is the user's while it is valid.
  abbrev pub Opens : User → AuthResult → Type 0
  Opens user r = (later : ℤ) → verify k m r.token later ≡ verdict later r user.id

  Noted-same :
      {user shown : User} {db db' : Db}
      → Noted user db shown db'
      → (shown.id ≡ user.id) × (shown.role ≡ user.role)
  Noted-same unnoted = (refl, refl)
  Noted-same (noted at) = (refl, refl)

  -- A user who is admitted gets a token of its own.
  admit-Opens :
      (user : User) (w : World o)
      → IsCodec k
      → user.role ≡ codes "player"
      → (r : AuthResult) × ((admit o k m user w).0 ≡ ok r) × (r.user.id ≡ user.id) × Opens user r
  admit-Opens user w codec player =
      let (shown, now, login_noted, reply) = admit_lem o k m user w in
      let (same_id, same_role) = Noted-same login_noted in
      let signed = sign_ok k m (claims_of o k m shown) now codec in
      let answer = reply ∙ ap (map_ok (result_of o k m shown)) signed in
      let own : TokenClaims = record { user_id = user.id; role = codes "player" } in
      let same : claims_of o k m shown ≡ own =
        λ i. record { user_id = same_id i; role = (same_role ∙ player) i } in
      let signed_own = ap (λ c. sign k m c now) (sym same) ∙ signed in
      (_, answer, same_id, λ later. (verify-sign k m own now later _ _ codec signed_own).1)

  -- The lookup finds the one user who goes by the name.
  found_row :
      (identifier : Text) (row : User) (rows : List User) (w : World o)
      → w.db.users ≡ row ∷ rows
      → goes_by (to_lower identifier) row ≡ true
      → All (λ u. goes_by (to_lower identifier) u ≡ false) rows
      → (o.db_fault w.out).0 ≡ false
      → (get_user_by_identifier o identifier w).0 ≡ ok row
  unfolding get_user_by_identifier query select_by_identifier
  found_row identifier row rows w s here others answers =
      let n = o.row w.out in
      elim (exec_cases o (λ db. (select_by_identifier n (to_lower identifier) db, db)) w) [
        | inl (fault, _, _) ↦ absurd (true_not_false (sym fault ∙ answers))
        | inr (_, reply, _) ↦
            reply ∙ rw (s, only_row n (goes_by (to_lower identifier)) row rows here others) refl
      ]
    where
      true_not_false : ¬ true ≡ false
      true_not_false e = cc

  admitted :
      (row : User) (password : Text)
      → row.status ≡ codes "active"
      → o.check row.password_hash password ≡ true
      → is_refused o k m row password ≡ false
  unfolding check_password
  admitted row password active proved = ground (arith, text_beq_iff row.status (codes "active"))

  login-row :
      (input : LoginInput) (w : World o) (row : User)
      → (get_user_by_identifier o (trim_space input.identifier) w).0 ≡ ok row
      → is_refused o k m row input.password ≡ false
      → (login o k m input w).0
        ≡ (admit o k m row (get_user_by_identifier o (trim_space input.identifier) w).1).0
  unfolding login check_password
  login-row input w row found good = rw (found, good) refl

  -- Someone registers, with a name and an address that nobody goes by yet; then, after any time and
  -- any failures outside that leave the table alone, logs in by this name or this address, in
  -- whatever case and with space around it, and with the same password. If the database answers the
  -- lookup, the login succeeds as the same user, and its token is accepted with this user's id and
  -- the role of a player until it expires.
  pub register-login :
      (input : RegisterInput) (identifier : Text) (w w' : World o) (r : AuthResult)
      → IsCodec k
      → ChecksHashes
      → (register o k m input w).0 ≡ ok r
      → SameName identifier input.username ⊎ SameName identifier input.email
      → All (λ u. goes_by (to_lower (trim_space identifier)) u ≡ false) w.db.users
      → w'.db ≡ (register o k m input w).1.db
      → (o.db_fault w'.out).0 ≡ false
      → let reply =
          (login o k m (record { identifier = identifier; password = input.password }) w').0 in
        (r' : AuthResult) × (reply ≡ ok r') × (r'.user.id ≡ r.user.id) × Opens r.user r'
  register-login input identifier w w' r codec checks h own nobody s answers =
      let new = register-Registered o k m input w r h in
      let (salt, salted) = new.salted in
      let name = to_lower (trim_space identifier) in
      let mine = goes_by-own o input w.db _ r.user identifier new own in
      let rows = ap (λ (d : Db). d.users) s ∙ new.added in
      let found =
        found_row (trim_space identifier) new.row w.db.users w' rows mine nobody answers in
      let proved =
        ap (λ p. o.check p input.password) new.kept ∙ checks input.password new.hash salt salted in
      let (r', opened, same_id, opens) =
        admit-Opens new.row (get_user_by_identifier o (trim_space identifier) w').1 codec
          new.player in
      let same : new.row.id ≡ r.user.id = sym (ap (λ (u : User). u.id) new.shown) in
      let good = admitted new.row input.password new.active proved in
      (
        r',
        login-row (record { identifier = identifier; password = input.password }) w' new.row found
              good
            ∙ opened,
        same_id ∙ same,
        λ later. opens later ∙ ap (verdict later r') same,
      )
