-- ===== src/Auth/Service.antt =====
-- backend/internal/auth/service.go and backend/internal/auth/password.go: Register, Login,
-- Authenticate and Me over the repository of users, the tokens and bcrypt.
use ctf_recruit.Base.{
  ℕ, Text, Bool, true, false, not, ◌||◌, some, [], ℤ, Result, ok, err, codes, trim_space, to_lower,
  ◌==◌, text_eq,
}
use ctf_recruit.Base.Exec.{◌>>=◌, ◌>>◌, pure, attempt, reject_if, map_error}
use ctf_recruit.Auth.{
  Error, invalid_credentials, token_invalid, token_expired, User, RegisterInput, LoginInput,
  TokenClaims, AuthResult, CreateUserParams,
}
use ctf_recruit.Auth.Token.{Codec, TokenManager, sign, verify}
use ctf_recruit.Auth.Users.{
  Outside, M, create_user, get_user_by_identifier, get_user_by_id, update_login,
}

module _ (o : Outside) where
  unfoldable pub hash_password : Text → M o Text
  hash_password password w =
      ((o.hash password w.out).0, record w { out = (o.hash password w.out).1 })

  -- CheckPassword, as the test for an error.
  unfoldable pub check_password : Text → Text → Bool
  check_password hash password = o.check hash password

  -- `s.now().UTC()`
  unfoldable pub read_clock : M o ℤ
  read_clock w = (ok (o.now w.out).0, record w { out = (o.now w.out).1 })

  unfoldable pub lift : {A : Type 0} → Result Error A → M o A
  lift r w = (r, w)

module _ (o : Outside) (k : Codec) (m : TokenManager) where
  abbrev pub claims_of : User → TokenClaims
  claims_of user = record { user_id = user.id; role = user.role }

  -- The reply for a user and a signed token: without the hash.
  abbrev pub result_of : User → Text × ℤ → AuthResult
  result_of user (token, expires_at) = record {
    token = token;
    expires_at = expires_at;
    user = record user { password_hash = [] };
  }

  unfoldable pub issue_token : User → M o AuthResult
  unfolding read_clock lift
  issue_token user = read_clock o >>= λ now.
      lift o (sign k m (claims_of user) now) >>= λ signed. pure (result_of user signed)

  abbrev pub params_of : RegisterInput → Text → CreateUserParams
  params_of input hash = record {
    role_name = codes "player";
    username = trim_space input.username;
    email = to_lower (trim_space input.email);
    display_name = trim_space input.display_name;
    password_hash = hash;
  }

  unfoldable pub register : RegisterInput → M o AuthResult
  unfolding hash_password create_user issue_token
  register input = hash_password o input.password >>= λ hash.
      create_user o (params_of input hash) >>= λ user. issue_token user

  -- `if err == nil { user.LastLoginAt = &loginAt }`
  abbrev pub with_login : User → ℤ → Result Error (Unit {0}) → User
  with_login user at (ok done) = record user { last_login_at = some at }
  with_login user at (err e) = user

  -- What follows the password: the time of the login is noted, and a token issued.
  unfoldable pub admit : User → M o AuthResult
  unfolding read_clock update_login issue_token
  admit user = read_clock o >>= λ at.
      attempt (update_login o user.id at) >>= λ noted. issue_token (with_login user at noted)

  -- The two guards of Login on the user that was found.
  abbrev pub is_refused : User → Text → Bool
  is_refused user password =
      not (user.status == codes "active") || not (check_password o user.password_hash password)

  unfoldable pub login : LoginInput → M o AuthResult
  unfolding get_user_by_identifier admit check_password
  login input =
      map_error (λ e. invalid_credentials) (get_user_by_identifier o (trim_space input.identifier))
      >>= λ user. reject_if (is_refused user input.password) invalid_credentials >> admit user

  unfoldable pub authenticate : Text → ℤ → Result Error TokenClaims
  authenticate token now = verify k m token now

  unfoldable pub me : ℕ → M o User
  unfolding get_user_by_id
  me user_id = get_user_by_id o user_id >>= λ user.
      reject_if (not (user.status == codes "active")) invalid_credentials >> pure user

-- IsTokenError
unfoldable pub is_token_error : Error → Bool
is_token_error token_invalid = true
is_token_error token_expired = true
is_token_error other = false
