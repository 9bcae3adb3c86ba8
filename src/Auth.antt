-- ===== src/Auth.antt =====
-- backend/internal/auth/types.go: users, claims and errors.
pub mod Token
pub mod Tokens
pub mod Users
pub mod Service
pub mod Logins
pub mod Answered
pub mod Registered
mod Tests
use ctf_recruit.Base.{ℕ, Text, Option, ℤ}

pub data Error : Type 0 where
  invalid_credentials token_invalid token_expired : Error
  user_not_found store_error hash_error encode_error : Error

pub record User : Type 0 where
  pub id : ℕ
  pub role : Text
  pub username : Text
  pub email : Text
  pub display_name : Text
  pub status : Text
  pub last_login_at : Option ℤ
  pub password_hash : Text

pub record RegisterInput : Type 0 where
  pub username : Text
  pub email : Text
  pub password : Text
  pub display_name : Text

pub record LoginInput : Type 0 where
  pub identifier : Text
  pub password : Text

pub record TokenClaims : Type 0 where
  pub user_id : ℕ
  pub role : Text

pub record TokenPayload : Type 0 where
  pub sub : ℕ
  pub role : Text
  pub exp : ℤ
  pub iat : ℤ

pub record CreateUserParams : Type 0 where
  pub role_name : Text
  pub username : Text
  pub email : Text
  pub display_name : Text
  pub password_hash : Text

pub record AuthResult : Type 0 where
  pub token : Text
  pub expires_at : ℤ
  pub user : User
