-- ===== src/Game.antt =====
-- backend/internal/game/types.go: the records of challenges, submissions, solves and the scoreboard.
pub mod Store
pub mod Flags
pub mod Service
pub mod Scoreboard
pub mod Judge
pub mod Submit
pub mod Solves
pub mod Ranking
pub mod Standings
mod Tests
use ctf_recruit.Base.{ℕ, Text, Bool, Option, List, ℤ, codes}

pub data Error : Type 0 where
  challenge_not_found attachment_not_found invalid_flag_strategy : Error
  -- Any other error of the repository.
  store_error : Error

abbrev pub flag_type_static : Text
flag_type_static = codes "static"

abbrev pub flag_type_case_insensitive : Text
flag_type_case_insensitive = codes "case_insensitive"

abbrev pub flag_type_regex : Text
flag_type_regex = codes "regex"

pub record Attachment : Type 0 where
  pub id : ℕ
  pub filename : Text
  pub content_type : Text
  pub size_bytes : ℕ

pub record Challenge : Type 0 where
  pub id : ℕ
  pub slug : Text
  pub title : Text
  pub category : Text
  pub points : ℤ
  pub difficulty : Text
  pub description : Text
  pub flag_type : Text
  pub dynamic : Bool
  pub attachments : List Attachment

pub record SubmitResult : Type 0 where
  pub submission_id : ℕ
  pub correct : Bool
  pub solved : Bool
  pub message : Text
  pub awarded_points : ℤ
  pub solved_at : Option ℤ

pub record ScoreboardSolve : Type 0 where
  pub challenge_id : ℕ
  pub challenge_slug : Text
  pub challenge_title : Text
  pub category : Text
  pub difficulty : Text
  pub awarded_points : ℤ
  pub solved_at : ℤ

pub record ScoreboardEntry : Type 0 where
  pub rank : ℕ
  pub user_id : ℕ
  pub username : Text
  pub display_name : Text
  pub score : ℤ
  pub last_solve_at : Option ℤ
  pub solves : List ScoreboardSolve
