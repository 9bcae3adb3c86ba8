-- ===== src/Game/Tests.antt =====
-- Examples for backend/internal/game: one challenge, two players, one solve.
use ctf_recruit.Base.{
  ℕ, suc, ◌≡◌, refl, Text, Bool, true, false, none, some, List, [], ◌∷◌, pos, ok, arith, codes,
  text_beq, trim_space, to_lower, ◌+ℤ◌,
}
use ctf_recruit.Game.{ScoreboardEntry, flag_type_regex}
use ctf_recruit.Game.Store.{Outside, World, query, first, is_solve}
use ctf_recruit.Game.Flags.{validate_flag_type_config, evaluate_flag}
use ctf_recruit.Game.Service.{submit_flag}
use ctf_recruit.Game.Scoreboard.{scoreboard, select_standings, select_scoreboard_solves}
use ctf_recruit.Game.Judge.{Verdict, evaluate_flag_accepted}
use ctf_recruit.Game.Submit.{Submitted, submit_flag-Submitted}
use ctf_recruit.Game.Solves.{SolvedOnce, submit_flag-SolvedOnce}
use ctf_recruit.Game.Standings.{IsScoreboard, scoreboard-IsScoreboard}

-- A pattern compiles unless it is `(`, and matches the texts that are equal to it.
abbrev outside : Outside
outside = record {
  State = ℕ;
  now = λ s. (pos s, suc s);
  db_fault = λ s. (false, s);
  others = λ s db. db;
  Regexp = Text;
  compile = λ p. elim (text_beq p (codes "(")) [ true ↦ none | false ↦ some p ];
  match_string = text_beq;
  fold = λ c. c;
}

abbrev world : World outside
world = record {
  db = record {
    challenges =
        record {
          id = 1;
          slug = codes "web";
          title = codes "Web";
          category = codes "web";
          points = pos 100;
          difficulty = codes "easy";
          description = [];
          flag_type = codes "static";
          flag_value = codes "flag";
          dynamic_enabled = false;
          status = codes "published";
        }
        ∷ [];
    attachments = [];
    users =
        record {
          id = 7;
          role = codes "player";
          username = codes "a";
          display_name = codes "A";
          status = codes "active";
        }
        ∷ record {
          id = 8;
          role = codes "player";
          username = codes "b";
          display_name = codes "B";
          status = codes "active";
        }
        ∷ [];
    submissions = [];
    solves =
        record {
          id = 1;
          challenge_id = 1;
          user_id = 8;
          submission_id = 1;
          awarded_points = pos 100;
          solved_at = pos 5;
        }
        ∷ [];
    next_submission = 2;
    next_solve = 2;
  };
  out = 10;
}

submit_flag-Submitted_example :
    Submitted outside 7
      (codes "web")
      (codes "flag")
      []
      world.db
      (submit_flag outside 7 (codes "web") (codes "flag") [] world).0
      (submit_flag outside 7 (codes "web") (codes "flag") [] world).1.db
submit_flag-Submitted_example =
    submit_flag-Submitted outside 7 (codes "web") (codes "flag") [] world (λ s db. refl)

submit_flag-SolvedOnce_example :
    SolvedOnce 1 8 (submit_flag outside 8 (codes "web") (codes "flag") [] world).1.db
unfolding is_solve
submit_flag-SolvedOnce_example =
    submit_flag-SolvedOnce outside 1 8 8 (codes "web") (codes "flag") [] world (λ s db p. p)
      (omega arith)

evaluate_flag_accepted_example :
    (b : Bool) × (evaluate_flag outside (codes " Regex ") (codes "a.b") (codes "a.b") ≡ ok b)
    × Verdict outside flag_type_regex (codes "a.b") (codes "a.b") b
unfolding validate_flag_type_config text_beq trim_space to_lower
evaluate_flag_accepted_example =
    evaluate_flag_accepted outside (codes " Regex ") (codes "a.b") (codes "a.b") flag_type_regex
      refl

abbrev shown : List ScoreboardEntry
shown =
    record {
      rank = 1;
      user_id = 8;
      username = codes "b";
      display_name = codes "B";
      score = pos 100;
      last_solve_at = some (pos 5);
      solves =
          record {
            challenge_id = 1;
            challenge_slug = codes "web";
            challenge_title = codes "Web";
            category = codes "web";
            difficulty = codes "easy";
            awarded_points = pos 100;
            solved_at = pos 5;
          }
          ∷ [];
    }
    ∷ record {
      rank = 2;
      user_id = 7;
      username = codes "a";
      display_name = codes "A";
      score = pos 0;
      last_solve_at = none;
      solves = [];
    }
    ∷ []

scoreboard-IsScoreboard_example : IsScoreboard world.db shown
unfolding scoreboard query select_standings text_beq select_scoreboard_solves ◌+ℤ◌ first
scoreboard-IsScoreboard_example = scoreboard-IsScoreboard outside world shown refl
