-- ===== src/Game/Scoreboard.antt =====
-- backend/internal/game/service.go, backend/internal/store/game_repository.go: Scoreboard.
use ctf_recruit.Base.{
  ℕ, suc, Bool, true, false, ◌&&◌, ◌||◌, Option, none, some, List, [], ◌∷◌, map, ℤ, pos, ◌+ℤ◌, leb,
  ltb_ℤ, ok, keep, codes, ◌==◌, nat_eq, text_eq, int_eq, if◌then◌else◌,
}
use ctf_recruit.Base.Exec.{◌>>=◌, pure}
use ctf_recruit.Game.{ScoreboardSolve, ScoreboardEntry}
use ctf_recruit.Game.Store.{Outside, M, Db, UserRow, SolveRow, ChallengeRow, query, first}

-- COALESCE(SUM(awarded_points), 0)
unfoldable pub total : List SolveRow → ℤ
total [] = pos 0
total (s ∷ ss) = s.awarded_points +ℤ total ss

abbrev later : ℤ → Option ℤ → Option ℤ
later a none = some a
later a (some b) = if ltb_ℤ b a then some a else some b

-- MAX(solved_at)
unfoldable pub last_solve : List SolveRow → Option ℤ
last_solve [] = none
last_solve (s ∷ ss) = later s.solved_at (last_solve ss)

unfoldable pub solves_of : ℕ → Db → List SolveRow
solves_of user db = keep (λ s. s.user_id == user) db.solves

-- A row of the query's result: the order is by score descending, last solve ascending with NULL last,
-- and id.
unfoldable pub last_before : Option ℤ → Option ℤ → Bool
last_before none none = false
last_before none (some b) = false
last_before (some a) none = true
last_before (some a) (some b) = ltb_ℤ a b

abbrev pub option_beq : Option ℤ → Option ℤ → Bool
option_beq none none = true
option_beq none (some b) = false
option_beq (some a) none = false
option_beq (some a) (some b) = a == b

unfoldable pub ranks_before : ScoreboardEntry → ScoreboardEntry → Bool
unfolding last_before
ranks_before a b =
    ltb_ℤ b.score a.score
    || ((a.score == b.score)
        && (last_before a.last_solve_at b.last_solve_at
            || (option_beq a.last_solve_at b.last_solve_at && leb a.user_id b.user_id)))

-- ORDER BY solved_at ASC, id ASC
abbrev solve_before : SolveRow → SolveRow → Bool
solve_before a b = ltb_ℤ a.solved_at b.solved_at || ((a.solved_at == b.solved_at) && leb a.id b.id)

module _ {A : Type 0} (before : A → A → Bool) where
  unfoldable pub insert_sorted : A → List A → List A
  insert_sorted a [] = a ∷ []
  insert_sorted a (x ∷ xs) = if before a x then a ∷ x ∷ xs else x ∷ insert_sorted a xs

  -- ORDER BY
  unfoldable pub sort : List A → List A
  unfolding insert_sorted
  sort [] = []
  sort (x ∷ xs) = insert_sorted x (sort xs)

abbrev show_solve : SolveRow → Option ChallengeRow → List ScoreboardSolve → List ScoreboardSolve
show_solve s none rest = rest
show_solve s (some c) rest =
    record {
      challenge_id = c.id;
      challenge_slug = c.slug;
      challenge_title = c.title;
      category = c.category;
      difficulty = c.difficulty;
      awarded_points = s.awarded_points;
      solved_at = s.solved_at;
    }
    ∷ rest

-- JOIN challenges
unfoldable pub join_challenges : Db → List SolveRow → List ScoreboardSolve
join_challenges db [] = []
join_challenges db (s ∷ ss) =
    show_solve s (first (λ c. c.id == s.challenge_id) db.challenges) (join_challenges db ss)

unfoldable pub select_scoreboard_solves : ℕ → Db → List ScoreboardSolve
unfolding sort join_challenges solves_of
select_scoreboard_solves user db = join_challenges db (sort solve_before (solves_of user db))

abbrev pub is_player : UserRow → Bool
is_player u = u.role == codes "player" && u.status == codes "active"

-- The row of a user, whose rank and solves are filled in later.
abbrev pub standing : Db → UserRow → ScoreboardEntry
standing db u = record {
  rank = 0;
  user_id = u.id;
  username = u.username;
  display_name = u.display_name;
  score = total (solves_of u.id db);
  last_solve_at = last_solve (solves_of u.id db);
  solves = [];
}

unfoldable pub select_standings : Db → List ScoreboardEntry
unfolding total last_solve solves_of sort ranks_before
select_standings db = sort ranks_before (map (standing db) (keep is_player db.users))

-- `entries[i].Rank = i + 1`
unfoldable pub number_from : ℕ → List ScoreboardEntry → List ScoreboardEntry
number_from i [] = []
number_from i (e ∷ es) = record e { rank = suc i } ∷ number_from (suc i) es

module _ (o : Outside) where
  -- One query for each row of the result.
  unfoldable pub with_solves : List ScoreboardEntry → M o (List ScoreboardEntry)
  with_solves [] = pure []
  with_solves (e ∷ es) = do
    solves ← query o (λ db. ok (select_scoreboard_solves e.user_id db))
    rest ← with_solves es
    pure (record e { solves = solves } ∷ rest)

  unfoldable pub list_scoreboard : M o (List ScoreboardEntry)
  unfolding with_solves
  list_scoreboard = query o (λ db. ok (select_standings db)) >>= with_solves

  unfoldable pub scoreboard : M o (List ScoreboardEntry)
  unfolding list_scoreboard number_from
  scoreboard = list_scoreboard >>= λ entries. pure (number_from 0 entries)
