-- ===== src/Game/Standings.antt =====
-- backend/internal/game/service.go, backend/internal/store/game_repository.go: the scoreboard, spelled
-- out on the rows of the tables.
use ctf_recruit.Base.{
  ℕ, ◌≤◌, true, false, ◌&&◌, ◌||◌, subst, ◌≡◌, refl, sym, ap, ◌∙◌, inl, inr, ◌⊎◌, Option, none,
  some, List, [], ◌∷◌, Memᴰ, All, arith, ℤ, pos, ◌+ℤ◌, ◌<ℤ◌, ◌≤ℤ◌, ltb_ℤ, leb, ok, Bool-cases,
  Option-cases, count, keep, codes, ◌==◌, nat_eq, nat_beq_iff, int_eq, text_eq, if◌then◌else◌,
}
use ctf_recruit.Game.{ScoreboardEntry}
use ctf_recruit.Game.Store.{Outside, World, Db, SolveRow}
use ctf_recruit.Game.Scoreboard.{
  total, last_solve, solves_of, last_before, option_beq, ranks_before, scoreboard,
}
use ctf_recruit.Game.Ranking.{IsOrdered, Stands, RanksFrom, scoreboard-Shows}

-- The points of all solves of a user.
unfoldable pub points_of : ℕ → List SolveRow → ℤ
points_of user [] = pos 0
points_of user (s ∷ ss) =
    if s.user_id == user then s.awarded_points +ℤ points_of user ss else points_of user ss

-- The user has no solve; or one at the time, and none after it.
abbrev pub IsLast : ℕ → List SolveRow → Option ℤ → Type 0
IsLast user solves none = All (λ s. ¬ s.user_id ≡ user) solves
IsLast user solves (some t) =
    ((s : SolveRow) × Memᴰ s solves × (s.user_id ≡ user) × (s.solved_at ≡ t))
    × All (λ s. s.user_id ≡ user → s.solved_at ≤ℤ t) solves

-- The earlier last solve comes first, and no solve last; where they are equal, the smaller id.
abbrev pub SolvedBefore : Option ℤ → Option ℤ → ℕ → ℕ → Type 0
SolvedBefore none none i j = i ≤ j
SolvedBefore none (some b) i j = ⊥
SolvedBefore (some a) none i j = Unit
SolvedBefore (some a) (some b) i j = (a <ℤ b) ⊎ ((a ≡ b) × (i ≤ j))

abbrev pub Ahead : ScoreboardEntry → ScoreboardEntry → Type 0
Ahead a b =
    (b.score <ℤ a.score)
    ⊎ ((a.score ≡ b.score) × SolvedBefore a.last_solve_at b.last_solve_at a.user_id b.user_id)

-- Each entry is ahead of the next one.
abbrev pub InOrder : List ScoreboardEntry → Type 0
InOrder [] = Unit
InOrder (a ∷ []) = Unit
InOrder (a ∷ b ∷ rest) = Ahead a b × InOrder (b ∷ rest)

pub record IsScoreboard (db : Db) (entries : List ScoreboardEntry) : Type 0 where
  pub in_order : InOrder entries
  pub ranks : RanksFrom 1 entries
  pub scores : All (λ e. e.score ≡ points_of e.user_id db.solves) entries
  pub lasts : All (λ e. IsLast e.user_id db.solves e.last_solve_at) entries
  pub players :
      (k : ℕ)
      → count (λ e. e.user_id == k) entries
        ≡ count
            (λ u. (u.role == codes "player" && u.status == codes "active") && u.id == k)
            db.users

total-points_of :
    (user : ℕ) (solves : List SolveRow)
    → total (keep (λ s. s.user_id == user) solves) ≡ points_of user solves
unfolding total points_of
total-points_of user [] = refl
total-points_of user (s ∷ ss) = elim (Bool-cases (s.user_id == user)) [
  | inl mine ↦ rw mine (ap (λ n. s.awarded_points +ℤ n) (total-points_of user ss))
  | inr other ↦ rw other (total-points_of user ss)
]

weaken :
    (user : ℕ) (a b : ℤ) (solves : List SolveRow)
    → a ≤ℤ b
    → All (λ s. s.user_id ≡ user → s.solved_at ≤ℤ a) solves
    → All (λ s. s.user_id ≡ user → s.solved_at ≤ℤ b) solves
weaken user a b [] le all = tt
weaken user a b (s ∷ ss) le (here, all) =
    ((λ e. let h : s.solved_at ≤ℤ a = here e in omega arith), weaken user a b ss le all)

none_after :
    (user : ℕ) (t : ℤ) (solves : List SolveRow)
    → All (λ s. ¬ s.user_id ≡ user) solves
    → All (λ s. s.user_id ≡ user → s.solved_at ≤ℤ t) solves
none_after user t [] all = tt
none_after user t (s ∷ ss) (here, all) = ((λ e. absurd (here e)), none_after user t ss all)

not_mine : (s : SolveRow) (user : ℕ) → (s.user_id == user) ≡ false → ¬ s.user_id ≡ user
not_mine s user other same =
    let e : (s.user_id == user) ≡ true = (nat_beq_iff s.user_id user).1 same in cc

last_solve-IsLast :
    (user : ℕ) (solves : List SolveRow)
    → IsLast user solves (last_solve (keep (λ s. s.user_id == user) solves))
unfolding last_solve
last_solve-IsLast user [] = tt
last_solve-IsLast user (s ∷ ss) = elim (Bool-cases (s.user_id == user)) [
  | inl mine ↦ rw mine (
      with_first ((nat_beq_iff s.user_id user).0 mine) (Option-cases rest)
        (last_solve-IsLast user ss))
  | inr other ↦ rw other (without_first (not_mine s user other) rest (last_solve-IsLast user ss))
]
  where
    rest : Option ℤ
    rest = last_solve (keep (λ s. s.user_id == user) ss)

    without_first : ¬ s.user_id ≡ user → (l : Option ℤ) → IsLast user ss l → IsLast user (s ∷ ss) l
    without_first n none all = (n, all)
    without_first n (some t) ((x, there, mine, at), all) =
        ((x, Memᴰ.tail there, mine, at), ((λ e. absurd (n e)), all))

    with_first :
        s.user_id ≡ user
        → (rest ≡ none) ⊎ ((t : ℤ) × (rest ≡ some t))
        → IsLast user ss rest
        → IsLast user (s ∷ ss) (last_solve (s ∷ keep (λ s. s.user_id == user) ss))
    with_first mine (inl e) h = rw e (
      (s, Memᴰ.head refl, mine, refl),
      ((λ _. omega arith), none_after user s.solved_at ss (rw e at h)),
    )
    with_first mine (inr (t, e)) h =
        let below : IsLast user ss (some t) = rw e at h in
        let ((x, there, of_user, at), all) = below in
        elim (Bool-cases (ltb_ℤ t s.solved_at)) [
          | inl later ↦
              rw (e, later)
                (
                  (s, Memᴰ.head refl, mine, refl),
                  ((λ _. omega arith), weaken user t s.solved_at ss (ground arith) all),
                )
          | inr earlier ↦
              rw (e, earlier) ((x, Memᴰ.tail there, of_user, at), ((λ _. ground arith), all))
        ]

last_before-SolvedBefore :
    (l l' : Option ℤ) (i j : ℕ)
    → (last_before l l' || (option_beq l l' && leb i j)) ≡ true
    → SolvedBefore l l' i j
unfolding last_before
last_before-SolvedBefore none none i j h = ground arith
last_before-SolvedBefore none (some b) i j h = absurd (cc)
last_before-SolvedBefore (some a) none i j h = tt
last_before-SolvedBefore (some a) (some b) i j h = elim (Bool-cases (ltb_ℤ a b)) [
  | inl before ↦ inl (ground arith)
  | inr not ↦ inr (ground arith, ground arith)
]

ranks_before-Ahead : (a b : ScoreboardEntry) → ranks_before a b ≡ true → Ahead a b
unfolding ranks_before
ranks_before-Ahead a b h = elim (Bool-cases (ltb_ℤ b.score a.score)) [
  | inl more ↦ inl (ground arith)
  | inr not_more ↦ inr (
    ground arith,
    last_before-SolvedBefore a.last_solve_at b.last_solve_at a.user_id b.user_id (ground arith),
  )
]

IsOrdered-InOrder : (es : List ScoreboardEntry) → IsOrdered ranks_before es → InOrder es
IsOrdered-InOrder [] h = tt
IsOrdered-InOrder (a ∷ []) h = tt
IsOrdered-InOrder (a ∷ b ∷ rest) (h, hs) =
    (ranks_before-Ahead a b h, IsOrdered-InOrder (b ∷ rest) hs)

Stands-scores :
    (db : Db) (es : List ScoreboardEntry)
    → All (Stands db) es
    → All (λ e. e.score ≡ points_of e.user_id db.solves) es
unfolding solves_of
Stands-scores db [] all = tt
Stands-scores db (e ∷ es) ((score, _), all) =
    (score ∙ total-points_of e.user_id db.solves, Stands-scores db es all)

Stands-lasts :
    (db : Db) (es : List ScoreboardEntry)
    → All (Stands db) es
    → All (λ e. IsLast e.user_id db.solves e.last_solve_at) es
unfolding solves_of
Stands-lasts db [] all = tt
Stands-lasts db (e ∷ es) ((_, last), all) = (
  subst (IsLast e.user_id db.solves) (sym last) (last_solve-IsLast e.user_id db.solves),
  Stands-lasts db es all,
)

-- A scoreboard that is returned without an error is one of the tables at its first statement,
-- whatever other requests write. Each player whose status is active stands on it once, and nobody
-- else. An entry has the sum of the points of the user's solves, and the latest time of them or none
-- if there is no solve. More points come first; with as many points the earlier last solve, no solve
-- last; and then the smaller id. The ranks are 1, 2, 3 and so on.
pub scoreboard-IsScoreboard :
    (o : Outside) (w : World o) (entries : List ScoreboardEntry)
    → (scoreboard o w).0 ≡ ok entries
    → IsScoreboard (o.others w.out w.db) entries
scoreboard-IsScoreboard o w entries h =
    let (shows, ranks) = scoreboard-Shows o w entries h in
    let db = o.others w.out w.db in
    record {
      in_order = IsOrdered-InOrder entries shows.ordered;
      ranks = ranks;
      scores = Stands-scores db entries shows.stands;
      lasts = Stands-lasts db entries shows.stands;
      players = shows.players;
    }
