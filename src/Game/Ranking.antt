-- ===== src/Game/Ranking.antt =====
-- backend/internal/game/service.go, backend/internal/store/game_repository.go: what the scoreboard
-- shows.
use ctf_recruit.Base.{
  ℕ, suc, Bool, true, false, not, ◌&&◌, ◌≡◌, refl, sym, ap, subst, ◌∙◌, inl, inr, List, [], ◌∷◌,
  map, arith, Result, ok, Bool-cases, All, count, keep, ◌==◌, nat_eq, int_eq, if◌then◌else◌,
}
use ctf_recruit.Base.Exec.{pure}
use ctf_recruit.Game.{Error, ScoreboardEntry, ScoreboardSolve}
use ctf_recruit.Game.Store.{Outside, World, Db, UserRow, exec, query}
use ctf_recruit.Game.Scoreboard.{
  total, last_solve, solves_of, last_before, ranks_before, insert_sorted, sort, is_player, standing,
  select_standings, select_scoreboard_solves, number_from, with_solves, list_scoreboard, scoreboard,
}
use ctf_recruit.Runtime.Rules.{bind_elim, ok_injective}

module _ {A : Type 0} (before : A → A → Bool) where
  -- Each item comes before the next one.
  abbrev pub IsOrdered : List A → Type 0
  IsOrdered [] = Unit
  IsOrdered (x ∷ []) = Unit
  IsOrdered (x ∷ y ∷ ys) = (before x y ≡ true) × IsOrdered (y ∷ ys)

  -- Any two items come in one order at least.
  abbrev IsTotal : Type 0
  IsTotal = (a b : A) → before a b ≡ false → before b a ≡ true

  insert_sorted-IsOrdered :
      IsTotal → (a : A) (xs : List A) → IsOrdered xs → IsOrdered (insert_sorted before a xs)
  unfolding insert_sorted
  insert_sorted-IsOrdered either a [] ordered = tt
  insert_sorted-IsOrdered either a (x ∷ []) ordered = elim (Bool-cases (before a x)) [
    | inl first ↦ rw first (first, tt)
    | inr second ↦ rw second (either a x second, tt)
  ]
  insert_sorted-IsOrdered either a (x ∷ y ∷ ys) ordered = elim (Bool-cases (before a x)) [
    | inl first ↦ rw first (first, ordered)
    | inr second ↦ elim (Bool-cases (before a y)) [
      | inl here ↦ rw (second, here) (either a x second, (here, ordered.1))
      | inr further ↦
          rw (second, further)
            (ordered.0, rw further at (insert_sorted-IsOrdered either a (y ∷ ys) ordered.1))
    ]
  ]

  sort-IsOrdered : IsTotal → (xs : List A) → IsOrdered (sort before xs)
  unfolding sort
  sort-IsOrdered either [] = tt
  sort-IsOrdered either (x ∷ xs) =
      insert_sorted-IsOrdered either x (sort before xs) (sort-IsOrdered either xs)

  -- Sorting keeps what is in the list.
  count-insert_sorted :
      (p : A → Bool) (a : A) (xs : List A)
      → count p (insert_sorted before a xs) ≡ (if p a then suc (count p xs) else count p xs)
  unfolding insert_sorted
  count-insert_sorted p a [] = refl
  count-insert_sorted p a (x ∷ xs) = ground (arith, count-insert_sorted p a xs)

  count-sort : (p : A → Bool) (xs : List A) → count p (sort before xs) ≡ count p xs
  unfolding sort
  count-sort p [] = refl
  count-sort p (x ∷ xs) =
      count-insert_sorted p x (sort before xs)
      ∙ ap (λ n. if p x then suc n else n) (count-sort p xs)

  All-insert_sorted :
      (P : A → Type 0) (a : A) (xs : List A) → P a → All P xs → All P (insert_sorted before a xs)
  unfolding insert_sorted
  All-insert_sorted P a [] h all = (h, tt)
  All-insert_sorted P a (x ∷ xs) h all = elim (Bool-cases (before a x)) [
    | inl first ↦ rw first (h, all)
    | inr second ↦ rw second (all.0, All-insert_sorted P a xs h all.1)
  ]

  All-sort : (P : A → Type 0) (xs : List A) → All P xs → All P (sort before xs)
  unfolding sort
  All-sort P [] all = tt
  All-sort P (x ∷ xs) all = All-insert_sorted P x (sort before xs) all.0 (All-sort P xs all.1)

ranks_before-total : (a b : ScoreboardEntry) → ranks_before a b ≡ false → ranks_before b a ≡ true
unfolding ranks_before last_before
ranks_before-total a b h = ground arith

-- The standing of a user in the tables: the points of all solves and the time of the last one.
abbrev pub Stands : Db → ScoreboardEntry → Type 0
Stands db e =
    (e.score ≡ total (solves_of e.user_id db))
    × (e.last_solve_at ≡ last_solve (solves_of e.user_id db))

standings-Stands :
    (db : Db) (users : List UserRow) → All (Stands db) (map (standing db) (keep is_player users))
standings-Stands db [] = tt
standings-Stands db (u ∷ users) = elim (Bool-cases (is_player u)) [
  | inl plays ↦ rw plays ((refl, refl), standings-Stands db users)
  | inr not ↦ rw not (standings-Stands db users)
]

count-standings :
    (db : Db) (k : ℕ) (users : List UserRow)
    → count (λ e. e.user_id == k) (map (standing db) (keep is_player users))
      ≡ count (λ u. is_player u && u.id == k) users
count-standings db k [] = refl
count-standings db k (u ∷ users) = ground (arith, count-standings db k users)

-- Two lists whose entries agree on what the order and the standing depend on.
abbrev Alike : List ScoreboardEntry → List ScoreboardEntry → Type 0
Alike [] [] = Unit
Alike (a ∷ xs) (b ∷ ys) =
    (a.user_id ≡ b.user_id)
    × (a.score ≡ b.score)
    × (a.last_solve_at ≡ b.last_solve_at)
    × Alike xs ys
Alike _ _ = ⊥

Alike-IsOrdered :
    (xs ys : List ScoreboardEntry)
    → Alike xs ys
    → IsOrdered ranks_before xs
    → IsOrdered ranks_before ys
unfolding ranks_before last_before
Alike-IsOrdered [] [] same ordered = tt
Alike-IsOrdered (a ∷ []) (b ∷ []) same ordered = tt
Alike-IsOrdered (a ∷ a' ∷ xs) (b ∷ b' ∷ ys) (u, s, l, (u', s', l', same)) ordered =
    (ground arith, Alike-IsOrdered (a' ∷ xs) (b' ∷ ys) (u', s', l', same) ordered.1)
Alike-IsOrdered (a ∷ []) (b ∷ b' ∷ ys) (_, _, _, same) ordered = absurd same
Alike-IsOrdered (a ∷ a' ∷ xs) (b ∷ []) (_, _, _, same) ordered = absurd same
Alike-IsOrdered [] (b ∷ ys) same ordered = absurd same
Alike-IsOrdered (a ∷ xs) [] same ordered = absurd same

Alike-Stands :
    (db : Db) (xs ys : List ScoreboardEntry) → Alike xs ys → All (Stands db) xs → All (Stands db) ys
Alike-Stands db [] [] same all = tt
Alike-Stands db (a ∷ xs) (b ∷ ys) (u, s, l, same) ((score, last), all) =
    ((rw (← u, ← s) score, rw (← u, ← l) last), Alike-Stands db xs ys same all)
Alike-Stands db [] (b ∷ ys) same all = absurd same
Alike-Stands db (a ∷ xs) [] same all = absurd same

Alike-count :
    (k : ℕ) (xs ys : List ScoreboardEntry)
    → Alike xs ys
    → count (λ e. e.user_id == k) xs ≡ count (λ e. e.user_id == k) ys
Alike-count k [] [] same = refl
Alike-count k (a ∷ xs) (b ∷ ys) (u, s, l, same) = ground (arith, Alike-count k xs ys same)
Alike-count k [] (b ∷ ys) same = absurd same
Alike-count k (a ∷ xs) [] same = absurd same

-- A scoreboard of the tables `db`: the entries in the order of the ranks, each active
-- player once and nobody else, with the points and the last solve.
pub record Shows (db : Db) (entries : List ScoreboardEntry) : Type 0 where
  pub ordered : IsOrdered ranks_before entries
  pub stands : All (Stands db) entries
  pub players :
      (k : ℕ) → count (λ e. e.user_id == k) entries ≡ count (λ u. is_player u && u.id == k) db.users

-- The ranks are the numbers from `n` on.
abbrev pub RanksFrom : ℕ → List ScoreboardEntry → Type 0
RanksFrom n [] = Unit
RanksFrom n (e ∷ es) = (e.rank ≡ n) × RanksFrom (suc n) es

standings-Shows : (db : Db) → Shows db (select_standings db)
unfolding select_standings
standings-Shows db = record {
  ordered =
      sort-IsOrdered ranks_before ranks_before-total (map (standing db) (keep is_player db.users));
  stands = All-sort ranks_before (Stands db) _ (standings-Stands db db.users);
  players = λ k.
      count-sort ranks_before (λ e. e.user_id == k) (map (standing db) (keep is_player db.users))
      ∙ count-standings db k db.users;
}

Alike-Shows : (db : Db) (xs ys : List ScoreboardEntry) → Alike xs ys → Shows db xs → Shows db ys
Alike-Shows db xs ys same shows = record {
  ordered = Alike-IsOrdered xs ys same shows.ordered;
  stands = Alike-Stands db xs ys same shows.stands;
  players = λ k. sym (Alike-count k xs ys same) ∙ shows.players k;
}

number_from-Alike : (n : ℕ) (xs : List ScoreboardEntry) → Alike xs (number_from n xs)
unfolding number_from
number_from-Alike n [] = tt
number_from-Alike n (e ∷ es) = (refl, refl, refl, number_from-Alike (suc n) es)

number_from-RanksFrom : (n : ℕ) (xs : List ScoreboardEntry) → RanksFrom (suc n) (number_from n xs)
unfolding number_from
number_from-RanksFrom n [] = tt
number_from-RanksFrom n (e ∷ es) = (refl, number_from-RanksFrom (suc n) es)

module _ (o : Outside) where
  with_solves-Alike :
      (xs ys : List ScoreboardEntry) (w : World o) → (with_solves o xs w).0 ≡ ok ys → Alike xs ys
  unfolding with_solves
  with_solves-Alike [] ys w = λ h. subst (Alike []) (ok_injective h) tt
  with_solves-Alike (e ∷ es) ys w =
      let f : Db → Result Error (List ScoreboardSolve) =
        λ db. ok (select_scoreboard_solves e.user_id db) in
      bind_elim (λ x. x.0 ≡ ok ys → Alike (e ∷ es) ys) (query o f) _ w
        (λ solves _.
          let w₁ = (query o f w).1 in
          bind_elim (λ x. x.0 ≡ ok ys → Alike (e ∷ es) ys) (with_solves o es) _ w₁
            (λ rest done h.
              subst (Alike (e ∷ es)) (ok_injective h)
                (refl, refl, refl, with_solves-Alike es rest w₁ done))
            (λ e' _ h. cc))
        (λ e' _ h. cc)

  -- A scoreboard that is returned without an error is one of the tables at its first statement,
  -- whatever other requests write: each active player once and nobody else, with the points of all
  -- solves and the time of the last one; more points come first, then the earlier last solve, then
  -- the smaller id; and the ranks are 1, 2, 3 and so on.
  pub scoreboard-Shows :
      (w : World o) (entries : List ScoreboardEntry)
      → (scoreboard o w).0 ≡ ok entries
      → Shows (o.others w.out w.db) entries × RanksFrom 1 entries
  unfolding scoreboard list_scoreboard query exec
  scoreboard-Shows w entries = elim (Bool-cases (o.db_fault w.out).0) [
    | inl fault ↦ rw fault (λ h. cc)
    | inr fine ↦ rw fine (
        bind_elim
          (λ x. x.0 ≡ ok entries → Shows (o.others w.out w.db) entries × RanksFrom 1 entries)
          (with_solves o (select_standings (o.others w.out w.db))) (λ es. pure (number_from 0 es)) _
          (λ es done h.
            let db = o.others w.out w.db in
            subst (λ x. Shows db x × RanksFrom 1 x) (ok_injective h)
              (
                Alike-Shows db es (number_from 0 es) (number_from-Alike 0 es) (
                    Alike-Shows db (select_standings db) es
                      (with_solves-Alike (select_standings db) es _ done) (standings-Shows db)),
                number_from-RanksFrom 0 es,
              ))
          (λ e _ h. cc))
  ]
