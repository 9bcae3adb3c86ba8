-- ===== src/Runtime/Sweep.antt =====
-- backend/internal/runtime/service.go: what a sweep that returns no error has done.
use ctf_recruit.Base.{
  ℕ, suc, ◌≤◌, Bool, true, not, ◌&&◌, ◌||◌, ◌≡◌, refl, ap, ◌∙◌, List, [], ◌∷◌, map, arith, ℤ, ◌==◌,
  nat_eq, nat_beq_iff, keep, count, length, length-keep, contains, Bool-cases, inl, inr, text_beq,
}
use ctf_recruit.Runtime.{InstanceRecord, is_active}
use ctf_recruit.Runtime.World.{Db}
use ctf_recruit.Runtime.Repository.{
  is_expired, insert_by_expiry, sort_by_expiry, select_expired, update_row, terminated,
}

abbrev keys : List InstanceRecord → List ℕ
keys = map (λ r. r.id)

-- Sorting keeps the rows.
contains-insert_by_expiry :
    (k : ℕ) (r : InstanceRecord) (rows : List InstanceRecord)
    → contains (keys (insert_by_expiry r rows)) k ≡ (k == r.id) || contains (keys rows) k
unfolding insert_by_expiry contains
contains-insert_by_expiry k r [] = refl
contains-insert_by_expiry k r (x ∷ rows) = ground (arith, contains-insert_by_expiry k r rows)

contains-sort_by_expiry :
    (k : ℕ) (rows : List InstanceRecord)
    → contains (keys (sort_by_expiry rows)) k ≡ contains (keys rows) k
unfolding sort_by_expiry contains
contains-sort_by_expiry k [] = refl
contains-sort_by_expiry k (r ∷ rows) =
    contains-insert_by_expiry k r (sort_by_expiry rows)
    ∙ ap (λ b. (k == r.id) || b) (contains-sort_by_expiry k rows)

length-insert_by_expiry :
    (r : InstanceRecord) (rows : List InstanceRecord)
    → length (insert_by_expiry r rows) ≡ suc (length rows)
unfolding insert_by_expiry
length-insert_by_expiry r [] = refl
length-insert_by_expiry r (x ∷ rows) = ground (arith, length-insert_by_expiry r rows)

length-sort_by_expiry : (rows : List InstanceRecord) → length (sort_by_expiry rows) ≡ length rows
unfolding sort_by_expiry
length-sort_by_expiry [] = refl
length-sort_by_expiry (r ∷ rows) =
    length-insert_by_expiry r (sort_by_expiry rows) ∙ ap suc (length-sort_by_expiry rows)

-- The expired rows that the items of a sweep do not name.
abbrev pub is_left : ℤ → List InstanceRecord → InstanceRecord → Bool
is_left now items r = is_expired now r && not (contains (keys items) r.id)

-- Every key of the kept rows is among `ks`, so none of them is left.
none_left :
    (p : InstanceRecord → Bool) (rows : List InstanceRecord) (ks : List ℕ)
    → ((k : ℕ) → contains (keys (keep p rows)) k ≡ true → contains ks k ≡ true)
    → count (λ r. p r && not (contains ks r.id)) rows ≡ 0
unfolding contains
none_left p [] ks all = refl
none_left p (r ∷ rows) ks all = elim (Bool-cases (p r)) [
  | inl kept ↦
      let here : contains ks r.id ≡ true =
        all r.id (rw kept (ground (arith, nat_beq_iff r.id r.id))) in
      let rest = none_left p rows ks (λ k h. all k (rw kept (ground arith))) in rw (kept, here) rest
  | inr passed ↦ rw passed (none_left p rows ks (λ k h. all k (rw passed h)))
]

pub select_expired-covers :
    (now : ℤ) (db : Db) → count (is_left now (select_expired now db)) db.instances ≡ 0
unfolding select_expired
select_expired-covers now db =
    none_left (is_expired now) db.instances
      (keys (sort_by_expiry (keep (is_expired now) db.instances)))
      (λ k h. contains-sort_by_expiry k (keep (is_expired now) db.instances) ∙ h)

pub length-select_expired :
    (now : ℤ) (db : Db) → length (select_expired now db) ≡ count (is_expired now) db.instances
unfolding select_expired
length-select_expired now db =
    length-sort_by_expiry (keep (is_expired now) db.instances)
    ∙ length-keep (is_expired now) db.instances

pub count-is_left :
    (now : ℤ) (rows : List InstanceRecord)
    → count (is_left now []) rows ≡ count (is_expired now) rows
unfolding contains
count-is_left now [] = refl
count-is_left now (r ∷ rows) = ground (arith, count-is_left now rows)

-- Ending the row of the first item leaves the other items to do.
pub count-ended :
    (now at : ℤ) (item : InstanceRecord) (items rows : List InstanceRecord)
    → count (is_left now items) (update_row item.id (λ _. true) (terminated at) rows)
      ≤ count (is_left now (item ∷ items)) rows
unfolding update_row is_active contains text_beq
count-ended now at item items [] = omega arith
count-ended now at item items (r ∷ rows) =
    ground (
      arith,
      count-ended now at item items rows,
      nat_beq_iff r.id item.id,
      nat_beq_iff item.id r.id,
    )
