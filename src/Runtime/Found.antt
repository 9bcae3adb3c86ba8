-- ===== src/Runtime/Found.antt =====
-- backend/internal/runtime/service.go: GetInstance after StartInstance.
use ctf_recruit.Base.{
  ℕ, ℤ, Text, Bool, text_beq, true, false, ◌≡◌, refl, sym, ap, subst, ◌∙◌, arith, Result, ok,
  nat_beq_iff, text_beq_iff,
}
use ctf_recruit.Runtime.{
  Error, Instance, RuntimeConfigRecord, InstanceRecord, ServiceConfig, StartedContainer, is_active,
}
use ctf_recruit.Runtime.World.{Outside, World, Db, exec, query}
use ctf_recruit.Runtime.Repository.{
  first, is_of, select_active, select_config, get_challenge_config, get_active_instance,
}
use ctf_recruit.Runtime.Service.{load_dynamic, with_url, new_instance, get_instance, start_instance}
use ctf_recruit.Runtime.Rules.{query-IsQuiet, ok_injective}
use ctf_recruit.Runtime.Checks.{Loaded}
use ctf_recruit.Runtime.Start.{Started, start_instance-Started}
use ctf_recruit.Runtime.Tables.{Inserted, insert_instance-Inserted, new_row}

-- A database whose statements do not fail.
abbrev pub IsReliable : Outside → Type 0
IsReliable o = (s : o.State) → (o.db_fault s).0 ≡ false

-- An instance as the table has it, if it is new: with the instants of the columns.
abbrev pub read_back : (ℤ → ℤ) → Bool → Instance → Instance
read_back stamp false i = i
read_back stamp true i = record i {
  started_at = stamp i.started_at;
  expires_at = stamp i.expires_at;
}

module _ (o : Outside) (cfg : ServiceConfig) where
  pub query_succeeds :
      {A : Type 0} (f : Db → Result Error A) (w : World o) → IsReliable o → (query o f w).0 ≡ f w.db
  unfolding query exec
  query_succeeds f w sure = rw (sure w.out) refl

  pub load_dynamic_succeeds :
      (ref : Text) (found : RuntimeConfigRecord) (w : World o)
      → IsReliable o
      → Loaded o cfg ref w.db found
      → ((load_dynamic o cfg ref w).0 ≡ ok found) × ((load_dynamic o cfg ref w).1.db ≡ w.db)
  unfolding load_dynamic get_challenge_config
  load_dynamic_succeeds ref found w sure (read, dynamic) =
      let q = query_succeeds (select_config ref) w sure ∙ read in
      rw (q, dynamic) (refl, query-IsQuiet o (select_config ref) w)

  pub get_instance_succeeds :
      (user : ℕ) (ref : Text) (found : RuntimeConfigRecord) (r : InstanceRecord) (w : World o)
      → IsReliable o
      → Loaded o cfg ref w.db found
      → select_active user found.challenge.id w.db ≡ ok r
      → (get_instance o cfg user ref w).0 ≡ ok (with_url o cfg found.challenge r.inst)
  unfolding get_instance get_active_instance
  get_instance_succeeds user ref found r w sure loaded at =
      let (read, same) = load_dynamic_succeeds ref found w sure loaded in
      let f : Db → Result Error InstanceRecord = select_active user found.challenge.id in
      let q : (query o f (load_dynamic o cfg ref w).1).0 ≡ ok r =
        query_succeeds f (load_dynamic o cfg ref w).1 sure ∙ ap f same ∙ at in
      rw (read, q) refl

  -- A new active row is the one that the query for it finds.
  select_active-Inserted :
      (config_id : ℕ) (i : Instance) (saved : InstanceRecord) (db db' : Db)
      → Inserted config_id i saved db db'
      → is_active (new_row config_id i db) ≡ true
      → select_active i.user_id i.challenge_id db' ≡ ok (new_row config_id i db)
  unfolding select_active first is_of
  select_active-Inserted config_id i saved db db' ins active =
      let mine : is_of i.user_id i.challenge_id (new_row config_id i db) ≡ true =
        ground
          (arith, nat_beq_iff i.user_id i.user_id, text_beq_iff i.challenge_id i.challenge_id) in
      rw (ins.rows, mine, active) refl

  created_shown :
      (user : ℕ) (found : RuntimeConfigRecord) (started : StartedContainer) (now : ℤ)
      (saved : InstanceRecord) (db db' : Db)
      → let i = new_instance o cfg user found.challenge started now in
        Inserted found.id i saved db db'
        → (select_active user found.challenge.id db' ≡ ok (new_row found.id i db))
          × (with_url o cfg found.challenge (new_row found.id i db).inst
              ≡ read_back db.stamp true (with_url o cfg found.challenge saved.inst))
  unfolding new_instance is_active text_beq
  created_shown user found started now saved db db' ins = (
    select_active-Inserted found.id (new_instance o cfg user found.challenge started now) saved db
        db' ins refl,
    rw (ins.shown) refl,
  )

  config_unwritten :
      (ref : Text) (db db' : Db)
      → db'.challenges ≡ db.challenges
      → select_config ref db' ≡ select_config ref db
  unfolding select_config
  config_unwritten ref db db' same = rw same refl

  -- If `StartInstance` returns an instance, then `GetInstance` of the same user and the same reference
  -- returns this instance right after, where no statement of the database fails: the same in every
  -- field if it was there before, and with its two instants as the columns of the table give them
  -- back if it is new.
  pub get_started :
      (user : ℕ) (ref : Text) (w : World o) (i : Instance) (is_new : Bool)
      → IsReliable o
      → (start_instance o cfg user ref w).0 ≡ ok (i, is_new)
      → (get_instance o cfg user ref (start_instance o cfg user ref w).1).0
        ≡ ok (read_back w.db.stamp is_new i)
  get_started user ref w i is_new sure h = go (start_instance-Started o cfg user ref w)
    where
      w' : World o
      w' = (start_instance o cfg user ref w).1

      go :
          Started o cfg user ref w.db (start_instance o cfg user ref w).0 w'.db
          → (get_instance o cfg user ref w').0 ≡ ok (read_back w.db.stamp is_new i)
      go (Started.unchanged same shown) =
          let (old, found, r, loaded, at, e) = shown (i, is_new) h in
          rw old (
            get_instance_succeeds user ref found r w' sure
              (subst (λ d. Loaded o cfg ref d found) (sym same) loaded)
              (subst (λ d. select_active user found.challenge.id d ≡ ok r) (sym same) at)
            ∙ ap ok (sym e))
      go (Started.created found started now saved _ loaded _ _ e reply) =
          let ins = insert_instance-Inserted found.id _ w.db w'.db saved e in
          let now_loaded : Loaded o cfg ref w'.db found =
            (config_unwritten ref w.db w'.db ins.challenges ∙ loaded.0, loaded.1) in
          let (at, shown) = created_shown user found started now saved w.db w'.db ins in
          let pair = ok_injective (sym reply ∙ h) in
          get_instance_succeeds user ref found _ w' sure now_loaded at
          ∙ ap ok (shown ∙ ap (λ (x : Instance × Bool). read_back w.db.stamp x.1 x.0) pair)
