-- ===== src/Runtime/Live.antt =====
-- backend/internal/runtime/service.go: when the calls on a running instance give a reply.
use ctf_recruit.Base.{
  ℕ, Text, Bool, true, false, ◌≡◌, refl, ap, ◌∙◌, inl, inr, some, List, [], ◌∷◌, Memᴰ, ◌&&◌, ◌||◌,
  arith, ℤ, pos, ◌<ℤ◌, leb_ℤ, ltb, Result, ok, Bool-cases, count, ◌==◌, nat_eq, nat_beq_iff,
  text_beq_iff, ◌≢◌, int_eq, text_eq,
}
use ctf_recruit.Runtime.{
  Instance, Error, RuntimeConfigRecord, InstanceRecord, ServiceConfig, is_active,
}
use ctf_recruit.Runtime.World.{Outside, World, Db, exec, query, read_clock, manager_stop}
use ctf_recruit.Runtime.Repository.{
  first, select_active, select_config, get_active_instance, update_terminated, terminate_row,
  update_renewed, renew_row, renewed, terminated,
}
use ctf_recruit.Runtime.Service.{
  load_dynamic, load_runnable, with_url, get_instance, renew_instance, delete_instance, extended,
}
use ctf_recruit.Runtime.Effects.{select_active-IsOf, IsRunning-active}
use ctf_recruit.Runtime.Found.{
  IsReliable, load_dynamic_succeeds, query_succeeds, get_instance_succeeds,
}
use ctf_recruit.Runtime.Rules.{query-IsQuiet}
use mathlib.Core.List.Memᴰ

-- A daemon that stops what it is asked to stop.
abbrev pub Stops : Outside → Type 0
Stops o = (id : Text) (s : o.State) → (o.stop id s).0 ≡ ok tt

-- The challenge can be run: it has a row of runtime configuration, an image and a port.
abbrev pub IsComplete : RuntimeConfigRecord → Type 0
IsComplete found =
    (found.id ≢ 0) × (found.challenge.image_name ≢ []) × (found.challenge.container_port ≢ pos 0)

counted :
    (p : InstanceRecord → Bool) (r : InstanceRecord) (rows : List InstanceRecord)
    → Memᴰ r rows
    → p r ≡ true
    → ltb 0 (count p rows) ≡ true
counted p r [] m h = absurd (Memᴰ.not-nil m)
counted p r (x ∷ rows) m h = elim (Bool-cases (p x)) [
  | inl yes_ ↦ rw yes_ (ground arith)
  | inr other ↦ elim (Memᴰ.cases_cons m) [
    | inl same ↦ absurd (clash (rw same at h) other)
    | inr later ↦ rw other (counted p r rows later h)
  ]
]
  where
    clash : {b : Bool} → b ≡ true → ¬ b ≡ false
    clash t f = cc

first_found :
    (p : InstanceRecord → Bool) (r : InstanceRecord) (rows : List InstanceRecord)
    → Memᴰ r rows
    → p r ≡ true
    → (a : InstanceRecord) × (first p rows ≡ some a)
unfolding first
first_found p r [] m h = absurd (Memᴰ.not-nil m)
first_found p r (x ∷ rows) m h = elim (Bool-cases (p x)) [
  | inl yes_ ↦ (x, rw yes_ refl)
  | inr other ↦ elim (Memᴰ.cases_cons m) [
    | inl same ↦ absurd (clash (rw same at h) other)
    | inr later ↦ let (a, e) = first_found p r rows later h in (a, rw other e)
  ]
]
  where
    clash : {b : Bool} → b ≡ true → ¬ b ≡ false
    clash t f = cc

update_terminated_ok :
    (r : InstanceRecord) (at : ℤ) (db : Db)
    → Memᴰ r db.instances
    → (update_terminated r.id at db).0 ≡ ok tt
unfolding update_terminated
update_terminated_ok r at db m =
    rw (counted (λ x. x.id == r.id) r db.instances m ((nat_beq_iff r.id r.id).1 refl)) refl

update_renewed_ok :
    (r : InstanceRecord) (expires : ℤ) (db : Db)
    → Memᴰ r db.instances
    → is_active r ≡ true
    → (u : InstanceRecord) × ((update_renewed r.id expires db).0 ≡ ok u)
unfolding update_renewed
update_renewed_ok r expires db m active =
    let same : (r.id == r.id) ≡ true = (nat_beq_iff r.id r.id).1 refl in
    let (a, e) =
      first_found (λ x. (x.id == r.id) && is_active x) r db.instances m (rw (same, active) refl) in
    (record a { inst = renewed (db.stamp expires) a.inst }, rw e refl)

module _ (o : Outside) (cfg : ServiceConfig) where
  exec_succeeds :
      {A : Type 0} (f : Db → Result Error A × Db) (w : World o)
      → IsReliable o
      → (exec o f w).0 ≡ (f w.db).0
  unfolding exec
  exec_succeeds f w sure = rw (sure w.out) refl

  delete_succeeds :
      (user : ℕ) (ref : Text) (found : RuntimeConfigRecord) (old : InstanceRecord) (w : World o)
      → IsReliable o
      → Stops o
      → select_config ref w.db ≡ ok found
      → found.challenge.dynamic ≡ true
      → select_active user found.challenge.id w.db ≡ ok old
      → (i : Instance) × ((delete_instance o cfg user ref w).0 ≡ ok i)
  unfolding delete_instance get_active_instance manager_stop read_clock terminate_row
  delete_succeeds user ref found old w sure stops known dynamic at =
      let (read, same) = load_dynamic_succeeds o cfg ref found w sure (known, dynamic) in
      let f : Db → Result Error InstanceRecord = select_active user found.challenge.id in
      let w₁ = (load_dynamic o cfg ref w).1 in
      let q : (query o f w₁).0 ≡ ok old = query_succeeds o cfg f w₁ sure ∙ ap f same ∙ at in
      let w₂ = (query o f w₁).1 in
      let kept : w₂.db ≡ w.db = query-IsQuiet o f w₁ ∙ same in
      let stopped = stops old.inst.container_id w₂.out in
      let s₃ = (o.stop old.inst.container_id w₂.out).1 in
      let now = (o.now s₃).0 in
      let w₄ : World o = record w₂ { out = (o.now s₃).1 } in
      let mine = select_active-IsOf user found.challenge.id w.db old at in
      let done : (exec o (update_terminated old.id now) w₄).0 ≡ ok tt =
        exec_succeeds (update_terminated old.id now) w₄ sure
        ∙ ap (λ d. (update_terminated old.id now d).0) kept
        ∙ update_terminated_ok old now w.db mine.there in
      (with_url o cfg found.challenge (terminated now old.inst), rw (read, q, stopped, done) refl)

  load_runnable_succeeds :
      (ref : Text) (found : RuntimeConfigRecord) (w : World o)
      → IsReliable o
      → select_config ref w.db ≡ ok found
      → found.challenge.dynamic ≡ true
      → IsComplete found
      → ((load_runnable o cfg ref w).0 ≡ ok found) × ((load_runnable o cfg ref w).1.db ≡ w.db)
  unfolding load_runnable
  load_runnable_succeeds ref found w sure known dynamic (row, image, port) =
      let (read, same) = load_dynamic_succeeds o cfg ref found w sure (known, dynamic) in
      let complete : ((found.id == 0)
            || (found.challenge.image_name == [])
            || (found.challenge.container_port == pos 0))
          ≡ false =
        ground (arith, nat_beq_iff found.id 0, text_beq_iff found.challenge.image_name []) in
      rw (read, complete) (refl, same)

  renew_succeeds :
      (user : ℕ) (ref : Text) (found : RuntimeConfigRecord) (old : InstanceRecord) (w : World o)
      → IsReliable o
      → select_config ref w.db ≡ ok found
      → found.challenge.dynamic ≡ true
      → IsComplete found
      → select_active user found.challenge.id w.db ≡ ok old
      → pos old.inst.renew_count <ℤ found.challenge.max_renew_count
      → (i : Instance) × ((renew_instance o cfg user ref w).0 ≡ ok i)
  unfolding renew_instance get_active_instance read_clock renew_row
  renew_succeeds user ref found old w sure known dynamic complete at below =
      let (read, same) = load_runnable_succeeds ref found w sure known dynamic complete in
      let f : Db → Result Error InstanceRecord = select_active user found.challenge.id in
      let w₁ = (load_runnable o cfg ref w).1 in
      let q : (query o f w₁).0 ≡ ok old = query_succeeds o cfg f w₁ sure ∙ ap f same ∙ at in
      let w₂ = (query o f w₁).1 in
      let kept : w₂.db ≡ w.db = query-IsQuiet o f w₁ ∙ same in
      let now = (o.now w₂.out).0 in
      let w₃ : World o = record w₂ { out = (o.now w₂.out).1 } in
      let mine = select_active-IsOf user found.challenge.id w.db old at in
      let expires = extended o cfg old.inst now found.challenge.ttl in
      let (updated, e) =
        update_renewed_ok old expires w.db mine.there (IsRunning-active old mine.running) in
      let done : (exec o (update_renewed old.id expires) w₃).0 ≡ ok updated =
        exec_succeeds (update_renewed old.id expires) w₃ sure
        ∙ ap (λ d. (update_renewed old.id expires d).0) kept
        ∙ e in
      let allowed : leb_ℤ found.challenge.max_renew_count (pos old.inst.renew_count) ≡ false =
        ground arith in
      (with_url o cfg found.challenge updated.inst, rw (read, q, allowed, done) refl)

  -- Where no statement of the database fails and the daemon stops what it is asked to stop, a user
  -- whose running instance of a dynamic challenge the service finds, where the challenge has a runtime
  -- configuration with an image and a port and the instance was renewed fewer times than the limit,
  -- gets a reply without an error from each of GetInstance, DeleteInstance and RenewInstance.
  pub calls_succeed :
      (user : ℕ) (ref : Text) (found : RuntimeConfigRecord) (old : InstanceRecord) (w : World o)
      → IsReliable o
      → Stops o
      → select_config ref w.db ≡ ok found
      → found.challenge.dynamic ≡ true
      → select_active user found.challenge.id w.db ≡ ok old
      → IsComplete found
      → pos old.inst.renew_count <ℤ found.challenge.max_renew_count
      → ((i : Instance) × ((get_instance o cfg user ref w).0 ≡ ok i))
        × ((i : Instance) × ((delete_instance o cfg user ref w).0 ≡ ok i))
        × ((i : Instance) × ((renew_instance o cfg user ref w).0 ≡ ok i))
  calls_succeed user ref found old w sure stops known dynamic at complete below = (
    (
      with_url o cfg found.challenge old.inst,
      get_instance_succeeds o cfg user ref found old w sure (known, dynamic) at,
    ),
    delete_succeeds user ref found old w sure stops known dynamic at,
    renew_succeeds user ref found old w sure known dynamic complete at below,
  )
