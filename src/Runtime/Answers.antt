-- ===== src/Runtime/Answers.antt =====
-- backend/internal/runtime/service.go: the insertion of StartInstance, spelled out column by column.
use ctf_recruit.Base.{
  ℕ, suc, ◌<◌, Text, Bool, true, false, ◌≡◌, refl, inl, inr, none, [], ◌∷◌, ◌&&◌, arith, ℤ, pos,
  ◌+ℤ◌, ◌<ℤ◌, ◌≤ℤ◌, ok, Bool-cases, count, codes, ◌==◌, nat_eq, text_eq, text_beq,
}
use ctf_recruit.Runtime.{
  ChallengeConfig, RuntimeConfigRecord, InstanceRecord, ServiceConfig, StartedContainer, is_active,
}
use ctf_recruit.Runtime.World.{Outside, World, Db, manager_start}
use ctf_recruit.Runtime.Repository.{is_of, select_config, insert_instance, count_active}
use ctf_recruit.Runtime.Service.{new_instance, start_request, has_no_range}
use ctf_recruit.Runtime.Checks.{HasRoom, FreePort, Loaded}
use ctf_recruit.Runtime.Ports.{unused}
use ctf_recruit.Runtime.Tables.{insert_instance-Inserted}
use ctf_recruit.Runtime.Effects.{runs}

module _ (o : Outside) (cfg : ServiceConfig) where
  -- Both bounds are positive and in their order.
  abbrev pub HasRange : Type 0
  HasRange = (pos 0 <ℤ cfg.port_min) × (pos 0 <ℤ cfg.port_max) × (cfg.port_min ≤ℤ cfg.port_max)

  -- The configuration of a dynamic challenge that goes by the reference.
  abbrev pub IsConfig : Text → Db → RuntimeConfigRecord → Type 0
  IsConfig ref db found = (select_config ref db ≡ ok found) × (found.challenge.dynamic ≡ true)

  -- The daemon started the container on a request for a port: in a range, one of the range that no
  -- running row has; without a range, port 0, which leaves the choice to the daemon.
  pub record IsRequested (user : ℕ) (c : ChallengeConfig) (db : Db) (started : StartedContainer)
      : Type 0 where
    pub port : ℕ
    pub at : World o
    pub run :
        (manager_start o
          (record {
            challenge_id = c.id;
            user_id = user;
            bind_addr = cfg.bind_addr;
            host_port = port;
            config = c;
          })
          at).0
        ≡ ok started
    pub in_range :
        HasRange
        → (cfg.port_min ≤ℤ pos port)
          × (pos port ≤ℤ cfg.port_max)
          × (count (λ r. (r.inst.host_port == port) && runs r) db.instances ≡ 0)
    pub left_open : ¬ HasRange → port ≡ 0

  -- One row is new, in front of the others.
  pub record Inserts (user : ℕ) (ref : Text) (found : RuntimeConfigRecord)
      (started : StartedContainer) (now : ℤ) (db db' : Db) : Type 0 where
    pub known : IsConfig ref db found
    pub room :
        pos 0 <ℤ found.challenge.max_active_instances
        → pos (count (λ r. (r.inst.challenge_id == found.challenge.id) && runs r) db.instances)
          <ℤ found.challenge.max_active_instances
    pub alone :
        count
          (λ r. ((r.inst.user_id == user) && (r.inst.challenge_id == found.challenge.id)) && runs r)
          db.instances
        ≡ 0
    pub requested : IsRequested user found.challenge db started
    pub instances :
        db'.instances
        ≡ record {
          id = db.next_id;
          runtime_config_id = found.id;
          inst = record {
            challenge_id = found.challenge.id;
            user_id = user;
            status = codes "running";
            access_url = [];
            host_port = started.host_port;
            renew_count = 0;
            started_at = db.stamp now;
            expires_at = db.stamp (now +ℤ found.challenge.ttl);
            terminated_at = none;
            container_id = started.container_id;
            container_name = started.container_name;
            host_ip = started.host_ip;
          };
        }
          ∷ db.instances
    pub challenges : db'.challenges ≡ db.challenges
    pub next_id : db'.next_id ≡ suc db.next_id

  range_lem : HasRange → has_no_range o cfg ≡ false
  range_lem (low, high, order) = ground arith

  no_range_lem : ¬ HasRange → has_no_range o cfg ≡ true
  no_range_lem none_ = elim (Bool-cases (has_no_range o cfg)) [
    | inl off ↦ off
    | inr on ↦ absurd (none_ (ground arith, ground arith, ground arith))
  ]

  FreePort-IsRequested :
      (user : ℕ) (c : ChallengeConfig) (db : Db) (started : StartedContainer)
      → FreePort o cfg user c db started
      → IsRequested user c db started
  unfolding start_request is_active
  FreePort-IsRequested user c db started (ranged, open_) = elim (Bool-cases (has_no_range o cfg)) [
    | inl off ↦
        let (w, run) = open_ off in
        record {
          port = 0;
          at = w;
          run = run;
          in_range = λ r. absurd (clash off (range_lem r));
          left_open = λ _. refl;
        }
    | inr on ↦
        let (p, w, above, below, free, run) = ranged on in
        let positive : 0 < p = ground arith in
        record {
          port = p;
          at = w;
          run = run;
          in_range = λ r. (ground arith, ground arith, unused p db.instances positive free);
          left_open = λ n. absurd (clash (no_range_lem n) on);
        }
  ]
    where
      clash : {b : Bool} → b ≡ true → ¬ b ≡ false
      clash t f = cc

  pub insert_instance-Inserts :
      (user : ℕ) (ref : Text) (found : RuntimeConfigRecord) (started : StartedContainer) (now : ℤ)
      (saved : InstanceRecord) (db db' : Db)
      → Loaded o cfg ref db found
      → HasRoom o cfg db found.challenge
      → FreePort o cfg user found.challenge db started
      → insert_instance found.id (new_instance o cfg user found.challenge started now) db
        ≡ (ok saved, db')
      → Inserts user ref found started now db db'
  unfolding new_instance is_active is_of count_active text_beq
  insert_instance-Inserts user ref found started now saved db db' loaded room free h =
      let i = new_instance o cfg user found.challenge started now in
      let ins = insert_instance-Inserted found.id i db db' saved h in
      record {
        known = loaded;
        room = λ limited. room (ground arith);
        alone = ins.alone refl;
        requested = FreePort-IsRequested user found.challenge db started free;
        instances = ins.rows;
        challenges = ins.challenges;
        next_id = ins.next;
      }
