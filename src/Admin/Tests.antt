-- ===== src/Admin/Tests.antt =====
-- Examples for backend/internal/admin/service.go: a challenge with one author and one instance.
use Prim.Native.Nat.{ℕ}
use ctf_recruit.Base.{
  ◌≡◌, refl, Text, true, false, ◌&&◌, none, some, List, [], ◌∷◌, ℤ, pos, negsuc, ok, codes, ltb,
  contains, int_eq, text_beq,
}
use ctf_recruit.Game.Store
use ctf_recruit.Game.Scoreboard.{sort}
use ctf_recruit.Admin.{Actor, ChallengeAuthor, UpsertChallengeInput, CreateAttachmentInput}
use ctf_recruit.Admin.World.{Outside, World, exec, query, transaction, finish}
use ctf_recruit.Admin.Store.{
  owns, select_authors, select_candidate, bind_author, clear_authors, first,
}
use ctf_recruit.Admin.Repository.{
  get_challenge, list_challenge_authors, update_challenge_authors, ensure_candidates,
  set_challenge_authors, bind_all,
}
use ctf_recruit.Admin.Records.{create_audit_log, insert_audit_log}
use ctf_recruit.Admin.Rules.{IsRefusal}
use ctf_recruit.Admin.Service.{
  distinct_ids, service_update_challenge, service_update_authors, service_create_attachment,
  service_attachment, service_terminate_instance,
}
use ctf_recruit.Admin.Ownership.{outsider-IsRefusal}
use ctf_recruit.Admin.Replaced.{AuthorsSet, service_update_authors-AuthorsSet}
use ctf_recruit.Admin.Ended.{Terminated, service_terminate_instance-Terminated}

-- A database that answers, and containers that stop.
abbrev outside : Outside
outside = record {
  State = Unit {0};
  now = λ s. (pos 9, s);
  db_now = λ s. pos 8;
  db_fault = λ s. (false, s);
  stop = some (λ id s. (true, s));
  write_file = λ challenge at name body s. (some name, s);
  remove_file = λ path s. s;
}

abbrev game : Store.Outside
game = record {
  State = Unit {0};
  now = λ s. (pos 0, s);
  db_fault = λ s. (false, s);
  others = λ s db. db;
  Regexp = Unit {0};
  compile = λ pattern. none;
  match_string = λ re s. false;
  fold = λ c. c;
}

abbrev world : World outside
world = record {
  db = record {
    contests = codes "recruit-2025" ∷ [];
    categories = codes "web" ∷ [];
    roles = codes "admin" ∷ codes "author" ∷ [];
    challenges =
        record {
          id = 1;
          slug = codes "s";
          title = codes "S";
          category = codes "web";
          description = [];
          points = pos 100;
          difficulty = codes "easy";
          flag_type = codes "static";
          flag_value = codes "flag";
          dynamic_enabled = true;
          status = codes "draft";
          visible = false;
          sort_order = pos 1;
        }
        ∷ [];
    runtime_configs = [];
    authors = record { challenge_id = 1; user_id = 5; created_at = pos 1 } ∷ [];
    users =
        record {
          id = 5;
          role = codes "author";
          username = codes "ann";
          email = codes "a@x";
          display_name = codes "Ann";
          status = codes "active";
          last_login_at = none;
          created_at = pos 0;
        }
        ∷ record {
          id = 6;
          role = codes "author";
          username = codes "ben";
          email = codes "b@x";
          display_name = codes "Ben";
          status = codes "active";
          last_login_at = none;
          created_at = pos 0;
        }
        ∷ [];
    attachments = [];
    announcements = [];
    instances =
        record {
          id = 3;
          challenge_id = 1;
          user_id = 6;
          status = codes "running";
          host_port = 8001;
          expires_at = pos 50;
          terminated_at = none;
          container_id = codes "c";
        }
        ∷ [];
    audit_logs = [];
    next_challenge = 2;
    next_attachment = 1;
    next_announcement = 1;
  };
  out = tt;
}

abbrev ben : Actor
ben = record { user_id = 6; role = codes "author" }

abbrev administrator : Actor
administrator = record { user_id = 9; role = codes "admin" }

outsider-IsRefusal_example :
    IsRefusal outside world.db (get_challenge outside ben 1 world)
    × ((input : UpsertChallengeInput)
        → IsRefusal outside world.db (service_update_challenge outside game ben 1 input world))
    × IsRefusal outside world.db (list_challenge_authors outside ben 1 world)
    × ((ids : List ℤ)
        → IsRefusal outside world.db (service_update_authors outside game ben 1 ids world))
    × ((input : CreateAttachmentInput) (body : Text)
        → IsRefusal outside world.db
            (service_create_attachment outside game ben 1 input body world))
    × ((id : ℕ) → IsRefusal outside world.db (service_attachment outside game ben 1 id world))
unfolding owns
outsider-IsRefusal_example = outsider-IsRefusal outside game ben 1 world refl refl

-- The ids that are given, and the reply.
abbrev given : List ℤ
given = pos 6 ∷ negsuc 0 ∷ pos 6 ∷ []

abbrev reply : List ChallengeAuthor
reply =
    record {
      user_id = 6;
      username = codes "ben";
      email = codes "b@x";
      display_name = codes "Ben";
      role = codes "author";
    }
    ∷ []

service_update_authors-AuthorsSet_example :
    let db' = (service_update_authors outside game administrator 1 given world).1.db in
    (codes "admin" ≡ codes "admin")
    × ((u : ℕ) → (ltb 0 u && contains given (pos u)) ≡ true → select_candidate u world.db ≡ ok tt)
    × AuthorsSet 1 given world.db db'
    × (reply ≡ select_authors 1 db')
unfolding service_update_authors distinct_ids update_challenge_authors ensure_candidates transaction
    finish set_challenge_authors bind_all bind_author clear_authors owns exec query select_candidate
    select_authors first create_audit_log insert_audit_log contains text_beq sort
service_update_authors-AuthorsSet_example =
    service_update_authors-AuthorsSet outside game administrator 1 given world reply refl

service_terminate_instance-Terminated_example :
    Terminated outside 3 world.db
      (service_terminate_instance outside game 9 3 world).0
      (service_terminate_instance outside game 9 3 world).1.db
service_terminate_instance-Terminated_example =
    service_terminate_instance-Terminated outside game 9 3 world
