-- ===== src/Server/Tests.antt =====
-- Examples for backend/internal/app/server.go.
use ctf_recruit.Base.{
  ℕ, zero, suc, ◌≡◌, refl, ◌⊎◌, Text, true, false, none, some, [], pos, Result, ok, err, codes,
  text_beq, trim_space, to_lower, has_prefix, div_down, contains,
}
use ctf_recruit.Auth.Token.{Codec, TokenManager, verify}
use ctf_recruit.Auth.Tokens.{Genuine}
use ctf_recruit.Contest.{Contest, build_phase}
use ctf_recruit.RateLimit.{RateLimiter}
use ctf_recruit.Runtime.{ServiceConfig, Instance}
use ctf_recruit.Runtime.World
use ctf_recruit.Game.Store
use ctf_recruit.Server.{Failure, failure, has_permission, bearer_token, require_permission}
use ctf_recruit.Server.Handlers.{
  handle_create_instance, handle_get_instance, handle_delete_instance, handle_renew_instance,
  handle_submit_flag,
}
use ctf_recruit.Server.Gates.{require_permission-Genuine, has_permission_lem, instances_closed}
use ctf_recruit.Server.Submission.{Handled, handle_submit_flag-Handled}

-- One token, `a.b.c`, of an author.
abbrev codec : Codec
codec = record {
  mac = λ secret value. codes "c";
  encode_header = ok (codes "a");
  encode_payload = λ p. ok (codes "b");
  decode_payload =
      λ s. some (record { sub = 7; role = codes "author"; exp = pos 100; iat = pos 1 });
}

abbrev manager : TokenManager
manager = record { secret = codes "s"; ttl = pos 0 }

require_permission-Genuine_example :
    Genuine codec manager
      (bearer_token (codes "Bearer a.b.c"))
      (pos 0)
      (record { user_id = 7; role = codes "author" })
    × (has_permission (codes "author") (codes "challenge:write") ≡ true)
unfolding require_permission verify text_beq bearer_token has_prefix trim_space div_down contains
require_permission-Genuine_example =
    require_permission-Genuine codec manager (codes "challenge:write") (codes "Bearer a.b.c")
      (pos 0) (record { user_id = 7; role = codes "author" }) refl

has_permission_lem_example :
    ((codes "ops" ≡ codes "admin") ⊎ (codes "ops" ≡ codes "ops") ⊎ (codes "ops" ≡ codes "author"))
    × (has_permission (codes "admin") (codes "audit:read") ≡ true)
unfolding has_permission contains text_beq
has_permission_lem_example = has_permission_lem (codes "ops") (codes "audit:read") refl

abbrev contest : Text → Contest
contest status = record {
  id = 1;
  slug = codes "ctf";
  title = codes "CTF";
  description = codes "";
  status = status;
  starts_at = none;
  ends_at = none;
}

abbrev daemon : World.Outside
daemon = record {
  State = ℕ;
  now = λ s. (pos s, suc s);
  db_fault = λ s. (false, s);
  start = λ req s. (err (codes "no daemon"), s);
  stop = λ id s. (ok tt, s);
  exists = λ id s. (ok true, s);
  list_managed = λ s. (ok [], s);
  hostname = λ base. [];
}

abbrev service : ServiceConfig
service = record {
  public_base_url = [];
  runtime_base_url = [];
  bind_addr = [];
  port_min = pos 0;
  port_max = pos 0;
}

abbrev world : World.World daemon
world = record {
  db = record { challenges = []; instances = []; next_id = 1; stamp = λ t. t };
  out = 0;
}

abbrev closed : Result Failure (ℕ × Instance) × World.World daemon
closed = (err (failure 403 (codes "runtime_closed")), world)

instances_closed_example :
    let phase = ok (build_phase (contest (codes "frozen"))) in
    (handle_create_instance daemon service phase (some 7) (codes "web") world ≡ closed)
    × (handle_get_instance daemon service phase (some 7) (codes "web") world ≡ closed)
    × (handle_delete_instance daemon service phase (some 7) (codes "web") world ≡ closed)
    × (handle_renew_instance daemon service phase (some 7) (codes "web") world ≡ closed)
unfolding trim_space to_lower
instances_closed_example =
    instances_closed daemon service (contest (codes "frozen")) (some 7) (codes "web") world
      (λ same. cc)

abbrev game : Store.Outside
game = record {
  State = ℕ;
  now = λ s. (pos s, suc s);
  db_fault = λ s. (false, s);
  others = λ s db. db;
  Regexp = Unit {0};
  compile = λ p. none;
  match_string = λ re s. false;
  fold = λ c. c;
}

abbrev tables : Store.World game
tables = record {
  db = record {
    challenges = [];
    attachments = [];
    users = [];
    submissions = [];
    solves = [];
    next_submission = 1;
    next_solve = 1;
  };
  out = 0;
}

-- It lets three requests through.
abbrev limiter : RateLimiter ℕ Text
limiter key zero = (ok false, 0)
limiter key (suc n) = (ok true, n)

handle_submit_flag-Handled_example :
    Handled game
      (some limiter)
      (contest (codes "running"))
      (some 7)
      (codes "web")
      []
      (some (codes "flag"))
      3
      tables
      (handle_submit_flag game
        (some limiter)
        (ok (build_phase (contest (codes "running"))))
        (some 7)
        (codes "web")
        []
        (some (codes "flag"))
        (3, tables)).0
      (handle_submit_flag game
        (some limiter)
        (ok (build_phase (contest (codes "running"))))
        (some 7)
        (codes "web")
        []
        (some (codes "flag"))
        (3, tables)).1
handle_submit_flag-Handled_example =
    handle_submit_flag-Handled game (some limiter) (contest (codes "running")) (some 7)
      (codes "web") [] (some (codes "flag")) 3 tables
