-- ===== src/Server/Gates.antt =====
-- backend/internal/app/server.go: what the middleware and the guards let through.
use ctf_recruit.Base.{
  ℕ, Text, true, false, ◌≡◌, ◌≢◌, refl, ◌⊎◌, inl, inr, Option, [], arith, ℤ, Result, ok, err, codes,
  Bool-cases, Result-cases, text_beq, text_beq_iff, ◌==◌, text_eq, contains,
}
use ctf_recruit.Auth.{TokenClaims}
use ctf_recruit.Auth.Token.{Codec, TokenManager, verify}
use ctf_recruit.Auth.Tokens.{Genuine, verify-Genuine}
use ctf_recruit.Contest.{Contest, Phase, build_phase, status_running}
use ctf_recruit.Contest.Laws.{plain, build_phase-Opens}
use ctf_recruit.Runtime.{ServiceConfig, Instance}
use ctf_recruit.Runtime.World
use ctf_recruit.Server.{
  Failure, failure, has_permission, bearer_token, authenticated, require_permission,
  require_contest_phase,
}
use ctf_recruit.Server.Handlers.{
  runtime_required, guarded, handle_create_instance, handle_get_instance, handle_delete_instance,
  handle_renew_instance,
}

-- Who passes `requirePermission` has sent a bearer token with the server's signature, and its role
-- has the permission.
pub require_permission-Genuine :
    (k : Codec) (m : TokenManager) (permission header : Text) (now : ℤ) (claims : TokenClaims)
    → require_permission k m permission header now ≡ ok claims
    → Genuine k m (bearer_token header) now claims × (has_permission claims.role permission ≡ true)
unfolding require_permission authenticated
require_permission-Genuine k m permission header now claims h =
    elim (Bool-cases (bearer_token header == [])) [
      | inl missing ↦ ground arith
      | inr there ↦ elim (Result-cases (verify k m (bearer_token header) now)) [
        | inr (e, bad) ↦ ground arith
        | inl (c, good) ↦ elim (Bool-cases (has_permission c.role permission)) [
          | inr lacking ↦ ground arith
          | inl has ↦
              let same : c ≡ claims = ground arith in
              rw (← same) (verify-Genuine k m (bearer_token header) now c good, has)
        ]
      ]
    ]

-- A role other than admin, ops and author, such as that of the players, has no permission, and the
-- permissions of ops and of authors are among those of admins.
pub has_permission_lem :
    (role permission : Text)
    → has_permission role permission ≡ true
    → ((role ≡ codes "admin") ⊎ (role ≡ codes "ops") ⊎ (role ≡ codes "author"))
      × (has_permission (codes "admin") permission ≡ true)
unfolding has_permission contains text_beq
has_permission_lem role permission h = ground (
  arith,
  text_beq_iff role (codes "admin"),
  text_beq_iff role (codes "ops"),
  text_beq_iff role (codes "author"),
)

runtime_gate :
    (phase : Phase)
    → phase.runtime_allowed ≡ false
    → require_contest_phase {E = Text} runtime_required (ok phase)
      ≡ err (failure 403 (codes "runtime_closed"))
unfolding require_contest_phase
runtime_gate phase shut = rw shut refl

-- Where the contest is in another state than running, the four requests of players on instances, by
-- anyone, are refused as closed and change nothing, in the tables, in the daemon and elsewhere. The
-- routes of the administration on instances do not ask for the phase and are not among these.
pub instances_closed :
    (o : World.Outside) (cfg : ServiceConfig) (c : Contest) (user : Option ℕ) (ref : Text)
    (w : World.World o)
    → plain c.status ≢ status_running
    → let phase = ok (build_phase c) in
      let closed : Result Failure (ℕ × Instance) × World.World o =
        (err (failure 403 (codes "runtime_closed")), w) in
      (handle_create_instance o cfg phase user ref w ≡ closed)
      × (handle_get_instance o cfg phase user ref w ≡ closed)
      × (handle_delete_instance o cfg phase user ref w ≡ closed)
      × (handle_renew_instance o cfg phase user ref w ≡ closed)
unfolding handle_create_instance handle_get_instance handle_delete_instance handle_renew_instance
    guarded
instances_closed o cfg c user ref w other = (refused _, refused _, refused _, refused _)
  where
    shut : (build_phase c).runtime_allowed ≡ false
    shut = elim (Bool-cases (build_phase c).runtime_allowed) [
      | inl open_ ↦ absurd (other ((build_phase-Opens c).runtime.0 open_))
      | inr closed ↦ closed
    ]

    refused :
        (next : ℕ → World.World o → Result Failure (ℕ × Instance) × World.World o)
        → guarded runtime_required (ok (build_phase c)) user next w
          ≡ (err (failure 403 (codes "runtime_closed")), w)
    refused next = rw (runtime_gate (build_phase c) shut) refl
