-- ===== src/Importer/NormalRuntime.antt =====
-- backend/internal/challengeimport/importer.go: which runtime sections NormalizeSpec returns.
use ctf_recruit.Base.{
  Text, Bool, true, false, ◌≡◌, refl, sym, ap, ◌∙◌, subst, inl, inr, ◌⊎◌, not, Option, none, some,
  [], pos, ◌<ℤ◌, ◌≤ℤ◌, ltb_ℤ, leb_ℤ, ok, codes, trim_space, to_lower, ◌==◌, text_eq, if◌then◌else◌,
  text_beq, text_beq_iff, arith, trim_left, is_space, lower_code,
}
use ctf_recruit.Runtime.Rules.{ok_injective}
use ctf_recruit.Importer.{
  ChallengeRuntime, mode_unsupported, protocol_unsupported, image_missing, port_not_positive,
  ttl_not_positive, renew_negative, active_negative, cooldown_negative,
}
use ctf_recruit.Importer.Normal.{
  is_protocol, mode_of, protocol_of, or_empty, cleaned_runtime, normalize_runtime,
}
use ctf_recruit.Importer.NormalMeta.{guard_inv, IsName, trim_space-IsName, IsName-given}

-- One of the four protocols.
abbrev pub IsProtocol : Text → Type 0
IsProtocol p = (p ≡ codes "http") ⊎ (p ≡ codes "https") ⊎ (p ≡ codes "tcp") ⊎ (p ≡ codes "udp")

abbrev pub IsGiven : {A : Type 0} → Option A → Type 0
IsGiven {A} o = (a : A) × (o ≡ some a)

pub record IsNormalRuntime (r : ChallengeRuntime) : Type 0 where
  pub image : IsName r.image_name
  pub mode : r.mode ≡ codes "per-user"
  pub protocol : IsProtocol r.exposed_protocol
  pub port : pos 0 <ℤ r.container_port
  pub ttl : pos 0 <ℤ r.ttl
  pub memory : pos 0 <ℤ r.memory_limit_mb
  pub cpu : pos 0 <ℤ r.cpu_milli
  pub renewals : pos 0 ≤ℤ r.max_renew_count
  pub active : pos 0 ≤ℤ r.max_active_instances
  pub cooldown : pos 0 ≤ℤ r.user_cooldown
  pub env : IsGiven r.env
  pub command : IsGiven r.command
  pub enabled : r.enabled ≡ true

is_protocol-IsProtocol : (p : Text) → is_protocol p ≡ true → IsProtocol p
unfolding text_beq
is_protocol-IsProtocol p h = ground (
  arith,
  text_beq_iff p (codes "http"),
  text_beq_iff p (codes "https"),
  text_beq_iff p (codes "tcp"),
  text_beq_iff p (codes "udp"),
)

or_empty-IsGiven : {A : Type 0} (empty : A) (o : Option A) → IsGiven (or_empty empty o)
or_empty-IsGiven empty none = (empty, refl)
or_empty-IsGiven empty (some a) = (a, refl)

pub normalize_runtime-IsNormalRuntime :
    (r t : ChallengeRuntime) → normalize_runtime r ≡ ok t → IsNormalRuntime t
unfolding normalize_runtime
normalize_runtime-IsNormalRuntime r t h =
    let (mode, h1) =
      guard_inv (not (mode_of r == codes "per-user")) (mode_unsupported r.mode) _ t h in
    let (protocol, h2) =
      guard_inv (not (is_protocol (protocol_of r))) (protocol_unsupported r.exposed_protocol) _ t
        h1 in
    let (image, h3) = guard_inv (trim_space r.image_name == []) image_missing _ t h2 in
    let (port, h4) = guard_inv (leb_ℤ r.container_port (pos 0)) port_not_positive _ t h3 in
    let (ttl, h5) = guard_inv (leb_ℤ r.ttl (pos 0)) ttl_not_positive _ t h4 in
    let (renewals, h6) = guard_inv (ltb_ℤ r.max_renew_count (pos 0)) renew_negative _ t h5 in
    let (active, h7) = guard_inv (ltb_ℤ r.max_active_instances (pos 0)) active_negative _ t h6 in
    let (cooldown, h8) = guard_inv (ltb_ℤ r.user_cooldown (pos 0)) cooldown_negative _ t h7 in
    let cleaned : IsNormalRuntime (cleaned_runtime r) = record {
      image = trim_space-IsName r.image_name image;
      mode = (text_beq_iff (mode_of r) (codes "per-user")).0 (not_not _ mode);
      protocol = is_protocol-IsProtocol (protocol_of r) (not_not _ protocol);
      port = ground arith;
      ttl = ground arith;
      memory = ground arith;
      cpu = ground arith;
      renewals = ground arith;
      active = ground arith;
      cooldown = ground arith;
      env = or_empty-IsGiven [] r.env;
      command = or_empty-IsGiven [] r.command;
      enabled = refl;
    } in
    subst IsNormalRuntime (ok_injective h8) cleaned
  where
    not_not : (b : Bool) → not b ≡ false → b ≡ true
    not_not true e = refl
    not_not false e = sym e

protocol_of-same :
    (r : ChallengeRuntime)
    → IsProtocol r.exposed_protocol
    → (protocol_of r ≡ r.exposed_protocol) × (is_protocol r.exposed_protocol ≡ true)
unfolding text_beq trim_space trim_left is_space to_lower lower_code
protocol_of-same r (inl e) = (rw e refl, rw e refl)
protocol_of-same r (inr (inl e)) = (rw e refl, rw e refl)
protocol_of-same r (inr (inr (inl e))) = (rw e refl, rw e refl)
protocol_of-same r (inr (inr (inr e))) = (rw e refl, rw e refl)

mode_of-same : (r : ChallengeRuntime) → r.mode ≡ codes "per-user" → mode_of r ≡ codes "per-user"
unfolding text_beq trim_space trim_left is_space to_lower lower_code
mode_of-same r e = rw e refl

or_empty-same : {A : Type 0} (empty : A) (o : Option A) → IsGiven o → or_empty empty o ≡ o
or_empty-same empty none (a, e) = absurd (cc)
or_empty-same empty (some a) given = refl

cleaned_runtime-same : (r : ChallengeRuntime) → IsNormalRuntime r → cleaned_runtime r ≡ r
cleaned_runtime-same r n =
    let mode = mode_of-same r n.mode ∙ sym n.mode in
    let (protocol, _) = protocol_of-same r n.protocol in
    let memory : (if leb_ℤ r.memory_limit_mb (pos 0) then pos 256 else r.memory_limit_mb)
        ≡ r.memory_limit_mb =
      let m = n.memory in ground arith in
    let cpu : (if leb_ℤ r.cpu_milli (pos 0) then pos 500 else r.cpu_milli) ≡ r.cpu_milli =
      let c = n.cpu in ground arith in
    let env = or_empty-same [] r.env n.env in
    let command = or_empty-same [] r.command n.command in
    λ i. record r {
      image_name = n.image.0 i;
      mode = mode i;
      exposed_protocol = protocol i;
      memory_limit_mb = memory i;
      cpu_milli = cpu i;
      env = env i;
      command = command i;
      enabled = sym n.enabled i;
    }

pub normalize_runtime-same : (r : ChallengeRuntime) → IsNormalRuntime r → normalize_runtime r ≡ ok r
unfolding normalize_runtime text_beq
normalize_runtime-same r n =
    let (protocol, known) = protocol_of-same r n.protocol in
    let per_user : (mode_of r == codes "per-user") ≡ true =
      (text_beq_iff (mode_of r) (codes "per-user")).1 (mode_of-same r n.mode) in
    let spoken : is_protocol (protocol_of r) ≡ true = ap is_protocol protocol ∙ known in
    let port : leb_ℤ r.container_port (pos 0) ≡ false = let p = n.port in ground arith in
    let ttl : leb_ℤ r.ttl (pos 0) ≡ false = let p = n.ttl in ground arith in
    let renewals : ltb_ℤ r.max_renew_count (pos 0) ≡ false = let p = n.renewals in ground arith in
    let active : ltb_ℤ r.max_active_instances (pos 0) ≡ false = let p = n.active in ground arith in
    let cooldown : ltb_ℤ r.user_cooldown (pos 0) ≡ false = let p = n.cooldown in ground arith in
    rw (per_user, spoken, IsName-given r.image_name n.image, port, ttl, renewals, active, cooldown)
      (ap (λ x. ok x) (cleaned_runtime-same r n))
