-- ===== src/Auth/Tokens.antt =====
-- backend/internal/auth/jwt.go: which tokens Verify accepts.
use ctf_recruit.Base.{
  ℕ, Text, true, false, ◌≡◌, refl, sym, ap, ◌∙◌, inl, inr, some, List, [], ◌∷◌, ◌++◌, arith, ℤ,
  ◌+ℤ◌, leb_ℤ, ok, err, Option-cases, Bool-cases, ◌==◌, nat_eq, text_eq, text_beq_iff, nat_beq_iff,
  if◌then◌else◌, contains,
}
use ctf_recruit.Runtime.Rules.{ok_injective}
use ctf_recruit.Auth.{token_expired, TokenClaims, TokenPayload}
use ctf_recruit.Auth.Token.{
  Codec, TokenManager, unix, dot, push_first, split_dots, sign, on_parts, verify,
}

-- No dot is in the text.
abbrev pub NoDot : Text → Type 0
NoDot s = contains s b'.' ≡ false

split_dots-part : (s rest : Text) → NoDot s → split_dots (s ++ (dot ++ rest)) ≡ s ∷ split_dots rest
unfolding split_dots contains
split_dots-part [] rest clean = refl
split_dots-part (c ∷ s) rest clean =
    let here : (c == b'.') ≡ false = ground (arith, nat_beq_iff c b'.', nat_beq_iff b'.' c) in
    let tail = split_dots-part s rest (ground arith) in rw (here, tail) refl

split_dots-last : (s : Text) → NoDot s → split_dots s ≡ s ∷ []
unfolding split_dots contains
split_dots-last [] clean = refl
split_dots-last (c ∷ s) clean =
    let here : (c == b'.') ≡ false = ground (arith, nat_beq_iff c b'.', nat_beq_iff b'.' c) in
    let tail = split_dots-last s (ground arith) in rw (here, tail) refl

append_assoc : (a b c : Text) → (a ++ b) ++ c ≡ a ++ (b ++ c)
append_assoc [] b c = refl
append_assoc (x ∷ a) b c = ap (λ s. x ∷ s) (append_assoc a b c)

regroup : (a b c : Text) → (a ++ dot ++ b) ++ dot ++ c ≡ a ++ (dot ++ (b ++ (dot ++ c)))
regroup [] b c = ap (λ s. b'.' ∷ s) (append_assoc b dot c)
regroup (x ∷ a) b c = ap (λ s. x ∷ s) (regroup a b c)

split_dots-three :
    (a b c : Text)
    → NoDot a
    → NoDot b
    → NoDot c
    → split_dots ((a ++ dot ++ b) ++ dot ++ c) ≡ a ∷ b ∷ c ∷ []
split_dots-three a b c no_a no_b no_c =
    ap split_dots (regroup a b c)
    ∙ split_dots-part a (b ++ (dot ++ c)) no_a
    ∙ ap (λ ps. a ∷ ps) (split_dots-part b c no_b)
    ∙ ap (λ ps. a ∷ b ∷ ps) (split_dots-last c no_c)

-- The inverse of the split.
join_dots : List Text → Text
join_dots [] = []
join_dots (p ∷ []) = p
join_dots (p ∷ q ∷ ps) = p ++ (dot ++ join_dots (q ∷ ps))

join_dots-push_first :
    (c : ℕ) (p : Text) (ps : List Text) → join_dots (push_first c (p ∷ ps)) ≡ c ∷ join_dots (p ∷ ps)
unfolding join_dots
join_dots-push_first c p [] = refl
join_dots-push_first c p (q ∷ ps) = refl

split_dots_some : (s : Text) → (p : Text) × (ps : List Text) × (split_dots s ≡ p ∷ ps)
unfolding split_dots
split_dots_some [] = ([], [], refl)
split_dots_some (c ∷ s) =
    let (p, ps, e) = split_dots_some s in
    elim (Bool-cases (c == b'.')) [
      | inl at ↦ ([], split_dots s, rw at refl)
      | inr other ↦ (c ∷ p, ps, rw (other, e) refl)
    ]

join_dots-split_dots : (s : Text) → join_dots (split_dots s) ≡ s
unfolding split_dots join_dots
join_dots-split_dots [] = refl
join_dots-split_dots (c ∷ s) =
    let (p, ps, e) = split_dots_some s in
    let tail : join_dots (p ∷ ps) ≡ s = ap join_dots (sym e) ∙ join_dots-split_dots s in
    elim (Bool-cases (c == b'.')) [
      | inl at ↦
          let is_dot : b'.' ≡ c = sym ((nat_beq_iff c b'.').0 at) in
          rw (at, e) (ap (λ t. b'.' ∷ t) tail ∙ ap (λ x. x ∷ s) is_dot)
      | inr other ↦ rw (other, e) (join_dots-push_first c p ps ∙ ap (λ t. c ∷ t) tail)
    ]

-- What the encodings and the signature do: a payload is decoded to what was encoded, and base64url
-- has no dot.
pub record IsCodec (k : Codec) : Type 0 where
  pub header : Text
  pub payload : TokenPayload → Text
  pub encoded_header : k.encode_header ≡ ok header
  pub encoded_payload : (p : TokenPayload) → k.encode_payload p ≡ ok (payload p)
  pub decoded : (p : TokenPayload) → k.decode_payload (payload p) ≡ some p
  pub clean_header : NoDot header
  pub clean_payload : (p : TokenPayload) → NoDot (payload p)
  pub clean_mac : (secret value : Text) → NoDot (k.mac secret value)

-- The text and the end of the token that is signed.
pub sign_ok :
    (k : Codec) (m : TokenManager) (claims : TokenClaims) (now : ℤ) (codec : IsCodec k)
    → let p : TokenPayload = record {
      sub = claims.user_id;
      role = claims.role;
      exp = unix (now +ℤ m.ttl);
      iat = unix now;
    } in
      let value = codec.header ++ dot ++ codec.payload p in
      sign k m claims now ≡ ok (value ++ dot ++ k.mac m.secret value, now +ℤ m.ttl)
unfolding sign
sign_ok k m claims now codec =
    rw
      (
        codec.encoded_header,
        codec.encoded_payload (record {
          sub = claims.user_id;
          role = claims.role;
          exp = unix (now +ℤ m.ttl);
          iat = unix now;
        }),
      )
      refl

-- What is signed is accepted while it is valid, with the claims that were signed, and refused as
-- expired from the second of its end on.
pub verify-sign :
    (k : Codec) (m : TokenManager) (claims : TokenClaims) (now later expires : ℤ) (token : Text)
    → IsCodec k
    → sign k m claims now ≡ ok (token, expires)
    → (expires ≡ now +ℤ m.ttl)
      × (verify k m token later
          ≡ (if leb_ℤ (unix expires) (unix later) then err token_expired else ok claims))
unfolding sign verify
verify-sign k m claims now later expires token codec signed =
    let p : TokenPayload = record {
      sub = claims.user_id;
      role = claims.role;
      exp = unix (now +ℤ m.ttl);
      iat = unix now;
    } in
    let value = codec.header ++ dot ++ codec.payload p in
    let made = sign_ok k m claims now codec in
    let both = ok_injective (sym made ∙ signed) in
    let ends : now +ℤ m.ttl ≡ expires = ap (λ (x : Text × ℤ). x.1) both in
    let text : value ++ dot ++ k.mac m.secret value ≡ token = ap (λ (x : Text × ℤ). x.0) both in
    let parts =
      split_dots-three codec.header (codec.payload p) (k.mac m.secret value) codec.clean_header
        (codec.clean_payload p) (codec.clean_mac m.secret value) in
    (
      sym ends,
      rw
          (
            ← text,
            ← ends,
            parts,
            (text_beq_iff (k.mac m.secret value) (k.mac m.secret value)).1 refl,
            codec.decoded p,
          )
          refl,
    )

-- A token of the server: three parts, the last the signature of the first two under its secret, and
-- the second the encoding of the claims, whose end is not reached.
pub record Genuine (k : Codec) (m : TokenManager) (token : Text) (now : ℤ) (claims : TokenClaims)
    : Type 0 where
  pub header : Text
  pub payload : Text
  pub content : TokenPayload
  pub signed :
      token ≡ header ++ (dot ++ (payload ++ (dot ++ k.mac m.secret (header ++ dot ++ payload))))
  pub decoded : k.decode_payload payload ≡ some content
  pub valid : leb_ℤ content.exp (unix now) ≡ false
  pub carries : claims ≡ record { user_id = content.sub; role = content.role }

on_parts-Genuine :
    (k : Codec) (m : TokenManager) (token : Text) (now : ℤ) (claims : TokenClaims)
    (parts : List Text)
    → split_dots token ≡ parts
    → on_parts k m now parts ≡ ok claims
    → Genuine k m token now claims
unfolding join_dots
on_parts-Genuine k m token now claims (header ∷ payload ∷ signature ∷ []) e h =
    let right : (signature == k.mac m.secret (header ++ dot ++ payload)) ≡ true = ground arith in
    let same = (text_beq_iff signature (k.mac m.secret (header ++ dot ++ payload))).0 right in
    elim (Option-cases (k.decode_payload payload)) [
      | inl broken ↦ ground arith
      | inr (p, decoded) ↦ record {
        header = header;
        payload = payload;
        content = p;
        signed =
            sym (join_dots-split_dots token)
            ∙ ap join_dots e
            ∙ ap (λ s. header ++ (dot ++ (payload ++ (dot ++ s)))) same;
        decoded = decoded;
        valid = ground arith;
        carries = ground arith;
      }
    ]
on_parts-Genuine k m token now claims [] e h = cc
on_parts-Genuine k m token now claims (a ∷ []) e h = cc
on_parts-Genuine k m token now claims (a ∷ b ∷ []) e h = cc
on_parts-Genuine k m token now claims (a ∷ b ∷ c ∷ d ∷ ps) e h = cc

-- Whatever text is accepted is a token that carries the server's signature, and the claims are those
-- that were signed.
pub verify-Genuine :
    (k : Codec) (m : TokenManager) (token : Text) (now : ℤ) (claims : TokenClaims)
    → verify k m token now ≡ ok claims
    → Genuine k m token now claims
unfolding verify
verify-Genuine k m token now claims h =
    on_parts-Genuine k m token now claims (split_dots token) refl h
