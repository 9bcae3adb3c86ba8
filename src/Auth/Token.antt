-- ===== src/Auth/Token.antt =====
-- backend/internal/auth/jwt.go: the token manager. Readings of the clock are arguments.
use ctf_recruit.Base.{
  ℕ, Text, not, Option, none, some, List, [], ◌∷◌, ◌++◌, ℤ, ◌+ℤ◌, leb_ℤ, div_down, second, Result,
  ok, err, codes, ◌>>=◌, ◌==◌, nat_eq, text_eq, if◌then◌else◌,
}
use ctf_recruit.Auth.{Error, token_invalid, token_expired, TokenClaims, TokenPayload}

-- HMAC-SHA256 of a text under a secret, in base64url; the encodings of the header and of a payload
-- (JSON in base64url), and the decoding of a payload.
pub record Codec : Type 0 where
  pub mac : Text → Text → Text
  pub encode_header : Result Error Text
  pub encode_payload : TokenPayload → Result Error Text
  pub decode_payload : Text → Option TokenPayload

pub record TokenManager : Type 0 where
  pub secret : Text
  pub ttl : ℤ

-- time.Time.Unix
abbrev pub unix : ℤ → ℤ
unix t = div_down t second

abbrev pub dot : Text
dot = codes "."

abbrev pub push_first : ℕ → List Text → List Text
push_first c [] = (c ∷ []) ∷ []
push_first c (p ∷ ps) = (c ∷ p) ∷ ps

-- strings.Split(s, ".")
unfoldable pub split_dots : Text → List Text
split_dots [] = [] ∷ []
split_dots (c ∷ s) = let rest = split_dots s in if c == b'.' then [] ∷ rest else push_first c rest

module _ (k : Codec) (m : TokenManager) where
  unfoldable pub sign : TokenClaims → ℤ → Result Error (Text × ℤ)
  sign claims now = do
    header ← k.encode_header
    payload ← k.encode_payload (record {
      sub = claims.user_id;
      role = claims.role;
      exp = unix (now +ℤ m.ttl);
      iat = unix now;
    })
    ok (
      (header ++ dot ++ payload) ++ dot ++ k.mac m.secret (header ++ dot ++ payload),
      now +ℤ m.ttl,
    )

  -- The payload of a token whose signature is right.
  abbrev pub on_payload : ℤ → Option TokenPayload → Result Error TokenClaims
  on_payload now none = err token_invalid
  on_payload now (some p) =
      if leb_ℤ p.exp (unix now)
      then err token_expired
      else ok (record { user_id = p.sub; role = p.role })

  abbrev pub on_parts : ℤ → List Text → Result Error TokenClaims
  on_parts now (header ∷ payload ∷ signature ∷ []) =
      if not (signature == k.mac m.secret (header ++ dot ++ payload))
      then err token_invalid
      else on_payload now (k.decode_payload payload)
  on_parts now other = err token_invalid

  unfoldable pub verify : Text → ℤ → Result Error TokenClaims
  unfolding split_dots
  verify token now = on_parts now (split_dots token)
