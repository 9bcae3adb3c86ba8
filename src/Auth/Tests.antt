-- ===== src/Auth/Tests.antt =====
-- Examples for backend/internal/auth/jwt.go and backend/internal/auth/service.go, with an encoding whose texts are lists of numbers.
use ctf_recruit.Base.{
  ℕ, ◌+◌, ◌-◌, ◌≡◌, refl, Text, Option, none, some, [], ◌∷◌, ◌++◌, ℤ, pos, negsuc, ◌+ℤ◌, ok, arith,
  codes, contains, div_down, text_beq, text_beq_iff, trim_space, trim_left, is_space, to_lower,
  lower_code, false, inr, if◌then◌else◌, map, ◌==◌, nat_eq,
}
use ctf_recruit.Auth.{User, TokenClaims, TokenPayload, RegisterInput, LoginInput, AuthResult}
use ctf_recruit.Auth.Users.{Outside, World, exec, create_user, insert_user}
use ctf_recruit.Auth.Service.{register, login, hash_password, issue_token, read_clock, lift}
use ctf_recruit.Auth.Answered.{LoginAnswered, login-Answered}
use ctf_recruit.Auth.Registered.{ChecksHashes, Opens, register-login}
use ctf_recruit.Auth.Token.{Codec, TokenManager, sign, verify, dot}
use ctf_recruit.Auth.Tokens.{IsCodec, Genuine, verify-sign, verify-Genuine, NoDot}

-- Numbers above the code points of the dot stand for themselves.
abbrev shift : ℕ → ℕ
shift n = n + 100

abbrev int_codes : ℤ → Text
int_codes (pos n) = 100 ∷ shift n ∷ []
int_codes (negsuc n) = 101 ∷ shift n ∷ []

abbrev int_of : ℕ → ℕ → ℤ
int_of sign n = if sign == 100 then pos (n - 100) else negsuc (n - 100)

abbrev decode : Text → Option TokenPayload
decode (sub ∷ s ∷ exp ∷ s' ∷ iat ∷ role) = some (record {
  sub = sub - 100;
  role = map (λ n. n - 100) role;
  exp = int_of s exp;
  iat = int_of s' iat;
})
decode other = none

abbrev encode : TokenPayload → Text
encode p = shift p.sub ∷ (int_codes p.exp ++ (int_codes p.iat ++ map shift p.role))

abbrev codec : Codec
codec = record {
  mac = λ secret value. map shift (secret ++ value);
  encode_header = ok (codes "header");
  encode_payload = λ p. ok (encode p);
  decode_payload = decode;
}

map-shift : (s : Text) → map (λ n. n - 100) (map shift s) ≡ s
map-shift [] = refl
map-shift (c ∷ s) = ground (arith, map-shift s)

shift-NoDot : (s : Text) → NoDot (map shift s)
unfolding contains
shift-NoDot [] = refl
shift-NoDot (c ∷ s) = ground (arith, shift-NoDot s)

int_of-int_codes : (n : ℕ) → (int_of 100 (shift n) ≡ pos n) × (int_of 101 (shift n) ≡ negsuc n)
int_of-int_codes n = ground arith

decode-encode : (p : TokenPayload) → decode (encode p) ≡ some p
decode-encode p = go p.sub p.role p.exp p.iat
  where
    go :
        (sub : ℕ) (role : Text) (exp iat : ℤ)
        → let q : TokenPayload = record { sub = sub; role = role; exp = exp; iat = iat } in
          decode (encode q) ≡ some q
    go sub role (pos e) (pos i) = ground (arith, map-shift role)
    go sub role (pos e) (negsuc i) = ground (arith, map-shift role)
    go sub role (negsuc e) (pos i) = ground (arith, map-shift role)
    go sub role (negsuc e) (negsuc i) = ground (arith, map-shift role)

int_codes-NoDot : (i : ℤ) (s : Text) → NoDot s → NoDot (int_codes i ++ s)
unfolding contains
int_codes-NoDot (pos n) s clean = ground arith
int_codes-NoDot (negsuc n) s clean = ground arith

encode-NoDot : (p : TokenPayload) → NoDot (encode p)
unfolding contains
encode-NoDot p =
    let tail = int_codes-NoDot p.iat (map shift p.role) (shift-NoDot p.role) in
    let rest = int_codes-NoDot p.exp (int_codes p.iat ++ map shift p.role) tail in ground arith

codec-IsCodec : IsCodec codec
unfolding contains
codec-IsCodec = record {
  header = codes "header";
  payload = encode;
  encoded_header = refl;
  encoded_payload = λ p. refl;
  decoded = decode-encode;
  clean_header = refl;
  clean_payload = encode-NoDot;
  clean_mac = λ secret value. shift-NoDot (secret ++ value);
}

abbrev manager : TokenManager
manager = record { secret = codes "s"; ttl = pos 60000000000 }

abbrev claims : TokenClaims
claims = record { user_id = 7; role = codes "player" }

-- The token of these claims at 1 s.
abbrev payload : TokenPayload
payload = record { sub = 7; role = codes "player"; exp = pos 61; iat = pos 1 }

abbrev value : Text
value = codes "header" ++ dot ++ encode payload

abbrev token : Text
token = value ++ dot ++ map shift (codes "s" ++ value)

verify-sign_example :
    (pos 61000000000 ≡ pos 1000000000 +ℤ pos 60000000000)
    × (verify codec manager token (pos 2000000000) ≡ ok claims)
unfolding sign ◌+ℤ◌ div_down
verify-sign_example =
    verify-sign codec manager claims (pos 1000000000) (pos 2000000000) (pos 61000000000) token
      codec-IsCodec refl

verify-Genuine_example : Genuine codec manager token (pos 2000000000) claims
unfolding verify div_down text_beq
verify-Genuine_example = verify-Genuine codec manager token (pos 2000000000) claims refl

-- A database that answers, and a hash that can be read back.
abbrev outside : Outside
outside = record {
  State = Unit {0};
  now = λ s. (pos 1000000000, s);
  db_fault = λ s. (false, s);
  row = λ s. 0;
  hash = λ password s. (ok (map shift password), s);
  check = λ hash password. text_beq hash (map shift password);
}

outside-ChecksHashes : ChecksHashes outside codec manager
outside-ChecksHashes password hash s h = (text_beq_iff hash (map shift password)).1 cc

abbrev alice : RegisterInput
alice = record {
  username = codes " Alice ";
  email = codes "Alice@x";
  password = codes "pw";
  display_name = codes "A";
}

abbrev bob : User
bob = record {
  id = 3;
  role = codes "player";
  username = codes "bob";
  email = codes "b@x";
  display_name = codes "B";
  status = codes "active";
  last_login_at = none;
  password_hash = map shift (codes "pw");
}

abbrev before : World outside
before = record {
  db = record { roles = codes "player" ∷ []; users = bob ∷ []; next_id = 7 };
  out = tt;
}

-- The reply to the registration, and the table after it.
abbrev registered : AuthResult
registered = record {
  token = token;
  expires_at = pos 61000000000;
  user = record {
    id = 7;
    role = codes "player";
    username = codes "Alice";
    email = codes "alice@x";
    display_name = codes "A";
    status = codes "active";
    last_login_at = none;
    password_hash = [];
  };
}

register-login_example :
    let reply =
      (login outside codec manager
        (record { identifier = codes "ALICE@X"; password = codes "pw" })
        (register outside codec manager alice before).1).0 in
    (r' : AuthResult) × (reply ≡ ok r')
    × (r'.user.id ≡ 7)
    × Opens outside codec manager registered.user r'
unfolding register hash_password create_user exec insert_user issue_token read_clock lift sign ◌+ℤ◌
    div_down trim_space trim_left is_space to_lower lower_code contains text_beq
register-login_example =
    register-login outside codec manager alice (codes "ALICE@X") before
      (register outside codec manager alice before).1 registered codec-IsCodec outside-ChecksHashes
      refl (inr refl) (refl, tt) refl refl

login-Answered_example :
    let input : LoginInput = record { identifier = codes " BOB "; password = codes "pw" } in
    LoginAnswered outside codec manager input before.db
      (login outside codec manager input before).0
      (login outside codec manager input before).1.db
login-Answered_example =
    login-Answered outside codec manager
      (record { identifier = codes " BOB "; password = codes "pw" }) before
