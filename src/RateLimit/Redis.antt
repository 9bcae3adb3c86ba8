-- ===== src/RateLimit/Redis.antt =====
-- backend/internal/app/rate_limiter.go: the limiter that counts in Redis, over a connection that
-- takes texts and gives bytes and lines.
use ctf_recruit.Base.{
  ℕ, suc, ◌+◌, ◌-◌, ◌/◌, Text, Bool, true, false, ◌||◌, not, Option, none, some, List, [], ◌∷◌,
  ◌++◌, ℤ, pos, negsuc, ltb, ltb_ℤ, leb_ℤ, Result, ok, err, codes, length, trim_space, trim_suffix,
  ◌==◌, nat_eq, int_eq, text_eq, if◌then◌else◌,
}
use ctf_recruit.Base.Exec.{Exec, ◌>>=◌, ◌>>◌, pure, throw}
use ctf_recruit.Base.Decimal.{decimal}
use ctf_recruit.Config.{atoi}

pub data Error : Type 0 where
  dial_failed write_failed read_failed : Error
  refused : Text → Error
  unexpected_type : ℕ → Error
  not_an_integer : Text → Error

-- The network and the server: opening, closing, sending a text (true if it was sent), and reading a
-- byte or a line with its end. `now` is the clock.
pub record Network : Type 1 where
  pub State : Type 0
  pub now : State → ℤ × State
  pub dial : Text → State → Bool × State
  pub close : State → State
  pub send : Text → State → Bool × State
  pub read_byte : State → Option ℕ × State
  pub read_line : State → Option Text × State

pub record RedisLimiter : Type 0 where
  pub addr : Text
  pub password : Text
  pub db : ℤ
  pub prefix : Text
  pub window : ℤ
  pub max : ℤ

-- How many bytes UTF-8 takes for a code point.
abbrev utf8_width : ℕ → ℕ
utf8_width c = if ltb c 0x80 then 1 else if ltb c 0x800 then 2 else if ltb c 0x10000 then 3 else 4

-- len(s)
unfoldable pub byte_length : Text → ℕ
byte_length [] = 0
byte_length (c ∷ s) = utf8_width c + byte_length s

abbrev pub crlf : Text
crlf = 13 ∷ 10 ∷ []

-- strconv.FormatInt and strconv.Itoa, in base ten.
unfoldable pub format_int : ℤ → Text
format_int (pos n) = decimal n
format_int (negsuc n) = b'-' ∷ decimal (suc n)

-- time.Duration.Milliseconds, which rounds towards zero.
unfoldable pub milliseconds : ℤ → ℤ
milliseconds (pos n) = pos (n / 1_000_000)
milliseconds (negsuc n) = let k = suc n / 1_000_000 in if k == 0 then pos 0 else negsuc (k - 1)

module _ (n : Network) where
  abbrev pub M : Type 0 → Type 0
  M A = Exec n.State Error A

  abbrev sent : Bool × n.State → Result Error (Unit {0}) × n.State
  sent (true, s) = (ok tt, s)
  sent (false, s) = (err write_failed, s)

  unfoldable pub send_text : Text → M (Unit {0})
  send_text text s = sent (n.send text s)

  abbrev received : {A : Type 0} → Option A × n.State → Result Error A × n.State
  received (some a, s) = (ok a, s)
  received (none, s) = (err read_failed, s)

  unfoldable pub write_parts : List Text → M (Unit {0})
  unfolding byte_length
  write_parts [] = pure tt
  write_parts (part ∷ parts) =
      send_text (b'$' ∷ decimal (byte_length part) ++ (crlf ++ (part ++ crlf))) >> write_parts parts

  unfoldable pub write_resp : List Text → M (Unit {0})
  write_resp parts = send_text (b'*' ∷ decimal (length parts) ++ crlf) >> write_parts parts

  unfoldable pub read_resp : M (ℕ × Text)
  unfolding trim_suffix
  read_resp = (λ s. received (n.read_byte s)) >>= λ kind.
      (λ s. received (n.read_line s)) >>= λ line. pure (kind, trim_suffix (trim_suffix line 10) 13)

  abbrev integer_of : Text → Option ℤ → M ℤ
  integer_of payload (some value) = pure value
  integer_of payload none = throw (not_an_integer payload)

  unfoldable pub send_int_command : List Text → M ℤ
  unfolding write_resp read_resp
  send_int_command parts = write_resp parts >> read_resp >>= λ (kind, payload).
      if kind == b'-'
      then throw (refused payload)
      else if not (kind == b':')
      then throw (unexpected_type kind)
      else integer_of payload (atoi (trim_space payload))

  unfoldable pub send_simple_command : List Text → M Text
  unfolding write_resp read_resp
  send_simple_command parts = write_resp parts >> read_resp >>= λ (kind, payload).
      if kind == b'-'
      then throw (refused payload)
      else if not (kind == b'+')
      then throw (unexpected_type kind)
      else pure payload

module _ (n : Network) (l : RedisLimiter) where
  abbrev when : Bool → M n (Unit {0}) → M n (Unit {0})
  when true m = m
  when false m = pure tt

  -- applySession, less the deadline, which is the network's.
  unfoldable pub apply_session : M n (Unit {0})
  unfolding send_simple_command
  apply_session =
      when (not (l.password == []))
        (send_simple_command n (codes "AUTH" ∷ l.password ∷ []) >>= λ _. pure tt)
      >> when (ltb_ℤ (pos 0) l.db)
          (send_simple_command n (codes "SELECT" ∷ format_int l.db ∷ []) >>= λ _. pure tt)

  abbrev close_on_error : Result Error (Unit {0}) × n.State → Result Error (Unit {0}) × n.State
  close_on_error (ok done, s) = (ok done, s)
  close_on_error (err e, s) = (err e, n.close s)

  abbrev dialed : Bool × n.State → Result Error (Unit {0}) × n.State
  dialed (false, s) = (err dial_failed, s)
  dialed (true, s) = close_on_error (apply_session s)

  unfoldable pub open_connection : M n (Unit {0})
  unfolding apply_session
  open_connection s = dialed (n.dial l.addr s)

  -- The commands of Allow: a key that was not there is given its time to live.
  unfoldable pub count_request : Text → M n Bool
  unfolding send_int_command format_int milliseconds
  count_request key =
      let full_key = l.prefix ++ key in
      send_int_command n (codes "INCR" ∷ full_key ∷ []) >>= λ count.
      when (count == pos 1) (
        send_int_command n (codes "PEXPIRE" ∷ full_key ∷ format_int (milliseconds l.window) ∷ [])
        >>= λ _. pure tt)
      >> pure (leb_ℤ count l.max)

  -- `defer conn.Close()`
  abbrev closed : Result Error Bool × n.State → Result Error Bool × n.State
  closed (r, s) = (r, n.close s)

  abbrev opened : Text → Result Error (Unit {0}) × n.State → Result Error Bool × n.State
  opened key (ok done, s) = closed (count_request key s)
  opened key (err e, s) = (err e, s)

  -- redisRateLimiter.Allow, on a limiter that is not nil.
  unfoldable pub redis_allow : Text → M n Bool
  unfolding open_connection count_request
  redis_allow key s =
      if leb_ℤ l.window (pos 0) || leb_ℤ l.max (pos 0)
      then (ok true, s)
      else opened key (open_connection s)
