-- ===== src/Apps/ConnOpts.antt =====
-- apps/monetra_connload/src/monetra_connload.c: the options of the connection load test.
use libmonetra.Base.{
  ℕ, zero, suc, ◌≤◌, ◌<◌, ◌≡◌, [], ◌∷◌, Bool-cases, inl, inr, arith, Bool, true, false,
  if◌then◌else◌, ◌==◌, ltb, is_nil, take, length, Bytes, codes, ℤ, is_negative, to_ℕ,
}

-- The static variables config_*; the three texts have 128 bytes with the final zero.
pub record ConnOpts : Type 0 where
  pub hostname : Bytes
  pub port : ℕ
  pub username : Bytes
  pub password : Bytes
  pub num_conns : ℕ
  pub trans_per_conn : ℕ
  pub delay_per_trans_ms : ℕ

unfoldable pub conn_opts : ConnOpts
conn_opts = record {
  hostname = codes "localhost";
  port = 8665;
  username = codes "loopback";
  password = codes "test123";
  num_conns = 100;
  trans_per_conn = 2;
  delay_per_trans_ms = 1000;
}

-- cli_integer_cb; a size has 64 bits, as each number from the command line has.
unfoldable pub conn_integer_cb : ConnOpts → ℕ → ℤ → ConnOpts × Bool
conn_integer_cb o short_opt integer =
    let val = to_ℕ integer in
    if is_negative integer
    then (o, false)
    else if short_opt == b'p'
    then if ltb 65535 val then (o, false) else (record o { port = val }, true)
    else if short_opt == b'c'
    then (record o { num_conns = val }, true)
    else if short_opt == b't'
    then (record o { trans_per_conn = val }, true)
    else if short_opt == b'd'
    then (record o { delay_per_trans_ms = val }, true)
    else (o, false)

-- cli_string_cb, with M_str_cpy.
unfoldable pub conn_string_cb : ConnOpts → ℕ → Bytes → ConnOpts × Bool
conn_string_cb o short_opt string =
    if is_nil string
    then (o, false)
    else if short_opt == b'U'
    then (record o { username = take 127 string }, true)
    else if short_opt == b'P'
    then (record o { password = take 127 string }, true)
    else if short_opt == b'H'
    then (record o { hostname = take 127 string }, true)
    else (o, false)

-- Options that fit the variables that hold them, and name a host.
abbrev pub Fits : ConnOpts → Type 0
Fits o =
    (o.port < 65536)
    × (0 < length o.hostname)
    × (length o.hostname ≤ 127)
    × (length o.username ≤ 127)
    × (length o.password ≤ 127)

take-short : (n : ℕ) (xs : Bytes) → length (take n xs) ≤ n
take-short zero xs = omega arith
take-short (suc n) [] = omega arith
take-short (suc n) (x ∷ xs) = omega (arith, take-short n xs)

take-some : (n : ℕ) (xs : Bytes) → is_nil xs ≡ false → 0 < length (take (suc n) xs)
take-some n [] e = absurd (ground (arith, e))
take-some n (x ∷ xs) e = omega arith

pub conn_opts-Fits : Fits conn_opts
unfolding conn_opts
conn_opts-Fits = (omega arith, omega arith, omega arith, omega arith, omega arith)

pub conn_integer_cb-Fits :
    (o : ConnOpts) (short_opt : ℕ) (integer : ℤ)
    → Fits o
    → Fits (conn_integer_cb o short_opt integer).0
unfolding conn_integer_cb
conn_integer_cb-Fits o short_opt integer fits = ground (arith, fits)

pub conn_string_cb-Fits :
    (o : ConnOpts) (short_opt : ℕ) (string : Bytes)
    → Fits o
    → Fits (conn_string_cb o short_opt string).0
unfolding conn_string_cb
conn_string_cb-Fits o short_opt string fits = elim (Bool-cases (is_nil string)) [
  | inl empty ↦ rw empty fits
  | inr given ↦
      let short = take-short 127 string in
      let named = take-some 126 string given in ground (arith, given, fits, short, named)
]
