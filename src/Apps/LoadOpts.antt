-- ===== src/Apps/LoadOpts.antt =====
-- apps/monetra_load/src/monetra_load.c: the options of the load test, and the request that is made of
-- them. An option is named by its letter.
use libmonetra.Apps.CliOpts.{CliLib}
use libmonetra.Base.{
  ℕ, ◌/◌, ◌%◌, ◌<◌, Bool, true, false, not, List, [], ◌∷◌, Option, none, some, arith, if◌then◌else◌,
  ◌==◌, leb, ltb, is_nil, ◌++◌, Bytes, codes, ℤ, is_negative, to_ℕ,
}
use libmonetra.Mstdlib.{Mstdlib}
use libmonetra.Apps.Submit.{texts, submit}
use libmonetra.Types.{Conn}

pub data TranType : Type 0 where
  trantype_sale trantype_preauth trantype_force : TranType

pub data Method : Type 0 where
  method_ip method_ssl : Method

-- cli_options_t, less the state while it runs.
pub record LoadOpts : Type 0 where
  pub username : Bytes
  pub password : Bytes
  pub hostname : Bytes
  pub num_trans : ℕ
  pub num_conns : ℕ
  pub max_amount : ℕ
  pub exact_amount : ℕ
  pub accounts : List Bytes
  pub expdate : Bytes
  pub trackdata : Bytes
  pub ksn : Bytes
  pub street : Bytes
  pub zip : Bytes
  pub user_count : ℕ
  pub user_create : Bool
  pub user_cleanup : Bool
  pub user_settle : Bool
  pub auto_confirm : Bool
  pub help : Bool
  pub method : Method
  pub trantype : TranType
  pub port : ℕ
  pub admin_port : ℕ

unfoldable pub load_bool_cb : LoadOpts → ℕ → LoadOpts × Bool
load_bool_cb o short_opt =
    if short_opt == b'f'
    then (record o { trantype = trantype_force }, true)
    else if short_opt == b'r'
    then (record o { trantype = trantype_preauth }, true)
    else if short_opt == b'C'
    then (record o { auto_confirm = true }, true)
    else if short_opt == b'n'
    then (record o { user_create = false }, true)
    else if short_opt == b'N'
    then (record o { user_cleanup = false }, true)
    else if short_opt == b'S'
    then (record o { user_settle = true }, true)
    else if short_opt == b'h'
    then (record o { help = true }, true)
    else (o, false)

-- A port has 16 bits, a size 64, as each number from the command line does.
unfoldable pub load_integer_cb : LoadOpts → ℕ → ℤ → LoadOpts × Bool
load_integer_cb o short_opt integer =
    let val = to_ℕ integer in
    if is_negative integer
    then (o, false)
    else if short_opt == b'p'
    then if ltb 65535 val then (o, false) else (record o { port = val }, true)
    else if short_opt == b't'
    then (record o { num_trans = val }, true)
    else if short_opt == b'x'
    then (record o { num_conns = val }, true)
    else if short_opt == b'u'
    then (record o { user_count = val; username = codes "MADMIN" }, true)
    else if short_opt == b'a'
    then if ltb 65535 val then (o, false) else (record o { admin_port = val }, true)
    else (o, false)

-- In cents. RAND_MAX is the C library's.
unfoldable pub load_decimal_cb : ℕ → LoadOpts → ℕ → ℤ → LoadOpts × Bool
load_decimal_cb rand_max o short_opt decval =
    let cents = to_ℕ decval in
    if short_opt == b'A'
    then if is_negative decval
      then (o, false)
      else (record o { max_amount = cents }, not (leb rand_max cents))
    else if short_opt == b'e'
    then if is_negative decval then (o, false) else (record o { exact_amount = cents }, true)
    else (o, false)

module _ (m : Mstdlib) (l : CliLib) where
  -- M_str_explode_str(',', …), which the defaults and the option `c` use, is `explode_all`.
  abbrev accounts_of : Bytes → List Bytes
  accounts_of string = elim (l.explode_all b',' string) [ none ↦ [] | some all ↦ all ]

  unfoldable pub load_opts_create : LoadOpts
  load_opts_create = record {
    username = codes "loopback";
    password = codes "test123";
    hostname = codes "localhost";
    num_trans = 100;
    num_conns = 10;
    max_amount = 10000;
    exact_amount = 0;
    accounts =
        accounts_of (codes "4012888888881881,5454545454545454,371449635398431,6011000995500000");
    expdate = codes "0249";
    trackdata = [];
    ksn = [];
    street = codes "580039";
    zip = codes "32606";
    user_count = 0;
    user_create = true;
    user_cleanup = true;
    user_settle = false;
    auto_confirm = false;
    help = false;
    method = method_ssl;
    trantype = trantype_sale;
    port = 8665;
    admin_port = 8666;
  }

  abbrev method_of : Bytes → Option Method
  method_of string =
      if m.str_caseeq (some string) (some (codes "IP"))
      then some method_ip
      else if m.str_caseeq (some string) (some (codes "SSL"))
      then some method_ssl
      else none

  unfoldable pub load_string_cb : LoadOpts → ℕ → Bytes → LoadOpts × Bool
  load_string_cb o short_opt string =
      if is_nil string
      then (o, false)
      else if short_opt == b'U'
      then (record o { username = string }, true)
      else if short_opt == b'P'
      then (record o { password = string }, true)
      else if short_opt == b'm'
      then elim (method_of string) [
        | none ↦ (o, false)
        | some method ↦ (record o { method = method }, true)
      ]
      else if short_opt == b'H'
      then (record o { hostname = string }, true)
      else if short_opt == b'c'
      then (record o { accounts = accounts_of string }, not (is_nil (accounts_of string)))
      else if short_opt == b'd'
      then (record o { expdate = string }, true)
      else if short_opt == b'w'
      then (record o { trackdata = string }, true)
      else if short_opt == b'k'
      then (record o { ksn = string }, true)
      else if short_opt == b's'
      then (record o { street = string }, true)
      else if short_opt == b'z'
      then (record o { zip = string }, true)
      else (o, false)

  -- The track data is used instead of the accounts.
  unfoldable pub prefer_trackdata : LoadOpts → LoadOpts
  prefer_trackdata o = if is_nil o.trackdata then o else record o { accounts = [] }

  abbrev kind_params : TranType → List (Bytes × Bytes)
  kind_params trantype_force =
      (codes "action", codes "force") ∷ (codes "apprcode", codes "999999") ∷ []
  kind_params trantype_preauth = (codes "action", codes "preauth") ∷ []
  kind_params trantype_sale = (codes "action", codes "sale") ∷ []

  -- The parameters of a request, in the order in which enqueue_tran sets them. The arguments are the
  -- user's name and password, the account that was drawn, the amount and the number.
  unfoldable pub tran_params : LoadOpts → Bytes → Bytes → Bytes → ℕ → ℕ → List (Bytes × Bytes)
  tran_params o username password account amt number =
      let track = if is_nil o.ksn then codes "trackdata" else codes "e_trackdata" in
      ((codes "username", username) ∷ (codes "password", password) ∷ kind_params o.trantype)
      ++ (if is_nil o.accounts
          then []
          else (codes "account", account) ∷ (codes "expdate", o.expdate) ∷ [])
      ++ (if is_nil o.trackdata then [] else (track, o.trackdata) ∷ [])
      ++ (if is_nil o.ksn then [] else (codes "e_id", o.ksn) ∷ [])
      ++ ((codes "amount", l.print_amount (amt / 100) (amt % 100))
          ∷ (codes "street", o.street)
          ∷ (codes "zip", o.zip)
          ∷ (codes "comments", codes "push script")
          ∷ (codes "ptrannum", l.print_number number)
          ∷ (codes "priority", codes "low")
          ∷ [])

  -- `none` where LM_trans_new does not return.
  unfoldable pub enqueue_tran : Conn → LoadOpts → Bytes → Bytes → Bytes → ℕ → ℕ → Option Conn
  unfolding submit tran_params
  enqueue_tran c o username password account amt number =
      elim (submit m c (texts (tran_params o username password account amt number))) [
        | none ↦ none
        | some (c', p) ↦ some c'
      ]

-- The options of an integer keep the ports within 16 bits.
pub load_integer_cb_ports :
    (o : LoadOpts) (short_opt : ℕ) (integer : ℤ)
    → o.port < 65536
    → o.admin_port < 65536
    → let o' = (load_integer_cb o short_opt integer).0 in
      (o'.port < 65536) × (o'.admin_port < 65536)
unfolding load_integer_cb
load_integer_cb_ports o short_opt integer low low' = ground arith
