-- ===== src/Apps/CliOpts.antt =====
-- apps/monetra_cli/src/cli_opts.c: the options of the command-line client, and of cli_trans.c what it
-- makes of them. The tables of actions and test cards are arguments: pairs of a name and a text.
use libmonetra.Base.{
  ℕ, ◌+◌, ◌%◌, ◌^◌, Bool, true, false, ◌&&◌, ◌||◌, List, [], ◌∷◌, ◌++◌, Option, none, some,
  if◌then◌else◌, ◌==◌, leb, ltb, is_nil, Bytes, codes, ℤ, is_negative, to_ℕ, ◌≡◌, erase,
}
use libmonetra.Legacy.{to_size}
use libmonetra.Mstdlib.{Mstdlib, Dict}
use libmonetra.Trans.{str_isempty}
use libmonetra.Types.{VerifyLevel, verify_none, verify_full, verify_cert_fuzzy, verify_cert_only}

-- What the client uses of mstdlib beyond the library itself: M_parser_read_decimal with
-- M_decimal_to_int(_, 2), M_str_explode_quoted without a limit, M_strdup_unquote, M_hash_dict_merge,
-- M_hash_dict_remove, M_str_caseeq_max, and the number and the amount of M_snprintf.
pub record CliLib : Type 0 where
  pub read_decimal : Bytes → Option (ℤ × Bytes)
  pub explode_all : ℕ → Bytes → Option (List Bytes)
  pub strdup_unquote : Bytes → Bytes
  pub dict_merge : Dict → Dict → Dict
  pub dict_remove : Dict → Bytes → Dict
  pub str_caseeq_max : Bytes → Bytes → ℕ → Bool
  pub print_amount : ℕ → ℕ → Bytes
  pub print_number : ℕ → Bytes
  -- ten digits, with zeros in front
  pub print_padded : ℕ → Bytes
  -- M_llist_take_node, of the node that holds a member
  pub llist_take_node : List ℕ → ℕ → List ℕ
  -- M_list_take_first, of a list of dictionaries
  pub list_take_first : List Dict → Option (Dict × List Dict)
  -- M_tls_clientctx_set_verify_level
  pub tls_set_verify_level : Option ℕ → VerifyLevel → Bool

-- What M_llist_take_node documents, of a list that has the member once, and M_list_take_first.
pub record ListLaws (l : CliLib) : Type 0 where
  pub first_nil : l.list_take_first [] ≡ none
  pub first_cons : (d : Dict) (list : List Dict) → l.list_take_first (d ∷ list) ≡ some (d, list)
  pub take_node : (q : List ℕ) (x : ℕ) → l.llist_take_node q x ≡ erase x q

-- cli_opts_t
pub record CliOpts : Type 0 where
  pub username : Bytes
  pub password : Bytes
  pub host : Bytes
  pub port : ℕ
  pub keyfile : Option Bytes
  pub certfile : Option Bytes
  pub cadir : Option Bytes
  pub certvalidation : VerifyLevel
  pub action_kvs : Option Bytes
  pub send_pinksn : Bool
  pub card : Dict
  pub man_kvs : Dict
  pub remove_keys : List Bytes
  pub kvs : Dict
  pub dup : ℕ
  pub min_amount : ℕ
  pub max_amount : ℕ
  pub send_serial : Bool
  pub help : Bool
  pub port_set : Bool
  pub enable_trace : Bool

unfoldable pub cli_opts_create : Mstdlib → CliOpts
cli_opts_create m = record {
  username = codes "loopback";
  password = codes "test123";
  host = codes "localhost";
  port = 8665;
  keyfile = none;
  certfile = none;
  cadir = none;
  certvalidation = verify_none;
  action_kvs = none;
  send_pinksn = false;
  card = m.dict_create;
  man_kvs = m.dict_create;
  remove_keys = [];
  kvs = m.dict_create;
  dup = 1;
  min_amount = 0;
  max_amount = 0;
  send_serial = false;
  help = false;
  port_set = false;
  enable_trace = false;
}

-- The range of the random amount: it must not be empty, nor within 8.00 to 8.99, and neither end
-- may stay there.
unfoldable pub avoid_delay : CliOpts → CliOpts
avoid_delay o =
    let min = if leb 800 o.min_amount && leb o.min_amount 899 then 900 else o.min_amount in
    let max = if leb 800 o.max_amount && leb o.max_amount 899 then min + 1 else o.max_amount in
    record o { min_amount = min; max_amount = max }

unfoldable pub bound_amount : CliOpts → CliOpts × Bool
unfolding avoid_delay
bound_amount o =
    if ltb o.max_amount o.min_amount
    then (o, false)
    else if leb 800 o.min_amount && leb o.max_amount 899
    then (o, false)
    else (avoid_delay o, true)

module _ (m : Mstdlib) (l : CliLib) where
  -- `key=value` parts are inserted, others are passed over; a part that cannot be split ends the loop.
  unfoldable pub load_parts : Dict → List Bytes → Dict
  load_parts kvs [] = kvs
  load_parts kvs (part ∷ parts) = elim (l.explode_all b'=' (l.strdup_unquote part)) [
    | none ↦ kvs
    | some (key ∷ value ∷ []) ↦
        load_parts (m.dict_insert kvs (l.strdup_unquote key) (some (l.strdup_unquote value))) parts
    | some _ ↦ load_parts kvs parts
  ]

  unfoldable pub load_kvs : Dict → Bytes → Dict
  unfolding load_parts
  load_kvs kvs string = elim (l.explode_all b',' string) [
    | none ↦ kvs
    | some parts ↦ load_parts kvs parts
  ]

  unfoldable pub load_rkeys : List Bytes → Bytes → List Bytes
  load_rkeys keys string = elim (l.explode_all b',' string) [
    | none ↦ keys
    | some parts ↦ keys ++ parts
  ]

  unfoldable pub load_pinksn : Dict → Bool → Dict
  load_pinksn kvs false = kvs
  load_pinksn kvs true =
      m.dict_insert (m.dict_insert kvs (codes "pin") (some (codes "1234567890123456")))
        (codes "ksn") (some (codes "6543210987654321"))

  -- The action first, then the PIN, the card, and what was given by hand.
  unfoldable pub merge_kvs : CliOpts → CliOpts × Bool
  unfolding load_kvs load_pinksn
  merge_kvs o =
      if str_isempty o.action_kvs && m.dict_num_keys (some o.man_kvs) == 0
      then (o, false)
      else let action : Dict = elim o.action_kvs [
        | none ↦ o.kvs
        | some text ↦ load_kvs o.kvs text
      ] in
        let pinned = load_pinksn action o.send_pinksn in
        let carded = l.dict_merge pinned (m.dict_duplicate o.card) in
        (record o { kvs = l.dict_merge carded (m.dict_duplicate o.man_kvs) }, true)

  -- The first row of a table whose name it is.
  abbrev row_of : List (Bytes × Bytes) → Bytes → Option Bytes
  row_of [] name = none
  row_of ((key, text) ∷ rows) name =
      if m.str_caseeq (some name) (some key) then some text else row_of rows name

  unfoldable pub nonopt_cb : List (Bytes × Bytes) → CliOpts → Bytes → CliOpts × Bool
  nonopt_cb actions o option = elim (row_of actions option) [
    | none ↦ (o, false)
    | some action ↦ (record o { action_kvs = some action }, true)
  ]

  abbrev is_opt : Bytes → Bytes → Bool
  is_opt long_opt name = m.str_caseeq (some long_opt) (some name)

  -- The port is cut to 16 bits.
  unfoldable pub integer_cb : CliOpts → Bytes → ℤ → CliOpts × Bool
  integer_cb o long_opt integer =
      if is_negative integer
      then (o, false)
      else if is_opt long_opt (codes "port")
      then (record o { port = to_ℕ integer % 2 ^ 16; port_set = true }, true)
      else if is_opt long_opt (codes "dup")
      then (record o { dup = to_ℕ integer }, true)
      else (o, false)

  unfoldable pub bool_cb : CliOpts → Bytes → Bool → CliOpts × Bool
  bool_cb o long_opt boolean =
      if is_opt long_opt (codes "help")
      then (record o { help = boolean }, true)
      else if is_opt long_opt (codes "serial")
      then (record o { send_serial = true }, true)
      else if is_opt long_opt (codes "pin-ksn")
      then (record o { send_pinksn = true }, true)
      else if is_opt long_opt (codes "trace")
      then (record o { enable_trace = true }, true)
      else (o, false)

  -- `[min:]max`, in cents; M_rand_range leaves the upper end out.
  unfoldable pub parse_random_amount : CliOpts → Bytes → CliOpts × Bool
  unfolding bound_amount
  parse_random_amount o string = elim (l.read_decimal string) [
    | none ↦ (o, false)
    | some (min, []) ↦ (record o { min_amount = 1; max_amount = to_size min }, true)
    | some (min, byte ∷ rest) ↦
        if byte == b':'
        then elim (l.read_decimal rest) [
          | none ↦ (o, false)
          | some (max, _) ↦
              bound_amount
                (record o { min_amount = to_size min; max_amount = (to_size max + 1) % 2 ^ 64 })
        ]
        else (o, false)
  ]

  abbrev certvalidation_of : Bytes → Option VerifyLevel
  certvalidation_of string =
      if is_opt string (codes "none")
      then some verify_none
      else if is_opt string (codes "cert_only") || is_opt string (codes "only")
      then some verify_cert_only
      else if is_opt string (codes "cert_fuzzy") || is_opt string (codes "fuzzy")
      then some verify_cert_fuzzy
      else if is_opt string (codes "full")
      then some verify_full
      else none

  unfoldable pub string_cb : List (Bytes × Bytes) → CliOpts → Bytes → Bytes → CliOpts × Bool
  unfolding load_kvs load_rkeys parse_random_amount
  string_cb cards o long_opt string =
      if is_opt long_opt (codes "username")
      then (record o { username = string }, true)
      else if is_opt long_opt (codes "password")
      then (record o { password = string }, true)
      else if is_nil string
      then (o, false)
      else if is_opt long_opt (codes "host")
      then (record o { host = string }, true)
      else if is_opt long_opt (codes "keyfile")
      then (record o { keyfile = some string }, true)
      else if is_opt long_opt (codes "certfile")
      then (record o { certfile = some string }, true)
      else if is_opt long_opt (codes "cadir")
      then (record o { cadir = some string }, true)
      else if is_opt long_opt (codes "cert_validation")
      then elim (certvalidation_of string) [
        | none ↦ (o, false)
        | some level ↦ (record o { certvalidation = level }, true)
      ]
      else if is_opt long_opt (codes "kvs")
      then (record o { man_kvs = load_kvs o.man_kvs string }, true)
      else if is_opt long_opt (codes "rkeys")
      then (record o { remove_keys = load_rkeys o.remove_keys string }, true)
      else if is_opt long_opt (codes "card")
      then elim (row_of cards string) [
        | none ↦ (o, false)
        | some text ↦ (record o { card = load_kvs o.card text }, true)
      ]
      else if is_opt long_opt (codes "actions")
      then (record o { help = true }, true)
      else if is_opt long_opt (codes "random_amount")
      then parse_random_amount o string
      else (o, false)
