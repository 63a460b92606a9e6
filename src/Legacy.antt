-- ===== src/Legacy.antt =====
-- src/monetra_legacy.c: the old interface. The functions here do not run the event loop; those that do
-- are in EventLoop. They name a transaction by its id; `conn` and `*conn` are never NULL here.
pub mod Agreement
pub mod Codes
pub mod Params
pub mod Engine
pub mod Cells
pub mod EventLoop
pub mod Kept
pub mod Blocking
pub mod Sending
pub mod Leaving
pub mod Waiting
use libmonetra.Base.{
  ℕ, zero, suc, ◌-◌, Bool, true, false, ◌&&◌, ◌||◌, not, List, [], ◌∷◌, Option, none, some,
  if◌then◌else◌, is_some, is_nil, length, Bytes, leb, ltb, map, ℤ, pos, negsuc, ◌^◌, is_negative,
  is_le_zero, to_ℕ, ◌+◌,
}
use libmonetra.Conn.{
  conn_change_server, conn_change_mode, conn_set_conn_timeout, conn_disable_ping,
  conn_set_tls_cert_files, conn_trans_count, conn_trans_list, conn_get_trans_by_internal_id,
}
use libmonetra.Mstdlib.{Mstdlib, Csv}
use libmonetra.Trans.{
  str_isempty, trans_new, trans_delete, trans_set_param, trans_set_param_binary, trans_internal_id,
}
use libmonetra.Trans.Response.{
  trans_response_keys, trans_response_param, trans_response_param_binary, trans_response_raw,
  trans_response_csv,
}
use libmonetra.Types.{Conn, LmMode, mode_tls, mode_ip, status_all, status_pending, status_done}

-- struct _M_CONN, less the event loop.
pub record Session : Type 0 where
  pub conn : Conn
  pub tlsctx : Option ℕ
  pub trust_loaded : Bool
  pub blocking : Bool
  pub txntimeout : ℕ
  pub is_monitor_previously_successful : Bool

-- A C truth value.
abbrev pub is_true : ℤ → Bool
is_true (pos n) = not (leb n 0)
is_true (negsuc n) = true

unfoldable pub set_blocking : Session → ℤ → Session × Bool
set_blocking s tf = (record s { blocking = is_true tf }, true)

-- `(size_t)maxtime`
abbrev pub to_size : ℤ → ℕ
to_size (pos n) = n
to_size (negsuc n) = 2 ^ 64 - 1 - n

unfoldable pub max_conn_timeout : Session → ℤ → Session
max_conn_timeout s maxtime = record s { conn = (conn_set_conn_timeout s.conn (to_size maxtime)).0 }

unfoldable pub set_timeout : Session → ℤ → Session × Bool
set_timeout s timeout =
    if is_negative timeout then (s, false) else (record s { txntimeout = to_ℕ timeout }, true)

-- The server first, then the mode, if the server could be changed.
abbrev set_server : LmMode → Session → Option Bytes → ℕ → Session × Bool
set_server mode s host port =
    let (c1, served) = conn_change_server s.conn host port in
    let (c2, moded) = conn_change_mode c1 mode in
    if served then (record s { conn = c2 }, moded) else (record s { conn = c1 }, false)

unfoldable pub set_ip : Session → Option Bytes → ℕ → Session × Bool
set_ip s host port =
    if str_isempty host || leb port 0 then (s, false) else set_server mode_ip s host port

unfoldable pub set_ssl : Session → Option Bytes → ℕ → Session × Bool
set_ssl s host port =
    if str_isempty host || leb port 0 then (s, false) else set_server mode_tls s host port

-- M_VerifyConnection: the ping can only be switched off.
unfoldable pub verify_connection : Session → Bool → Session
verify_connection s tf = if tf then s else record s { conn = conn_disable_ping s.conn }

unfoldable pub transactions_sent : Session → ℕ
transactions_sent s = conn_trans_count s.conn status_pending + conn_trans_count s.conn status_done

unfoldable pub trans_in_queue : Session → ℕ
trans_in_queue s = conn_trans_count s.conn status_all

-- A read of a C array: NULL, an element, or memory outside the array.
pub data Read (A : Type 0) : Type 0 where
  null : Read A
  element : A → Read A
  out_of_bounds : Read A

abbrev pub at : {A : Type 0} → List A → ℕ → Read A
at [] i = out_of_bounds
at (x ∷ xs) zero = element x
at (x ∷ xs) (suc i) = at xs i

-- `idx > num_keys` is the guard.
unfoldable pub response_keys_index : Option (List Bytes) → ℤ → ℤ → Read Bytes
response_keys_index none num_keys idx = null
response_keys_index (some keys) num_keys idx =
    if is_le_zero num_keys || is_negative idx || ltb (to_ℕ num_keys) (to_ℕ idx)
    then null
    else at keys (to_ℕ idx)

-- `idx <= 0` is in the guard; `null` is the 0 that is returned for no id.
unfoldable pub complete_authorizations_index : Option (List ℕ) → ℤ → ℤ → Read ℕ
complete_authorizations_index none num_listings idx = null
complete_authorizations_index (some listings) num_listings idx =
    if is_le_zero num_listings || is_le_zero idx || leb (to_ℕ num_listings) (to_ℕ idx)
    then null
    else at listings (to_ℕ idx)

module _ (m : Mstdlib) where
  unfoldable pub set_ssl_files : Session → Option Bytes → Option Bytes → Session × Bool
  set_ssl_files s keyfile certfile =
      if str_isempty keyfile || str_isempty certfile
      then (s, false)
      else let (c, done) = conn_set_tls_cert_files m s.conn keyfile certfile in
        (record s { conn = c }, done)

  abbrev find : Session → ℕ → Option ℕ
  find s identifier = conn_get_trans_by_internal_id m s.conn identifier

  unfoldable pub delete_trans : Session → ℕ → Session
  delete_trans s identifier = record s { conn = trans_delete m s.conn (find s identifier) }

  -- M_TransNew; `none` says that the draws for the id are used up.
  unfoldable pub new_trans : Session → Option (Session × ℕ)
  new_trans s = elim (trans_new m s.conn) [
    | none ↦ none
    | some (c, p) ↦ let (c', id) = trans_internal_id c (some p) in some (record s { conn = c' }, id)
  ]

  unfoldable pub trans_key_val : Session → ℕ → Option Bytes → Option Bytes → Session × Bool
  trans_key_val s identifier key value = elim (find s identifier) [
    | none ↦ (s, false)
    | some p ↦
        let (c, done) = trans_set_param m s.conn (some p) key value in (record s { conn = c }, done)
  ]

  -- The value's bytes; a negative length is refused.
  unfoldable pub trans_binary_key_val : Session → ℕ → Option Bytes → Bytes → ℤ → Session × Bool
  trans_binary_key_val s identifier key value value_len =
      if str_isempty key || is_negative value_len then (s, false) else elim (find s identifier) [
        | none ↦ (s, false)
        | some p ↦
            let (c, done) = trans_set_param_binary m s.conn (some p) key value in
            (record s { conn = c }, done)
      ]

  unfoldable pub response_param : Session → ℕ → Option Bytes → Session × Option Bytes
  response_param s identifier key =
      if str_isempty key then (s, none) else elim (find s identifier) [
        | none ↦ (s, none)
        | some p ↦
            let (c, value) = trans_response_param m s.conn (some p) key in
            (record s { conn = c }, value)
      ]

  unfoldable pub response_binary_param : Session → ℕ → Option Bytes → Session × Option Bytes
  response_binary_param s identifier key =
      if str_isempty key then (s, none) else elim (find s identifier) [
        | none ↦ (s, none)
        | some p ↦
            let (c, value) = trans_response_param_binary m s.conn (some p) key in
            (record s { conn = c }, value)
      ]

  -- `none` for a list that is missing or empty; its length is the number of keys.
  abbrev nonempty : List Bytes → Option (List Bytes)
  nonempty [] = none
  nonempty (key ∷ keys) = some (key ∷ keys)

  unfoldable pub response_keys : Session → ℕ → Session × Option (List Bytes)
  response_keys s identifier = elim (find s identifier) [
    | none ↦ (s, none)
    | some p ↦
        let (c, keys) = trans_response_keys s.conn (some p) in
        (record s { conn = c }, elim keys [ none ↦ none | some ks ↦ nonempty ks ])
  ]

  -- The ids of the DONE transactions.
  abbrev ids_of : Conn → List ℕ → List ℕ
  ids_of c = map (λ p. (trans_internal_id c (some p)).1)

  unfoldable pub complete_authorizations : Session → List ℕ
  complete_authorizations s = ids_of s.conn (conn_trans_list s.conn status_done)

  unfoldable pub get_comma_delimited : Session → ℕ → Session × Option Bytes
  get_comma_delimited s identifier = elim (find s identifier) [
    | none ↦ (s, none)
    | some p ↦ let (c, raw) = trans_response_raw s.conn (some p) in (record s { conn = c }, raw)
  ]

  unfoldable pub get_csv_handle : Session → ℕ → Session × Option Csv
  get_csv_handle s identifier = elim (find s identifier) [
    | none ↦ (s, none)
    | some p ↦ let (c, csv) = trans_response_csv m s.conn (some p) in (record s { conn = c }, csv)
  ]
