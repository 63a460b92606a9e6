-- ===== src/Apps/CliRun.antt =====
-- apps/monetra_cli/src/monetra_cli.c: the requests of the command-line client on their way.
use libmonetra.Apps.CliOpts.{CliLib, CliOpts}
use libmonetra.Apps.Submit.{set_params}
use libmonetra.Base.{
  ℕ, zero, suc, ◌+◌, ◌-◌, ◌%◌, ◌^◌, Bool, true, false, ◌&&◌, ◌||◌, not, List, [], ◌∷◌, Option, none,
  some, ◌>>=◌, if◌then◌else◌, ◌==◌, length, Bytes, codes,
}
use libmonetra.Conn.{
  conn_init, conn_disable_ping, conn_set_tls_clientctx, conn_set_userdata,
  conn_set_iocreate_callback, conn_destroy,
}
use libmonetra.Connect.{conn_connect, conn_disconnect as disconnect_conn}
use libmonetra.Mstdlib.{Mstdlib, Dict}
use libmonetra.Send.{trans_send}
use libmonetra.Trans.Response.{trans_response_type, trans_response_raw, trans_response_dict}
use libmonetra.Trans.{str_isempty, trans_new, trans_set_userdata, trans_get_userdata, trans_delete}
use libmonetra.Types.{
  Conn, LmEvent, conn_connected, conn_disconnect, conn_error, trans_done, trans_error,
  trans_noconnect, trans_timeout, response_csv, response_bulk, response_type_eq,
}

-- cli_trans_t while the event loop runs. `strings` is the memory of the identifiers, which M_strdup
-- allocates at `next_string`; `printed` has the dictionaries that were printed, the last one first;
-- `over` says that the event loop is to end.
pub record Cli : Type 0 where
  pub kvs : List Dict
  pub outstanding_cnt : ℕ
  pub send_serial : Bool
  pub strings : ℕ → Option Bytes
  pub next_string : ℕ
  pub printed : List Dict
  pub over : Bool

-- The string that an identifier's pointer, which may be NULL, points at.
abbrev pub string_at : Cli → Option ℕ → Option Bytes
string_at s none = none
string_at s (some i) = s.strings i

abbrev free_string : Cli → Option ℕ → Cli
free_string s none = s
free_string s (some i) = record s { strings = λ (j : ℕ). if i == j then none else s.strings j }

-- M_strdup of a value that may be NULL.
abbrev strdup : Cli → Option Bytes → Cli × Option ℕ
strdup s none = (s, none)
strdup s (some text) =
    let i = s.next_string in
    (
      record s {
        strings = λ (j : ℕ). if i == j then some text else s.strings j;
        next_string = i + 1;
      },
      some i,
    )

module _ (m : Mstdlib) (l : CliLib) where
  -- The request that is made of a dictionary.
  unfoldable pub queue_kvs : Cli → Conn → Dict → Option (Cli × Conn)
  queue_kvs s c kvs = do
    (c1, p) ← trans_new m c
    let filled = set_params m c1 p kvs
    let (s', identifier) = strdup s (m.dict_get (some kvs) (codes "identifier"))
    let named = (trans_set_userdata filled (some p) identifier).0
    let sent = (trans_send m named (some p)).0
    some (record s' { outstanding_cnt = (s.outstanding_cnt + 1) % 2 ^ 64 }, sent)

  -- The flag says that there was one. `none` where LM_trans_new does not return.
  unfoldable pub queue_lm_trans : Cli → Conn → Option (Cli × Conn × Bool)
  unfolding queue_kvs
  queue_lm_trans s c = elim (l.list_take_first s.kvs) [
    | none ↦ some (s, c, false)
    | some (kvs, rest) ↦ do
      (s', c') ← queue_kvs (record s { kvs = rest }) c kvs
      some (s', c', true)
  ]

  -- The loop of LM_EVENT_CONN_CONNECTED.
  unfoldable pub queue_all : ℕ → Cli → Conn → Option (Cli × Conn)
  queue_all zero s c = none
  queue_all (suc fuel) s c = do
    (s', c', ret) ← queue_lm_trans s c
    let rest = queue_all fuel s' c'
    if ret && not s'.send_serial then rest else some (s', c')

  -- What is printed of a response: a table as it came, else its keys, and the identifier. A NULL
  -- dictionary adds nothing.
  unfoldable pub response_kvs : Conn → Option ℕ → Option Bytes → Conn × Dict
  response_kvs c trans identifier =
      let (c1, kind) = trans_response_type c trans in
      let (c2, raw) = trans_response_raw c1 trans in
      let (c3, dict) = trans_response_dict c1 trans in
      let merged : Dict = elim dict [
        | none ↦ m.dict_create
        | some d ↦ l.dict_merge m.dict_create (m.dict_duplicate d)
      ] in
      if response_type_eq kind response_csv || response_type_eq kind response_bulk
      then (
        c2,
        m.dict_insert (m.dict_insert m.dict_create (codes "datablock") raw) (codes "identifier")
            identifier,
      )
      else (c3, m.dict_insert merged (codes "identifier") identifier)

  -- Another request, if there is one; without one on its way the connection ends.
  unfoldable pub after_response : Cli → Conn → Option (Cli × Conn)
  unfolding queue_lm_trans
  after_response s c = do
    (s', c', more) ← queue_lm_trans s c
    some (s', if s'.outstanding_cnt == 0 then (disconnect_conn c').0 else c')

  unfoldable pub on_response_done : Cli → Conn → Option ℕ → Option ℕ → Option (Cli × Conn)
  unfolding response_kvs after_response
  on_response_done s c trans identifier =
      let (c1, kvs) = response_kvs c trans (string_at s identifier) in
      let counted = record s {
        printed = kvs ∷ s.printed;
        outstanding_cnt = (s.outstanding_cnt + (2 ^ 64 - 1)) % 2 ^ 64;
      } in
      after_response counted (trans_delete m c1 trans)

  -- The switch of trans_callback.
  unfoldable pub on_event : Cli → Conn → LmEvent → Option ℕ → Option ℕ → Option (Cli × Conn)
  unfolding queue_all on_response_done
  on_event s c conn_connected trans identifier = queue_all (suc (length s.kvs)) s c
  on_event s c conn_disconnect trans identifier =
      some (record s { over = true }, (conn_destroy c).0)
  on_event s c conn_error trans identifier = some (record s { over = true }, (conn_destroy c).0)
  on_event s c trans_done trans identifier = on_response_done s c trans identifier
  on_event s c trans_error trans identifier = some (s, trans_delete m c trans)
  on_event s c trans_noconnect trans identifier = some (s, trans_delete m c trans)
  on_event s c trans_timeout trans identifier = some (s, c)

  -- trans_callback; the identifier is freed behind every event.
  unfoldable pub trans_callback : Cli → Conn → LmEvent → Option ℕ → Option (Cli × Conn)
  unfolding on_event
  trans_callback s c kind trans = do
    let (c', identifier) = trans_get_userdata c trans
    (s', c'') ← on_event s c' kind trans identifier
    some (free_string s' identifier, c'')

  abbrev path_of : Option Bytes → Bytes
  path_of none = []
  path_of (some path) = path

  -- The text of what is wrong. Whether the default trust can be set makes no difference.
  unfoldable pub setup_ssl_ctx : CliOpts → Option ℕ → Option Bytes
  setup_ssl_ctx o ctx =
      if not (str_isempty o.keyfile)
        && not (m.tls_set_cert_files ctx (path_of o.keyfile) (path_of o.certfile))
      then some (codes "Could not set restrictions key and certificate\n")
      else if not (str_isempty o.cadir) && not (m.tls_set_trust_ca_dir ctx (path_of o.cadir))
      then some (codes "Could not add trust CA directory\n")
      else if not (l.tls_set_verify_level ctx o.certvalidation)
      then some (codes "Could not set certificate verification level\n")
      else none

  -- The connection of main, up to the event loop. LM_conn_init refuses where it is `none`.
  unfoldable pub cli_connect : CliOpts → List ℕ → Bytes → ℕ → Option ℕ → Option Conn
  cli_connect o draws host port ctx = do
    c ← conn_init draws (some 1) (some 1) (some host) port
    let quiet = conn_disable_ping c
    let secured = (conn_set_tls_clientctx quiet ctx).0
    let named = (conn_set_userdata secured (some 1)).0
    let traced =
        if o.enable_trace then (conn_set_iocreate_callback named (some 1) none).0 else named
    some (conn_connect m traced).0
