-- ===== src/Types.antt =====
-- The data of include/monetra_api.h, src/monetra_conn.h and src/monetra_trans.h.
-- A transaction's pointer is a number: `heap` says what it points at, and `next` is the number of
-- the next object that is allocated or that the library hands out. `log` has the calls of the event
-- and network functions, the last one first. `fault` is set where freed memory would be read.
use libmonetra.Base.{
  ℕ, ◌*◌, ◌%◌, ◌^◌, Bool, true, false, List, ◌∷◌, Option, some, if◌then◌else◌, ◌==◌, Bytes, take,
}
use libmonetra.Mstdlib.{Dict, IdMap, Csv}

pub data ConnStatus : Type 0 where
  connecting connected disconnecting idle_timeout disconnected : ConnStatus

pub data TransStatus : Type 0 where
  status_all status_new status_ready status_pending status_done : TransStatus

pub data ResponseType : Type 0 where
  response_unknown response_kv response_csv response_bulk : ResponseType

pub data LmMode : Type 0 where
  mode_tls mode_ip : LmMode

pub data LmEvent : Type 0 where
  conn_connected conn_disconnect conn_error : LmEvent
  trans_done trans_error trans_noconnect trans_timeout : LmEvent

-- M_event_type_t. A read carries what M_io_read_into_parser gives when this event is handled: the bytes
-- that it adds to the parser, or `none` where it does not succeed.
pub data IoEvent : Type 0 where
  io_connected io_accept io_write io_disconnected io_error io_other : IoEvent
  io_read : Option Bytes → IoEvent

-- M_tls_verify_level_t
pub data VerifyLevel : Type 0 where
  verify_none verify_full verify_cert_fuzzy verify_cert_only : VerifyLevel

-- The calls of mstdlib that have an effect outside the model's state.
pub data Effect : Type 0 where
  timer_add timer_set_firecount : ℕ → Effect
  timer_oneshot : ℕ → ℕ → Effect
  timer_remove timer_stop : Option ℕ → Effect
  timer_reset : Option ℕ → ℕ → Effect
  trigger_add : ℕ → Effect
  trigger_remove trigger_signal : Option ℕ → Effect
  io_create io_set_keepalives io_tls_add io_register : ℕ → Effect
  io_set_connect_timeout : ℕ → ℕ → Effect
  io_destroy io_disconnect io_write_from_buf : Option ℕ → Effect
  iocreate_call : ℕ → ℕ → Option ℕ → Effect
  tls_create tls_default_trust tls_verify_full tls_protocols tls_upref : ℕ → Effect
  tls_negotiation_timeout : ℕ → ℕ → Effect
  tls_destroy : Option ℕ → Effect
  conn_destroyed : Effect
  event_return : Effect
  event_loop_run : Option ℕ → Effect
  thread_sleep : ℕ → Effect
  tls_verify_level : Option ℕ → VerifyLevel → Effect
  tls_trust_ca_file : Option ℕ → Bytes → Effect
  tls_set_cert tls_set_cert_files : Option ℕ → Bytes → Bytes → Effect

pub record Trans : Type 0 where
  pub trans_id : ℕ
  pub status : TransStatus
  pub request_params : Option Dict
  pub response_type : ResponseType
  pub response_params : Option Dict
  pub response_raw : Option Bytes
  pub response_csv : Option Csv
  pub timeout_s : ℕ
  pub timeout_timer : Option ℕ
  pub user_data : Option ℕ

-- `rnd` has the numbers that M_rand_range(conn->rnd, 1, M_UINT32_MAX) returns from now on.
pub record Conn : Type 0 where
  pub rnd : List ℕ
  pub trans_new : List ℕ
  pub trans_ready : List ℕ
  pub trans_pending : List ℕ
  pub trans_done : List ℕ
  pub trans_id_map : IdMap
  pub status : ConnStatus
  pub io : Option ℕ
  pub tlsctx : Option ℕ
  pub in_use : Bool
  pub trans_delay_rm : List ℕ
  pub destroy : Bool
  pub outbuf : Bytes
  pub inbuf : Bytes
  pub timer : Option ℕ
  pub write_trigger : Option ℕ
  pub pingtxn : Option ℕ
  pub error : Bytes
  pub host : Bytes
  pub port : ℕ
  pub mode : LmMode
  pub disable_ping : Bool
  pub conn_timeout : ℕ
  pub idle_timeout : ℕ
  pub user_data : Option ℕ
  pub iocreate_cb : Option ℕ
  pub iocreate_cbarg : Option ℕ
  pub heap : ℕ → Option Trans
  pub next : ℕ
  pub log : List Effect
  pub fault : Bool

abbrev pub conn_status_eq : ConnStatus → ConnStatus → Bool
conn_status_eq connecting connecting = true
conn_status_eq connected connected = true
conn_status_eq disconnecting disconnecting = true
conn_status_eq idle_timeout idle_timeout = true
conn_status_eq disconnected disconnected = true
conn_status_eq _ _ = false

abbrev pub trans_status_eq : TransStatus → TransStatus → Bool
trans_status_eq status_all status_all = true
trans_status_eq status_new status_new = true
trans_status_eq status_ready status_ready = true
trans_status_eq status_pending status_pending = true
trans_status_eq status_done status_done = true
trans_status_eq _ _ = false

abbrev pub response_type_eq : ResponseType → ResponseType → Bool
response_type_eq response_unknown response_unknown = true
response_type_eq response_kv response_kv = true
response_type_eq response_csv response_csv = true
response_type_eq response_bulk response_bulk = true
response_type_eq _ _ = false

abbrev pub emit : Effect → Conn → Conn
emit e c = record c { log = e ∷ c.log }

-- The store with another value at `p`; `none` frees it.
abbrev pub update : (ℕ → Option Trans) → ℕ → Option Trans → ℕ → Option Trans
update f p v q = if p == q then v else f q

abbrev pub store : ℕ → Trans → Conn → Conn
store p t c = record c { heap = update c.heap p (some t) }

-- A pointer to freed memory is read.
abbrev pub dangling : Conn → Conn
dangling c = record c { fault = true }

-- M_snprintf and M_io_get_error_string into `char error[256]`.
abbrev pub set_error : Bytes → Conn → Conn
set_error text c = record c { error = take 255 text }

-- Seconds to milliseconds, in the unsigned 64-bit arithmetic of M_uint64 and size_t.
abbrev pub millis : ℕ → ℕ
millis s = (s * 1000) % 2 ^ 64
