-- ===== src/Legacy/Engine.antt =====
-- src/monetra_init.c, and of src/monetra_legacy.c: M_InitEngine_ex, M_InitEngine, M_DestroyEngine,
-- M_InitConn and the trust of a session.
use libmonetra.Base.{
  ℕ, ◌+◌, ◌≡◌, Bool, true, false, ◌&&◌, ◌||◌, not, List, ◌∷◌, Option, none, some, if◌then◌else◌,
  Bytes, codes, ◌==◌, ltb, ℤ, is_negative, to_ℕ, arith,
}
use libmonetra.Conn.{conn_init, conn_set_tls_clientctx}
use libmonetra.Legacy.{Session}
use libmonetra.Mstdlib.{Mstdlib}
use libmonetra.Trans.{str_isempty}
use libmonetra.Types.{
  Conn, emit, VerifyLevel, verify_none, verify_full, verify_cert_fuzzy, verify_cert_only,
  tls_create, tls_verify_level, tls_trust_ca_file,
}

-- What the library keeps for the whole process: whether `LM_once` has run, and M_global_capath.
pub record Library : Type 0 where
  pub once : Bool
  pub global_capath : Option Bytes

-- LM_init: M_thread_once tells whether it ran the function now.
unfoldable pub lib_init : Library → Library × Bool
lib_init l = if l.once then (l, false) else (record l { once = true }, true)

unfoldable pub init_engine_ex : Library → Library × Bool
unfolding lib_init
init_engine_ex l = lib_init l

unfoldable pub init_engine : Library → Option Bytes → Library × Bool
unfolding init_engine_ex
init_engine l location =
    let (l', first) = init_engine_ex l in
    if first && not (str_isempty location)
    then (record l' { global_capath = location }, true)
    else (l', false)

-- M_library_cleanup runs LM_init_destructor, if LM_init_int registered it.
unfoldable pub destroy_engine : Library → Library
destroy_engine l = record l { once = false; global_capath = none }

-- M_InitConn: a connection to localhost, without a check of certificates. `event` stands for
-- M_event_create, `callback` for M_legacy_event_callback.
module _ (m : Mstdlib) where
  unfoldable pub init_conn : Library → List ℕ → ℕ → ℕ → Option Session
  init_conn l draws event callback =
      elim (conn_init draws (some event) (some callback) (some (codes "localhost")) 8665) [
        | none ↦ none
        | some c ↦
            let created = record c {
              next = c.next + 1;
              log = tls_verify_level (some c.next) verify_none ∷ tls_create c.next ∷ c.log;
            } in
            let trusted : Conn = elim l.global_capath [
              | none ↦ created
              | some path ↦ emit (tls_trust_ca_file (some c.next) path) created
            ] in
            some (record {
              conn = (conn_set_tls_clientctx trusted (some c.next)).0;
              tlsctx = some c.next;
              trust_loaded = false;
              blocking = false;
              txntimeout = 0;
              is_monitor_previously_successful = false;
            })
      ]

  unfoldable pub set_ssl_cafile : Session → Option Bytes → Session × Bool
  set_ssl_cafile s none = (s, false)
  set_ssl_cafile s (some path) =
      if str_isempty (some path)
      then (s, false)
      else if m.tls_set_trust_ca_file s.tlsctx path
      then (record s { trust_loaded = true }, true)
      else (s, false)

  unfoldable pub set_ssl_cadir : Session → Option Bytes → Session × Bool
  set_ssl_cadir s none = (s, false)
  set_ssl_cadir s (some path) =
      if str_isempty (some path)
      then (s, false)
      else if m.tls_set_trust_ca_dir s.tlsctx path
      then (record s { trust_loaded = true }, true)
      else (s, false)

abbrev level_of : ℕ → VerifyLevel
level_of n =
    if n == 0
    then verify_none
    else if n == 2
    then verify_cert_fuzzy
    else if n == 3
    then verify_cert_only
    else verify_full

unfoldable pub verify_ssl_cert : Session → ℤ → Session
verify_ssl_cert s level =
    if is_negative level || ltb 3 (to_ℕ level)
    then s
    else record s { conn = emit (tls_verify_level s.tlsctx (level_of (to_ℕ level))) s.conn }

-- M_InitEngine reports a failure whenever no location is given, whether or not the library was
-- set up; it is set up behind the call.
pub init_engine_without_location :
    (l : Library) → ((init_engine l none).1 ≡ false) × ((init_engine l none).0.once ≡ true)
unfolding init_engine
init_engine_without_location l = ground arith

-- The first M_InitEngine_ex succeeds and each further one fails, until M_DestroyEngine, behind which
-- one succeeds again.
pub init_engine_ex_once :
    (l : Library)
    → ((init_engine_ex l).1 ≡ not l.once)
      × ((init_engine_ex (init_engine_ex l).0).1 ≡ false)
      × ((init_engine_ex (destroy_engine l)).1 ≡ true)
unfolding init_engine_ex destroy_engine
init_engine_ex_once l = ground arith
