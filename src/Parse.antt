-- ===== src/Parse.antt =====
-- src/monetra_parse.c: frames off the wire, and their responses.
pub mod Content
pub mod Framing
pub mod Values
use libmonetra.Base.{
  ℕ, zero, suc, ◌-◌, Bool, true, false, List, [], ◌∷◌, Option, none, some, if◌then◌else◌, ◌==◌, ltb,
  length, take, drop, Bytes,
}
use libmonetra.Mstdlib.{Mstdlib}
use libmonetra.Structure.{stx, etx, fs}
use libmonetra.Trans.{get_trans}
use libmonetra.Types.{
  Conn, Trans, status_pending, status_done, store, response_kv, trans_status_eq, response_type_eq,
}
use Content.{determine_response_type, deserialize}

-- LM_conn_parse_error_t, with the transaction that LM_CONN_PARSE_ERROR_SUCCESS goes with: the
-- caller reads it in no other case.
pub data Parsed : Type 0 where
  success : ℕ → Parsed
  wait error : Parsed

abbrev pub is_wait : Parsed → Bool
is_wait wait = true
is_wait _ = false

abbrev pub starts_stx : Bytes → Bool
starts_stx [] = false
starts_stx (b ∷ _) = b == stx

module _ (m : Mstdlib) where
  -- The response is stored by its type.
  unfoldable pub with_response : Trans → Bytes → Trans
  with_response t body =
      let kind = determine_response_type m body in
      if response_type_eq kind response_kv
      then record t {
        status = status_done;
        response_type = kind;
        response_params = deserialize m body;
      }
      else record t { status = status_done; response_type = kind; response_raw = some body }

  unfoldable pub complete : Conn → ℕ → Trans → Bytes → Conn
  unfolding with_response
  complete c p t body = store p (with_response t body) (record c {
    trans_pending = m.queue_take c.trans_pending p;
    trans_done = m.queue_insert c.trans_done p;
  })

  -- Behind the FS. A transaction that is not known, or not pending, is an orphan.
  unfoldable pub dispatch : Conn → ℕ → Bytes → Conn × Parsed
  dispatch c id body = elim (m.u64vp_get c.trans_id_map id) [
    | none ↦ (c, wait)
    | some p ↦ get_trans c p wait λ t.
        if trans_status_eq t.status status_pending
        then (complete c p t body, success p)
        else (c, wait)
  ]

  unfoldable pub after_id : Conn → ℕ → Bytes → Conn × Parsed
  after_id c id [] = (c, error)
  after_id c id (b ∷ body) = if b == fs then dispatch c id body else (c, error)

  unfoldable pub parse_msg : Conn → Bytes → Conn × Parsed
  unfolding after_id dispatch
  parse_msg c msg = elim (m.parser_read_uint msg) [
    | none ↦ (c, error)
    | some (id, rest) ↦ after_id c id rest
  ]

  -- One message, STX and ETX included; `conn->inbuf` is what stands behind it.
  unfoldable pub parse_frame : Conn → ℕ → Conn × Parsed
  unfolding parse_msg
  parse_frame c n =
      let msg = take n c.inbuf in
      if ltb (length msg) 5
      then (record c { inbuf = drop n c.inbuf }, error)
      else let (c', parsed) = parse_msg c (take (length msg - 2) (drop 1 msg)) in
        (record c' { inbuf = drop n c.inbuf }, parsed)

  -- One round of the loop, which goes on after an orphan: `again` says so. Without an ETX the parser
  -- is wound back, so that nothing is consumed.
  unfoldable pub parse_round : Conn → Conn × Parsed × Bool
  parse_round c = elim (ltb (length c.inbuf) 5) [
    | true ↦ (c, wait, false)
    | false ↦ elim (starts_stx c.inbuf) [
      | false ↦ (c, error, false)
      | true ↦
          let n = m.parser_consume_until c.inbuf etx in
          if n == 0
          then (c, wait, false)
          else let (c', parsed) = parse_frame c n in (c', parsed, is_wait parsed)
    ]
  ]

  -- `while (err == LM_CONN_PARSE_ERROR_WAIT)`; `none` says that the fuel is used up.
  unfoldable pub parse_loop : ℕ → Conn → Option (Conn × Parsed)
  parse_loop zero c = none
  parse_loop (suc fuel) c =
      let (c', parsed, again) = parse_round c in
      elim again [ true ↦ parse_loop fuel c' | false ↦ some (c', parsed) ]

  -- Each frame takes bytes from the buffer, so its length bounds the rounds.
  unfoldable pub parse_trans_buffer : Conn → Option (Conn × Parsed)
  parse_trans_buffer c = parse_loop (suc (length c.inbuf)) c
