-- ===== src/Tests.antt =====
-- Tests of the model and the theorems at concrete inputs, over a small mstdlib.
mod Reference
mod Connection
mod Lives
mod Programs
mod Clients
use libmonetra.Base.{
  ℕ, ◌+◌, ◌<◌, ◌≡◌, ◌≢◌, refl, Bool, true, false, List, [], ◌∷◌, ◌++◌, Option, none, some, ltb,
  arith, if◌then◌else◌, ◌==◌, Bytes, length, codes, count, pos, inl, ◌↔◌, inr,
}
use libmonetra.Conn.Settings.{settings_locked}
use libmonetra.Conn.{
  conn_change_server, conn_change_mode, conn_set_conn_timeout, conn_set_tls_clientctx,
  conn_set_tls_cert, conn_set_tls_cert_files, conn_set_iocreate_callback,
}
use libmonetra.Event.{finish, set_connected}
use libmonetra.Invariant.Connected.{set_connected-Valid}
use libmonetra.Invariant.Finish.{finish-Valid, finish-frees}
use libmonetra.Types.{connecting, conn_connected, mode_ip}
use libmonetra.Conn.{conn_get_trans_by_internal_id, conn_destroy, conn_trans_list, conn_trans_count}
use libmonetra.Connect.{conn_connect}
use libmonetra.Event.{rewrite_type, noconnect_events, handle_conn_error, remove_delayed, Entry}
use libmonetra.Invariant.Create.{draw_id-first, trans_new-Valid, trans_set_param-Valid}
use libmonetra.Invariant.Delete.{Deletes, trans_delete-Valid, remove_delayed-Valid}
use libmonetra.Invariant.Failure.{error_events, handle_conn_error-Valid}
use libmonetra.Invariant.Quiet.{IsQuiet, conn_connect-IsQuiet}
use libmonetra.Invariant.Receive.{Reports, Progress, parse_trans_buffer-Valid}
use libmonetra.Invariant.Send.{send_messages_empties, trans_send-Valid}
use libmonetra.Invariant.Whole.{conn_trans_count-length, conn_trans_list-alive, conn_destroy-frees}
use libmonetra.Invariant.{Valid, alive}
use libmonetra.Legacy.Agreement.{response_keys_index_bounds, return_code-return_status}
use libmonetra.Legacy.Codes.{
  code_success, code_auth, code_of, status_code, is_comma_delimited, return_status, check_status,
  return_code, done,
}
use libmonetra.Legacy.{response_param, Session, element, out_of_bounds, response_keys_index}
use libmonetra.Parse.Content.{determine_response_type, unquote}
use libmonetra.Parse.Framing.{
  Answered, trans_structure-frame, parse_trans_buffer-frame, parse_trans_buffer_orphan,
  parse_trans_buffer_short, frame, request_body,
}
use libmonetra.Parse.Values.{
  double, KeyValue, determine_response_type-kv, unquote-double, unquote_plain,
}
use libmonetra.Parse.{
  parse_loop, parse_round, Parsed, success, wait, error, complete, parse_trans_buffer,
}
use libmonetra.Send.{trans_send}
use libmonetra.Structure.{trans_structure, send_messages}
use libmonetra.Trans.Response.{trans_response_type, trans_response_param}
use libmonetra.Trans.{trans_status, blank, draw_id, trans_delete, trans_new, trans_set_param}
use libmonetra.Types.{
  Conn, Trans, connected, disconnected, status_all, status_new, status_ready, status_pending,
  status_done, io_error, conn_error, disconnected, trans_error, store, update, response_kv,
}
use Connection.{single, single-Valid, request}
use Reference.{
  reference, reference_queue, reference_ids, reference_buf, reference_parser, reference_str,
}

abbrev body : Bytes
body = codes "code=AUTH\r\n"

-- A response to the request, and the start of another message.
abbrev answered : Conn
answered = single status_pending connected (frame reference 7 body (0x02 ∷ []))

answered-Valid : Valid reference answered
answered-Valid = single-Valid status_pending connected _ cc

-- The same response to a request that is not there any more.
abbrev stray : Conn
stray = single status_pending connected (frame reference 8 body [])

abbrev fresh : Conn
fresh = single status_new connected []

fresh-Valid : Valid reference fresh
fresh-Valid = single-Valid status_new connected [] cc

abbrev waiting : Conn
waiting = single status_ready connected []

abbrev due : Conn
due = record fresh { trans_delay_rm = 1 ∷ [] }

parse_trans_buffer-Valid_example :
    (r : Conn × Parsed) × (parse_trans_buffer reference answered ≡ some r)
    × Valid reference r.0
    × Reports r.0 r.1
    × Progress reference reference_queue answered r.0 r.1
parse_trans_buffer-Valid_example =
    parse_trans_buffer-Valid reference reference_queue answered answered-Valid

parse_trans_buffer-frame_example :
    (u : Trans) × Answered reference (request status_pending) u body
    × (parse_trans_buffer reference answered
        ≡ some (
          record answered {
            inbuf = 0x02 ∷ [];
            heap = update answered.heap 1 (some u);
            trans_pending = [];
            trans_done = 1 ∷ [];
          },
          success 1,
        ))
parse_trans_buffer-frame_example =
    parse_trans_buffer-frame reference reference_parser answered 7 1 (request status_pending) body
      (0x02 ∷ []) refl refl (omega arith) refl refl refl

parse_trans_buffer_orphan_example :
    parse_trans_buffer reference stray ≡ some (record stray { inbuf = [] }, wait)
unfolding parse_trans_buffer parse_loop parse_round
parse_trans_buffer_orphan_example =
    parse_trans_buffer_orphan reference reference_parser stray 8 body []
      (record stray { inbuf = [] }, wait) refl refl (omega arith) refl refl

parse_trans_buffer_short_example :
    parse_trans_buffer reference (single status_pending connected (0x02 ∷ 0x03 ∷ body))
    ≡ some (single status_pending connected body, error)
parse_trans_buffer_short_example =
    parse_trans_buffer_short reference (single status_pending connected (0x02 ∷ 0x03 ∷ body)) []
      body reference_parser refl refl (omega arith) (omega arith)

trans_structure-frame_example :
    trans_structure reference fresh 1
    ≡ store 1
        (record (request status_new) { request_params = none })
        (record fresh {
          outbuf =
              frame reference 7 (request_body reference (request status_new).request_params) [];
        })
trans_structure-frame_example =
    trans_structure-frame reference reference_buf fresh 1 (request status_new) refl

handle_conn_error-Valid_example :
    let r = handle_conn_error reference answered [] io_error in
    Valid reference r.0
    × (r.0.trans_pending ≡ [])
    × (r.0.trans_ready ≡ [])
    × (r.0.status ≡ disconnected)
    × (r.0.io ≡ none)
    × (r.0.outbuf ≡ [])
    × (r.0.inbuf ≡ [])
    × (r.1 ≡ (trans_error, some 1) ∷ (conn_error, none) ∷ [])
unfolding rewrite_type
handle_conn_error-Valid_example =
    handle_conn_error-Valid reference reference_queue answered [] io_error answered-Valid

send_messages_empties_example :
    Valid reference (send_messages reference waiting)
    × ((send_messages reference waiting).trans_ready ≡ [])
send_messages_empties_example =
    send_messages_empties reference reference_queue waiting
      (single-Valid status_ready connected [] cc) refl

trans_send-Valid_example :
    Valid reference (trans_send reference fresh (some 1)).0
    × ((trans_send reference fresh (some 1)).1 ≡ true)
trans_send-Valid_example =
    trans_send-Valid reference reference_queue fresh 1 (request status_new) refl fresh-Valid

trans_delete-Valid_example :
    Valid reference (trans_delete reference fresh (some 1))
    × Deletes reference reference_queue reference_ids fresh 1
        (trans_delete reference fresh (some 1))
trans_delete-Valid_example =
    trans_delete-Valid reference reference_queue reference_ids fresh 1 (request status_new) refl
      refl fresh-Valid

due-Valid : Valid reference due
due-Valid = record {
  inv = record {
    bounded = fresh-Valid.inv.bounded;
    placed = λ p s _ free. fresh-Valid.inv.placed p s refl free;
    delayed = λ p. ground arith;
    ids = fresh-Valid.inv.ids;
    owned = fresh-Valid.inv.owned;
    safe = refl;
  };
  fresh = fresh-Valid.fresh;
}

remove_delayed-Valid_example :
    let c' = remove_delayed reference (1 ∷ []) due in
    Valid reference c'
    × (c'.trans_delay_rm ≡ [])
    × ((x : ℕ) → c'.heap x ≡ (if count x (1 ∷ []) == 0 then due.heap x else none))
remove_delayed-Valid_example =
    remove_delayed-Valid reference reference_queue reference_ids (1 ∷ []) due refl due-Valid

trans_new-Valid_example :
    (c' : Conn) × (trans_new reference fresh ≡ some (c', 2))
    × (c'.heap 2 ≡ some (blank reference 9))
    × (fresh.heap 2 ≡ none)
    × (reference.u64vp_get c'.trans_id_map 9 ≡ some 2)
    × Valid reference c'
trans_new-Valid_example =
    trans_new-Valid reference reference_queue reference_ids fresh (7 ∷ []) [] 9 fresh-Valid refl
      (cc, tt) refl

conn_trans_list-alive_example : count 1 (conn_trans_list fresh status_all) ≡ 1
conn_trans_list-alive_example = conn_trans_list-alive reference fresh 1 fresh-Valid refl

unquote-double_example :
    unquote b'"' (b'"' ∷ (double b'"' (codes "a\"b") ++ (b'"' ∷ []))) ≡ some (codes "a\"b")
unquote-double_example = unquote-double b'"' (codes "a\"b")

unquote_plain_example : unquote b'"' (codes "abc") ≡ some (codes "abc")
unquote_plain_example = unquote_plain b'"' (codes "abc") refl

determine_response_type-kv_example :
    (determine_response_type reference body ≡ response_kv)
    ↔ KeyValue reference (codes "code=AUTH\r\n")
determine_response_type-kv_example = determine_response_type-kv reference body

response_keys_index_bounds_example :
    let keys = codes "a" ∷ codes "b" ∷ [] in
    ((a : Bytes) × (response_keys_index (some keys) (pos 2) (pos 1) ≡ element a))
    × (response_keys_index (some keys) (pos 2) (pos 2) ≡ out_of_bounds)
response_keys_index_bounds_example =
    response_keys_index_bounds (codes "a") (codes "b" ∷ []) 1 (omega arith)

abbrev approved : Session
approved = record {
  conn = record (single status_done connected []) {
    heap = λ p.
        if 1 == p
        then some (record (request status_done) {
          response_type = response_kv;
          response_params = some ((codes "code", some (codes "AUTH")) ∷ []);
        })
        else none;
  };
  tlsctx = none;
  trust_loaded = false;
  blocking = false;
  txntimeout = 0;
  is_monitor_previously_successful = false;
}

approved-done : check_status reference approved 7 ≡ done
unfolding check_status status_code conn_get_trans_by_internal_id trans_status
approved-done = refl

approved-code : return_code reference approved 7 ≡ code_auth
unfolding return_code code_of is_comma_delimited conn_get_trans_by_internal_id trans_response_type
    response_param trans_response_param
approved-code = refl

return_code-return_status_example : return_status reference approved 7 ≡ code_success
return_code-return_status_example =
    return_code-return_status reference reference_str approved 7 approved-done (inr approved-code)

finish-Valid_example :
    Valid reference (finish reference due).0
    × ((finish reference due).0.trans_delay_rm ≡ [])
    × ((finish reference due).0.in_use ≡ false)
    × ((finish reference due).1 ≡ false)
finish-Valid_example = finish-Valid reference reference_queue reference_ids due due-Valid refl

-- The answer to the ping was just read.
abbrev pinged : Conn
pinged = record (single status_done connecting []) { pingtxn = some 1; in_use = true }

pinged-Valid : Valid reference pinged
pinged-Valid =
    let v = single-Valid status_done connecting [] cc in record { inv = v.inv; fresh = v.fresh }

set_connected-Valid_example :
    let r = set_connected reference pinged [] in
    Valid reference r.0 × (r.0.trans_ready ≡ []) × (r.1 ≡ [] ++ ((conn_connected, none) ∷ []))
set_connected-Valid_example =
    set_connected-Valid reference reference_queue reference_ids pinged 1 (request status_done) []
      refl refl refl refl pinged-Valid

settings_locked_example :
    (conn_change_server pinged (some (codes "example")) 8665 ≡ (pinged, false))
    × (conn_change_mode pinged mode_ip ≡ (pinged, false))
    × (conn_set_conn_timeout pinged 8665 ≡ (pinged, false))
    × (conn_set_tls_clientctx pinged none ≡ (pinged, false))
    × (conn_set_tls_cert reference pinged (some (codes "example")) (some (codes "cert"))
        ≡ (pinged, false))
    × (conn_set_tls_cert_files reference pinged (some (codes "example")) (some (codes "cert"))
        ≡ (pinged, false))
    × (conn_set_iocreate_callback pinged none none ≡ (pinged, false))
settings_locked_example =
    settings_locked reference pinged (some (codes "example")) (some (codes "cert")) 8665 mode_ip
      none none (inl refl)
