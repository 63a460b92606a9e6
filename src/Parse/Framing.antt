-- ===== src/Parse/Framing.antt =====
-- The frames that LM_trans_structure writes and LM_conn_parse_trans_buffer reads:
-- STX, the id, FS, the body, ETX.
use mathlib.Core.List.{append_assoc}
use libmonetra.Base.{
  ℕ, zero, suc, ◌+◌, ◌-◌, ◌≤◌, ◌<◌, ◌≡◌, refl, ◌∙◌, Bool, true, false, [], ◌∷◌, ◌++◌, Option, none,
  some, arith, ap, Bool-cases, ◌==◌, if◌then◌else◌, inl, inr, Bytes, length, take, drop,
  length-append, take_left, count, count-append, ltb, codes,
}
use libmonetra.Mstdlib.{Mstdlib, BufLaws, ParserLaws, Dict}
use libmonetra.Parse.{
  Parsed, success, wait, error, with_response, complete, dispatch, after_id, parse_msg, parse_frame,
  parse_round, parse_loop, parse_trans_buffer, is_wait, starts_stx,
}
use libmonetra.Structure.{stx, etx, fs, is_ping, structure_data, trans_structure}
use libmonetra.Trans.{get_trans-live, with_trans-live}
use libmonetra.Parse.Content.{determine_response_type, deserialize}
use libmonetra.Types.{
  Conn, Trans, status_pending, status_done, trans_status_eq, response_type_eq, response_kv, store,
  update,
}

take_cut : (s rest : Bytes) (b : ℕ) → take (suc (length s)) (s ++ (b ∷ rest)) ≡ s ++ (b ∷ [])
take_cut [] rest b = refl
take_cut (x ∷ s) rest b = ap (◌∷◌ x) (take_cut s rest b)

drop_cut : (s rest : Bytes) (b : ℕ) → drop (suc (length s)) (s ++ (b ∷ rest)) ≡ rest
drop_cut [] rest b = refl
drop_cut (x ∷ s) rest b = drop_cut s rest b

take_inner : (s : Bytes) (b : ℕ) (n : ℕ) → n ≡ length s → take n (s ++ (b ∷ [])) ≡ s
take_inner s b n e = ap (λ (k : ℕ). take k (s ++ (b ∷ []))) e ∙ take_left s (b ∷ [])

module _ (m : Mstdlib) where
  loop_stop :
      (f : ℕ) (c c' : Conn) (r : Parsed)
      → parse_round m c ≡ (c', r, false)
      → parse_loop m (suc f) c ≡ some (c', r)
  unfolding parse_loop
  loop_stop f c c' r h =
      let stop : (parse_round m c).2 ≡ false = ap (λ (x : Conn × Parsed × Bool). x.2) h in
      rw (stop, parse_loop) (ap (λ (x : Conn × Parsed × Bool). some (x.0, x.1)) h)

  loop_more :
      (f : ℕ) (c c' : Conn) (r : Parsed)
      → parse_round m c ≡ (c', r, true)
      → parse_loop m (suc f) c ≡ parse_loop m f c'
  unfolding parse_loop
  loop_more f c c' r h =
      let more : (parse_round m c).2 ≡ true = ap (λ (x : Conn × Parsed × Bool). x.2) h in
      rw (more, parse_loop) (ap (λ (x : Conn × Parsed × Bool). parse_loop m f x.0) h)

  -- A frame, up to its ETX.
  abbrev pub opening : ℕ → Bytes → Bytes
  opening id body = stx ∷ (m.buf_add_uint [] id ++ (fs ∷ body))

  abbrev pub frame : ℕ → Bytes → Bytes → Bytes
  frame id body rest = opening id body ++ (etx ∷ rest)

  -- The body of a request: its parameters, or the short ping message.
  abbrev pub request_body : Option Dict → Bytes
  request_body d = if is_ping m d then codes "PING" else m.dict_serialize_buf d []

  module _ (bl : BufLaws m) where
    structure_data-append :
        (d : Option Dict) (out : Bytes) → structure_data m d out ≡ out ++ request_body d
    unfolding structure_data
    structure_data-append d out = elim (Bool-cases (is_ping m d)) [
      | inl e ↦ rw e (bl.add_str out (codes "PING"))
      | inr e ↦ rw e (bl.serialize_end d out)
    ]

    -- LM_trans_structure on a live transaction puts one frame behind what is in the buffer, and
    -- drops the parameters, which may hold card data, from memory; it changes nothing else, if
    -- M_buf does what it documents.
    pub trans_structure-frame :
        (c : Conn) (p : ℕ) (t : Trans)
        → c.heap p ≡ some t
        → trans_structure m c p
          ≡ store p
              (record t { request_params = none })
              (record c {
                outbuf = c.outbuf ++ frame t.trans_id (request_body t.request_params) [];
              })
    unfolding trans_structure
    trans_structure-frame c p t live = rw (with_trans-live c p _ live) (
        ap
          (λ (out : Bytes).
            store p (record t { request_params = none }) (record c { outbuf = out }))
          written)
      where
        written :
            m.buf_add_byte
              (structure_data m t.request_params
                (m.buf_add_byte (m.buf_add_uint (m.buf_add_byte c.outbuf stx) t.trans_id) fs))
              etx
            ≡ c.outbuf ++ frame t.trans_id (request_body t.request_params) []
        written = simp (
          bl.add_byte,
          structure_data-append,
          bl.add_uint (c.outbuf ++ (stx ∷ [])) t.trans_id,
          append_assoc,
        )

  -- What the transaction holds of a response: key/value data as a dictionary, all else as it came.
  abbrev pub Answered : Trans → Trans → Bytes → Type 0
  Answered t u body =
      let kind = determine_response_type m body in
      (u.status ≡ status_done)
      × (u.trans_id ≡ t.trans_id)
      × (u.response_type ≡ kind)
      × (u.response_params
          ≡ (if response_type_eq kind response_kv then deserialize m body else t.response_params))
      × (u.response_raw ≡ (if response_type_eq kind response_kv then t.response_raw else some body))

  with_response-Answered : (t : Trans) (body : Bytes) → Answered t (with_response m t body) body
  unfolding with_response
  with_response-Answered t body =
      elim (Bool-cases (response_type_eq (determine_response_type m body) response_kv)) [
        | inl kv ↦ rw kv (refl, refl, refl, refl, refl)
        | inr other ↦ rw other (refl, refl, refl, refl, refl)
      ]

  module _ (pl : ParserLaws m) where
    opening_plain : (id : ℕ) (body : Bytes) → count etx body ≡ 0 → count etx (opening id body) ≡ 0
    opening_plain id body h = ground (
      arith,
      count-append etx (m.buf_add_uint [] id) (fs ∷ body),
      pl.uint_digits id etx (omega arith),
    )

    -- What the parser hands on, of a message without its STX and ETX.
    parse_msg-frame :
        (c : Conn) (id : ℕ) (body : Bytes)
        → parse_msg m c (m.buf_add_uint [] id ++ (fs ∷ body)) ≡ dispatch m c id body
    unfolding parse_msg after_id
    parse_msg-frame c id body = rw (pl.read_uint_print id fs body (omega arith), parse_msg) refl

    -- What the parser cuts out of a buffer that begins by a frame.
    cut_frame :
        (c : Conn) (id n : ℕ) (body rest : Bytes)
        → c.inbuf ≡ frame id body rest
        → n ≡ suc (length (opening id body))
        → 1 ≤ length body
        → parse_frame m c n
          ≡ (record (dispatch m c id body).0 { inbuf = rest }, (dispatch m c id body).1)
    unfolding parse_frame
    cut_frame c id n body rest e is long =
        let inner = m.buf_add_uint [] id ++ (fs ∷ body) in
        let msg : take n c.inbuf ≡ opening id body ++ (etx ∷ []) =
          ap (λ (k : ℕ). take k c.inbuf) is
          ∙ ap (take (suc (length (opening id body)))) e
          ∙ take_cut (opening id body) rest etx in
        let left : drop n c.inbuf ≡ rest =
          ap (λ (k : ℕ). drop k c.inbuf) is
          ∙ ap (drop (suc (length (opening id body)))) e
          ∙ drop_cut (opening id body) rest etx in
        let size : length (inner ++ (etx ∷ [])) ≡ length inner + 1 =
          length-append inner (etx ∷ []) in
        let enough : ltb (length (opening id body ++ (etx ∷ []))) 5 ≡ false =
          ground
            (arith, size, length-append (m.buf_add_uint [] id) (fs ∷ body), pl.uint_ne_nil id) in
        let whole : take (length (opening id body ++ (etx ∷ [])) - 2) (inner ++ (etx ∷ []))
            ≡ inner =
          take_inner inner etx _ (omega (arith, size)) in
        rw (msg, left, enough, whole, parse_msg-frame c id body) refl

    round_frame :
        (c : Conn) (id : ℕ) (body rest : Bytes)
        → c.inbuf ≡ frame id body rest
        → count etx body ≡ 0
        → 1 ≤ length body
        → parse_round m c ≡ (
          record (dispatch m c id body).0 { inbuf = rest },
          (dispatch m c id body).1,
          is_wait (dispatch m c id body).1,
        )
    unfolding parse_round
    round_frame c id body rest e plain long =
        let found : m.parser_consume_until c.inbuf etx ≡ suc (length (opening id body)) =
          ap (λ (b : Bytes). m.parser_consume_until b etx) e
          ∙ pl.until_found (opening id body) rest etx (opening_plain id body plain)
          ∙ omega arith in
        let enough : ltb (length c.inbuf) 5 ≡ false = ground (
          arith,
          ap length e,
          length-append (m.buf_add_uint [] id) (fs ∷ body),
          length-append (opening id body) (etx ∷ rest),
          pl.uint_ne_nil id,
        ) in
        let starts : starts_stx c.inbuf ≡ true = ap starts_stx e in
        let some_read : (m.parser_consume_until c.inbuf etx == 0) ≡ false = ground (arith, found) in
        rw (enough, parse_round, starts, some_read, cut_frame c id _ body rest e found long) refl

    -- A frame at the head of the buffer whose id belongs to a PENDING transaction, and whose body
    -- is not empty and has no ETX, is the response of just that transaction: it is DONE, holds the
    -- body by the kind of the response, and is moved from the PENDING queue to the DONE queue; no
    -- other transaction changes, and what stands behind the frame is left. M_parser does what it
    -- documents.
    pub parse_trans_buffer-frame :
        (c : Conn) (id p : ℕ) (t : Trans) (body rest : Bytes)
        → c.inbuf ≡ frame id body rest
        → count etx body ≡ 0
        → 1 ≤ length body
        → m.u64vp_get c.trans_id_map id ≡ some p
        → c.heap p ≡ some t
        → t.status ≡ status_pending
        → (u : Trans) × Answered t u body
          × (parse_trans_buffer m c
              ≡ some (
                record c {
                  inbuf = rest;
                  heap = update c.heap p (some u);
                  trans_pending = m.queue_take c.trans_pending p;
                  trans_done = m.queue_insert c.trans_done p;
                },
                success p,
              ))
    unfolding parse_trans_buffer dispatch complete
    parse_trans_buffer-frame c id p t body rest e plain long known live is =
        let pending : trans_status_eq t.status status_pending ≡ true = ground (arith, is) in
        let sent : dispatch m c id body ≡ (complete m c p t body, success p) =
          rw (known, dispatch, get_trans-live c p wait _ live, pending) refl in
        (
          with_response m t body,
          with_response-Answered t body,
          loop_stop (length c.inbuf) c (record (complete m c p t body) { inbuf = rest }) (success p)
              (round_frame c id body rest e plain long
                ∙ ap (λ (x : Conn × Parsed). (record x.0 { inbuf = rest }, x.1, is_wait x.1)) sent),
        )

    loop_mono :
        (f g : ℕ) (c : Conn) (r : Conn × Parsed)
        → parse_loop m f c ≡ some r
        → f ≤ g
        → parse_loop m g c ≡ some r
    unfolding parse_loop
    loop_mono zero g c r h le = cc
    loop_mono (suc f) zero c r h le = absurd (omega arith)
    loop_mono (suc f) (suc g) c r h le = elim (Bool-cases (parse_round m c).2) [
      | inl more ↦
          rw (more, parse_loop)
            (loop_mono f g (parse_round m c).0 r (rw (more, parse_loop) at h) (omega arith))
      | inr stop ↦ rw (stop, parse_loop) (rw (stop, parse_loop) at h)
    ]

    -- A frame at the head of the buffer, with a body that is not empty and has no ETX, and an id
    -- that is not known, as of a transaction that was deleted before its response came, is
    -- dropped: what the rest of the buffer gives is given, as if the frame had not been there, if
    -- M_parser does what it documents.
    pub parse_trans_buffer_orphan :
        (c : Conn) (id : ℕ) (body rest : Bytes) (r : Conn × Parsed)
        → c.inbuf ≡ frame id body rest
        → count etx body ≡ 0
        → 1 ≤ length body
        → m.u64vp_get c.trans_id_map id ≡ none
        → parse_trans_buffer m (record c { inbuf = rest }) ≡ some r
        → parse_trans_buffer m c ≡ some r
    unfolding parse_trans_buffer
    parse_trans_buffer_orphan c id body rest r e plain long unknown h =
        let sent : dispatch m c id body ≡ (c, wait) =
          unfold dispatch in rw (unknown, dispatch) refl in
        let shorter : suc (length rest) ≤ length c.inbuf =
          omega (arith, ap length e, length-append (opening id body) (etx ∷ rest)) in
        loop_more (length c.inbuf) c (record c { inbuf = rest }) wait
          (round_frame c id body rest e plain long
            ∙ ap (λ (x : Conn × Parsed). (record x.0 { inbuf = rest }, x.1, is_wait x.1)) sent)
        ∙ loop_mono (suc (length rest)) (length c.inbuf) (record c { inbuf = rest }) r h shorter

-- A buffer of five bytes or more whose first frame has fewer than five is an error of the
-- connection, whatever stands behind that frame, if M_parser does what it documents.
pub parse_trans_buffer_short :
    (m : Mstdlib) (c : Conn) (s rest : Bytes)
    → ParserLaws m
    → c.inbuf ≡ stx ∷ (s ++ (etx ∷ rest))
    → count etx s ≡ 0
    → length s < 3
    → 5 ≤ length c.inbuf
    → parse_trans_buffer m c ≡ some (record c { inbuf = rest }, error)
unfolding parse_trans_buffer parse_round parse_frame
parse_trans_buffer_short m c s rest pl e plain short long =
    let n : m.parser_consume_until c.inbuf etx ≡ suc (length (stx ∷ s)) =
      ap (λ (b : Bytes). m.parser_consume_until b etx) e
      ∙ pl.until_found (stx ∷ s) rest etx (ground arith)
      ∙ omega arith in
    let cut : take (suc (length (stx ∷ s))) c.inbuf ≡ (stx ∷ s) ++ (etx ∷ []) =
      ap (take (suc (length (stx ∷ s)))) e ∙ take_cut (stx ∷ s) rest etx in
    let left : drop (suc (length (stx ∷ s))) c.inbuf ≡ rest =
      ap (drop (suc (length (stx ∷ s)))) e ∙ drop_cut (stx ∷ s) rest etx in
    let few : ltb (length ((stx ∷ s) ++ (etx ∷ []))) 5 ≡ true =
      ground (arith, length-append s (etx ∷ [])) in
    let enough : ltb (length c.inbuf) 5 ≡ false = ground arith in
    let starts : starts_stx c.inbuf ≡ true = ap starts_stx e in
    let some_read : (m.parser_consume_until c.inbuf etx == 0) ≡ false = ground (arith, n) in
    loop_stop m (length c.inbuf) c (record c { inbuf = rest }) error
      (rw (enough, parse_round, starts, some_read, n) (rw (cut, few, left) refl))
