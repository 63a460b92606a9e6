-- ===== src/Lifecycle/Responses.antt =====
-- M_EVENT_TYPE_READ: the loop over the responses returns, and leaves a good connection.
use libmonetra.Base.{
  Option, none, ◌++◌, ℕ, zero, suc, ◌<◌, ◌≡◌, refl, ◌∙◌, Bool, true, false, List, [], some, arith,
  ap, length, Bool-cases, inl, inr, is_nil, Bytes, codes, if◌then◌else◌,
}
use libmonetra.Event.{
  Entry, Handled, drop_timeout, is_pingtxn, on_response, read_loop, after_read, on_read,
  handle_conn_error,
}
use libmonetra.Invariant.Failure.{drop_timeout-Valid, handle_conn_error-Valid}
use libmonetra.Invariant.Receive.{Reports, Progress, parse_trans_buffer-Valid}
use libmonetra.Lifecycle.Buffer.{SameInput, drop_timeout-inbuf}
use libmonetra.Lifecycle.Good.{
  Good, Follows, Follows-refl, Follows-trans, Keeps-Follows, Keeps-Good, Quiet-Good, then_Good,
}
use libmonetra.Lifecycle.Pinging.{set_connected-Good}
use libmonetra.Lifecycle.Reading.{
  drop_timeout-Keeps, parse_trans_buffer-Keeps, handle_conn_error-Keeps,
}
use libmonetra.Mstdlib.{Mstdlib, QueueLaws, IdMapLaws}
use libmonetra.Parse.{Parsed, success, wait, error, parse_trans_buffer}
use libmonetra.Types.{Conn, Trans, set_error, io_error, IoEvent, emit, timer_reset, millis}

module _ (m : Mstdlib) (ql : QueueLaws m) (il : IdMapLaws m) where
  pub on_response-Good :
      (c : Conn) (p : ℕ) (t : Trans) (events : List Entry)
      → c.heap p ≡ some t
      → c.in_use ≡ true
      → Good m c
      → let c' = (on_response m c p events).0 in Good m c' × Follows c c' × SameInput c c'
  unfolding on_response
  on_response-Good c p t events live busy g = elim (Bool-cases (is_pingtxn m c.pingtxn p)) [
    | inl ping ↦ rw ping (set_connected-Good m ql il c events busy g)
    | inr other ↦
        let k = drop_timeout-Keeps m c p t live in
        let v = (drop_timeout-Valid m c p t live g.valid).0 in
        rw other (
          Keeps-Good m c (drop_timeout c p) k g v,
          Keeps-Follows c (drop_timeout c p) k,
          drop_timeout-inbuf c p,
        )
  ]

  abbrev pub Returns : ℕ → Conn → List Entry → Type 0
  Returns fuel c events =
      (r : Handled × Bool) × (read_loop m fuel c events ≡ some r) × Good m r.0.0 × Follows c r.0.0

  -- One round, by what the parser reports.
  read_loop_step :
      (fuel : ℕ) (c c' : Conn) (parsed : Parsed) (events : List Entry)
      → length c.inbuf < suc fuel
      → c'.in_use ≡ true
      → parse_trans_buffer m c ≡ some (c', parsed)
      → Good m c'
      → Follows c c'
      → Reports c' parsed
      → Progress m ql c c' parsed
      → ((d : Conn) (es : List Entry)
          → length d.inbuf < fuel
          → d.in_use ≡ true
          → Good m d
          → Returns fuel d es)
      → Returns (suc fuel) c events
  unfolding read_loop
  read_loop_step fuel c c' (success p) events enough busy e h f (t, live, _) less rest =
      let (h', f', same) = on_response-Good c' p t events live busy h in
      let next = (on_response m c' p events).0 in
      let (r, e', h'', f'') =
        rest next (on_response m c' p events).1 (omega (arith, ap length same)) (f'.in_use ∙ busy)
          h' in
      (
        r,
        rw (e, read_loop) e',
        h'',
        Follows-trans c c' r.0.0 f (Follows-trans c' next r.0.0 f' f''),
      )
  read_loop_step fuel c c' wait events enough busy e h f told less rest =
      (((c', events), false), rw (e, read_loop) refl, h, f)
  read_loop_step fuel c c' error events enough busy e h f told less rest =
      (((c', events), true), rw (e, read_loop) refl, h, f)

  -- The loop returns, for each response takes bytes from the buffer.
  pub read_loop-Good :
      (fuel : ℕ) (c : Conn) (events : List Entry)
      → length c.inbuf < fuel
      → c.in_use ≡ true
      → Good m c
      → Returns fuel c events
  read_loop-Good zero c events enough busy g = absurd (omega arith)
  read_loop-Good (suc fuel) c events enough busy g =
      let ((c', parsed), e, v, told, less) = parse_trans_buffer-Valid m ql c g.valid in
      let k = parse_trans_buffer-Keeps m ql c (c', parsed) g.valid e in
      read_loop_step fuel c c' parsed events enough (k.in_use ∙ busy) e (Keeps-Good m c c' k g v)
        (Keeps-Follows c c' k) told less (read_loop-Good fuel)

  pub handle_conn_error-Good :
      (c : Conn) (events : List Entry) (kind : IoEvent)
      → Good m c
      → let c' = (handle_conn_error m c events kind).0 in Good m c' × Follows c c'
  handle_conn_error-Good c events kind g =
      let k = handle_conn_error-Keeps m ql c events kind g.valid in
      let v = (handle_conn_error-Valid m ql c events kind g.valid).0 in
      let c' = (handle_conn_error m c events kind).0 in
      (Keeps-Good m c c' k g v, Keeps-Follows c c' k)

  pub rearm-Good :
      (c : Conn) (b : Bool)
      → Good m c
      → let c' = if b then emit (timer_reset c.timer (millis c.idle_timeout)) c else c in
        Good m c' × Follows c c'
  rearm-Good c true g = Quiet-Good m c _ (refl, omega arith) (refl, refl, refl, refl, refl) g
  rearm-Good c false g = (g, Follows-refl c)

  after_read-Good :
      (c : Conn) (events : List Entry) (malformed : Bool)
      → Good m c
      → let c' = (after_read m (c, events) malformed).0 in Good m c' × Follows c c'
  unfolding after_read
  after_read-Good c events malformed g =
      malformed_or_not malformed (rearm-Good c (is_nil c.trans_pending) g)
    where
      rearmed : Conn
      rearmed =
          if is_nil c.trans_pending then emit (timer_reset c.timer (millis c.idle_timeout)) c else c

      text : Bytes
      text = codes "Invalid response format received. Disconnect."

      malformed_or_not :
          (b : Bool)
          → Good m rearmed × Follows c rearmed
          → let c' =
              if◌then◌else◌ {A = Handled} b
                (handle_conn_error m (set_error text rearmed) events io_error)
                (rearmed, events) in
            Good m c'.0 × Follows c c'.0
      malformed_or_not false h = h
      malformed_or_not true (h, f) =
          let told = set_error text rearmed in
          let (h', f') =
            Quiet-Good m rearmed told (refl, omega arith) (refl, refl, refl, refl, refl) h in
          then_Good m c told (handle_conn_error m told events io_error).0
            (Follows-trans c rearmed told f f') (handle_conn_error-Good told events io_error h')

  -- M_EVENT_TYPE_READ returns, whatever the network gives.
  pub on_read-Good :
      (c : Conn) (got : Option Bytes)
      → c.in_use ≡ true
      → Good m c
      → (r : Handled) × (on_read m c got ≡ some r) × Good m r.0 × Follows c r.0
  unfolding on_read
  on_read-Good c none busy g = ((c, []), refl, g, Follows-refl c)
  on_read-Good c (some bytes) busy g =
      let inbuf = c.inbuf ++ bytes in
      let filled = record c { inbuf = inbuf } in
      let h : Good m filled = record {
        valid = record { inv = g.valid.inv; fresh = g.valid.fresh };
        ping = g.ping;
      } in
      let (((d, es), malformed), e', h', f) =
        read_loop-Good (suc (length inbuf)) filled [] (omega arith) busy h in
      let (h'', f') = after_read-Good d es malformed h' in
      let f'' = Follows-trans filled d (after_read m (d, es) malformed).0 f f' in
      (
        after_read m (d, es) malformed,
        rw (on_read, e') refl,
        h'',
        record {
          grows = f''.grows;
          spares = f''.spares;
          in_use = f''.in_use;
          destroy = f''.destroy;
        },
      )
