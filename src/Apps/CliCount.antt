-- ===== src/Apps/CliCount.antt =====
-- apps/monetra_cli/src/monetra_cli.c: how many requests are on their way, and when the last one is
-- answered.
use libmonetra.Apps.CliOpts.{CliLib, ListLaws}
use libmonetra.Apps.CliRun.{
  Cli, queue_kvs, queue_lm_trans, queue_all, response_kvs, after_response, on_response_done,
  on_event, string_at,
}
use libmonetra.Base.{
  ℕ, zero, suc, ◌+◌, ◌-◌, ◌%◌, ◌^◌, ◌≤◌, ◌<◌, ◌≡◌, ◌==◌, ◌⊎◌, refl, ◌∙◌, sym, ap, subst, Bool, true,
  false, List, [], ◌∷◌, Option, none, some, arith, length, bind_some, some_inj, Bool-cases,
  Option-cases, inl, inr, codes,
}
use libmonetra.Mstdlib.{Mstdlib, Dict}
use libmonetra.Types.{
  Conn, LmEvent, conn_connected, conn_disconnect, conn_error, trans_done, trans_error,
  trans_noconnect, trans_timeout,
}
use libmonetra.Trans.{trans_new, trans_delete}

-- An event that is neither the connection's start nor a response.
abbrev pub is_other : LmEvent → Bool
is_other conn_connected = false
is_other trans_done = false
is_other _ = true

-- The client behind LM_EVENT_CONN_CONNECTED, which comes once since it destroys its connection behind the
-- end of it, and any other events, on whatever connection they came. The number is that of the requests
-- without a response: one that ends by LM_EVENT_TRANS_ERROR or LM_EVENT_TRANS_NOCONNECT stays one.
pub data Answering (m : Mstdlib) (l : CliLib) (s0 : Cli) : ℕ → Cli → Type 0 where
  queues :
      {s : Cli} (c c' : Conn)
      → on_event m l s0 c conn_connected none none ≡ some (s, c')
      → Answering m l s0 (length s0.kvs) s
  answers :
      {open' : ℕ} {s s' : Cli} (c c' : Conn) (trans identifier : Option ℕ)
      → Answering m l s0 (suc open') s
      → on_event m l s c trans_done trans identifier ≡ some (s', c')
      → Answering m l s0 open' s'
  others :
      {open' : ℕ} {s s' : Cli} (c c' : Conn) (kind : LmEvent) (trans identifier : Option ℕ)
      → Answering m l s0 open' s
      → is_other kind ≡ true
      → on_event m l s c kind trans identifier ≡ some (s', c')
      → Answering m l s0 open' s'

module _ (m : Mstdlib) (l : CliLib) where
  -- A request that is queued is counted, and no other field that counts changes.
  abbrev Queued : Cli → Cli → Type 0
  Queued s s' =
      (s'.kvs ≡ s.kvs)
      × (s'.send_serial ≡ s.send_serial)
      × (s'.outstanding_cnt ≡ (s.outstanding_cnt + 1) % 2 ^ 64)

  queue_kvs-Queued :
      (s s' : Cli) (c c' : Conn) (kvs : Dict) → queue_kvs m l s c kvs ≡ some (s', c') → Queued s s'
  unfolding queue_kvs
  queue_kvs-Queued s s' c c' kvs e =
      let ((c1, p), made, e1) = bind_some (trans_new m c) _ e in
      elim (Option-cases (m.dict_get (some kvs) (codes "identifier"))) [
        | inl missing ↦
            subst (λ (r : Cli × Conn). Queued s r.0) (some_inj e1) (rw missing (refl, refl, refl))
        | inr (text, found) ↦
            subst (λ (r : Cli × Conn). Queued s r.0) (some_inj e1) (rw found (refl, refl, refl))
      ]

  module _ (ll : ListLaws l) where
    -- Nothing is left, or the first one is queued.
    abbrev Taken : Cli → Cli → Bool → Type 0
    Taken s s' more =
        ((s.kvs ≡ []) × (s' ≡ s) × (more ≡ false))
        ⊎ ((length s.kvs ≡ suc (length s'.kvs))
            × (s'.send_serial ≡ s.send_serial)
            × (s'.outstanding_cnt ≡ (s.outstanding_cnt + 1) % 2 ^ 64)
            × (more ≡ true))

    queue_lm_trans-Taken :
        (kvs : List Dict) (s s' : Cli) (c c' : Conn) (more : Bool)
        → s.kvs ≡ kvs
        → queue_lm_trans m l s c ≡ some (s', c', more)
        → Taken s s' more
    unfolding queue_lm_trans
    queue_lm_trans-Taken [] s s' c c' more is e =
        let last : l.list_take_first s.kvs ≡ none = ap l.list_take_first is ∙ ll.first_nil in
        let same : some (s, c, false) ≡ some (s', c', more) = rw (last, queue_lm_trans) at e in
        let r = some_inj same in
        inl (
          is,
          sym (ap (λ (x : Cli × Conn × Bool). x.0) r),
          sym (ap (λ (x : Cli × Conn × Bool). x.2) r),
        )
    queue_lm_trans-Taken (d ∷ rest) s s' c c' more is e =
        let first : l.list_take_first s.kvs ≡ some (d, rest) =
          ap l.list_take_first is ∙ ll.first_cons d rest in
        let ((b, c1), queued, e1) =
          bind_some (queue_kvs m l (record s { kvs = rest }) c d) _
            (rw (first, queue_lm_trans) at e) in
        let (left, serial, counted) = queue_kvs-Queued (record s { kvs = rest }) b c c1 d queued in
        let r = some_inj e1 in
        let same : b ≡ s' = ap (λ (x : Cli × Conn × Bool). x.0) r in
        inr (
          ap (λ (xs : List Dict). length xs) is
              ∙ ap (λ (xs : List Dict). suc (length xs)) (sym left ∙ ap (λ (x : Cli). x.kvs) same),
          ap (λ (x : Cli). x.send_serial) (sym same) ∙ serial,
          ap (λ (x : Cli). x.outstanding_cnt) (sym same) ∙ counted,
          sym (ap (λ (x : Cli × Conn × Bool). x.2) r),
        )

    -- What is on its way and what is not add up; in the serial mode one is on its way at most, else
    -- all are; and one is on its way, or none is left.
    pub record Counts (total : ℕ) (s : Cli) : Type 0 where
      pub adds_up : s.outstanding_cnt + length s.kvs ≡ total
      pub mode :
          ((s.send_serial ≡ true) × (s.outstanding_cnt ≤ 1))
          ⊎ ((s.send_serial ≡ false) × (length s.kvs ≡ 0))
      pub goes_on : (1 ≤ s.outstanding_cnt) ⊎ (length s.kvs ≡ 0)

    over-Counts :
        (total : ℕ) (s s' : Cli) → Counts total s → record s { over = true } ≡ s' → Counts total s'
    over-Counts total s s' h e =
        subst (Counts total) e (record { adds_up = h.adds_up; mode = h.mode; goes_on = h.goes_on })

    -- Before the loop of the first event, and in it.
    abbrev Start : ℕ → Cli → Type 0
    Start total s =
        (s.outstanding_cnt + length s.kvs ≡ total)
        × (((s.send_serial ≡ true) × (s.outstanding_cnt ≡ 0)) ⊎ (s.send_serial ≡ false))

    -- The loop queues one request in the serial mode, all of them otherwise.
    queue_all-Counts :
        (fuel total : ℕ) (s s' : Cli) (c c' : Conn)
        → total < 2 ^ 64
        → Start total s
        → queue_all m l fuel s c ≡ some (s', c')
        → Counts total s'
    unfolding queue_all
    queue_all-Counts zero total s s' c c' small start e = absurd (ground (arith, e))
    queue_all-Counts (suc fuel) total s s' c c' small (adds, how) e =
        let ((b, c1, more), taken, e1) = bind_some (queue_lm_trans m l s c) _ e in
        elim (queue_lm_trans-Taken s.kvs s b c c1 more refl taken) [
          | inl (empty, same, last) ↦
              let is : some (b, c1) ≡ some (s', c') = rw last at e1 in
              let here : s ≡ s' = sym same ∙ ap (λ (r : Cli × Conn). r.0) (some_inj is) in
              let none_left : length s.kvs ≡ 0 = ap (λ (xs : List Dict). length xs) empty in
              subst (Counts total) here (record {
                adds_up = adds;
                mode = elim how [
                  | inl (serial, zero_out) ↦ inl (serial, omega (arith, zero_out))
                  | inr parallel ↦ inr (parallel, none_left)
                ];
                goes_on = inr none_left;
              })
          | inr (shorter, serial, counted, on) ↦
              let whole : b.outstanding_cnt ≡ s.outstanding_cnt + 1 =
                omega (arith, counted, adds, shorter, small) in
              let adds' : b.outstanding_cnt + length b.kvs ≡ total =
                omega (arith, whole, adds, shorter) in
              elim how [
                | inl (is_serial, zero_out) ↦
                    let is : some (b, c1) ≡ some (s', c') = rw (on, serial, is_serial) at e1 in
                    subst (Counts total) (ap (λ (r : Cli × Conn). r.0) (some_inj is)) (record {
                      adds_up = adds';
                      mode = inl (serial ∙ is_serial, omega (arith, whole, zero_out));
                      goes_on = inl (omega (arith, whole));
                    })
                | inr parallel ↦
                    let is : queue_all m l fuel b c1 ≡ some (s', c') =
                      rw (on, serial, parallel) at e1 in
                    queue_all-Counts fuel total b s' c1 c' small (adds', inr (serial ∙ parallel)) is
              ]
        ]

    -- One is on its way less, and the next one is queued.
    answered-Counts :
        (total : ℕ) (s counted b : Cli) (more : Bool)
        → suc total < 2 ^ 64
        → Counts (suc total) s
        → counted.kvs ≡ s.kvs
        → counted.send_serial ≡ s.send_serial
        → counted.outstanding_cnt ≡ (s.outstanding_cnt + (2 ^ 64 - 1)) % 2 ^ 64
        → Taken counted b more
        → Counts total b
    answered-Counts total s counted b more small h kvs serial less taken =
        let adds = h.adds_up in
        let some_out : 1 ≤ s.outstanding_cnt = elim h.goes_on [
          | inl out ↦ out
          | inr empty ↦ omega (arith, empty, adds)
        ] in
        let one_less : counted.outstanding_cnt + 1 ≡ s.outstanding_cnt =
          omega (arith, some_out, adds, small, less) in
        let same_length : length counted.kvs ≡ length s.kvs =
          ap (λ (xs : List Dict). length xs) kvs in
        elim taken [
          | inl (empty, same, last) ↦
              let none_left : length counted.kvs ≡ 0 = ap (λ (xs : List Dict). length xs) empty in
              subst (Counts total) (sym same) (record {
                adds_up = omega (arith, adds, one_less, same_length);
                mode = elim h.mode [
                  | inl (is_serial, low) ↦ inl (serial ∙ is_serial, omega (arith, low, one_less))
                  | inr (parallel, _) ↦ inr (serial ∙ parallel, none_left)
                ];
                goes_on = inr none_left;
              })
          | inr (shorter, serial', counted', on) ↦
              let as_before : b.outstanding_cnt ≡ s.outstanding_cnt =
                omega (arith, counted', one_less, adds, small) in
              record {
                adds_up = omega (arith, adds, as_before, shorter, same_length);
                mode = elim h.mode [
                  | inl (is_serial, low) ↦
                      inl (serial' ∙ serial ∙ is_serial, omega (arith, low, as_before))
                  | inr (parallel, none_left) ↦
                      absurd (omega (arith, none_left, shorter, same_length))
                ];
                goes_on = inl (omega (arith, some_out, as_before));
              }
        ]

    on_response_done-Counts :
        (total : ℕ) (s s' : Cli) (c c' : Conn) (trans identifier : Option ℕ)
        → suc total < 2 ^ 64
        → Counts (suc total) s
        → on_response_done m l s c trans identifier ≡ some (s', c')
        → Counts total s'
    unfolding on_response_done after_response
    on_response_done-Counts total s s' c c' trans identifier small h e =
        let (c1, kvs) = response_kvs m l c trans (string_at s identifier) in
        let counted = record s {
          printed = kvs ∷ s.printed;
          outstanding_cnt = (s.outstanding_cnt + (2 ^ 64 - 1)) % 2 ^ 64;
        } in
        let d = trans_delete m c1 trans in
        let ((b, c2, more), taken, e1) = bind_some (queue_lm_trans m l counted d) _ e in
        subst (Counts total) (ap (λ (r : Cli × Conn). r.0) (some_inj e1)) (
          answered-Counts total s counted b more small h refl refl refl
            (queue_lm_trans-Taken s.kvs counted b d c2 more refl taken))

    -- Other events leave the requests and their count alone.
    other-Counts :
        (total : ℕ) (s s' : Cli) (c c' : Conn) (kind : LmEvent) (trans identifier : Option ℕ)
        → Counts total s
        → is_other kind ≡ true
        → on_event m l s c kind trans identifier ≡ some (s', c')
        → Counts total s'
    unfolding on_event
    other-Counts total s s' c c' conn_connected trans identifier h k e = absurd (ground (arith, k))
    other-Counts total s s' c c' trans_done trans identifier h k e = absurd (ground (arith, k))
    other-Counts total s s' c c' conn_disconnect trans identifier h k e =
        over-Counts total s s' h (ap (λ (r : Cli × Conn). r.0) (some_inj e))
    other-Counts total s s' c c' conn_error trans identifier h k e =
        over-Counts total s s' h (ap (λ (r : Cli × Conn). r.0) (some_inj e))
    other-Counts total s s' c c' trans_error trans identifier h k e =
        subst (Counts total) (ap (λ (r : Cli × Conn). r.0) (some_inj e)) h
    other-Counts total s s' c c' trans_noconnect trans identifier h k e =
        subst (Counts total) (ap (λ (r : Cli × Conn). r.0) (some_inj e)) h
    other-Counts total s s' c c' trans_timeout trans identifier h k e =
        subst (Counts total) (ap (λ (r : Cli × Conn). r.0) (some_inj e)) h

    Answering_lem :
        (s0 s : Cli) (open' : ℕ)
        → length s0.kvs < 2 ^ 64
        → s0.outstanding_cnt ≡ 0
        → Answering m l s0 open' s
        → Counts open' s × (open' ≤ length s0.kvs)
    unfolding on_event
    Answering_lem s0 s open' small zero_out (queues c c' e) =
        let how : ((s0.send_serial ≡ true) × (s0.outstanding_cnt ≡ 0)) ⊎ (s0.send_serial ≡ false) =
          elim (Bool-cases s0.send_serial) [
            | inl serial ↦ inl (serial, zero_out)
            | inr parallel ↦ inr parallel
          ] in
        (
          queue_all-Counts (suc (length s0.kvs)) (length s0.kvs) s0 s c c' small
              (omega (arith, zero_out), how) e,
          omega arith,
        )
    Answering_lem s0 s open' small zero_out (answers {s = before} c c' trans identifier run e) =
        let (h, le) = Answering_lem s0 before (suc open') small zero_out run in
        (
          on_response_done-Counts open' before s c c' trans identifier (omega (arith, le, small)) h
              e,
          omega (arith, le),
        )
    Answering_lem s0 s open' small zero_out
          (others {s = before} c c' kind trans identifier run k e) =
        let (h, le) = Answering_lem s0 before open' small zero_out run in
        (other-Counts open' before s c c' kind trans identifier h k e, le)

    -- Behind the connection's start and any events, outstanding_cnt and the requests in the list
    -- make up those without a response; in the serial mode it is one at most, otherwise the list is
    -- empty. So it is 0, where the client ends the connection, just when every request has its
    -- response: one that failed with its connection (LM_EVENT_TRANS_ERROR, LM_EVENT_TRANS_NOCONNECT)
    -- stays counted. The list has fewer than 2 ^ 64 requests, the count starts at 0, the connection
    -- starts once, and M_list does what it documents.
    pub Answering-Counts :
        (s0 s : Cli) (open' : ℕ)
        → length s0.kvs < 2 ^ 64
        → s0.outstanding_cnt ≡ 0
        → Answering m l s0 open' s
        → Counts open' s × ((s.outstanding_cnt == 0) ≡ (open' == 0))
    Answering-Counts s0 s open' small zero_out run =
        let (h, _) = Answering_lem s0 s open' small zero_out run in
        let adds = h.adds_up in
        let same : (s.outstanding_cnt == 0) ≡ (open' == 0) = elim h.goes_on [
          | inl some_out ↦ ground (arith, some_out, adds)
          | inr empty ↦ ground (arith, empty, adds)
        ] in
        (h, same)
