-- ===== src/Apps/ConnLate.antt =====
-- apps/monetra_connload/src/monetra_connload.c: a timer that outlives its connection.
use libmonetra.Apps.CliOpts.{CliLib}
use libmonetra.Apps.ConnOpts.{ConnOpts}
use libmonetra.Apps.ConnRun.{
  Track, put, crash, enqueue_tran, destroy_connection, create_connection, conn_callback,
  trans_delay_cb, finish_on,
}
use libmonetra.Apps.ConnState.{put_same, put_other}
use libmonetra.Apps.ConnTest.{then_cases}
use libmonetra.Base.{
  ℕ, ◌+◌, ◌-◌, ◌%◌, ◌^◌, ◌<◌, ◌≡◌, refl, ◌∙◌, sym, ap, subst, true, false, List, Option, none, some,
  arith, if◌then◌else◌, erase, some_inj, Option-cases, inl, inr,
}
use libmonetra.Conn.{conn_init, conn_destroy}
use libmonetra.Mstdlib.{Mstdlib}
use libmonetra.Types.{Conn, conn_disconnect}

module _ (m : Mstdlib) (l : CliLib) (o : ConnOpts) (tlsctx : Option ℕ) (rnd : ℕ → List ℕ) where
  -- Without its private data a connection cannot have another request.
  enqueue_tran_gone :
      (s : Track) (p : ℕ) → s.num_txns p ≡ none → enqueue_tran m l o tlsctx rnd s p ≡ some (crash s)
  unfolding enqueue_tran
  enqueue_tran_gone s p gone = elim (Option-cases (s.conns p)) [
    | inl freed ↦ rw (freed, enqueue_tran) refl
    | inr (c, there) ↦ rw (there, enqueue_tran, gone) refl
  ]

  finish_on_data : (s : Track) (p : ℕ) → (finish_on m l o tlsctx rnd s p).num_txns ≡ s.num_txns
  unfolding finish_on
  finish_on_data s p = elim (Option-cases (s.conns p)) [
    | inl gone ↦ rw (gone, finish_on) refl
    | inr (c, there) ↦ rw (there, finish_on) refl
  ]

  create_connection_frame :
      (s : Track) (p : ℕ)
      → p < s.next
      → let s' = create_connection m l o tlsctx rnd s in
        (s'.timers ≡ s.timers) × (s'.num_txns p ≡ s.num_txns p)
  unfolding create_connection
  create_connection_frame s p below =
      elim (Option-cases (conn_init (rnd s.next) (some 1) (some 1) (some o.hostname) o.port)) [
        | inl refused ↦ rw (refused, create_connection) (refl, refl)
        | inr (c, made) ↦
            rw (made, create_connection)
              (refl, put_other s.num_txns s.next p (some 0) (omega (arith, below)))
      ]

  destroy_connection_frame :
      (s s' : Track) (p n : ℕ) (c : Conn)
      → s.conns p ≡ some c
      → s.num_txns p ≡ some n
      → destroy_connection m l o tlsctx rnd s p ≡ some s'
      → (s'.timers ≡ s.timers) × (s'.num_txns p ≡ none) × (s'.next ≡ s.next)
  unfolding destroy_connection
  destroy_connection_frame s s' p n c there named e =
      let (c', gone) = conn_destroy c in
      let s1 = record s {
        track_conns = l.llist_take_node s.track_conns p;
        num_txns = put s.num_txns p none;
        conns = put s.conns p (if gone then none else some c');
      } in
      let is : some s1 ≡ some s' = rw (there, destroy_connection, named) at e in
      subst (λ (x : Track). (x.timers ≡ s.timers) × (x.num_txns p ≡ none) × (x.next ≡ s.next))
        (some_inj is) (refl, put_same s.num_txns p none, refl)

  -- The end of a connection does not stop the timer that waits to send its next request: the timers
  -- are as they were, and when that one expires, the program reads freed memory. The program has not
  -- exited at the end of the connection.
  pub late_timer-fault :
      (s s1 : Track) (p n : ℕ) (c : Conn)
      → s.conns p ≡ some c
      → s.num_txns p ≡ some n
      → p < s.next
      → conn_callback m l o tlsctx rnd s p conn_disconnect none ≡ some s1
      → s1.over ≡ false
      → let left = finish_on m l o tlsctx rnd s1 p in
        (s1.timers ≡ s.timers)
        × ((s2 : Track) × (trans_delay_cb m l o tlsctx rnd left p ≡ some s2) × (s2.fault ≡ true))
  unfolding conn_callback trans_delay_cb
  late_timer-fault s s1 p n c there named below e going =
      let counted = record s { num_connections = (s.num_connections + (2 ^ 64 - 1)) % 2 ^ 64 } in
      let (b, gone, after) = then_cases (destroy_connection m l o tlsctx rnd counted p) _ e in
      let (timers, data_of, next) = destroy_connection_frame counted b p n c there named gone in
      elim after [
        | inl (over, same) ↦ absurd (ground (arith, over, going, ap (λ (x : Track). x.over) same))
        | inr (on, is) ↦
            let (timers', same) = create_connection_frame b p (omega (arith, below, next)) in
            let made = some_inj is in
            let freed : s1.num_txns p ≡ none =
              sym (ap (λ (x : Track). x.num_txns p) made) ∙ same ∙ data_of in
            let left = finish_on m l o tlsctx rnd s1 p in
            let later = record left { timers = erase p left.timers } in
            (
              sym (ap (λ (x : Track). x.timers) made) ∙ timers' ∙ timers,
              (
                crash later,
                enqueue_tran_gone later p
                    (ap (λ (f : ℕ → Option ℕ). f p) (finish_on_data s1 p) ∙ freed),
                refl,
              ),
            )
      ]
