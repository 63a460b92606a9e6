-- ===== src/Legacy/Leaving.antt =====
-- M_Disconnect and M_DestroyConn of src/monetra_legacy.c.
use libmonetra.Base.{
  ℕ, ◌≡◌, Bool, true, false, [], ◌∷◌, none, some, arith, subst, Option-cases, inl, inr,
}
use libmonetra.Conn.{conn_destroy}
use libmonetra.Connect.{conn_disconnect}
use libmonetra.Invariant.Whole.{conn_destroy-frees}
use libmonetra.Legacy.EventLoop.{World, handle_batch, await_disconnect, disconnect, destroy_conn}
use libmonetra.Legacy.Kept.{
  Ready, Keeping-refl, AllTimed, AllTimed-Keeping, quiet-Kept, handle_batch-Kept,
}
use libmonetra.Legacy.{Session}
use libmonetra.Lifecycle.Creating.{conn_disconnect-Quietly}
use libmonetra.Mstdlib.{Mstdlib, QueueLaws, IdMapLaws}
use libmonetra.Types.{Conn, emit, event_loop_run, connected, disconnecting, conn_status_eq}
use libmonetra.Legacy.Blocking.{
  Gives, Gives-some, map_Gives, either_Gives, emit-Quietly, After, then_After, moved,
}

module _ (m : Mstdlib) (ql : QueueLaws m) (il : IdMapLaws m) where
  await_disconnect-After :
      (world : World) (c : Conn)
      → Ready m c
      → AllTimed c world
      → Gives
          (λ r. After m ql il c r.0 r.1 × (conn_status_eq r.0.status disconnecting ≡ false))
          (await_disconnect m world c)
  unfolding await_disconnect
  await_disconnect-After [] c r t =
      either_Gives
        (λ x. After m ql il c x.0 x.1 × (conn_status_eq x.0.status disconnecting ≡ false))
        (conn_status_eq c.status disconnecting) _ _ (λ waits. tt)
        (λ over. (((r, Keeping-refl c), t), over))
  await_disconnect-After (batch ∷ world) c r t =
      let d = emit (event_loop_run none) c in
      either_Gives
        (λ x. After m ql il c x.0 x.1 × (conn_status_eq x.0.status disconnecting ≡ false))
        (conn_status_eq c.status disconnecting) _ _
        (λ waits. elim (Option-cases (handle_batch m batch d)) [
          | inl out ↦ rw (out, await_disconnect) tt
          | inr (e, is) ↦
              let (r', k) = quiet-Kept m ql il c d r (emit-Quietly (event_loop_run none) c) in
              let (now, later) = AllTimed-Keeping c d (batch ∷ world) k t in
              let kept = handle_batch-Kept m ql il batch d e r' now is in
              let after =
                then_After m ql il c d e world (r', k) (moved m ql il d e world kept later) in
              rw (is, await_disconnect)
                (map_Gives _ _ (λ x h. (then_After m ql il c e x.0 x.1 after.0 h.0, h.1))
                  (await_disconnect m world e) (await_disconnect-After world e after.0.0 after.1))
        ])
        (λ over. (((r, Keeping-refl c), t), over))

  disconnect-After :
      (c : Conn) (world : World)
      → Ready m c
      → AllTimed c world
      → Gives
          (λ r.
            After m ql il c r.0 r.1
            × (conn_status_eq r.0.status disconnecting ≡ true
                → conn_status_eq c.status disconnecting ≡ true))
          (disconnect m c world)
  unfolding disconnect
  disconnect-After c world r t =
      let d = (conn_disconnect c).0 in
      let (r', k) = quiet-Kept m ql il c d r (conn_disconnect-Quietly c) in
      let (_, t') = moved m ql il c d world (r', k) t in
      either_Gives _ (conn_status_eq c.status connected) _ _
        (λ up.
          map_Gives _ _
            (λ x h.
              (then_After m ql il c d x.0 x.1 (r', k) h.0, λ e. absurd (ground (arith, e, h.1))))
            (await_disconnect m world d) (await_disconnect-After world d r' t'))
        (λ down. (((r, Keeping-refl c), t), λ e. e))

  -- M_DestroyConn, whatever the system reports while it waits for the end of the connection: if it
  -- returns, the connection is destroyed, and no transaction is left in memory. It starts on a sound
  -- connection that is not in use; the timers that fire are of the user's transactions; M_queue,
  -- M_hash_u64vp and M_llist do what they document.
  pub destroy_conn-frees :
      (s : Session) (world : World) (c : Conn) (gone : Bool) (x : ℕ)
      → Ready m s.conn
      → AllTimed s.conn world
      → destroy_conn m s world ≡ some (c, gone)
      → (gone ≡ true) × (c.heap x ≡ none)
  unfolding destroy_conn
  destroy_conn-frees s world c gone x r t e = elim (Option-cases (disconnect m s.conn world)) [
    | inl out ↦ absurd (ground (arith, out, e))
    | inr ((d, rest), is) ↦
        let (((r', _), _), _) =
          Gives-some _ (disconnect m s.conn world) (d, rest) is
            (disconnect-After s.conn world r t) in
        let same : conn_destroy d ≡ (c, gone) = ground (arith, is, e) in
        subst (λ (y : Conn × Bool). (y.1 ≡ true) × (y.0.heap x ≡ none)) same
          (conn_destroy-frees m d x r'.sound.good.valid (r'.sound.settled r'.idle) r'.idle)
  ]
