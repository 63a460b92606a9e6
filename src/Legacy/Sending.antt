-- ===== src/Legacy/Sending.antt =====
-- M_TransSend of src/monetra_legacy.c, with the wait for the response in the blocking mode.
use libmonetra.Base.{
  ℕ, zero, suc, ◌≡◌, refl, ◌∙◌, Bool, true, false, ◌&&◌, not, Option, none, some, arith,
  Option-cases, Bool-cases, inl, inr, length, negsuc,
}
use libmonetra.Conn.{conn_get_trans_by_internal_id}
use libmonetra.Invariant.Send.{trans_send-Valid}
use libmonetra.Legacy.EventLoop.{
  World, event_loop, is_done, connect, monitor_ex, await_done, send_and_wait, connect_and_send,
  send_found, send_trans,
}
use libmonetra.Legacy.Kept.{Ready, Keeping, Keeping-refl, AllTimed, Kept, Keeps-Kept}
use libmonetra.Legacy.{Session}
use libmonetra.Lifecycle.Good.{Keeps-Good}
use libmonetra.Lifecycle.Owned.{IsOwned}
use libmonetra.Lifecycle.Sending.{trans_send-Keeps}
use libmonetra.Mstdlib.{Mstdlib, QueueLaws, IdMapLaws}
use libmonetra.Send.{trans_send}
use libmonetra.Types.{Conn, emit, event_loop_run, connected, conn_status_eq}
use libmonetra.Legacy.Blocking.{
  Gives, Gives-some, map_Gives, either_Gives, emit-Quietly, After, then_After, moved, Ran,
  run-After, Up, connect-After, Monitored, monitor_ex-After,
}

module _ (m : Mstdlib) (ql : QueueLaws m) (il : IdMapLaws m) where
  abbrev Answered : ℕ → Session × World × Bool → Type 0
  Answered p r = r.2 ≡ true → is_done r.0.conn p ≡ true

  then_Gives :
      (c d : Conn) (P : Session × World × Bool → Type 0) (o : Option (Session × World × Bool))
      → Kept m ql il c d
      → Gives (λ r. After m ql il d r.0.conn r.1 × P r) o
      → Gives (λ r. After m ql il c r.0.conn r.1 × P r) o
  then_Gives c d P none k h = tt
  then_Gives c d P (some (s, world, ok)) k (after, is) =
      (then_After m ql il c d s.conn world k after, is)

  lost_not_up : (up done : Bool) → (not up && not done) ≡ true → false ≡ true → done ≡ true
  lost_not_up up done h e = absurd (ground (arith, e))

  await_done-After :
      (fuel : ℕ) (s : Session) (p : ℕ) (world : World)
      → Ready m s.conn
      → AllTimed s.conn world
      → Gives (λ r. After m ql il s.conn r.0.conn r.1 × Answered p r) (await_done m fuel s p world)
  unfolding await_done
  await_done-After zero s p world r t = tt
  await_done-After (suc fuel) s p world r t = elim (Bool-cases (is_done s.conn p)) [
    | inl done ↦ rw done (((r, Keeping-refl s.conn), t), λ e. done)
    | inr waits ↦
        let ran = monitor_ex-After m ql il false s (negsuc 0) world r t in
        elim (Option-cases (monitor_ex m false s (negsuc 0) world)) [
          | inl out ↦ rw (waits, out, await_done) tt
          | inr ((s', world', up), is) ↦
              let (after, _) =
                Gives-some (Monitored m ql il s world) (monitor_ex m false s (negsuc 0) world)
                  (s', world', up) is ran in
              let rest =
                then_Gives s.conn s'.conn (Answered p) (await_done m fuel s' p world') after.0
                  (await_done-After fuel s' p world' after.0.0 after.1) in
              elim (Bool-cases (not up && not (is_done s'.conn p))) [
                | inl lost ↦
                    rw (waits, is, await_done, lost)
                      (after, lost_not_up up (is_done s'.conn p) lost)
                | inr goes ↦ rw (waits, is, await_done, goes) rest
              ]
        ]
  ]

  -- The response is there, if the session is in the blocking mode.
  abbrev Responds : Session → ℕ → Session × World × Bool → Type 0
  Responds s p r = s.blocking ≡ true → Answered p r

  send_and_wait-After :
      (s : Session) (p : ℕ) (world : World)
      → Ready m s.conn
      → AllTimed s.conn world
      → IsOwned s.conn p
      → Gives (λ r. After m ql il s.conn r.0.conn r.1 × Responds s p r) (send_and_wait m s p world)
  unfolding send_and_wait
  send_and_wait-After s p world r t ((u, live, free), other) =
      let c = (trans_send m s.conn (some p)).0 in
      let keeps = trans_send-Keeps m ql s.conn p u live r.sound.good.valid in
      let v = (trans_send-Valid m ql s.conn p u live r.sound.good.valid).0 in
      let sent = Keeps-Kept m ql il s.conn c r keeps (Keeps-Good m s.conn c keeps r.sound.good v) in
      let after = moved m ql il s.conn c world sent t in
      let s' = record s { conn = c } in
      let rest =
        then_Gives s.conn c (Answered p) (await_done m (suc (length world)) s' p world) sent
          (await_done-After (suc (length world)) s' p world sent.0 after.1) in
      either_Gives (λ x. After m ql il s.conn x.0.conn x.1 × Responds s p x)
        (trans_send m s.conn (some p)).1 _ _
        (λ queued.
          either_Gives (λ x. After m ql il s.conn x.0.conn x.1 × Responds s p x) s.blocking _ _
            (λ waits.
              map_Gives _ _ (λ x h. (h.0, λ b. h.1)) (await_done m (suc (length world)) s' p world)
                rest)
            (λ nowait. (after, λ b e. absurd (ground (arith, b, nowait)))))
        (λ refused. (after, λ b e. absurd (ground (arith, e))))

  -- What M_TransSend leaves: the connection in order, each transaction of the user's in place, and in
  -- the blocking mode the response, if it reports success.
  abbrev pub Sends : Session → ℕ → Session × World × Bool → Type 0
  Sends s p r = After m ql il s.conn r.0.conn r.1 × Responds s p r

  -- Behind steps that leave the mode alone.
  resume :
      (s d : Session) (p : ℕ) (world : World)
      → Kept m ql il s.conn d.conn
      → AllTimed d.conn world
      → d.blocking ≡ s.blocking
      → IsOwned s.conn p
      → Gives (Sends s p) (send_and_wait m d p world)
  resume s d p world k t same owned =
      map_Gives (Sends d p) (Sends s p)
        (λ x h. (then_After m ql il s.conn d.conn x.0.conn x.1 k h.0, λ b. h.1 (same ∙ b)))
        (send_and_wait m d p world) (send_and_wait-After d p world k.0 t (k.1 p owned).0)

  connect_and_send-After :
      (s d : Session) (p : ℕ) (world : World)
      → Kept m ql il s.conn d.conn
      → AllTimed d.conn world
      → d.blocking ≡ s.blocking
      → IsOwned s.conn p
      → Gives (Sends s p) (connect_and_send m d p world)
  unfolding connect_and_send
  connect_and_send-After s d p world k t same owned = elim (Option-cases (connect m d world)) [
    | inl out ↦ rw (out, connect_and_send) tt
    | inr ((up, rest, done), is) ↦
        let (after, (_, mode)) =
          Gives-some
            (λ (r : Session × World × Bool). After m ql il d.conn r.0.conn r.1 × Up m ql il d r)
            (connect m d world) (up, rest, done) is (connect-After m ql il d world k.0 t) in
        let (k', t') = then_After m ql il s.conn d.conn up.conn rest k after in
        rw (is, connect_and_send)
          (either_Gives (Sends s p) done _ _
            (λ connected. resume s up p rest k' t' (mode ∙ same) owned)
            (λ failed. ((k', t'), λ b e. absurd (ground (arith, e)))))
  ]

  send_found-After :
      (s : Session) (p : ℕ) (world : World)
      → Ready m s.conn
      → AllTimed s.conn world
      → IsOwned s.conn p
      → Gives (Sends s p) (send_found m s p world)
  unfolding send_found
  send_found-After s p world r t owned =
      let d = emit (event_loop_run (some 0)) s.conn in
      let ran =
        run-After m ql il world s.conn d (emit-Quietly (event_loop_run (some 0)) s.conn) r t in
      elim (Option-cases (event_loop m world d)) [
        | inl out ↦ rw (out, send_found) tt
        | inr ((c, rest), is) ↦
            let (after, _) =
              Gives-some (Ran m ql il s.conn world) (event_loop m world d) (c, rest) is ran in
            let polled = record s { conn = c } in
            rw (is, send_found)
              (either_Gives (Sends s p) (conn_status_eq c.status connected) _ _
                (λ up. resume s polled p rest after.0 after.1 refl owned)
                (λ down. connect_and_send-After s polled p rest after.0 after.1 refl owned))
      ]

  -- M_TransSend of a transaction of the user's, whatever the system then reports: if it returns, the
  -- connection is sound and not in use, each transaction of the user's is in memory and did not go
  -- back, and in the blocking mode a success means that the transaction is DONE: it has its response,
  -- or failed with its connection. It starts on such a connection; the timers that fire are of the user's transactions; M_queue, M_hash_u64vp and
  -- M_llist do what they document.
  pub send_trans-Sends :
      (s s' : Session) (identifier p : ℕ) (world world' : World) (sent : Bool)
      → Ready m s.conn
      → AllTimed s.conn world
      → conn_get_trans_by_internal_id m s.conn identifier ≡ some p
      → IsOwned s.conn p
      → send_trans m s identifier world ≡ some (s', world', sent)
      → Ready m s'.conn
        × Keeping s.conn s'.conn
        × (s.blocking ≡ true → sent ≡ true → is_done s'.conn p ≡ true)
  unfolding send_trans
  send_trans-Sends s s' identifier p world world' sent r t known owned e =
      let found : send_found m s p world ≡ some (s', world', sent) = ground (arith, known, e) in
      let (((r', k), _), told) =
        Gives-some (Sends s p) (send_found m s p world) (s', world', sent) found
          (send_found-After s p world r t owned) in
      (r', k, told)
