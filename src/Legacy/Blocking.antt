-- ===== src/Legacy/Blocking.antt =====
-- The functions of src/monetra_legacy.c that run the event loop: here M_Connect and M_Monitor_ex.
-- M_TransSend is in Sending, M_Disconnect and M_DestroyConn in Leaving.
use libmonetra.Base.{
  suc, ◌≡◌, refl, Bool, true, false, not, [], ◌∷◌, Option, none, some, arith, subst, Option-cases,
  Bool-cases, inl, inr, ◌⊎◌, if◌then◌else◌, length, ℤ,
}
use libmonetra.Connect.{conn_connect}
use libmonetra.Invariant.Quiet.{conn_connect-IsQuiet, IsQuiet-Valid}
use libmonetra.Legacy.EventLoop.{
  World, handle_batch, event_loop, is_up, waiting, connect, monitor_ex, nothing_to_do,
}
use libmonetra.Legacy.Kept.{
  Ready, Keeping-refl, Keeping-trans, AllTimed, AllTimed-Keeping, Kept, Keeps-Kept, quiet-Kept,
  handle_batch-Kept,
}
use libmonetra.Legacy.{Session}
use libmonetra.Lifecycle.Creating.{Quietly}
use libmonetra.Lifecycle.Good.{Keeps-Good}
use libmonetra.Lifecycle.Sending.{conn_connect-Keeps}
use libmonetra.Mstdlib.{Mstdlib, QueueLaws, IdMapLaws}
use libmonetra.Types.{Conn, Effect, emit, event_loop_run, connected, conn_status_eq}

-- What holds of the result, if there is one.
abbrev pub Gives : {A : Type 0} → (A → Type 0) → Option A → Type 0
Gives P none = Unit
Gives P (some r) = P r

pub Gives-some : {A : Type 0} (P : A → Type 0) (o : Option A) (r : A) → o ≡ some r → Gives P o → P r
Gives-some P o r e h = subst (Gives P) e h

pub map_Gives :
    {A : Type 0} (P Q : A → Type 0) → ((r : A) → P r → Q r) → (o : Option A) → Gives P o → Gives Q o
map_Gives P Q f none h = tt
map_Gives P Q f (some r) h = f r h

pub either_Gives :
    {A : Type 0} (P : A → Type 0) (b : Bool) (x y : Option A)
    → (b ≡ true → Gives P x)
    → (b ≡ false → Gives P y)
    → Gives P (if b then x else y)
either_Gives P true x y f g = f refl
either_Gives P false x y f g = g refl

pub emit-Quietly : (e : Effect) (c : Conn) → Quietly c (emit e c)
emit-Quietly e c = ((refl, omega arith), (refl, refl, refl, refl, refl))

waiting-Quietly : (running : Bool) (wait_us : ℤ) (c : Conn) → Quietly c (waiting running wait_us c)
unfolding waiting
waiting-Quietly running wait_us c = ground arith

module _ (m : Mstdlib) (ql : QueueLaws m) (il : IdMapLaws m) where
  -- The connection is kept, and the world goes on.
  abbrev pub After : Conn → Conn → World → Type 0
  After c c' world = Kept m ql il c c' × AllTimed c' world

  pub then_After :
      (c d e : Conn) (world : World) → Kept m ql il c d → After d e world → After c e world
  then_After c d e world (r, k) ((r', k'), t) = ((r', Keeping-trans c d e k k'), t)

  pub moved : (c d : Conn) (world : World) → Kept m ql il c d → AllTimed c world → After c d world
  moved c d world (r, k) t = ((r, k), AllTimed-Keeping c d world k t)

  -- What one call of the event loop leaves.
  abbrev pub Ran : Conn → World → Conn × World → Type 0
  Ran c world r = After c r.0 r.1 × (suc (length r.1) ≡ length world)

  event_loop-After :
      (world : World) (c : Conn)
      → Ready m c
      → AllTimed c world
      → Gives (Ran c world) (event_loop m world c)
  unfolding event_loop
  event_loop-After [] c r t = tt
  event_loop-After (batch ∷ world) c r (now, later) = elim (Option-cases (handle_batch m batch c)) [
    | inl out ↦ rw (out, event_loop) tt
    | inr (c', e) ↦
        rw (e, event_loop)
          (moved c c' world (handle_batch-Kept m ql il batch c c' r now e) later, refl)
  ]

  -- A call of the event loop, behind a change of nothing but the log.
  pub run-After :
      (world : World) (c d : Conn)
      → Quietly c d
      → Ready m c
      → AllTimed c world
      → Gives (Ran c world) (event_loop m world d)
  run-After world c d quiet r t =
      let (r', k) = quiet-Kept m ql il c d r quiet in
      let ran = event_loop-After world d r' (AllTimed-Keeping c d world k t) in
      elim (Option-cases (event_loop m world d)) [
        | inl out ↦ rw out tt
        | inr ((e, rest), is) ↦
            let (after, less) = Gives-some (Ran d world) (event_loop m world d) (e, rest) is ran in
            rw is (then_After c d e rest (r', k) after, less)
      ]

  abbrev pub Up : Session → Session × World × Bool → Type 0
  Up s r =
      (r.2 ≡ true → conn_status_eq r.0.conn.status connected ≡ true) × (r.0.blocking ≡ s.blocking)

  pub connect-After :
      (s : Session) (world : World)
      → Ready m s.conn
      → AllTimed s.conn world
      → Gives (λ r. After s.conn r.0.conn r.1 × Up s r) (connect m s world)
  unfolding connect
  connect-After s world r t =
      let c = (conn_connect m s.conn).0 in
      let keeps = conn_connect-Keeps m s.conn in
      let v = IsQuiet-Valid m s.conn c (conn_connect-IsQuiet m s.conn) r.sound.good.valid in
      let begun =
        Keeps-Kept m ql il s.conn c r keeps (Keeps-Good m s.conn c keeps r.sound.good v) in
      elim (Bool-cases (conn_connect m s.conn).1) [
        | inr refused ↦ rw refused (moved s.conn c world begun t, (λ e. cc, refl))
        | inl waits ↦
            let d = emit (event_loop_run none) c in
            let ran =
              run-After world c d (emit-Quietly (event_loop_run none) c) begun.0
                (AllTimed-Keeping s.conn c world begun.1 t) in
            elim (Option-cases (event_loop m world d)) [
              | inl out ↦ rw (waits, out) tt
              | inr ((e, rest), is) ↦
                  let (after, _) =
                    Gives-some (Ran c world) (event_loop m world d) (e, rest) is ran in
                  rw (waits, is) (then_After s.conn c e rest begun after, (λ e. e, refl))
            ]
      ]

  abbrev pub Monitored : Session → World → Session × World × Bool → Type 0
  Monitored s world r =
      After s.conn r.0.conn r.1
      × ((nothing_to_do s ≡ true)
          ⊎ ((r.2 ≡ false) × (r.0.conn ≡ s.conn))
          ⊎ (suc (length r.1) ≡ length world))

  -- One round of the wait: nothing is asked of the event loop, or the world goes on.
  pub monitor_ex-After :
      (running : Bool) (s : Session) (wait_us : ℤ) (world : World)
      → Ready m s.conn
      → AllTimed s.conn world
      → Gives (Monitored s world) (monitor_ex m running s wait_us world)
  unfolding monitor_ex
  monitor_ex-After running s wait_us world r t = elim (Bool-cases (nothing_to_do s)) [
    | inl idle ↦ rw idle (((r, Keeping-refl s.conn), t), inl idle)
    | inr busy ↦ elim (Bool-cases (not (is_up s.conn))) [
      | inl down ↦ rw (busy, down) (((r, Keeping-refl s.conn), t), inr (inl (refl, refl)))
      | inr up ↦
          let d = waiting running wait_us s.conn in
          let ran = run-After world s.conn d (waiting-Quietly running wait_us s.conn) r t in
          elim (Option-cases (event_loop m world d)) [
            | inl out ↦ rw (busy, up, out) tt
            | inr ((e, rest), is) ↦
                let (after, less) =
                  Gives-some (Ran s.conn world) (event_loop m world d) (e, rest) is ran in
                elim (Bool-cases (is_up e)) [
                  | inl still ↦ rw (busy, up, is, still) (after, inr (inr less))
                  | inr lost ↦ rw (busy, up, is, lost) (after, inr (inr less))
                ]
          ]
    ]
  ]
