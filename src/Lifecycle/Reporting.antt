-- ===== src/Lifecycle/Reporting.antt =====
-- Which transactions the event handler reports as done.
use libmonetra.Base.{
  ℕ, zero, suc, ◌+◌, ◌≤◌, ◌≡◌, ◌≢◌, refl, ◌∙◌, ap, subst, Bool, true, false, List, [], ◌∷◌, ◌++◌,
  Option, none, some, arith, ◌==◌, if◌then◌else◌, count, map, some_inj, Bool-cases, inl, inr,
}
use libmonetra.Event.{
  Entry, Handled, event_add, noconnect_events, handle_conn_error, is_pingtxn, on_response,
  read_loop, set_connected, drop_timeout,
}
use libmonetra.Invariant.Failure.{handle_conn_error-Valid, final_event, told_ready}
use libmonetra.Invariant.Receive.{Reports, parse_trans_buffer-Valid}
use libmonetra.Invariant.{Valid}
use libmonetra.Lifecycle.Answers.{Took, parse_trans_buffer-Took}
use libmonetra.Lifecycle.Good.{Good, Follows, Keeps-Follows, Keeps-Good}
use libmonetra.Lifecycle.Pinging.{set_connected-Good, set_connected-due}
use libmonetra.Lifecycle.Reading.{drop_timeout-Keeps, parse_trans_buffer-Keeps}
use libmonetra.Lifecycle.Responses.{on_response-Good}
use libmonetra.Lifecycle.{Grows-live, Keeps, rank}
use libmonetra.Mstdlib.{Mstdlib, QueueLaws, IdMapLaws}
use libmonetra.Parse.{Parsed, success, wait, error, parse_trans_buffer}
use libmonetra.Types.{
  Conn, Trans, LmEvent, IoEvent, trans_done, trans_error, conn_connected, status_done,
  status_pending,
}

-- How often the events tell that a transaction is done.
abbrev pub told : ℕ → Entry → ℕ
told p (trans_done, some q) = if q == p then 1 else 0
told p _ = 0

abbrev pub times : ℕ → List Entry → ℕ
times p [] = 0
times p (e ∷ es) = told p e + times p es

pub times-append : (p : ℕ) (xs ys : List Entry) → times p (xs ++ ys) ≡ times p xs + times p ys
times-append p [] ys = omega arith
times-append p (x ∷ xs) ys = omega (arith, times-append p xs ys)

times-noconnect : (p : ℕ) (ready : List ℕ) → times p (noconnect_events ready) ≡ 0
times-noconnect p [] = refl
times-noconnect p (q ∷ ready) = omega (arith, times-noconnect p ready)

times-error : (p : ℕ) (pending : List ℕ) → times p (map (λ q. (trans_error, some q)) pending) ≡ 0
times-error p [] = refl
times-error p (q ∷ pending) = omega (arith, times-error p pending)

told-none : (p : ℕ) (kind : LmEvent) → told p (kind, none) ≡ 0
told-none p trans_done = refl
told-none p _ = refl

-- The user's, DONE, and not due for deletion.
abbrev pub IsAnswered : Conn → ℕ → Type 0
IsAnswered c p =
    (t : Trans) × (c.heap p ≡ some t)
    × (4 ≤ rank t.status)
    × (count p c.trans_delay_rm ≡ 0)
    × (c.pingtxn ≢ some p)

-- What the events tell is so, and they tell it once.
abbrev pub Reported : Conn → List Entry → Type 0
Reported c events = (p : ℕ) → 1 ≤ times p events → (times p events ≡ 1) × IsAnswered c p

-- Only what is DONE is due for deletion.
abbrev pub DueDone : Conn → Type 0
DueDone c =
    (p : ℕ) → 1 ≤ count p c.trans_delay_rm → (t : Trans) × (c.heap p ≡ some t) × (4 ≤ rank t.status)

pub IsAnswered-Follows : (c d : Conn) (p : ℕ) → Follows c d → IsAnswered c p → IsAnswered d p
IsAnswered-Follows c d p f (t, live, done, free, other) =
    let (u, at, _, le) = Grows-live (c.heap p) (d.heap p) t (f.grows p) live in
    let (other', same) = f.spares p t live other in
    (u, at, omega (arith, done, le), same ∙ free, other')

pub Reported-Follows :
    (c d : Conn) (events : List Entry) → Follows c d → Reported c events → Reported d events
Reported-Follows c d events f rep p some_told =
    let (once, is) = rep p some_told in (once, IsAnswered-Follows c d p f is)

grown :
    (c d : Conn) (p : ℕ)
    → Follows c d
    → (t : Trans) × (c.heap p ≡ some t) × (4 ≤ rank t.status)
    → (t : Trans) × (d.heap p ≡ some t) × (4 ≤ rank t.status)
grown c d p f (t, live, done) =
    let (u, at, _, le) = Grows-live (c.heap p) (d.heap p) t (f.grows p) live in
    (u, at, omega (arith, done, le))

Keeps-DueDone : (c d : Conn) → Keeps c d → DueDone c → DueDone d
Keeps-DueDone c d k due p some_due =
    grown c d p (Keeps-Follows c d k) (due p (omega (arith, ap (count p) k.delay_rm)))

-- The same events in other words.
pub times-Reported :
    (c : Conn) (xs ys : List Entry)
    → ((p : ℕ) → times p ys ≡ times p xs)
    → Reported c xs
    → Reported c ys
times-Reported c xs ys same rep p some_told =
    let (once, is) = rep p (omega (arith, same p)) in (same p ∙ once, is)

module _ (m : Mstdlib) (ql : QueueLaws m) where
  pub times-handle_conn_error :
      (c : Conn) (events : List Entry) (kind : IoEvent) (p : ℕ)
      → Valid m c
      → times p (handle_conn_error m c events kind).1 ≡ times p events
  times-handle_conn_error c events kind p v =
      let (_, _, _, _, _, _, _, e) = handle_conn_error-Valid m ql c events kind v in
      let ready = noconnect_events (told_ready m ql c) in
      let pending : List Entry = map (λ q. (trans_error, some q)) c.trans_pending in
      let last = final_event m ql c.status kind in
      let told_last = told-none p last in
      ap (times p) e
      ∙ omega (
        arith,
        times-append p ((events ++ ready) ++ pending) ((last, none) ∷ []),
        times-append p (events ++ ready) pending,
        times-append p events ready,
        times-noconnect p (told_ready m ql c),
        times-error p c.trans_pending,
        told_last,
      )

  pinged : (o : Option ℕ) (p : ℕ) → is_pingtxn m o p ≡ true → o ≡ some p
  pinged none p e = absurd (ground (arith, e))
  pinged (some q) p e = ground (arith, e)

  unpinged : (o : Option ℕ) (p : ℕ) → is_pingtxn m o p ≡ false → o ≢ some p
  unpinged none p e h = absurd (ground (arith, h))
  unpinged (some q) p e h = absurd (ground (arith, e, h))

  -- The answer to the ping is told as the connection.
  ping-Reported :
      (il : IdMapLaws m) (c : Conn) (p : ℕ) (t : Trans) (events : List Entry)
      → c.heap p ≡ some t
      → t.status ≡ status_done
      → c.pingtxn ≡ some p
      → c.in_use ≡ true
      → Good m c
      → DueDone c
      → Reported c events
      → let r = set_connected m c events in DueDone r.0 × Reported r.0 r.1
  unfolding set_connected
  ping-Reported il c p t events live done ping busy g due rep =
      let d = (set_connected m c events).0 in
      let (_, f, _) = set_connected-Good m ql il c events busy g in
      (
        λ q some_due. elim (Bool-cases (p == q)) [
          | inl same ↦
              let at : c.heap q ≡ some t = ground (arith, same, live) in
              grown c d q f (t, at, ground (arith, done))
          | inr other ↦
              let kept =
                set_connected-due m ql il c events p q ping (ground (arith, other)) busy g in
              grown c d q f (due q (omega (arith, some_due, kept)))
        ],
        times-Reported d events (event_add events conn_connected none)
            (λ q. times-append q events ((conn_connected, none) ∷ []) ∙ omega arith)
            (Reported-Follows c d events f rep),
      )

  -- Any other answer is told as what it is.
  answer-Reported :
      (c : Conn) (p : ℕ) (t : Trans) (events : List Entry)
      → c.heap p ≡ some t
      → t.status ≡ status_done
      → count p c.trans_delay_rm ≡ 0
      → times p events ≡ 0
      → c.pingtxn ≢ some p
      → DueDone c
      → Reported c events
      → let d = drop_timeout c p in DueDone d × Reported d (event_add events trans_done (some p))
  answer-Reported c p t events live done free new other due rep =
      let d = drop_timeout c p in
      let k = drop_timeout-Keeps m c p t live in
      let f = Keeps-Follows c d k in
      (
        Keeps-DueDone c d k due,
        λ q some_told.
            let all = times-append q events ((trans_done, some p) ∷ []) in
            elim (Bool-cases (p == q)) [
              | inl same ↦
                  let is : p ≡ q = ground (arith, same) in
                  let fresh : times q events ≡ 0 = subst (λ (x : ℕ). times x events ≡ 0) is new in
                  (
                    ground (arith, all, fresh, same),
                    subst (IsAnswered d) is
                        (IsAnswered-Follows c d p f (t, live, ground (arith, done), free, other)),
                  )
              | inr apart ↦
                  let (once, is) = rep q (ground (arith, all, apart, some_told)) in
                  (ground (arith, all, apart, once), IsAnswered-Follows c d q f is)
            ],
      )

  on_response-Reported :
      (il : IdMapLaws m) (c : Conn) (p : ℕ) (t : Trans) (events : List Entry)
      → c.heap p ≡ some t
      → t.status ≡ status_done
      → count p c.trans_delay_rm ≡ 0
      → times p events ≡ 0
      → c.in_use ≡ true
      → Good m c
      → DueDone c
      → Reported c events
      → let r = on_response m c p events in DueDone r.0 × Reported r.0 r.1
  unfolding on_response
  on_response-Reported il c p t events live done free new busy g due rep =
      elim (Bool-cases (is_pingtxn m c.pingtxn p)) [
        | inl ping ↦
            rw ping
              (ping-Reported il c p t events live done (pinged c.pingtxn p ping) busy g due rep)
        | inr other ↦
            rw other
              (answer-Reported c p t events live done free new (unpinged c.pingtxn p other) due rep)
      ]

  -- A transaction that was PENDING is neither due for deletion nor told.
  sent-new :
      (c : Conn) (p : ℕ) (u : Trans) (events : List Entry)
      → c.heap p ≡ some u
      → u.status ≡ status_pending
      → DueDone c
      → Reported c events
      → (count p c.trans_delay_rm ≡ 0) × (times p events ≡ 0)
  sent-new c p u events was sent due rep = (
    elim (Bool-cases (count p c.trans_delay_rm == 0)) [
      | inl free ↦ ground (arith, free)
      | inr some_due ↦
          let (t, live, done) = due p (ground (arith, some_due)) in
          absurd (ground (arith, live, was, sent, done))
    ],
    elim (Bool-cases (times p events == 0)) [
      | inl new ↦ ground (arith, new)
      | inr some_told ↦
          let (once, (t, live, done, free, other)) = rep p (ground (arith, some_told)) in
          absurd (ground (arith, live, was, sent, done))
    ],
  )

  abbrev pub Continues : ℕ → Type 0
  Continues fuel =
      (c : Conn) (events : List Entry) (r : Handled × Bool)
      → c.in_use ≡ true
      → Good m c
      → DueDone c
      → Reported c events
      → read_loop m fuel c events ≡ some r
      → Reported r.0.0 r.0.1

  -- One round, by what the parser reports.
  read_loop_step :
      (il : IdMapLaws m) (fuel : ℕ) (c c' : Conn) (parsed : Parsed) (events : List Entry)
      (r : Handled × Bool)
      → c.in_use ≡ true
      → Good m c'
      → DueDone c
      → Reported c events
      → Keeps c c'
      → Reports c' parsed
      → Took c c' parsed
      → parse_trans_buffer m c ≡ some (c', parsed)
      → Continues fuel
      → read_loop m (suc fuel) c events ≡ some r
      → Reported r.0.0 r.0.1
  unfolding read_loop
  read_loop_step il fuel c c' (success p) events r busy g due rep k (t, live, done) (u, was, sent)
        is rest e =
      let (free, new) = sent-new c p u events was sent due rep in
      let (d, es) = on_response m c' p events in
      let busy' = k.in_use ∙ busy in
      let (h, f, _) = on_response-Good m ql il c' p t events live busy' g in
      let (due', rep') =
        on_response-Reported il c' p t events live done (ap (count p) k.delay_rm ∙ free) new busy' g
          (Keeps-DueDone c c' k due) (Reported-Follows c c' events (Keeps-Follows c c' k) rep) in
      rest d es r (f.in_use ∙ busy') h due' rep' (rw (is, read_loop) at e)
  read_loop_step il fuel c c' wait events r busy g due rep k told' took is rest e =
      let same : some ((c', events), false) ≡ some r = rw (is, read_loop) at e in
      subst (λ (x : Handled × Bool). Reported x.0.0 x.0.1) (some_inj same)
        (Reported-Follows c c' events (Keeps-Follows c c' k) rep)
  read_loop_step il fuel c c' error events r busy g due rep k told' took is rest e =
      let same : some ((c', events), true) ≡ some r = rw (is, read_loop) at e in
      subst (λ (x : Handled × Bool). Reported x.0.0 x.0.1) (some_inj same)
        (Reported-Follows c c' events (Keeps-Follows c c' k) rep)

  pub read_loop-Reported : (il : IdMapLaws m) (fuel : ℕ) → Continues fuel
  unfolding read_loop
  read_loop-Reported il zero c events r busy g due rep e = absurd (ground (arith, e))
  read_loop-Reported il (suc fuel) c events r busy g due rep e =
      let ((c', parsed), is, v, told', _) = parse_trans_buffer-Valid m ql c g.valid in
      let k = parse_trans_buffer-Keeps m ql c (c', parsed) g.valid is in
      let took = parse_trans_buffer-Took m ql c (c', parsed) g.valid is in
      read_loop_step il fuel c c' parsed events r busy (Keeps-Good m c c' k g v) due rep k told'
        took is (read_loop-Reported il fuel) e
