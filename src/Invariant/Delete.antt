-- ===== src/Invariant/Delete.antt =====
-- LM_trans_delete frees a transaction, or delays that while events are handled.
use libmonetra.Base.{
  ℕ, ◌≡◌, refl, Bool, true, false, List, [], ◌∷◌, none, some, arith, if◌then◌else◌, ◌==◌, count,
  count-append, Bool-cases, inl, inr, ap, Option-cases, is_some, is_nil, ◌&&◌, ◌⊎◌, subst,
}
use libmonetra.Event.{remove_delayed}
use libmonetra.Invariant.{Core, core, queue, with_queue, Inv, Fresh, Valid}
use libmonetra.Invariant.Create.{store-Valid}
use libmonetra.Invariant.Moves.{take-Inv, take-IsDetached, loosen, free-Inv}
use libmonetra.Mstdlib.{Mstdlib, QueueLaws, IdMapLaws}
use libmonetra.Trans.{
  queue_of, set_queue, with_trans-live, quiet, reset_idle_timer, trans_delete_unlocked,
  trans_delete,
}
use libmonetra.Types.{
  Conn, Trans, TransStatus, status_all, update, store, Effect, conn_status_eq, connected,
  timer_reset, timer_remove, millis,
}

module _ (m : Mstdlib) where
  -- The idle timer is all that `reset_idle_timer` changes.
  reset_idle_timer-log :
      (c : Conn) → (l : List Effect) × (reset_idle_timer m c ≡ record c { log = l })
  unfolding reset_idle_timer
  reset_idle_timer-log c =
      elim (Bool-cases (conn_status_eq c.status connected && is_nil c.trans_pending)) [
        | inl e ↦ (timer_reset c.timer (millis c.idle_timeout) ∷ c.log, rw e)
        | inr e ↦ (c.log, rw e)
      ]

  -- The connection that LM_trans_delete_unlocked leaves, with log `l`.
  abbrev removed : Conn → ℕ → TransStatus → ℕ → List Effect → Conn
  removed c p s id l =
      let taken = set_queue c s (m.queue_take (queue_of c s) p) in
      record taken {
        trans_id_map = m.u64vp_remove taken.trans_id_map id;
        heap = update taken.heap p none;
        log = l;
      }

  trans_delete_unlocked-removed :
      (c : Conn) (p : ℕ) (t : Trans)
      → c.heap p ≡ some t
      → (l : List Effect) × (trans_delete_unlocked m c (some p) ≡ removed c p t.status t.trans_id l)
  unfolding trans_delete_unlocked
  trans_delete_unlocked-removed c p t live =
      let taken = set_queue c t.status (m.queue_take (queue_of c t.status) p) in
      let (l, e) =
        reset_idle_timer-log
          (record taken { trans_id_map = m.u64vp_remove taken.trans_id_map t.trans_id }) in
      (l, rw (with_trans-live c p _ live, e))

  module _ (ql : QueueLaws m) (il : IdMapLaws m) where
    all-IsDetached :
        (c : Conn) (p : ℕ) (t : Trans) (s : TransStatus)
        → c.heap p ≡ some t
        → t.status ≡ status_all
        → Inv m (p ∷ []) (core c)
        → count p (queue (core c) s) ≡ 0
    all-IsDetached c p t status_all live is v = refl
    all-IsDetached c p t s live is v = ground (arith, v.bounded p s, live, is)

    removed-Inv :
        (c : Conn) (p : ℕ) (t : Trans) (s : TransStatus) (l : List Effect)
        → c.heap p ≡ some t
        → t.status ≡ s
        → count p c.trans_delay_rm ≡ 0
        → Inv m (p ∷ []) (core c)
        → Inv m [] (core (removed c p s t.trans_id l))
    removed-Inv c p t status_all l live is free v =
        free-Inv m il (core c) p t live free (λ s. all-IsDetached c p t s live is v) v
    removed-Inv c p t s l live is free v =
        free-Inv m il (with_queue (core c) s (m.queue_take (queue (core c) s) p)) p t live free
          (take-IsDetached m ql (core c) (p ∷ []) p t s live is (λ e. cc) v)
          (take-Inv m ql (core c) p t s (λ e. cc) v)

    removed-Fresh :
        (c : Conn) (p id : ℕ) (s : TransStatus) (l : List Effect)
        → Fresh c
        → Fresh (removed c p s id l)
    removed-Fresh c p id status_all l f x le = ground (arith, f x le)
    removed-Fresh c p id _ l f x le = ground (arith, f x le)

    unlocked-Inv :
        (c : Conn) (p : ℕ) (t : Trans)
        → c.heap p ≡ some t
        → count p c.trans_delay_rm ≡ 0
        → Inv m (p ∷ []) (core c)
        → Fresh c
        → Valid m (trans_delete_unlocked m c (some p))
          × ((trans_delete_unlocked m c (some p)).heap p ≡ none)
    unlocked-Inv c p t live free v f =
        let (l, e) = trans_delete_unlocked-removed c p t live in
        rw e (
          record {
            inv = removed-Inv c p t t.status l live refl free v;
            fresh = removed-Fresh c p t.trans_id t.status l f;
          },
          ground arith,
        )

    delay-Inv :
        (k : Core) (p : ℕ) (t : Trans)
        → k.heap p ≡ some t
        → count p k.delay_rm ≡ 0
        → Inv m [] k
        → Inv m [] (record k { delay_rm = m.llist_insert k.delay_rm p })
    delay-Inv k p t live free v = rw (il.llist_end k.delay_rm p) (record {
      bounded = v.bounded;
      placed = λ x s d l. v.placed x s (omega (arith, count-append x k.delay_rm (p ∷ []))) refl;
      delayed = λ x. ground (arith, count-append x k.delay_rm (p ∷ []), v.delayed x, live, free);
      ids = v.ids;
      owned = v.owned;
      safe = v.safe;
    })

    -- `quieted` in LM_trans_delete: the timer is killed and the user's data is gone.
    abbrev pub quieted : Conn → ℕ → Trans → List Effect → Conn
    quieted c p t l = record (store p (quiet m t) c) { log = l }

    abbrev pub delayed_or_freed : Conn → ℕ → Conn
    delayed_or_freed c p =
        if c.in_use
        then record c { trans_delay_rm = m.llist_insert c.trans_delay_rm p }
        else trans_delete_unlocked m c (some p)

    pub trans_delete-quieted :
        (c : Conn) (p : ℕ) (t : Trans)
        → c.heap p ≡ some t
        → (l : List Effect) × (trans_delete m c (some p) ≡ delayed_or_freed (quieted c p t l) p)
    unfolding trans_delete
    trans_delete-quieted c p t live = elim (Bool-cases (is_some t.timeout_timer)) [
      | inl e ↦ (timer_remove t.timeout_timer ∷ c.log, rw (with_trans-live c p _ live, e))
      | inr e ↦ (c.log, rw (with_trans-live c p _ live, e))
    ]

    quieted-Valid :
        (c : Conn) (p : ℕ) (t : Trans) (l : List Effect)
        → c.heap p ≡ some t
        → Valid m c
        → Valid m (quieted c p t l)
    quieted-Valid c p t l live v =
        let w = store-Valid m c p t (quiet m t) live refl refl v in
        record { inv = w.inv; fresh = w.fresh }

    -- What LM_trans_delete does with a live transaction that is not deleted yet: it is freed at once,
    -- or, while events are handled, it stays readable and is due for deletion.
    abbrev pub Deletes : Conn → ℕ → Conn → Type 0
    Deletes c p c' =
        ((c.in_use ≡ false) × (c'.heap p ≡ none))
        ⊎ ((c.in_use ≡ true)
            × ((t : Trans) × (c'.heap p ≡ some t))
            × (count p c'.trans_delay_rm ≡ 1))

    settled-Valid :
        (c : Conn) (p : ℕ) (t : Trans) (l : List Effect) (busy : Bool)
        → c.heap p ≡ some t
        → count p c.trans_delay_rm ≡ 0
        → c.in_use ≡ busy
        → Valid m c
        → let q = quieted c p t l in
          let c' =
            if busy
            then record q { trans_delay_rm = m.llist_insert q.trans_delay_rm p }
            else trans_delete_unlocked m q (some p) in
          Valid m c' × Deletes c p c'
    settled-Valid c p t l true live free busy v =
        let w = quieted-Valid c p t l live v in
        let now : (quieted c p t l).heap p ≡ some (quiet m t) = ground arith in
        (
          record {
            inv = delay-Inv (core (quieted c p t l)) p (quiet m t) now free w.inv;
            fresh = w.fresh;
          },
          inr (
            busy,
            (quiet m t, now),
            ground (
              arith,
              il.llist_end c.trans_delay_rm p,
              count-append p c.trans_delay_rm (p ∷ []),
              free,
            ),
          ),
        )
    settled-Valid c p t l false live free idle v =
        let w = quieted-Valid c p t l live v in
        let now : (quieted c p t l).heap p ≡ some (quiet m t) = ground arith in
        let (valid, gone) =
          unlocked-Inv (quieted c p t l) p (quiet m t) now free
            (loosen m (core (quieted c p t l)) p w.inv) w.fresh in
        (valid, inl (idle, gone))

    -- LM_trans_delete on a live transaction whose deletion is not due yet keeps the invariant, if
    -- M_queue, M_hash_u64vp and M_llist do what they document. Outside the event handler the
    -- memory is freed at once. In the handler it stays live, and is due once.
    pub trans_delete-Valid :
        (c : Conn) (p : ℕ) (t : Trans)
        → c.heap p ≡ some t
        → count p c.trans_delay_rm ≡ 0
        → Valid m c
        → Valid m (trans_delete m c (some p)) × Deletes c p (trans_delete m c (some p))
    trans_delete-Valid c p t live free v =
        let (l, e) = trans_delete-quieted c p t live in
        rw e (settled-Valid c p t l c.in_use live free refl v)

    -- The first delayed transaction is held now.
    delay-head :
        (c : Conn) (p : ℕ) (ps : List ℕ)
        → c.trans_delay_rm ≡ p ∷ ps
        → Valid m c
        → ((t : Trans) × (c.heap p ≡ some t))
          × (count p ps ≡ 0)
          × Inv m (p ∷ []) (core (record c { trans_delay_rm = ps }))
    delay-head c p ps e v =
        let same : (x : ℕ) → count x c.trans_delay_rm ≡ count x (p ∷ ps) = λ x. ap (count x) e in
        let live : (t : Trans) × (c.heap p ≡ some t) = elim (Option-cases (c.heap p)) [
          | inl dead ↦ absurd (ground (arith, same p, v.inv.delayed p, dead))
          | inr found ↦ found
        ] in
        (
          live,
          ground (arith, same p, v.inv.delayed p, live.1),
          record {
            bounded = v.inv.bounded;
            placed = λ x s d l. v.inv.placed x s (ground (arith, same x, d, l)) refl;
            delayed = λ x. ground (arith, same x, v.inv.delayed x);
            ids = v.inv.ids;
            owned = v.inv.owned;
            safe = v.inv.safe;
          },
        )

    pub unlocked_frame :
        (c : Conn) (p x : ℕ) (t : Trans)
        → c.heap p ≡ some t
        → let c' = trans_delete_unlocked m c (some p) in
          (c'.trans_delay_rm ≡ c.trans_delay_rm) × (c'.heap x ≡ (if p == x then none else c.heap x))
    unlocked_frame c p x t live =
        let (l, e) = trans_delete_unlocked-removed c p t live in rw e (ground arith)

    -- The loop at the end of the event handler frees the transactions whose deletion was delayed,
    -- and no others, and keeps the invariant: no memory is freed twice, or read after that. It
    -- takes that M_queue and M_hash_u64vp do what they document.
    pub remove_delayed-Valid :
        (ps : List ℕ) (c : Conn)
        → c.trans_delay_rm ≡ ps
        → Valid m c
        → let c' = remove_delayed m ps c in
          Valid m c'
          × (c'.trans_delay_rm ≡ [])
          × ((x : ℕ) → c'.heap x ≡ (if count x ps == 0 then c.heap x else none))
    unfolding remove_delayed
    remove_delayed-Valid [] c e v = (
      record {
        inv = subst (λ l. Inv m [] (record (core c) { delay_rm = l })) e v.inv;
        fresh = v.fresh;
      },
      refl,
      λ x. refl,
    )
    remove_delayed-Valid (p ∷ ps) c e v =
        let ((t, live), free, w) = delay-head c p ps e v in
        let c1 = record c { trans_delay_rm = ps } in
        let (valid, gone) = unlocked-Inv c1 p t live free w v.fresh in
        let (valid', empty, rest) =
          remove_delayed-Valid ps (trans_delete_unlocked m c1 (some p))
            (unlocked_frame c1 p p t live).0 valid in
        (valid', empty, λ x. ground (arith, rest x, (unlocked_frame c1 p x t live).1))
