-- ===== src/Invariant/Whole.antt =====
-- src/monetra_conn.c under the invariant: the list of all transactions, and the destruction.
use mathlib.Core.List.{append_assoc}
use libmonetra.Base.{
  ℕ, ◌+◌, ◌≡◌, refl, sym, ◌∙◌, true, false, List, [], ◌∷◌, ◌++◌, Option, none, arith, ap,
  Option-cases, if◌then◌else◌, inl, inr, count, count-append, length, length-append, ◌==◌,
}
use libmonetra.Conn.{
  conn_trans_count, conn_trans_list, trans_list_append, queue_destroy, release_all, conn_destroy,
}
use libmonetra.Invariant.{queue, alive, Valid}
use libmonetra.Mstdlib.{Mstdlib}
use libmonetra.Types.{
  Conn, Trans, TransStatus, status_all, status_new, status_ready, status_pending, status_done,
  update,
}

trans_list_append_lem : (list queue : List ℕ) → trans_list_append list queue ≡ list ++ queue
unfolding trans_list_append
trans_list_append_lem list [] = sym (mathlib.Core.List.append-nil list)
trans_list_append_lem list (p ∷ queue) =
    trans_list_append_lem (list ++ (p ∷ [])) queue ∙ append_assoc list (p ∷ []) queue

all_queues :
    (c : Conn)
    → conn_trans_list c status_all
      ≡ ((c.trans_new ++ c.trans_ready) ++ c.trans_pending) ++ c.trans_done
unfolding conn_trans_list
all_queues c = simp trans_list_append_lem

-- LM_conn_trans_count is the length of LM_conn_trans_list, for each status.
pub conn_trans_count-length :
    (c : Conn) (s : TransStatus) → conn_trans_count c s ≡ length (conn_trans_list c s)
unfolding conn_trans_count
conn_trans_count-length c status_all = omega (
  arith,
  ap length (all_queues c),
  length-append ((c.trans_new ++ c.trans_ready) ++ c.trans_pending) c.trans_done,
  length-append (c.trans_new ++ c.trans_ready) c.trans_pending,
  length-append c.trans_new c.trans_ready,
)
conn_trans_count-length c s =
    unfold conn_trans_list in
    omega (
      arith,
      ap length (trans_list_append_lem [] c.trans_new),
      ap length (trans_list_append_lem [] c.trans_ready),
      ap length (trans_list_append_lem [] c.trans_pending),
      ap length (trans_list_append_lem [] c.trans_done),
    )

queue_destroy_lem :
    (q : List ℕ) (h : ℕ → Option Trans) (x : ℕ)
    → queue_destroy h q x ≡ (if count x q == 0 then h x else none)
unfolding queue_destroy
queue_destroy_lem [] h x = refl
queue_destroy_lem (p ∷ q) h x = ground (arith, queue_destroy_lem q (update h p none) x)

released :
    (c : Conn) (x : ℕ)
    → (release_all c).heap x ≡ (
        if (count x c.trans_done
            + count x c.trans_pending
            + count x c.trans_ready
            + count x c.trans_new)
          == 0
        then c.heap x
        else none)
unfolding release_all
released c x =
    let h1 = queue_destroy c.heap c.trans_new in
    let h2 = queue_destroy h1 c.trans_ready in
    let h3 = queue_destroy h2 c.trans_pending in
    ground (
      arith,
      queue_destroy_lem c.trans_done h3 x,
      queue_destroy_lem c.trans_pending h2 x,
      queue_destroy_lem c.trans_ready h1 x,
      queue_destroy_lem c.trans_new c.heap x,
    )

module _ (m : Mstdlib) where
  -- A live transaction whose deletion is not due is in the queues once; memory not in use never.
  queues-alive :
      (c : Conn) (x : ℕ)
      → Valid m c
      → count x c.trans_delay_rm ≡ 0
      → count x c.trans_done + count x c.trans_pending + count x c.trans_ready + count x c.trans_new
        ≡ alive (c.heap x)
  queues-alive c x v free = elim (Option-cases (c.heap x)) [
    | inl dead ↦ ground (
      arith,
      dead,
      v.inv.placed x status_new free refl,
      v.inv.placed x status_ready free refl,
      v.inv.placed x status_pending free refl,
      v.inv.placed x status_done free refl,
    )
    | inr (t, live) ↦ ground (
      arith,
      live,
      v.inv.placed x status_all free refl,
      v.inv.placed x status_new free refl,
      v.inv.placed x status_ready free refl,
      v.inv.placed x status_pending free refl,
      v.inv.placed x status_done free refl,
    )
  ]

  -- On a valid connection, LM_conn_trans_list with LM_TRANS_STATUS_ALL has each pointer whose
  -- deletion is not due exactly once if it is live, and not at all if it is not.
  pub conn_trans_list-alive :
      (c : Conn) (x : ℕ)
      → Valid m c
      → count x c.trans_delay_rm ≡ 0
      → count x (conn_trans_list c status_all) ≡ alive (c.heap x)
  conn_trans_list-alive c x v free = omega (
    arith,
    ap (count x) (all_queues c),
    queues-alive c x v free,
    count-append x ((c.trans_new ++ c.trans_ready) ++ c.trans_pending) c.trans_done,
    count-append x (c.trans_new ++ c.trans_ready) c.trans_pending,
    count-append x c.trans_new c.trans_ready,
  )

  -- LM_conn_destroy on a valid connection outside the event handler frees every transaction, so
  -- that none leaks, if none is due for deletion.
  pub conn_destroy-frees :
      (c : Conn) (x : ℕ)
      → Valid m c
      → c.trans_delay_rm ≡ []
      → c.in_use ≡ false
      → ((conn_destroy c).1 ≡ true) × ((conn_destroy c).0.heap x ≡ none)
  unfolding conn_destroy
  conn_destroy-frees c x v none_due idle =
      rw idle (refl, ground (arith, released c x, queues-alive c x v (ap (count x) none_due)))
