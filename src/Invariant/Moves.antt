-- ===== src/Invariant/Moves.antt =====
-- How a pointer moves: out of a queue, to another status, into a queue; and how memory is
-- allocated and freed.
use libmonetra.Base.{
  ℕ, ◌+◌, ◌-◌, ◌≤◌, ◌≡◌, refl, ◌≢◌, true, false, List, [], ◌∷◌, none, some, arith, if◌then◌else◌,
  ◌==◌, count, Bool-cases, Option-cases, ap, inl, inr, count-append, count-erase,
}
use libmonetra.Invariant.{Core, queue, with_queue, tally, Inv}
use libmonetra.Mstdlib.{Mstdlib, QueueLaws, IdMapLaws}
use libmonetra.Types.{
  Trans, TransStatus, status_all, status_new, status_ready, status_pending, status_done,
  trans_status_eq, update,
}

pub status_eq_refl : (s : TransStatus) → trans_status_eq s s ≡ true
status_eq_refl status_all = refl
status_eq_refl _ = refl

pub eq_of_status_eq : (r s : TransStatus) → trans_status_eq r s ≡ true → r ≡ s
eq_of_status_eq status_all s h = ground arith
eq_of_status_eq _ s h = ground arith

-- The pointer is in no queue.
abbrev pub IsDetached : Core → ℕ → Type 0
IsDetached k p = (s : TransStatus) → count p (queue k s) ≡ 0

module _ (m : Mstdlib) (ql : QueueLaws m) where
  pub count-queue_take :
      (x p : ℕ) (q : List ℕ) → count x (m.queue_take q p) ≡ count x q - (if p == x then 1 else 0)
  count-queue_take x p q = ground (arith, ql.take_erase q p, count-erase x p q)

  pub count-queue_insert :
      (x p : ℕ) (q : List ℕ)
      → count p q ≡ 0
      → count x (m.queue_insert q p) ≡ count x q + (if p == x then 1 else 0)
  count-queue_insert x p q h = ground (arith, ql.insert_end q p h, count-append x q (p ∷ []))

-- A queue after a change of one of them: the changed one, or another one as it was.
pick :
    (P : TransStatus → List ℕ → Type 0) (k : Core) (s s' : TransStatus) (q : List ℕ)
    → s' ≢ status_all
    → P s' q
    → (trans_status_eq s' s ≡ false → P s (queue k s))
    → P s (queue (with_queue k s' q) s)
pick P k status_all status_all q h a b = absurd (h refl)
pick P k status_new status_new q h a b = a
pick P k status_ready status_ready q h a b = a
pick P k status_pending status_pending q h a b = a
pick P k status_done status_done q h a b = a
pick P k _ _ q h a b = b refl

module _ (m : Mstdlib) where
  -- A change of one queue, from what becomes of its counts.
  pub requeue :
      (k : Core) (s' : TransStatus) (q : List ℕ) (old loose : List ℕ)
      → s' ≢ status_all
      → ((x : ℕ) → count x q ≤ tally (k.heap x) s')
      → ((x : ℕ) → count x k.delay_rm ≡ 0 → count x loose ≡ 0 → count x q ≡ tally (k.heap x) s')
      → ((x : ℕ) (s : TransStatus)
          → trans_status_eq s' s ≡ false
          → count x k.delay_rm ≡ 0
          → count x loose ≡ 0
          → count x (queue k s) ≡ tally (k.heap x) s)
      → Inv m old k
      → Inv m loose (with_queue k s' q)
  requeue k status_all q old loose h b e sub v = absurd (h refl)
  requeue k s' q old loose h b e sub v = record {
    bounded =
        λ x s. pick (λ s q. count x q ≤ tally (k.heap x) s) k s s' q h (b x) (λ _. v.bounded x s);
    placed = λ x s d l.
        pick (λ s q. count x q ≡ tally (k.heap x) s) k s s' q h (e x d l) (λ n. sub x s n d l);
    delayed = v.delayed;
    ids = v.ids;
    owned = v.owned;
    safe = v.safe;
  }

  module _ (ql : QueueLaws m) where
    -- Out of the queue of its status.
    pub take-Inv :
        (k : Core) (p : ℕ) (t : Trans) (s : TransStatus)
        → s ≢ status_all
        → Inv m (p ∷ []) k
        → Inv m (p ∷ []) (with_queue k s (m.queue_take (queue k s) p))
    take-Inv k p t s h v =
        requeue k s _ (p ∷ []) (p ∷ []) h
          (λ x. omega (arith, count-queue_take m ql x p (queue k s), v.bounded x s))
          (λ x d l. ground (arith, count-queue_take m ql x p (queue k s), v.placed x s d))
          (λ x r n d l. v.placed x r d l) v

    -- It is in no queue then.
    pub take-IsDetached :
        (k : Core) (loose : List ℕ) (p : ℕ) (t : Trans) (s : TransStatus)
        → k.heap p ≡ some t
        → t.status ≡ s
        → s ≢ status_all
        → Inv m loose k
        → IsDetached (with_queue k s (m.queue_take (queue k s) p)) p
    take-IsDetached k loose p t s live is h v r =
        pick (λ r q. count p q ≡ 0) k r s _ h
          (ground (arith, count-queue_take m ql p p (queue k s), v.bounded p s, live, is))
          (λ n. ground (arith, v.bounded p r, live, is))

    -- Into the queue of its status.
    pub put-Inv :
        (k : Core) (p : ℕ) (t : Trans) (s : TransStatus)
        → k.heap p ≡ some t
        → t.status ≡ s
        → s ≢ status_all
        → IsDetached k p
        → Inv m (p ∷ []) k
        → Inv m [] (with_queue k s (m.queue_insert (queue k s) p))
    put-Inv k p t s live is h d v =
        requeue k s _ (p ∷ []) [] h
          (λ x. ground (
            arith,
            count-queue_insert m ql x p (queue k s) (d s),
            v.bounded x s,
            d s,
            live,
            is,
            status_eq_refl s,
          ))
          (λ x e l. ground (
            arith,
            count-queue_insert m ql x p (queue k s) (d s),
            v.placed x s e,
            d s,
            live,
            is,
            status_eq_refl s,
          ))
          (λ x r n e l. ground (arith, v.placed x r e, d r, live, is)) v

  pop-live :
      (k : Core) (p : ℕ) (s : TransStatus) (rest : List ℕ)
      → queue k s ≡ p ∷ rest
      → Inv m [] k
      → (t : Trans) × (k.heap p ≡ some t) × (t.status ≡ s)
  pop-live k p s rest e v =
      let one : count p (queue k s) ≡ count p (p ∷ rest) = ap (count p) e in
      elim (Option-cases (k.heap p)) [
        | inl dead ↦ absurd (ground (arith, one, v.bounded p s, dead))
        | inr (t, live) ↦
            (t, live, eq_of_status_eq t.status s (ground (arith, one, v.bounded p s, live)))
      ]

  -- The first pointer of a queue is live, with that status; once it is off, it is in no queue.
  pub pop-Inv :
      (k : Core) (p : ℕ) (s : TransStatus) (rest : List ℕ)
      → s ≢ status_all
      → queue k s ≡ p ∷ rest
      → Inv m [] k
      → ((t : Trans) × (k.heap p ≡ some t) × (t.status ≡ s))
        × Inv m (p ∷ []) (with_queue k s rest)
        × IsDetached (with_queue k s rest) p
  pop-Inv k p s rest h e v =
      let same : (x : ℕ) → count x (queue k s) ≡ count x (p ∷ rest) = λ x. ap (count x) e in
      let (t, live, is) = pop-live k p s rest e v in
      (
        (t, live, is),
        requeue k s rest [] (p ∷ []) h (λ x. ground (arith, same x, v.bounded x s))
            (λ x d l. ground (arith, same x, v.placed x s d refl))
            (λ x r n d l. v.placed x r d refl) v,
        λ r.
            pick (λ r q. count p q ≡ 0) k r s rest h
              (ground (arith, same p, v.bounded p s, live, is, status_eq_refl s))
              (λ n. ground (arith, v.bounded p r, live, is)),
      )

  pub loosen : (k : Core) (p : ℕ) → Inv m [] k → Inv m (p ∷ []) k
  loosen k p v = record {
    bounded = v.bounded;
    placed = λ x s d l. v.placed x s d refl;
    delayed = v.delayed;
    ids = v.ids;
    owned = v.owned;
    safe = v.safe;
  }

  -- Another value of a transaction that keeps its id.
  pub retag-Inv :
      (k : Core) (loose : List ℕ) (p : ℕ) (t t' : Trans)
      → k.heap p ≡ some t
      → t'.trans_id ≡ t.trans_id
      → ((s : TransStatus) → count p (queue k s) ≤ tally (some t') s)
      → ((s : TransStatus)
          → count p k.delay_rm ≡ 0
          → count p loose ≡ 0
          → count p (queue k s) ≡ tally (some t') s)
      → Inv m loose k
      → Inv m loose (record k { heap = update k.heap p (some t') })
  retag-Inv k loose p t t' live id b e v = record {
    bounded = λ x s. ground (arith, v.bounded x s, b s);
    placed = λ x s d l. ground (arith, v.placed x s, e s);
    delayed = λ x. ground (arith, v.delayed x, live);
    ids = λ x u h. ground (arith, v.ids x u, v.ids p t, live, id);
    owned = λ i x h. elim (Bool-cases (p == x)) [
      | inl same ↦
          let (u, at, is) = v.owned i x h in (t', rw same refl, ground (arith, live, id, at, is))
      | inr other ↦ let (u, at, is) = v.owned i x h in (u, rw other at, is)
    ];
    safe = v.safe;
  }

  -- A change of other fields than the status and the id.
  pub keep-Inv :
      (k : Core) (loose : List ℕ) (p : ℕ) (t t' : Trans)
      → k.heap p ≡ some t
      → t'.trans_id ≡ t.trans_id
      → t'.status ≡ t.status
      → Inv m loose k
      → Inv m loose (record k { heap = update k.heap p (some t') })
  keep-Inv k loose p t t' live id st v =
      retag-Inv k loose p t t' live id (λ s. ground (arith, v.bounded p s, live, st))
        (λ s d l. ground (arith, v.placed p s, live, st)) v

  -- Any change of a pointer that is held, and in no queue.
  pub mark-Inv :
      (k : Core) (p : ℕ) (t t' : Trans)
      → k.heap p ≡ some t
      → t'.trans_id ≡ t.trans_id
      → IsDetached k p
      → Inv m (p ∷ []) k
      → Inv m (p ∷ []) (record k { heap = update k.heap p (some t') })
  mark-Inv k p t t' live id d v =
      retag-Inv k (p ∷ []) p t t' live id (λ s. omega (arith, d s)) (λ s e l. ground arith) v

  -- Memory that is not in use is in no queue.
  pub unused-IsDetached :
      (k : Core) (loose : List ℕ) (p : ℕ) → k.heap p ≡ none → Inv m loose k → IsDetached k p
  unused-IsDetached k loose p dead v s = ground (arith, v.bounded p s, dead)

  module _ (il : IdMapLaws m) where
    -- A new transaction, with an id that is not in use.
    pub alloc-Inv :
        (k : Core) (p : ℕ) (t : Trans)
        → k.heap p ≡ none
        → m.u64vp_get k.id_map t.trans_id ≡ none
        → Inv m [] k
        → Inv m (p ∷ []) (record k {
          heap = update k.heap p (some t);
          id_map = m.u64vp_insert k.id_map t.trans_id p;
        })
    alloc-Inv k p t dead unused v = record {
      bounded = λ x s. ground (arith, v.bounded x s, dead);
      placed = λ x s d l. ground (arith, v.placed x s d refl, dead);
      delayed = λ x. ground (arith, v.delayed x, dead);
      ids = λ x u h.
          ground (arith, v.ids x u, il.get_insert k.id_map t.trans_id u.trans_id p, unused);
      owned = λ i x h. elim (Bool-cases (t.trans_id == i)) [
        | inl same ↦
            (t, ground (arith, il.get_insert k.id_map t.trans_id i p, same, h), ground arith)
        | inr other ↦
            let (u, at, is) =
              v.owned i x (ground (arith, il.get_insert k.id_map t.trans_id i p, other, h)) in
            (u, ground (arith, at, dead), is)
      ];
      safe = v.safe;
    }

    -- The memory of a pointer that is held, and in no queue, is freed.
    pub free-Inv :
        (k : Core) (p : ℕ) (t : Trans)
        → k.heap p ≡ some t
        → count p k.delay_rm ≡ 0
        → IsDetached k p
        → Inv m (p ∷ []) k
        → Inv m []
            (record k { heap = update k.heap p none; id_map = m.u64vp_remove k.id_map t.trans_id })
    free-Inv k p t live free d v = record {
      bounded = λ x s. ground (arith, v.bounded x s, d s);
      placed = λ x s e l. ground (arith, v.placed x s e, d s);
      delayed = λ x. ground (arith, v.delayed x, free);
      ids = λ x u h.
          ground (arith, v.ids x u, v.ids p t live, il.get_remove k.id_map t.trans_id u.trans_id);
      owned = λ i x h.
          let (u, at, is) = v.owned i x (ground (arith, il.get_remove k.id_map t.trans_id i, h)) in
          (u, ground (arith, at, is, live, il.get_remove k.id_map t.trans_id i), is);
      safe = v.safe;
    }
