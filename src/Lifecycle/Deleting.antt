-- ===== src/Lifecycle/Deleting.antt =====
-- LM_trans_delete, and what it does to the other transactions.
use libmonetra.Base.{
  ℕ, ◌≡◌, ◌≢◌, refl, ◌∙◌, sym, subst, Bool, true, false, [], ◌∷◌, some, arith, ap, count,
  count-append, ◌==◌, if◌then◌else◌,
}
use libmonetra.Event.{finish}
use libmonetra.Invariant.Delete.{trans_delete-Valid, trans_delete-quieted, quieted, unlocked_frame}
use libmonetra.Invariant.Finish.{Flags, trans_delete_unlocked-Flags, finish-Valid, finish-Cleans}
use libmonetra.Lifecycle.Good.{Good, IsLive}
use libmonetra.Mstdlib.{Mstdlib, QueueLaws, IdMapLaws}
use libmonetra.Trans.{trans_delete, trans_delete_unlocked, quiet}
use libmonetra.Types.{Conn, Trans}

-- Whatever the test says.
either : (P : Conn → Type 0) (b : Bool) (c d : Conn) → P c → P d → P (if b then c else d)
either P true c d p q = p
either P false c d p q = q

module _ (m : Mstdlib) (ql : QueueLaws m) (il : IdMapLaws m) where
  pub trans_delete-Flags :
      (c : Conn) (p : ℕ) (t : Trans) → c.heap p ≡ some t → Flags c (trans_delete m c (some p))
  trans_delete-Flags c p t live =
      let (l, e) = trans_delete-quieted m ql il c p t live in
      let q = quieted m ql il c p t l in
      subst (Flags c) (sym e) (
        either (Flags c) q.in_use (record q { trans_delay_rm = m.llist_insert q.trans_delay_rm p })
          (trans_delete_unlocked m q (some p)) (refl, refl, refl)
          (trans_delete_unlocked-Flags m q p))

  -- Outside the event handler it is freed at once.
  pub trans_delete_idle :
      (c : Conn) (p : ℕ) (t : Trans)
      → c.heap p ≡ some t
      → c.in_use ≡ false
      → (trans_delete m c (some p)).trans_delay_rm ≡ c.trans_delay_rm
  trans_delete_idle c p t live idle =
      let (l, e) = trans_delete-quieted m ql il c p t live in
      let q = quieted m ql il c p t l in
      let there : q.heap p ≡ some (quiet m t) = ground arith in
      ap (λ (d : Conn). d.trans_delay_rm) e
      ∙ ap
          (λ (b : Bool).
            (if b
              then record q { trans_delay_rm = m.llist_insert q.trans_delay_rm p }
              else trans_delete_unlocked m q (some p)).trans_delay_rm)
          idle
      ∙ (unlocked_frame m ql il q p p (quiet m t) there).0

  -- Another pointer is as before.
  abbrev pub Apart : Conn → ℕ → Conn → Type 0
  Apart c x c' = (c'.heap x ≡ c.heap x) × (count x c'.trans_delay_rm ≡ count x c.trans_delay_rm)

  pub trans_delete-Apart :
      (c : Conn) (p x : ℕ) (t : Trans)
      → c.heap p ≡ some t
      → p ≢ x
      → Apart c x (trans_delete m c (some p))
  trans_delete-Apart c p x t live other =
      let (l, e) = trans_delete-quieted m ql il c p t live in
      let q = quieted m ql il c p t l in
      let not_it : (p == x) ≡ false = ground arith in
      let kept : q.heap x ≡ c.heap x = rw not_it refl in
      let there : q.heap p ≡ some (quiet m t) = ground arith in
      let (same, gone) = unlocked_frame m ql il q p x (quiet m t) there in
      subst (Apart c x) (sym e) (
        either (Apart c x) q.in_use
          (record q { trans_delay_rm = m.llist_insert q.trans_delay_rm p })
          (trans_delete_unlocked m q (some p))
          (
            kept,
            ap (count x) (il.llist_end c.trans_delay_rm p)
                ∙ omega (arith, count-append x c.trans_delay_rm (p ∷ []), rest_zero not_it),
          )
          (gone ∙ rw not_it refl, ap (count x) same))
    where
      rest_zero : (p == x) ≡ false → count x (p ∷ []) ≡ 0
      rest_zero n = ground (arith, n)

  -- A live transaction that is not the ping is deleted: the ping is not touched.
  pub trans_delete-Good :
      (c : Conn) (p : ℕ)
      → IsLive c p
      → c.pingtxn ≢ some p
      → Good m c
      → Good m (trans_delete m c (some p))
  trans_delete-Good c p (t, live, free) not_ping g =
      let flags = trans_delete-Flags c p t live in
      record {
        valid = (trans_delete-Valid m ql il c p t live free g.valid).0;
        ping = λ x e.
            let ping : c.pingtxn ≡ some x = sym flags.2 ∙ e in
            let (u, at, due) = g.ping x ping in
            let apart : p ≢ x = λ same. not_ping (ping ∙ ap (λ (y : ℕ). some y) (sym same)) in
            let (same, count_same) = trans_delete-Apart c p x t live apart in
            (u, same ∙ at, count_same ∙ due);
      }

  -- The end of the handler frees no ping.
  pub finish-Good : (c : Conn) → Good m c → c.destroy ≡ false → Good m (finish m c).0
  finish-Good c g alive =
      let (w, none_due, idle, _) = finish-Valid m ql il c g.valid alive in
      let (freed, ping, _) = finish-Cleans m ql il c g.valid alive in
      record {
        valid = w;
        ping = λ x e.
            let (u, at, due) = g.ping x (sym ping ∙ e) in
            (u, freed x ∙ ground (arith, due, at), ap (count x) none_due);
      }
