-- ===== src/Lifecycle/Runs.antt =====
-- src/monetra_trans.c: LM_trans_run as the calls that it is made of.
use libmonetra.Base.{
  ℕ, ◌+◌, ◌≡◌, ◌≢◌, refl, ◌∙◌, sym, ap, subst, Option, none, some, arith, Option-cases, Bool-cases,
  inl, inr, ◌==◌, some_inj,
}
use libmonetra.Invariant.Create.{trans_new-created}
use libmonetra.Lifecycle.Creating.{trans_new-IsLive, trans_new-Good, trans_new_drawless}
use libmonetra.Lifecycle.Owned.{IsOwned, Spare, here, further, Spare-Stays}
use libmonetra.Lifecycle.Reached.{Sound, Step-Sound, Reach-Sound}
use libmonetra.Lifecycle.System.{Step, Reach, next, creates, fills, sends, deletes}
use libmonetra.Mstdlib.{Mstdlib, Dict, QueueLaws, IdMapLaws}
use libmonetra.Send.{fill, run_new, trans_run, trans_send}
use libmonetra.Trans.{trans_new, draw_id}
use libmonetra.Types.{Conn}

module _ (m : Mstdlib) (ql : QueueLaws m) (il : IdMapLaws m) where
  -- A new transaction is at the first unused place.
  trans_new_at : (c c' : Conn) (q : ℕ) → trans_new m c ≡ some (c', q) → q ≡ c.next
  trans_new_at c c' q e = elim (Option-cases (draw_id m c.rnd c.trans_id_map)) [
    | inl out ↦ absurd (ground (arith, trans_new_drawless m il c out, e))
    | inr ((id, rs), d) ↦
        ap (λ (r : Conn × ℕ). r.1) (some_inj (sym e ∙ trans_new-created m c id rs d))
  ]

  -- It is not the ping, which is live.
  trans_new-IsOwned :
      (c c' : Conn) (q : ℕ) → Sound m c → trans_new m c ≡ some (c', q) → IsOwned c' q
  trans_new-IsOwned c c' q s e =
      let (_, k) = trans_new-Good m il ql c c' q s.good e in
      (
        trans_new-IsLive m il c c' q s.good.valid e,
        λ ping.
            let (t, live, _) = s.good.ping q (sym k.pingtxn ∙ ping) in
            let dead = s.good.valid.fresh q (omega (arith, trans_new_at c c' q e)) in
            absurd (ground (arith, dead, live)),
      )

  -- Behind LM_trans_new: the parameters, the request, and the deletion where it is refused.
  run_new-Spare :
      (b : Conn) (q p : ℕ) (params : Dict)
      → q ≢ p
      → Sound m b
      → IsOwned b q
      → Spare m p b (run_new m b q params).0
  unfolding run_new
  run_new-Spare b q p params apart s owned =
      let f = fill m b q params in
      let filling : Step m b f = fills q params owned.0 refl in
      let s1 = Step-Sound m ql il b f s filling in
      let (_, (owned1, _)) =
        Spare-Stays m ql il q b f s owned
          (further here filling (λ e. absurd (ground (arith, e)))) in
      let g = (trans_send m f (some q)).0 in
      let sending : Step m f g = sends q owned1.0 refl in
      let (_, (owned2, _)) =
        Spare-Stays m ql il q f g s1 owned1
          (further here sending (λ e. absurd (ground (arith, e)))) in
      let sent : Spare m p b g =
        further (further here filling (λ e. absurd (ground (arith, e)))) sending
          (λ e. absurd (ground (arith, e))) in
      elim (Bool-cases (trans_send m f (some q)).1) [
        | inl done ↦ rw done sent
        | inr refused ↦
            rw refused (further sent (deletes q owned2.0 owned2.1 refl) (λ e. apart (some_inj e)))
      ]

  -- LM_trans_run is a sequence of steps none of which deletes a transaction that was there.
  pub trans_run-Spare :
      (c c' : Conn) (p : ℕ) (params : Option Dict) (r : Option ℕ)
      → c.next ≢ p
      → Sound m c
      → trans_run m c params ≡ some (c', r)
      → Spare m p c c'
  unfolding trans_run
  trans_run-Spare c c' p none r apart s e =
      subst (Spare m p c) (ap (λ (x : Conn × Option ℕ). x.0) (some_inj e)) here
  trans_run-Spare c c' p (some params) r apart s e =
      elim (Bool-cases (m.dict_num_keys (some params) == 0)) [
        | inl empty ↦
            let is : some (c, none) ≡ some (c', r) = rw (trans_run, empty) at e in
            subst (Spare m p c) (ap (λ (x : Conn × Option ℕ). x.0) (some_inj is)) here
        | inr full ↦ elim (Option-cases (trans_new m c)) [
          | inl out ↦
              let is : none ≡ some (c', r) = rw (trans_run, full, out) at e in
              absurd (ground (arith, is))
          | inr ((b, q), made) ↦
              let is : some (run_new m b q params) ≡ some (c', r) =
                rw (trans_run, full, made) at e in
              let creating : Step m c b = creates q made in
              let first : Spare m p c b = further here creating (λ e. absurd (ground (arith, e))) in
              let other : q ≢ p = λ same. apart (sym (trans_new_at c b q made) ∙ same) in
              subst (Spare m p c) (ap (λ (x : Conn × Option ℕ). x.0) (some_inj is)) (
                Spare-then p c b (run_new m b q params).0 first (
                  run_new-Spare b q p params other (Step-Sound m ql il c b s creating)
                    (trans_new-IsOwned c b q s made)))
        ]
      ]
    where
      Spare-then : (p : ℕ) (c d e : Conn) → Spare m p c d → Spare m p d e → Spare m p c e
      Spare-then p c d e before here = before
      Spare-then p c d e before (further {d = x} rest step spared) =
          further (Spare-then p c d x before rest) step spared

  Spare-Reach : (p : ℕ) (c c' : Conn) → Reach m c → Spare m p c c' → Reach m c'
  Spare-Reach p c c' r here = r
  Spare-Reach p c c' r (further {d = d} before step spared) = next (Spare-Reach p c d r before) step

  -- So what holds behind any calls holds behind LM_trans_run too.
  pub trans_run-Reach :
      (c c' : Conn) (params : Option Dict) (r : Option ℕ)
      → Reach m c
      → trans_run m c params ≡ some (c', r)
      → Reach m c'
  trans_run-Reach c c' params r reach e = Spare-Reach (c.next + 1) c c' reach (
      trans_run-Spare c c' (c.next + 1) params r (λ h. absurd (omega (arith, h)))
        (Reach-Sound m ql il c reach) e)
