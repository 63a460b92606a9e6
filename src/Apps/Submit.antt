-- ===== src/Apps/Submit.antt =====
-- How the programs under apps make a request: LM_trans_new, LM_trans_set_param for each parameter,
-- and LM_trans_send.
use libmonetra.Base.{
  ℕ, ◌≡◌, refl, List, [], ◌∷◌, Option, none, some, map, Bytes, arith, subst, Option-cases, inl, inr,
}
use libmonetra.Lifecycle.Creating.{trans_new-IsLive, trans_new-Good}
use libmonetra.Lifecycle.Good.{IsLive, Keeps-IsLive}
use libmonetra.Lifecycle.Reached.{Reach-Sound}
use libmonetra.Lifecycle.Sending.{trans_set_param-Keeps, trans_send-Keeps}
use libmonetra.Lifecycle.System.{Reach, next, creates, sets_param, sends}
use libmonetra.Lifecycle.{Keeps, Keeps-refl, Keeps-trans}
use libmonetra.Mstdlib.{Mstdlib, Dict, QueueLaws, IdMapLaws}
use libmonetra.Send.{trans_send}
use libmonetra.Trans.{trans_new, trans_set_param}
use libmonetra.Types.{Conn}

-- Parameters none of which is NULL.
abbrev pub texts : List (Bytes × Bytes) → Dict
texts params = map (λ (kv : Bytes × Bytes). (kv.0, some kv.1)) params

module _ (m : Mstdlib) where
  -- LM_trans_set_param for each.
  unfoldable pub set_params : Conn → ℕ → Dict → Conn
  set_params c p [] = c
  set_params c p ((key, value) ∷ params) =
      set_params (trans_set_param m c (some p) (some key) value).0 p params

  -- `none` where LM_trans_new does not return. The number is the new transaction's.
  unfoldable pub submit : Conn → Dict → Option (Conn × ℕ)
  unfolding set_params
  submit c params = elim (trans_new m c) [
    | none ↦ none
    | some (c', p) ↦ some ((trans_send m (set_params c' p params) (some p)).0, p)
  ]

  pub set_params-Reach :
      (c : Conn) (p : ℕ) (params : Dict)
      → Reach m c
      → IsLive c p
      → Reach m (set_params c p params) × IsLive (set_params c p params) p
  unfolding set_params
  set_params-Reach c p [] r live = (r, live)
  set_params-Reach c p ((key, value) ∷ params) r live =
      let (t, at, free) = live in
      let c' = (trans_set_param m c (some p) (some key) value).0 in
      let k = trans_set_param-Keeps m c p t (some key) value at in
      set_params-Reach c' p params (next r (sets_param p (some key) value live refl))
        (Keeps-IsLive c c' p k live)

  module _ (ql : QueueLaws m) (il : IdMapLaws m) where
    -- A new transaction and its parameters.
    pub filled-Reach :
        (c d : Conn) (p : ℕ) (params : Dict)
        → Reach m c
        → trans_new m c ≡ some (d, p)
        → Reach m (set_params d p params) × IsLive (set_params d p params) p
    filled-Reach c d p params r is =
        set_params-Reach d p params (next r (creates p is))
          (trans_new-IsLive m il c d p (Reach-Sound m ql il c r).good.valid is)

    set_params-Keeps :
        (c : Conn) (p : ℕ) (params : Dict) → IsLive c p → Keeps c (set_params c p params)
    unfolding set_params
    set_params-Keeps c p [] live = Keeps-refl c
    set_params-Keeps c p ((key, value) ∷ params) (t, at, free) =
        let c' = (trans_set_param m c (some p) (some key) value).0 in
        let k = trans_set_param-Keeps m c p t (some key) value at in
        Keeps-trans c c' (set_params c' p params) k
          (set_params-Keeps c' p params (Keeps-IsLive c c' p k (t, at, free)))

    -- A request changes no other transaction.
    pub submit-Keeps :
        (c c' : Conn) (p : ℕ) (params : Dict)
        → Reach m c
        → submit c params ≡ some (c', p)
        → Keeps c c'
    unfolding submit
    submit-Keeps c c' p params r e = elim (Option-cases (trans_new m c)) [
      | inl out ↦ absurd (ground (arith, out, e))
      | inr ((d, q), is) ↦
          let filled = set_params d q params in
          let (r', (t, at, _)) = filled-Reach c d q params r is in
          let g = (Reach-Sound m ql il c r).good in
          let live = trans_new-IsLive m il c d q g.valid is in
          let sent : (trans_send m filled (some q)).0 ≡ c' = ground (arith, is, e) in
          let (_, k) = trans_new-Good m il ql c d q g is in
          let k' = Keeps-trans c d filled k (set_params-Keeps d q params live) in
          subst (Keeps c) sent (
            Keeps-trans c filled (trans_send m filled (some q)).0 k'
              (trans_send-Keeps m ql filled q t at (Reach-Sound m ql il filled r').good.valid))
    ]

    -- A request is made of calls that the library allows.
    pub submit-Reach :
        (c c' : Conn) (p : ℕ) (params : Dict)
        → Reach m c
        → submit c params ≡ some (c', p)
        → Reach m c'
    unfolding submit
    submit-Reach c c' p params r e = elim (Option-cases (trans_new m c)) [
      | inl out ↦ absurd (ground (arith, out, e))
      | inr ((d, q), is) ↦
          let (filled, live) = filled-Reach c d q params r is in
          let sent : (trans_send m (set_params d q params) (some q)).0 ≡ c' =
            ground (arith, is, e) in
          subst (Reach m) sent (next filled (sends q live refl))
    ]
