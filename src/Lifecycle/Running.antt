-- ===== src/Lifecycle/Running.antt =====
-- src/monetra_trans.c: the copy of the parameters in LM_trans_run, and LM_trans_response_csv, which
-- parses a table at its first call.
use libmonetra.Base.{
  ℕ, ◌≡◌, ◌≤◌, refl, ◌&&◌, none, some, arith, Bool-cases, Option-cases, inl, inr, is_some, subst,
  sym,
}
use libmonetra.Invariant.Create.{store-Valid}
use libmonetra.Invariant.{Valid}
use libmonetra.Lifecycle.{Keeps, Keeps-refl, store-Keeps, rank}
use libmonetra.Mstdlib.{Mstdlib, Dict}
use libmonetra.Send.{fill}
use libmonetra.Trans.Response.{trans_response_csv, csv_of, parsed_csv, is_done}
use libmonetra.Trans.{with_trans-live, get_trans-live}
use libmonetra.Types.{Conn, Trans, response_csv, response_type_eq}

module _ (m : Mstdlib) where
  pub fill-Keeps :
      (c : Conn) (p : ℕ) (t : Trans) (params : Dict)
      → c.heap p ≡ some t
      → Keeps c (fill m c p params)
  unfolding fill
  fill-Keeps c p t params live =
      rw (with_trans-live c p _ live) (store-Keeps c p t _ live refl (omega arith))

  pub fill-Valid :
      (c : Conn) (p : ℕ) (t : Trans) (params : Dict)
      → c.heap p ≡ some t
      → Valid m c
      → Valid m (fill m c p params)
  unfolding fill
  fill-Valid c p t params live v =
      rw (with_trans-live c p _ live) (store-Valid m c p t _ live refl refl v)

  -- Parsing moves the text of the response into the table.
  parsed_csv_same :
      (t : Trans) → ((parsed_csv m t).trans_id ≡ t.trans_id) × ((parsed_csv m t).status ≡ t.status)
  parsed_csv_same t = elim (Option-cases t.response_raw) [
    | inl gone ↦ rw gone (refl, refl)
    | inr (raw, there) ↦ elim (Bool-cases (is_some t.response_csv)) [
      | inl parsed ↦ rw (there, parsed) (refl, refl)
      | inr new ↦ rw (there, new) (refl, refl)
    ]
  ]

  pub trans_response_csv-Keeps :
      (c : Conn) (p : ℕ) (t : Trans)
      → c.heap p ≡ some t
      → Keeps c (trans_response_csv m c (some p)).0
  unfolding trans_response_csv
  trans_response_csv-Keeps c p t live =
      let (id, st) = parsed_csv_same t in
      elim (Bool-cases (is_done t && response_type_eq t.response_type response_csv)) [
        | inl table ↦
            rw (get_trans-live c p none (csv_of m c p) live, table)
              (store-Keeps c p t (parsed_csv m t) live id
                (subst (λ s. rank t.status ≤ rank s) (sym st) (omega arith)))
        | inr other ↦ rw (get_trans-live c p none (csv_of m c p) live, other) (Keeps-refl c)
      ]

  pub trans_response_csv-Valid :
      (c : Conn) (p : ℕ) (t : Trans)
      → c.heap p ≡ some t
      → Valid m c
      → Valid m (trans_response_csv m c (some p)).0
  unfolding trans_response_csv
  trans_response_csv-Valid c p t live v =
      let (id, st) = parsed_csv_same t in
      elim (Bool-cases (is_done t && response_type_eq t.response_type response_csv)) [
        | inl table ↦
            rw (get_trans-live c p none (csv_of m c p) live, table)
              (store-Valid m c p t (parsed_csv m t) live id st v)
        | inr other ↦ rw (get_trans-live c p none (csv_of m c p) live, other) v
      ]
