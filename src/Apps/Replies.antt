-- ===== src/Apps/Replies.antt =====
-- apps/monetra_load/src/monetra_load.c: what the callback of the load test counts, and when it ends the
-- event loop.
use libmonetra.Base.{
  ℕ, ◌+◌, ◌<◌, ◌≡◌, refl, Bool, true, false, ◌||◌, not, List, [], ◌∷◌, Option, some, codes, arith,
  subst, sym, if◌then◌else◌, ◌==◌, leb, ◌⊎◌, inl, inr, Bool-cases, length,
}
use libmonetra.Mstdlib.{Mstdlib}
use libmonetra.Trans.{trans_delete}
use libmonetra.Trans.Response.{trans_response_type, trans_response_param}
use libmonetra.Types.{
  Conn, LmEvent, conn_connected, conn_disconnect, conn_error, trans_done, trans_error,
  trans_noconnect, trans_timeout, response_csv, response_type_eq,
}

-- What the callback keeps, and what it was asked for. `over` says that the event loop is to end,
-- `failed` that the program exits with an error.
pub record Progress : Type 0 where
  pub connections_established : ℕ
  pub transactions_done : ℕ
  pub expected_connections : ℕ
  pub expected_trans : ℕ
  pub expect_approved : Bool
  pub delete_txn_handle : Bool
  pub over : Bool
  pub failed : Bool

module _ (m : Mstdlib) where
  -- Where approvals are expected, a response that is no CSV must have the code AUTH.
  unfoldable pub is_denied : Progress → Conn → Option ℕ → Conn × Bool
  is_denied s c trans =
      let (c1, kind) = trans_response_type c trans in
      let (c2, code) = trans_response_param m c1 trans (some (codes "code")) in
      if s.expect_approved
      then if response_type_eq kind response_csv
        then (c1, false)
        else (c2, not (m.str_caseeq code (some (codes "AUTH"))))
      else (c, false)

  -- The last transaction that is expected ends the event loop.
  unfoldable pub on_done : Progress → Conn → Option ℕ → Progress × Conn
  on_done s c trans =
      let n = s.transactions_done + 1 in
      let (c', denied) = is_denied s c trans in
      if denied then (record s { transactions_done = n; failed = true }, c') else (
        record s { transactions_done = n; over = s.over || (n == s.expected_trans) },
        if s.delete_txn_handle then trans_delete m c' trans else c',
      )

  unfoldable pub monetra_callback : Progress → Conn → LmEvent → Option ℕ → Progress × Conn
  unfolding on_done
  monetra_callback s c conn_connected trans =
      let n = s.connections_established + 1 in
      (record s { connections_established = n; over = s.over || (n == s.expected_connections) }, c)
  monetra_callback s c conn_disconnect trans = (record s { failed = true }, c)
  monetra_callback s c conn_error trans = (record s { failed = true }, c)
  monetra_callback s c trans_done trans = on_done s c trans
  monetra_callback s c trans_error trans = (s, c)
  monetra_callback s c trans_noconnect trans = (s, c)
  monetra_callback s c trans_timeout trans = (s, c)

  -- The responses that come while the event loop runs, each on its connection.
  abbrev pub answers : Progress → List (Conn × Option ℕ) → Progress
  answers s [] = s
  answers s ((c, trans) ∷ rest) = answers (monetra_callback s c trans_done trans).0 rest

-- send_requests, up to the event loop: the flag says that the loop is run, since a response is
-- expected.
unfoldable pub send_requests : Progress → ℕ → Bool → Bool → Progress × Bool
send_requests s expected_response_cnt req_approvals txn_no_delete =
    if expected_response_cnt == 0 then (s, false) else (
      record s {
        delete_txn_handle = not txn_no_delete;
        transactions_done = 0;
        expected_trans = expected_response_cnt;
        expect_approved = req_approvals;
        over = false;
      },
      true,
    )

module _ (m : Mstdlib) where
  on_done-failed :
      (s : Progress) (c : Conn) (trans : Option ℕ)
      → s.failed ≡ true
      → (on_done m s c trans).0.failed ≡ true
  unfolding on_done
  on_done-failed s c trans h = elim (Bool-cases (is_denied m s c trans).1) [
    | inl denied ↦ rw denied refl
    | inr fine ↦ rw fine h
  ]

  answers-failed :
      (s : Progress) (rest : List (Conn × Option ℕ))
      → s.failed ≡ true
      → (answers m s rest).failed ≡ true
  unfolding monetra_callback
  answers-failed s [] h = h
  answers-failed s ((c, trans) ∷ rest) h =
      answers-failed (on_done m s c trans).0 rest (on_done-failed s c trans h)

  -- One response: it is denied, or counted.
  on_done-cases :
      (s : Progress) (c : Conn) (trans : Option ℕ)
      → let s' = (on_done m s c trans).0 in
        (s'.failed ≡ true)
        ⊎ ((s'.failed ≡ s.failed)
            × (s'.transactions_done ≡ s.transactions_done + 1)
            × (s'.expected_trans ≡ s.expected_trans)
            × (s'.over ≡ (s.over || (s.transactions_done + 1 == s.expected_trans))))
  unfolding on_done
  on_done-cases s c trans = elim (Bool-cases (is_denied m s c trans).1) [
    | inl denied ↦ inl (rw denied refl)
    | inr fine ↦ inr (rw fine (refl, refl, refl, refl))
  ]

  answers_lem :
      (s : Progress) (rest : List (Conn × Option ℕ))
      → (answers m s rest).failed ≡ false
      → s.over ≡ leb s.expected_trans s.transactions_done
      → ((answers m s rest).over ≡ leb s.expected_trans (s.transactions_done + length rest))
        × ((answers m s rest).transactions_done ≡ s.transactions_done + length rest)
  unfolding monetra_callback
  answers_lem s [] fine so_far = (ground (arith, so_far), omega arith)
  answers_lem s ((c, trans) ∷ rest) fine so_far =
      let s' = (on_done m s c trans).0 in
      elim (on_done-cases s c trans) [
        | inl failed ↦ absurd (ground (arith, answers-failed s' rest failed, fine))
        | inr (going, n, expected, over) ↦
            let (ends, counted) =
              answers_lem s' rest fine (ground (arith, so_far, n, expected, over)) in
            (ground (arith, ends, n, expected), omega (arith, counted, n))
      ]

  abbrev started : Progress → ℕ → Bool → Bool → Progress
  started s n req_approvals txn_no_delete = record s {
    delete_txn_handle = not txn_no_delete;
    transactions_done = 0;
    expected_trans = n;
    expect_approved = req_approvals;
    over = false;
  }

  -- The event loop that awaits the responses ends with the last one that is expected, and not before,
  -- unless one of them is denied, which ends the program.
  pub send_requests-over :
      (s : Progress) (n : ℕ) (req_approvals txn_no_delete : Bool) (rest : List (Conn × Option ℕ))
      → 0 < n
      → (answers m (send_requests s n req_approvals txn_no_delete).0 rest).failed ≡ false
      → let after = answers m (send_requests s n req_approvals txn_no_delete).0 rest in
        (after.over ≡ leb n (length rest)) × (after.transactions_done ≡ length rest)
  unfolding send_requests
  send_requests-over s n req_approvals txn_no_delete rest some_trans fine =
      let s' = started s n req_approvals txn_no_delete in
      let other : (n == 0) ≡ false = ground (arith, some_trans) in
      let begun : (send_requests s n req_approvals txn_no_delete).0 ≡ s' = rw other refl in
      subst
        (λ (x : Progress).
          (answers m x rest).failed ≡ false
          → ((answers m x rest).over ≡ leb n (length rest))
            × ((answers m x rest).transactions_done ≡ length rest))
        (sym begun)
        (λ going.
          let (ends, counted) = answers_lem s' rest going (ground (arith, some_trans)) in
          (ground (arith, ends), omega (arith, counted)))
        fine
