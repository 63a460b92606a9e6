-- ===== src/Apps/LoadRun.antt =====
-- apps/monetra_load/src/monetra_load.c: the connections of the load test, and the requests that it
-- puts on them. The array of the connections is a list; a loop's index counts up to its end.
use libmonetra.Apps.CliOpts.{CliLib}
use libmonetra.Apps.Load.{get_amount, conn_index, ptrannum}
use libmonetra.Apps.LoadOpts.{LoadOpts, Method, method_ip, method_ssl, enqueue_tran}
use libmonetra.Apps.Submit.{texts, submit}
use libmonetra.Base.{
  ℕ, zero, suc, ◌+◌, ◌/◌, List, [], ◌∷◌, ◌++◌, Option, none, some, ◌>>=◌, if◌then◌else◌, ◌==◌, ltb,
  is_nil, nth, set_nth, Bytes, codes,
}
use libmonetra.Conn.{
  conn_init, conn_set_userdata, conn_set_tls_clientctx, conn_change_mode, conn_destroy,
}
use libmonetra.Connect.{conn_connect}
use libmonetra.Mstdlib.{Mstdlib, Csv, Dict}
use libmonetra.Trans.Response.{trans_response_csv}
use libmonetra.Trans.{trans_delete}
use libmonetra.Types.{Conn, mode_ip}

abbrev pub Conns : Type 0
Conns = List Conn

-- The results of M_rand_range(randstate, …) from now on; `none` says that the list is used up.
abbrev pub draw : List ℕ → Option (ℕ × List ℕ)
draw [] = none
draw (r ∷ rs) = some (r, rs)

abbrev create_user_pwd : Bytes
create_user_pwd = codes "Test123$"

-- The connections to the port of the administrator: one for ten users at most.
unfoldable pub admin_conns : LoadOpts → ℕ
admin_conns o =
    if ltb (o.user_count / 10 + 1) o.num_conns then o.user_count / 10 + 1 else o.num_conns

-- What main, create_users, cleanup_users and settle_batches do between two event loops.
pub data Phase : Type 0 where
  starting : Option ℕ → List (List ℕ) → Bytes → ℕ → Method → Phase
  selling : ℕ → List ℕ → Phase
  deleting_users adding_users : ℕ → Phase
  totalling : Phase
  settling : ℕ → Csv → ℕ → ℕ → Phase

-- LM_conn_destroy for each.
unfoldable pub destroy_connections : Conns → Conns
destroy_connections [] = []
destroy_connections (c ∷ conns) = (conn_destroy c).0 ∷ destroy_connections conns

module _ (m : Mstdlib) (l : CliLib) where
  abbrev pub user_name : ℕ → Bytes
  user_name i = codes "u" ++ l.print_padded i

  -- One connection of start_connections, with the results of its random generator. `none` where
  -- LM_conn_init refuses: the event loop would wait for that connection for ever.
  unfoldable pub start_connection : Option ℕ → List ℕ → Bytes → ℕ → Method → Option Conn
  start_connection tlsctx rnd host port kind = do
    c ← conn_init rnd (some 1) (some 1) (some host) port
    let with_opt = (conn_set_userdata c (some 1)).0
    let secured = (conn_set_tls_clientctx with_opt tlsctx).0
    let chosen : Conn = elim kind [
      | method_ip ↦ (conn_change_mode secured mode_ip).0
      | method_ssl ↦ secured
    ]
    some (conn_connect m chosen).0

  -- start_connections, up to the event loop: one connection for each member of `rnds`.
  unfoldable pub start_connections : Option ℕ → List (List ℕ) → Bytes → ℕ → Method → Option Conns
  start_connections tlsctx [] host port kind = some []
  start_connections tlsctx (rnd ∷ rnds) host port kind = do
    c ← start_connection tlsctx rnd host port kind
    conns ← start_connections tlsctx rnds host port kind
    some (c ∷ conns)

  -- A request on the connection number i % nconns.
  unfoldable pub submit_at : Conns → ℕ → ℕ → Dict → Option (Conns × ℕ)
  submit_at conns nconns i params = do
    c ← nth (conn_index nconns i) conns
    (c', p) ← submit m c params
    some (set_nth (conn_index nconns i) c' conns, p)

  -- The user, the account and the amount of a request are drawn in this order.
  unfoldable pub pick_user : LoadOpts → List ℕ → Option (Bytes × Bytes × List ℕ)
  pick_user o draws =
      if o.user_count == 0
      then some (o.username, o.password, draws)
      else do (r, rest) ← draw draws; some (user_name r, create_user_pwd, rest)

  unfoldable pub get_cc_number : LoadOpts → List ℕ → Option (Bytes × List ℕ)
  get_cc_number o draws =
      if is_nil o.accounts
      then some ([], draws)
      else do (r, rest) ← draw draws; account ← nth r o.accounts; some (account, rest)

  unfoldable pub enqueue_on : Conn → LoadOpts → ℕ → List ℕ → Option (Conn × List ℕ)
  enqueue_on c o number draws = do
    (username, password, d1) ← pick_user o draws
    (account, d2) ← get_cc_number o d1
    (amt, d3) ← get_amount o.exact_amount d2
    c' ← enqueue_tran m l c o username password account amt number
    some (c', d3)

  -- `num` requests from the number `i` on.
  unfoldable pub enqueue_transactions : ℕ → Conns → ℕ → ℕ → LoadOpts → List ℕ → Option Conns
  enqueue_transactions zero conns nconns i o draws = some conns
  enqueue_transactions (suc num) conns nconns i o draws = do
    c ← nth (conn_index nconns i) conns
    (c', rest) ← enqueue_on c o (ptrannum nconns i) draws
    enqueue_transactions num (set_nth (conn_index nconns i) c' conns) nconns (i + 1) o rest

  abbrev delete_user_params : LoadOpts → ℕ → List (Bytes × Bytes)
  delete_user_params o i =
      (codes "username", o.username)
      ∷ (codes "password", o.password)
      ∷ (codes "action", codes "deluser")
      ∷ (codes "user", user_name i)
      ∷ []

  abbrev add_user_params : LoadOpts → ℕ → List (Bytes × Bytes)
  add_user_params o i =
      (codes "username", o.username)
      ∷ (codes "password", o.password)
      ∷ (codes "action", codes "adduser")
      ∷ (codes "user", user_name i)
      ∷ (codes "pwd", create_user_pwd)
      ∷ (codes "proc", codes "loopback")
      ∷ (codes "indcode", codes "R")
      ∷ (codes "mode", codes "BOTH")
      ∷ (codes "cardtypes", codes "VISA+MC+AMEX+DISC+JCB+CB+DINERS+GIFT")
      ∷ (codes "geninterchange", codes "yes")
      ∷ (codes "zipcode", codes "32606")
      ∷ (codes "settledelay", codes "0")
      ∷ []

  -- A request for each number from `i` on, with the parameters of that number.
  unfoldable pub submit_each : (ℕ → Dict) → ℕ → Conns → ℕ → ℕ → Option (Conns × List ℕ)
  submit_each params zero conns nconns i = some (conns, [])
  submit_each params (suc num) conns nconns i = do
    (conns1, p) ← submit_at conns nconns i (params i)
    (conns2, ps) ← submit_each params num conns1 nconns (i + 1)
    some (conns2, p ∷ ps)

  unfoldable pub enqueue_delete_users : Conns → ℕ → ℕ → LoadOpts → Option (Conns × List ℕ)
  enqueue_delete_users conns nconns nusers o =
      submit_each (λ i. texts (delete_user_params o i)) nusers conns nconns 0

  unfoldable pub enqueue_add_users : Conns → ℕ → ℕ → LoadOpts → Option (Conns × List ℕ)
  enqueue_add_users conns nconns nusers o =
      submit_each (λ i. texts (add_user_params o i)) nusers conns nconns 0

  -- A user of the settlement: one that was created, or the one of the command line.
  abbrev settle_user : LoadOpts → ℕ → List (Bytes × Bytes)
  settle_user o i =
      if o.user_count == 0
      then (codes "username", o.username) ∷ (codes "password", o.password) ∷ []
      else (codes "username", user_name i) ∷ (codes "password", create_user_pwd) ∷ []

  abbrev settle_users : LoadOpts → ℕ
  settle_users o = if o.user_count == 0 then 1 else o.user_count

  -- The first loop of settle_batches: the requests for the totals, kept in `bttrans`.
  unfoldable pub request_totals : Conns → LoadOpts → Option (Conns × List ℕ)
  request_totals conns o =
      submit_each
        (λ i.
          texts (
            settle_user o i
            ++ ((codes "action", codes "admin") ∷ (codes "admin", codes "BT") ∷ [])))
        (settle_users o) conns o.num_conns 0

  -- The rows of one table from the row `j` on: a settlement for each. The number is that of the
  -- batches so far.
  unfoldable pub settle_rows : ℕ → ℕ → Csv → Conns → LoadOpts → ℕ → ℕ → Option (Conns × ℕ)
  settle_rows zero j csv conns o i batches = some (conns, batches)
  settle_rows (suc num) j csv conns o i batches = do
    (conns', p) ← submit_at conns o.num_conns batches (
        texts (settle_user o i ++ ((codes "action", codes "settle") ∷ []))
        ++ ((codes "batch", m.csv_get_cell csv j (codes "BatchNum"))
            ∷ (codes "sub", m.csv_get_cell csv j (codes "Sub"))
            ∷ []))
    settle_rows num (j + 1) csv conns' o i (batches + 1)

  -- The second loop, behind the event loop: the responses of `bttrans` from the user `i` on.
  unfoldable pub settle_all : List ℕ → Conns → LoadOpts → ℕ → ℕ → Option (Conns × ℕ)
  settle_all [] conns o i batches = some (conns, batches)
  settle_all (p ∷ bttrans) conns o i batches = do
    c ← nth (conn_index o.num_conns i) conns
    let (read, csv) = trans_response_csv m c (some p)
    let conns1 = set_nth (conn_index o.num_conns i) read conns
    (conns2, batches2) ← elim csv [
      | none ↦ some (conns1, batches)
      | some table ↦ settle_rows (m.csv_get_numrows table) 0 table conns1 o i batches
    ]
    d ← nth (conn_index o.num_conns i) conns2
    settle_all bttrans (set_nth (conn_index o.num_conns i) (trans_delete m d (some p)) conns2) o
        (i + 1) batches2

  unfoldable pub run_phase : Phase → Conns → LoadOpts → Option Conns
  run_phase (starting tlsctx rnds host port kind) conns o =
      start_connections tlsctx rnds host port kind
  run_phase (selling nconns draws) conns o = enqueue_transactions o.num_trans conns nconns 0 o draws
  run_phase (deleting_users nconns) conns o = do
    (conns', ps) ← enqueue_delete_users conns nconns o.user_count o
    some conns'
  run_phase (adding_users nconns) conns o = do
    (conns', ps) ← enqueue_add_users conns nconns o.user_count o
    some conns'
  run_phase totalling conns o = do (conns', ps) ← request_totals conns o; some conns'
  run_phase (settling num csv i batches) conns o = do
    (conns', n) ← settle_rows num 0 csv conns o i batches
    some conns'
