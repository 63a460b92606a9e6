-- ===== src/Apps/Requests.antt =====
-- The load test (apps/monetra_load/src/monetra_load.c) as a user of the library.
use libmonetra.Apps.CliOpts.{CliLib}
use libmonetra.Apps.LoadOpts.{LoadOpts, tran_params, enqueue_tran}
use libmonetra.Apps.LoadRun.{Conns, Phase, run_phase}
use libmonetra.Apps.Submit.{texts, submit, submit-Reach}
use libmonetra.Base.{
  ℕ, ◌≡◌, [], ◌∷◌, some, arith, Bytes, nth, set_nth, Option-cases, inl, inr, subst,
}
use libmonetra.Lifecycle.System.{Reach, Step}
use libmonetra.Mstdlib.{Mstdlib, QueueLaws, IdMapLaws}
use libmonetra.Types.{Conn}

-- Calls and events led to each of the connections.
abbrev pub AllReach : Mstdlib → Conns → Type 0
AllReach m [] = Unit
AllReach m (c ∷ conns) = Reach m c × AllReach m conns

module _ (m : Mstdlib) (l : CliLib) where
  module _ (ql : QueueLaws m) (il : IdMapLaws m) where
    -- A request of the load test is made of calls that the library allows.
    pub enqueue_tran-Reach :
        (c c' : Conn) (o : LoadOpts) (username password account : Bytes) (amt number : ℕ)
        → Reach m c
        → enqueue_tran m l c o username password account amt number ≡ some c'
        → Reach m c'
    unfolding enqueue_tran
    enqueue_tran-Reach c c' o username password account amt number r e =
        let params = texts (tran_params m l o username password account amt number) in
        elim (Option-cases (submit m c params)) [
          | inl out ↦ absurd (ground (arith, out, e))
          | inr ((d, p), is) ↦
              let same : d ≡ c' = ground (arith, is, e) in
              subst (Reach m) same (submit-Reach m ql il c d p params r is)
        ]

-- The connections of the load test while it runs: its phases, and between them the events that the
-- event loop handles on any of them, with what its callback calls.
pub data Running (m : Mstdlib) (l : CliLib) (o : LoadOpts) : Conns → Type 0 where
  nothing : Running m l o []
  phase :
      {conns conns' : Conns} (kind : Phase)
      → Running m l o conns
      → run_phase m l kind conns o ≡ some conns'
      → Running m l o conns'
  step :
      {conns : Conns} {c c' : Conn} (i : ℕ)
      → Running m l o conns
      → nth i conns ≡ some c
      → Step m c c'
      → Running m l o (set_nth i c' conns)
