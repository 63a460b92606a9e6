-- ===== src/Apps/ConnState.antt =====
-- apps/monetra_connload/src/monetra_connload.c: what holds of the connections between its callbacks.
use libmonetra.Apps.ConnOpts.{ConnOpts}
use libmonetra.Apps.ConnRun.{Track, put}
use libmonetra.Base.{
  ℕ, ◌≤◌, ◌<◌, ◌≡◌, ◌≢◌, refl, ◌∙◌, sym, ap, subst, fun_ext, true, false, List, [], Option, none,
  some, arith, ◌==◌, if◌then◌else◌, ltb, length, count, Bool-cases, inl, inr,
}
use libmonetra.Lifecycle.System.{Reach}
use libmonetra.Mstdlib.{Mstdlib}
use libmonetra.Types.{Conn}

-- There is one connection, or as many as were asked for, at most.
abbrev pub IsBounded : ConnOpts → List ℕ → Type 0
IsBounded o conns = length conns ≤ (if ltb 1 o.num_conns then o.num_conns else 1)

-- A connection between two events, and its private data.
abbrev pub Idle : Mstdlib → Track → ℕ → Conn → Type 0
Idle m s q c =
    Reach m c × (c.destroy ≡ false) × (c.in_use ≡ false) × ((n : ℕ) × (s.num_txns q ≡ some n))

-- All connections but the one whose events are handled, if one's are. With no delay there is no timer.
pub record Others (m : Mstdlib) (o : ConnOpts) (w : Option ℕ) (s : Track) : Type 0 where
  pub idle : (q : ℕ) (c : Conn) → w ≢ some q → s.conns q ≡ some c → Idle m s q c
  pub fresh : (q : ℕ) → s.next ≤ q → s.conns q ≡ none
  pub tracked : (q n : ℕ) → s.num_txns q ≡ some n → 1 ≤ count q s.track_conns
  pub bounded : IsBounded o s.track_conns
  pub quiet : s.timers ≡ []
  pub clean : s.fault ≡ false

-- The program called exit.
abbrev pub Exited : ConnOpts → Track → Type 0
Exited o s = (s.over ≡ true) × (s.fault ≡ false) × IsBounded o s.track_conns

pub put_same {ℓ} : {A : Type ℓ} (f : ℕ → Option A) (p : ℕ) (v : Option A) → put f p v p ≡ v
put_same f p v = ground arith

pub put_other {ℓ} :
    {A : Type ℓ} (f : ℕ → Option A) (p q : ℕ) (v : Option A) → p ≢ q → put f p v q ≡ f q
put_other f p q v other = ground (arith, other)

pub put_self {ℓ} : {A : Type ℓ} (f : ℕ → Option A) (p : ℕ) (v : Option A) → f p ≡ v → f ≡ put f p v
put_self f p v there = fun_ext (λ q. elim (Bool-cases (p == q)) [
  | inl same ↦ let is : p ≡ q = ground (arith, same) in rw same (ap f (sym is) ∙ there)
  | inr other ↦ rw other refl
])

-- A change of one connection and its data.
pub record Changed (p : ℕ) (s s' : Track) : Type 0 where
  pub conn : Option Conn
  pub data_of : Option ℕ
  pub conns : s'.conns ≡ put s.conns p conn
  pub num_txns : s'.num_txns ≡ put s.num_txns p data_of
  pub listed : (n : ℕ) → data_of ≡ some n → 1 ≤ count p s.track_conns
  pub next : s'.next ≡ s.next
  pub track_conns : s'.track_conns ≡ s.track_conns
  pub timers : s'.timers ≡ s.timers
  pub fault : s'.fault ≡ s.fault

module _ (m : Mstdlib) (o : ConnOpts) where
  pub Changed-Others :
      (p : ℕ) (s s' : Track)
      → p < s.next
      → Changed p s s'
      → Others m o (some p) s
      → Others m o (some p) s'
  Changed-Others p s s' known k h = record {
    idle = λ q c other at.
        let apart : p ≢ q = λ same. other (ap (λ (x : ℕ). some x) same) in
        let (r, alive, free, (n, named)) = h.idle q c other (
          sym (put_other s.conns p q k.conn apart)
          ∙ ap (λ (f : ℕ → Option Conn). f q) (sym k.conns)
          ∙ at) in
        (
          r,
          alive,
          free,
          (
            n,
            ap (λ (f : ℕ → Option ℕ). f q) k.num_txns
                ∙ put_other s.num_txns p q k.data_of apart
                ∙ named,
          ),
        );
    fresh = λ q le.
        let le' : s.next ≤ q = omega (arith, le, k.next) in
        ap (λ (f : ℕ → Option Conn). f q) k.conns
        ∙ put_other s.conns p q k.conn (omega (arith, known, le'))
        ∙ h.fresh q le';
    tracked = λ q n at.
        let at' = ap (λ (f : ℕ → Option ℕ). f q) (sym k.num_txns) ∙ at in
        let listed : 1 ≤ count q s.track_conns = elim (Bool-cases (p == q)) [
          | inl same ↦
              let is : p ≡ q = ground (arith, same) in
              subst (λ (x : ℕ). 1 ≤ count x s.track_conns) is
                (k.listed n (
                  sym (put_same s.num_txns p k.data_of) ∙ ap (put s.num_txns p k.data_of) is ∙ at'))
          | inr other ↦
              h.tracked q n (sym (put_other s.num_txns p q k.data_of (ground (arith, other))) ∙ at')
        ] in
        omega (arith, listed, ap (count q) k.track_conns);
    bounded = subst (IsBounded o) (sym k.track_conns) h.bounded;
    quiet = k.timers ∙ h.quiet;
    clean = k.fault ∙ h.clean;
  }

  -- The events of `p` are handled, and no longer.
  pub open_Others : (p : ℕ) (s : Track) → Others m o none s → Others m o (some p) s
  open_Others p s h = record {
    idle = λ q c other at. h.idle q c (λ e. absurd (ground (arith, e))) at;
    fresh = h.fresh;
    tracked = h.tracked;
    bounded = h.bounded;
    quiet = h.quiet;
    clean = h.clean;
  }

  pub close_Others :
      (p : ℕ) (s : Track)
      → ((c : Conn) → s.conns p ≡ some c → Idle m s p c)
      → Others m o (some p) s
      → Others m o none s
  close_Others p s ended h = record {
    idle = λ q c none_open at. elim (Bool-cases (p == q)) [
      | inl same ↦
          let is : p ≡ q = ground (arith, same) in
          subst (λ (x : ℕ). Idle m s x c) is (ended c (ap s.conns is ∙ at))
      | inr other ↦ h.idle q c (λ e. absurd (ground (arith, other, e))) at
    ];
    fresh = h.fresh;
    tracked = h.tracked;
    bounded = h.bounded;
    quiet = h.quiet;
    clean = h.clean;
  }

  -- Memory that is in use is below the next number.
  pub known_below :
      (w : Option ℕ) (p : ℕ) (s : Track) (c : Conn)
      → Others m o w s
      → s.conns p ≡ some c
      → p < s.next
  known_below w p s c h at = elim (Bool-cases (ltb p s.next)) [
    | inl below ↦ ground (arith, below)
    | inr above ↦ absurd (ground (arith, h.fresh p (ground (arith, above)), at))
  ]
