-- ===== src/Lifecycle.antt =====
-- The life of a transaction, over all that the library does with a connection: what an operation may
-- do to the transactions that it does not delete. The children follow each operation of src/, and
-- then every sequence of them.
pub mod Sending
pub mod Reading
pub mod Buffer
pub mod Good
pub mod Pinging
pub mod Responses
pub mod PingRequest
pub mod Handler
pub mod Deleting
pub mod System
pub mod Running
pub mod Creating
pub mod Shape
pub mod Reached
pub mod Owned
pub mod Runs
pub mod Answers
pub mod Reporting
pub mod Told
use libmonetra.Base.{
  ℕ, ◌≤◌, ◌≡◌, refl, ◌∙◌, Bool, List, Option, none, some, arith, ◌==◌, if◌then◌else◌, Bool-cases,
  inl, inr,
}
use libmonetra.Types.{
  Conn, Trans, TransStatus, status_all, status_new, status_ready, status_pending, status_done,
  update, store,
}

-- The order in which a transaction takes its states.
abbrev pub rank : TransStatus → ℕ
rank status_all = 0
rank status_new = 1
rank status_ready = 2
rank status_pending = 3
rank status_done = 4

pub rank_le : (s : TransStatus) → rank s ≤ 4
rank_le status_all = omega arith
rank_le status_new = omega arith
rank_le status_ready = omega arith
rank_le status_pending = omega arith
rank_le status_done = omega arith

-- A transaction stays in memory, keeps its id, and does not go back to an earlier state. Memory that
-- is not in use may become any transaction.
abbrev pub Grows : Option Trans → Option Trans → Type 0
Grows none o = Unit
Grows (some t) none = ⊥
Grows (some t) (some u) = (u.trans_id ≡ t.trans_id) × (rank t.status ≤ rank u.status)

pub Grows-refl : (o : Option Trans) → Grows o o
Grows-refl none = tt
Grows-refl (some t) = (refl, omega arith)

pub Grows-trans : (o o' o'' : Option Trans) → Grows o o' → Grows o' o'' → Grows o o''
Grows-trans none o' o'' g h = tt
Grows-trans (some t) none o'' g h = absurd g
Grows-trans (some t) (some u) none g h = absurd h
Grows-trans (some t) (some u) (some w) g h = (h.0 ∙ g.0, omega arith)

pub Grows-live :
    (o o' : Option Trans) (t : Trans)
    → Grows o o'
    → o ≡ some t
    → (u : Trans) × (o' ≡ some u) × (u.trans_id ≡ t.trans_id) × (rank t.status ≤ rank u.status)
Grows-live none o' t g e = absurd (ground arith)
Grows-live (some w) none t g e = absurd g
Grows-live (some w) (some u) t g e = (u, refl, ground arith, ground arith)

-- What an operation that deletes nothing leaves alone.
pub record Keeps (c c' : Conn) : Type 0 where
  pub grows : (p : ℕ) → Grows (c.heap p) (c'.heap p)
  pub delay_rm : c'.trans_delay_rm ≡ c.trans_delay_rm
  pub pingtxn : c'.pingtxn ≡ c.pingtxn
  pub in_use : c'.in_use ≡ c.in_use
  pub destroy : c'.destroy ≡ c.destroy

pub Keeps-refl : (c : Conn) → Keeps c c
Keeps-refl c = record {
  grows = λ p. Grows-refl (c.heap p);
  delay_rm = refl;
  pingtxn = refl;
  in_use = refl;
  destroy = refl;
}

pub Keeps-trans : (c d e : Conn) → Keeps c d → Keeps d e → Keeps c e
Keeps-trans c d e k l = record {
  grows = λ p. Grows-trans (c.heap p) (d.heap p) (e.heap p) (k.grows p) (l.grows p);
  delay_rm = l.delay_rm ∙ k.delay_rm;
  pingtxn = l.pingtxn ∙ k.pingtxn;
  in_use = l.in_use ∙ k.in_use;
  destroy = l.destroy ∙ k.destroy;
}

pub Grows-update :
    (f : ℕ → Option Trans) (p x : ℕ) (t u : Trans)
    → f p ≡ some t
    → u.trans_id ≡ t.trans_id
    → rank t.status ≤ rank u.status
    → Grows (f x) (update f p (some u) x)
Grows-update f p x t u live id le = elim (Bool-cases (p == x)) [
  | inl same ↦ let at : f x ≡ some t = ground (arith, same) in rw (same, at) (id, le)
  | inr other ↦ rw other (Grows-refl (f x))
]

-- The transactions are the same, and so is all else that `Keeps` is about.
abbrev pub Same : Conn → Conn → Type 0
Same c c' =
    (c'.heap ≡ c.heap)
    × (c'.trans_delay_rm ≡ c.trans_delay_rm)
    × (c'.pingtxn ≡ c.pingtxn)
    × (c'.in_use ≡ c.in_use)
    × (c'.destroy ≡ c.destroy)

pub Same-Keeps : (c c' : Conn) → Same c c' → Keeps c c'
Same-Keeps c c' (heap, delay_rm, pingtxn, in_use, destroy) = record {
  grows = λ p. rw heap (Grows-refl (c.heap p));
  delay_rm = delay_rm;
  pingtxn = pingtxn;
  in_use = in_use;
  destroy = destroy;
}

-- A transaction is written that does not go back.
pub store-Keeps :
    (c : Conn) (p : ℕ) (t u : Trans)
    → c.heap p ≡ some t
    → u.trans_id ≡ t.trans_id
    → rank t.status ≤ rank u.status
    → Keeps c (store p u c)
store-Keeps c p t u live id le = record {
  grows = λ x. Grows-update c.heap p x t u live id le;
  delay_rm = refl;
  pingtxn = refl;
  in_use = refl;
  destroy = refl;
}

-- The same with a change of other fields.
pub write-Keeps :
    (c c' : Conn) (p : ℕ) (t u : Trans)
    → c.heap p ≡ some t
    → u.trans_id ≡ t.trans_id
    → rank t.status ≤ rank u.status
    → Same (store p u c) c'
    → Keeps c c'
write-Keeps c c' p t u live id le same =
    Keeps-trans c (store p u c) c' (store-Keeps c p t u live id le)
      (Same-Keeps (store p u c) c' same)

pub then_Same : (c d e : Conn) → Keeps c d → Same d e → Keeps c e
then_Same c d e k same = Keeps-trans c d e k (Same-Keeps d e same)
