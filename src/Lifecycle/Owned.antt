-- ===== src/Lifecycle/Owned.antt =====
-- A transaction that the user created stays until the user deletes it, whatever else happens.
use libmonetra.Base.{ℕ, ◌≡◌, ◌≢◌, ◌∙◌, sym, Option, none, some, arith, ap, subst, count}
use libmonetra.Event.{finish}
use libmonetra.Invariant.Finish.{finish-Valid, finish-Cleans}
use libmonetra.Lifecycle.Deleting.{trans_delete-Flags, trans_delete-Apart}
use libmonetra.Lifecycle.Good.{Good, IsLive}
use libmonetra.Lifecycle.Reached.{Sound, Step-Sound}
use libmonetra.Lifecycle.Shape.{Shape, kept, handled, removed, ended, asked, Step-Shape}
use libmonetra.Lifecycle.System.{Step, deleted}
use libmonetra.Lifecycle.{Grows, Grows-refl, Grows-trans, Grows-live}
use libmonetra.Mstdlib.{Mstdlib, QueueLaws, IdMapLaws}
use libmonetra.Trans.{trans_delete}
use libmonetra.Types.{Conn}

-- A transaction of the user's: live, and not the ping.
abbrev pub IsOwned : Conn → ℕ → Type 0
IsOwned c p = IsLive c p × (c.pingtxn ≢ some p)

-- It is the user's still, and did not go back to an earlier state.
abbrev pub Stays : ℕ → Conn → Conn → Type 0
Stays p c c' = IsOwned c' p × Grows (c.heap p) (c'.heap p)

-- Steps none of which deletes the transaction.
pub data Spare (m : Mstdlib) (p : ℕ) (c : Conn) : Conn → Type 0 where
  here : Spare m p c c
  further : {d e : Conn} → Spare m p c d → (s : Step m d e) → deleted s ≢ some p → Spare m p c e

from_same :
    (p : ℕ) (c c' : Conn)
    → IsOwned c p
    → Grows (c.heap p) (c'.heap p)
    → c'.pingtxn ≢ some p
    → count p c'.trans_delay_rm ≡ count p c.trans_delay_rm
    → Stays p c c'
from_same p c c' ((t, live, free), other) grows other' same =
    let (u, at, _, _) = Grows-live (c.heap p) (c'.heap p) t grows live in
    (((u, at, same ∙ free), other'), grows)

module _ (m : Mstdlib) (ql : QueueLaws m) (il : IdMapLaws m) where
  pub Shape-Stays :
      (p : ℕ) (c c' : Conn) (o : Option ℕ)
      → Good m c
      → Shape m c c' o
      → o ≢ some p
      → IsOwned c p
      → Stays p c c'
  Shape-Stays p c c' none g (kept k h) spared owned =
      from_same p c c' owned (k.grows p) (λ e. owned.1 (sym k.pingtxn ∙ e))
        (ap (count p) k.delay_rm)
  Shape-Stays p c c' none g (handled f h) spared owned =
      let ((t, live, free), other) = owned in
      let (other', same) = f.spares p t live other in from_same p c c' owned (f.grows p) other' same
  Shape-Stays p c c' (some _) g (removed q (t, live, _) not_ping e) spared owned =
      let apart : q ≢ p = λ same. spared (ap (λ (y : ℕ). some y) same) in
      let (heap, due) = trans_delete-Apart m ql il c q p t live apart in
      let flags = trans_delete-Flags m ql il c q t live in
      subst (Stays p c) (sym e) (
        from_same p c (trans_delete m c (some q)) owned
          (subst (Grows (c.heap p)) (sym heap) (Grows-refl (c.heap p)))
          (λ ping. owned.1 (sym flags.2 ∙ ping)) due)
  Shape-Stays p c c' none g (ended alive e) spared owned =
      let (freed, ping, _) = finish-Cleans m ql il c g.valid alive in
      let (_, none_due, _, _) = finish-Valid m ql il c g.valid alive in
      let free = owned.0.2 in
      let kept_it : (finish m c).0.heap p ≡ c.heap p = freed p ∙ ground (arith, free) in
      subst (Stays p c) (sym e) (
        from_same p c (finish m c).0 owned
          (subst (Grows (c.heap p)) (sym kept_it) (Grows-refl (c.heap p)))
          (λ e'. owned.1 (sym ping ∙ e')) (ap (count p) none_due ∙ sym free))
  Shape-Stays p c c' none g (asked busy e) spared owned =
      subst (Stays p c) (sym e) (owned, Grows-refl (c.heap p))

  -- A transaction of the user's that no call deletes stays readable, and passes through its states
  -- in order, whatever other calls and events the connection sees. It starts on a sound connection;
  -- a user passes live transactions only, and does not delete the ping; M_queue, M_hash_u64vp and
  -- M_llist do what they document.
  pub Spare-Stays :
      (p : ℕ) (c c' : Conn) → Sound m c → IsOwned c p → Spare m p c c' → Sound m c' × Stays p c c'
  Spare-Stays p c c' s owned here = (s, (owned, Grows-refl (c.heap p)))
  Spare-Stays p c c' s owned (further {d = d} before step spared) =
      let (s', (owned', grows)) = Spare-Stays p c d s owned before in
      let (owned'', grows') =
        Shape-Stays p d c' (deleted step) s'.good (Step-Shape m ql il d c' s'.good step) spared
          owned' in
      (
        Step-Sound m ql il d c' s' step,
        (owned'', Grows-trans (c.heap p) (d.heap p) (c'.heap p) grows grows'),
      )
