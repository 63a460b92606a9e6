-- ===== src/Lifecycle/Good.antt =====
-- A connection with its ping: what holds before and after each event.
use libmonetra.Base.{ℕ, ◌≡◌, ◌≢◌, refl, ◌∙◌, some, ap, count, sym}
use libmonetra.Invariant.{Valid}
use libmonetra.Invariant.Quiet.{IsQuiet, IsQuiet-Valid}
use libmonetra.Lifecycle.{Grows, Grows-refl, Grows-trans, Grows-live, Keeps, Same, Same-Keeps}
use libmonetra.Mstdlib.{Mstdlib}
use libmonetra.Types.{Conn, Trans}

-- The transaction is in memory, and its deletion is not due.
abbrev pub IsLive : Conn → ℕ → Type 0
IsLive c p = (t : Trans) × (c.heap p ≡ some t) × (count p c.trans_delay_rm ≡ 0)

-- A valid connection whose ping, if there is one, is live.
pub record Good (m : Mstdlib) (c : Conn) : Type 0 where
  pub valid : Valid m c
  pub ping : (p : ℕ) → c.pingtxn ≡ some p → IsLive c p

-- A transaction that is not the ping does not become the ping, nor due for deletion.
abbrev pub Spares : Conn → Conn → Type 0
Spares c c' =
    (p : ℕ) (t : Trans)
    → c.heap p ≡ some t
    → c.pingtxn ≢ some p
    → (c'.pingtxn ≢ some p) × (count p c'.trans_delay_rm ≡ count p c.trans_delay_rm)

-- What is left alone while events are handled: the ping may change and become due for deletion, but
-- no other transaction, and none is freed.
pub record Follows (c c' : Conn) : Type 0 where
  pub grows : (p : ℕ) → Grows (c.heap p) (c'.heap p)
  pub spares : Spares c c'
  pub in_use : c'.in_use ≡ c.in_use
  pub destroy : c'.destroy ≡ c.destroy

pub Follows-refl : (c : Conn) → Follows c c
Follows-refl c = record {
  grows = λ p. Grows-refl (c.heap p);
  spares = λ p t live other. (other, refl);
  in_use = refl;
  destroy = refl;
}

pub Follows-trans : (c d e : Conn) → Follows c d → Follows d e → Follows c e
Follows-trans c d e k l = record {
  grows = λ p. Grows-trans (c.heap p) (d.heap p) (e.heap p) (k.grows p) (l.grows p);
  spares = λ p t live other.
      let (other', same) = k.spares p t live other in
      let (u, at, _, _) = Grows-live (c.heap p) (d.heap p) t (k.grows p) live in
      let (other'', same') = l.spares p u at other' in (other'', same' ∙ same);
  in_use = l.in_use ∙ k.in_use;
  destroy = l.destroy ∙ k.destroy;
}

pub Keeps-Follows : (c c' : Conn) → Keeps c c' → Follows c c'
Keeps-Follows c c' k = record {
  grows = k.grows;
  spares = λ p t live other. (λ e. other (sym k.pingtxn ∙ e), ap (count p) k.delay_rm);
  in_use = k.in_use;
  destroy = k.destroy;
}

pub Keeps-IsLive : (c c' : Conn) (p : ℕ) → Keeps c c' → IsLive c p → IsLive c' p
Keeps-IsLive c c' p k (t, live, free) =
    let (u, at, _, _) = Grows-live (c.heap p) (c'.heap p) t (k.grows p) live in
    (u, at, ap (count p) k.delay_rm ∙ free)

pub Keeps-Good : (m : Mstdlib) (c c' : Conn) → Keeps c c' → Good m c → Valid m c' → Good m c'
Keeps-Good m c c' k g v = record {
  valid = v;
  ping = λ p e. Keeps-IsLive c c' p k (g.ping p (sym k.pingtxn ∙ e));
}

-- A change of other fields than these.
pub Quiet-Good :
    (m : Mstdlib) (c c' : Conn) → IsQuiet c c' → Same c c' → Good m c → Good m c' × Follows c c'
Quiet-Good m c c' quiet same g =
    let k = Same-Keeps c c' same in
    (Keeps-Good m c c' k g (IsQuiet-Valid m c c' quiet g.valid), Keeps-Follows c c' k)

-- One change behind another.
pub then_Good :
    (m : Mstdlib) (c d e : Conn) → Follows c d → Good m e × Follows d e → Good m e × Follows c e
then_Good m c d e f (g, h) = (g, Follows-trans c d e f h)
