-- ===== src/Invariant.antt =====
-- The invariant of a connection's transactions (src/monetra_conn.h, src/monetra_trans.h): which
-- queue holds which pointer, and what the map of ids refers to. The children show that the
-- operations keep it.
pub mod Moves
pub mod Create
pub mod Delete
pub mod Quiet
pub mod Receive
pub mod Send
pub mod Failure
pub mod Whole
pub mod Finish
pub mod Connected
use libmonetra.Base.{
  ℕ, ◌≤◌, ◌≡◌, Bool, true, false, List, [], Option, none, some, if◌then◌else◌, count,
}
use libmonetra.Mstdlib.{Mstdlib, IdMap}
use libmonetra.Types.{
  Conn, Trans, TransStatus, status_all, status_new, status_ready, status_pending, status_done,
  trans_status_eq,
}

-- The fields that the invariant is about.
pub record Core : Type 0 where
  pub new : List ℕ
  pub ready : List ℕ
  pub pending : List ℕ
  pub done : List ℕ
  pub delay_rm : List ℕ
  pub id_map : IdMap
  pub heap : ℕ → Option Trans
  pub fault : Bool

abbrev pub core : Conn → Core
core c = record {
  new = c.trans_new;
  ready = c.trans_ready;
  pending = c.trans_pending;
  done = c.trans_done;
  delay_rm = c.trans_delay_rm;
  id_map = c.trans_id_map;
  heap = c.heap;
  fault = c.fault;
}

abbrev pub queue : Core → TransStatus → List ℕ
queue k status_all = []
queue k status_new = k.new
queue k status_ready = k.ready
queue k status_pending = k.pending
queue k status_done = k.done

abbrev pub with_queue : Core → TransStatus → List ℕ → Core
with_queue k status_all q = k
with_queue k status_new q = record k { new = q }
with_queue k status_ready q = record k { ready = q }
with_queue k status_pending q = record k { pending = q }
with_queue k status_done q = record k { done = q }

-- How often a pointer to that memory should be in the queue of a status.
abbrev pub tally : Option Trans → TransStatus → ℕ
tally none s = 0
tally (some t) s = if trans_status_eq t.status s then 1 else 0

abbrev pub alive : Option Trans → ℕ
alive none = 0
alive (some t) = 1

-- A pointer is in no queue but that of its status, and there once; it may be missing if its
-- deletion is delayed, or if it is among the `loose` ones, which a function holds while it moves
-- them. The map of ids and the store of transactions agree, and no freed memory was read.
pub record Inv (m : Mstdlib) (loose : List ℕ) (k : Core) : Type 0 where
  pub bounded : (p : ℕ) (s : TransStatus) → count p (queue k s) ≤ tally (k.heap p) s
  pub placed :
      (p : ℕ) (s : TransStatus)
      → count p k.delay_rm ≡ 0
      → count p loose ≡ 0
      → count p (queue k s) ≡ tally (k.heap p) s
  pub delayed : (p : ℕ) → count p k.delay_rm ≤ alive (k.heap p)
  pub ids : (p : ℕ) (t : Trans) → k.heap p ≡ some t → m.u64vp_get k.id_map t.trans_id ≡ some p
  pub owned :
      (id p : ℕ)
      → m.u64vp_get k.id_map id ≡ some p
      → (t : Trans) × (k.heap p ≡ some t) × (t.trans_id ≡ id)
  pub safe : k.fault ≡ false

-- All memory from `next` on is unused.
abbrev pub Fresh : Conn → Type 0
Fresh c = (p : ℕ) → c.next ≤ p → c.heap p ≡ none

-- A connection between two calls.
pub record Valid (m : Mstdlib) (c : Conn) : Type 0 where
  pub inv : Inv m [] (core c)
  pub fresh : Fresh c
