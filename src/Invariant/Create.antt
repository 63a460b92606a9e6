-- ===== src/Invariant/Create.antt =====
-- LM_trans_new and the functions that fill a transaction keep the invariant.
use libmonetra.Base.{
  ℕ, ◌+◌, ◌≡◌, refl, Bool, true, false, List, [], ◌∷◌, ◌++◌, Option, none, some, arith,
  if◌then◌else◌, Bool-cases, inl, inr, Bytes, ◌≢◌, is_nil,
}
use libmonetra.Invariant.{core, Fresh, Valid}
use libmonetra.Invariant.Moves.{put-Inv, keep-Inv, alloc-Inv, unused-IsDetached}
use libmonetra.Mstdlib.{Mstdlib, QueueLaws, IdMapLaws}
use libmonetra.Trans.{
  blank, draw_id, get_trans-live, trans_new_internal, register_id, trans_new, trans_set_param,
  trans_set_timeout, trans_set_userdata,
}
use libmonetra.Types.{Conn, Trans, status_new, trans_status_eq, update, store}

-- Every id of the list is in use.
abbrev pub AllUsed : Mstdlib → List (ℕ × ℕ) → List ℕ → Type 0
AllUsed m ids [] = Unit
AllUsed m ids (r ∷ rs) = (m.u64vp_get ids r ≢ none) × AllUsed m ids rs

pub Fresh-store :
    (c : Conn) (p : ℕ) (t t' : Trans) → c.heap p ≡ some t → Fresh c → Fresh (store p t' c)
Fresh-store c p t t' live f x le = ground (arith, f x le, f p, live)

module _ (m : Mstdlib) where
  -- LM_trans_new_internal takes the first draw that is not in use, however many are before it
  -- that are.
  pub draw_id-first :
      (used rs : List ℕ) (r : ℕ) (ids : List (ℕ × ℕ))
      → AllUsed m ids used
      → m.u64vp_get ids r ≡ none
      → draw_id m (used ++ (r ∷ rs)) ids ≡ some (r, rs)
  unfolding draw_id
  draw_id-first [] rs r ids u free = rw free
  draw_id-first (x ∷ used) rs r ids u free = ground (arith, draw_id-first used rs r ids u.1 free)

  pub draw_id_unused :
      (draws : List ℕ) (ids : List (ℕ × ℕ)) (r : ℕ) (rs : List ℕ)
      → draw_id m draws ids ≡ some (r, rs)
      → m.u64vp_get ids r ≡ none
  unfolding draw_id
  draw_id_unused [] ids r rs h = cc
  draw_id_unused (x ∷ draws) ids r rs h = ground (arith, draw_id_unused draws ids r rs)

  -- The connection that LM_trans_new leaves.
  abbrev pub created : Conn → ℕ → List ℕ → Conn
  created c id rs = record c {
    rnd = rs;
    heap = update c.heap c.next (some (blank m id));
    next = c.next + 1;
    trans_new = m.queue_insert c.trans_new c.next;
    trans_id_map = m.u64vp_insert c.trans_id_map id c.next;
  }

  pub trans_new-created :
      (c : Conn) (id : ℕ) (rs : List ℕ)
      → draw_id m c.rnd c.trans_id_map ≡ some (id, rs)
      → trans_new m c ≡ some (created c id rs, c.next)
  unfolding trans_new trans_new_internal register_id
  trans_new-created c id rs h = rw (h, trans_new) (ground arith)

  module _ (ql : QueueLaws m) (il : IdMapLaws m) where
    pub created-Valid :
        (c : Conn) (id : ℕ) (rs : List ℕ)
        → m.u64vp_get c.trans_id_map id ≡ none
        → Valid m c
        → Valid m (created c id rs)
    created-Valid c id rs unused v = record {
      inv =
          let dead = v.fresh c.next (omega arith) in
          put-Inv m ql
            (record (core c) {
              heap = update c.heap c.next (some (blank m id));
              id_map = m.u64vp_insert c.trans_id_map id c.next;
            })
            c.next (blank m id) status_new (ground arith) refl (λ e. cc)
            (unused-IsDetached m (core c) [] c.next dead v.inv)
            (alloc-Inv m il (core c) c.next (blank m id) dead unused v.inv);
      fresh = λ x le. ground (arith, v.fresh x);
    }

    -- On a valid connection, with a draw that is not in use behind draws that are, LM_trans_new
    -- gives a new transaction under that id, in the NEW state, at a place in memory that was not
    -- in use; the invariant holds behind it, if M_queue and M_hash_u64vp do what they document.
    pub trans_new-Valid :
        (c : Conn) (used rs : List ℕ) (r : ℕ)
        → Valid m c
        → c.rnd ≡ used ++ (r ∷ rs)
        → AllUsed m c.trans_id_map used
        → m.u64vp_get c.trans_id_map r ≡ none
        → (c' : Conn) × (trans_new m c ≡ some (c', c.next))
          × (c'.heap c.next ≡ some (blank m r))
          × (c.heap c.next ≡ none)
          × (m.u64vp_get c'.trans_id_map r ≡ some c.next)
          × Valid m c'
    trans_new-Valid c used rs r v draws busy free = (
      created c r rs,
      trans_new-created c r rs (rw draws (draw_id-first used rs r c.trans_id_map busy free)),
      ground arith,
      v.fresh c.next (omega arith),
      ground (arith, il.get_insert c.trans_id_map r r c.next),
      created-Valid c r rs free v,
    )

  pub store-Valid :
      (c : Conn) (p : ℕ) (t t' : Trans)
      → c.heap p ≡ some t
      → t'.trans_id ≡ t.trans_id
      → t'.status ≡ t.status
      → Valid m c
      → Valid m (store p t' c)
  store-Valid c p t t' live id st v = record {
    inv = keep-Inv m (core c) [] p t t' live id st v.inv;
    fresh = Fresh-store c p t t' live v.fresh;
  }

  -- A guarded store: another value of the transaction while it is NEW, nothing otherwise.
  guarded-Valid :
      (c : Conn) (p : ℕ) (t t' : Trans) (b : Bool)
      → c.heap p ≡ some t
      → t'.trans_id ≡ t.trans_id
      → t'.status ≡ t.status
      → Valid m c
      → Valid m (if◌then◌else◌ {A = Conn × Bool} b (store p t' c, true) (c, false)).0
  guarded-Valid c p t t' true live id st v = store-Valid c p t t' live id st v
  guarded-Valid c p t t' false live id st v = v

  -- LM_trans_set_param on a live transaction keeps the invariant, whatever the key and the value.
  pub trans_set_param-Valid :
      (c : Conn) (p : ℕ) (t : Trans) (key value : Option Bytes)
      → c.heap p ≡ some t
      → Valid m c
      → Valid m (trans_set_param m c (some p) key value).0
  unfolding trans_set_param
  trans_set_param-Valid c p t none value live v = v
  trans_set_param-Valid c p t (some key) value live v = elim (Bool-cases (is_nil key)) [
    | inl e ↦ rw e v
    | inr e ↦
        rw (e, get_trans-live c p false _ live)
          (guarded-Valid c p t _ (trans_status_eq t.status status_new) live refl refl v)
  ]

  pub trans_set_timeout-Valid :
      (c : Conn) (p : ℕ) (t : Trans) (timeout_s : ℕ)
      → c.heap p ≡ some t
      → Valid m c
      → Valid m (trans_set_timeout m c (some p) timeout_s).0
  unfolding trans_set_timeout
  trans_set_timeout-Valid c p t timeout_s live v =
      rw (get_trans-live c p false _ live)
        (guarded-Valid c p t _ (trans_status_eq t.status status_new) live refl refl v)

  pub trans_set_userdata-Valid :
      (c : Conn) (p : ℕ) (t : Trans) (user_data : Option ℕ)
      → c.heap p ≡ some t
      → Valid m c
      → Valid m (trans_set_userdata c (some p) user_data).0
  unfolding trans_set_userdata
  trans_set_userdata-Valid c p t user_data live v =
      rw (get_trans-live c p false _ live) (store-Valid c p t _ live refl refl v)
