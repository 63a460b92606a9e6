-- ===== src/Trans.antt =====
-- src/monetra_trans.c: making, deleting and filling a transaction. Trans/Response.antt has the reading
-- functions, Send.antt has LM_trans_send, LM_trans_run and LM_trans_ping_request.
-- A `trans` argument is `none` for NULL; so is a C string.
pub mod Response
use libmonetra.Base.{
  ℕ, ◌+◌, Bool, true, false, ◌&&◌, ◌||◌, not, List, [], ◌∷◌, Option, none, some, if◌then◌else◌, ◌≡◌,
  is_some, is_nil, Bytes,
}
use libmonetra.Mstdlib.{Mstdlib, Dict}
use libmonetra.Types.{
  Conn, Trans, TransStatus, connected, millis, status_all, status_new, status_ready, status_pending,
  status_done, response_unknown, emit, update, store, dangling, conn_status_eq, trans_status_eq,
  timer_remove, timer_reset,
}

-- M_str_isempty
abbrev pub str_isempty : Option Bytes → Bool
str_isempty none = true
str_isempty (some s) = is_nil s

-- LM_trans_get_conn_queue
abbrev pub queue_of : Conn → TransStatus → List ℕ
queue_of c status_all = []
queue_of c status_new = c.trans_new
queue_of c status_ready = c.trans_ready
queue_of c status_pending = c.trans_pending
queue_of c status_done = c.trans_done

-- The connection with another value of that queue.
abbrev pub set_queue : Conn → TransStatus → List ℕ → Conn
set_queue c status_all q = c
set_queue c status_new q = record c { trans_new = q }
set_queue c status_ready q = record c { trans_ready = q }
set_queue c status_pending q = record c { trans_pending = q }
set_queue c status_done q = record c { trans_done = q }

-- Reads the transaction that a pointer that is not NULL points at.
abbrev pub with_trans : Conn → ℕ → (Trans → Conn) → Conn
with_trans c p f = elim (c.heap p) [ none ↦ dangling c | some t ↦ f t ]

-- The same for a function that returns a value too.
abbrev pub get_trans : {A : Type 0} → Conn → ℕ → A → (Trans → Conn × A) → Conn × A
get_trans c p failed f = elim (c.heap p) [ none ↦ (dangling c, failed) | some t ↦ f t ]

pub with_trans-live :
    (c : Conn) (p : ℕ) (f : Trans → Conn) {t : Trans} → c.heap p ≡ some t → with_trans c p f ≡ f t
with_trans-live c p f live = rw (live, with_trans)

pub get_trans-live :
    {A : Type 0} (c : Conn) (p : ℕ) (failed : A) (f : Trans → Conn × A) {t : Trans}
    → c.heap p ≡ some t
    → get_trans c p failed f ≡ f t
get_trans-live c p failed f live = rw (live, get_trans)

module _ (m : Mstdlib) where
  -- `while (1)`: draws until an id is not in use. The list has the draws to come; `none` says that
  -- all of them are in use.
  unfoldable pub draw_id : List ℕ → List (ℕ × ℕ) → Option (ℕ × List ℕ)
  draw_id [] ids = none
  draw_id (r ∷ rs) ids = if is_some (m.u64vp_get ids r) then draw_id rs ids else some (r, rs)

  abbrev pub blank : ℕ → Trans
  blank id = record {
    trans_id = id;
    status = status_new;
    request_params = none;
    response_type = response_unknown;
    response_params = none;
    response_raw = none;
    response_csv = none;
    timeout_s = 0;
    timeout_timer = none;
    user_data = none;
  }

  -- LM_trans_new_internal: the transaction is allocated, and in no queue yet.
  unfoldable pub trans_new_internal : Conn → Option (Conn × ℕ)
  trans_new_internal c = elim (draw_id c.rnd c.trans_id_map) [
    | none ↦ none
    | some (id, rs) ↦ some (
      record c { rnd = rs; heap = update c.heap c.next (some (blank id)); next = c.next + 1 },
      c.next,
    )
  ]

  -- M_hash_u64vp_insert(conn->trans_id_map, trans->trans_id, trans)
  unfoldable pub register_id : Conn → ℕ → Conn
  register_id c p =
      with_trans c p λ t. record c { trans_id_map = m.u64vp_insert c.trans_id_map t.trans_id p }

  unfoldable pub trans_new : Conn → Option (Conn × ℕ)
  unfolding trans_new_internal register_id
  trans_new c = elim (trans_new_internal c) [
    | none ↦ none
    | some (c', p) ↦
        some (register_id (record c' { trans_new = m.queue_insert c'.trans_new p }) p, p)
  ]

  unfoldable pub reset_idle_timer : Conn → Conn
  reset_idle_timer c =
      if conn_status_eq c.status connected && is_nil c.trans_pending
      then emit (timer_reset c.timer (millis c.idle_timeout)) c
      else c

  -- LM_trans_delete_unlocked
  unfoldable pub trans_delete_unlocked : Conn → Option ℕ → Conn
  unfolding reset_idle_timer
  trans_delete_unlocked c none = c
  trans_delete_unlocked c (some p) = with_trans c p λ t.
      let taken = set_queue c t.status (m.queue_take (queue_of c t.status) p) in
      let removed = record taken { trans_id_map = m.u64vp_remove taken.trans_id_map t.trans_id } in
      let reset = reset_idle_timer removed in record reset { heap = update reset.heap p none }

  -- `user_data = NULL`, and the timer of the transaction is killed.
  abbrev pub quiet : Trans → Trans
  quiet t = record t { user_data = none; timeout_timer = none }

  unfoldable pub trans_delete : Conn → Option ℕ → Conn
  unfolding trans_delete_unlocked
  trans_delete c none = c
  trans_delete c (some p) = with_trans c p λ t.
      let killed = if is_some t.timeout_timer then emit (timer_remove t.timeout_timer) c else c in
      let quieted = store p (quiet t) killed in
      if c.in_use
      then record quieted { trans_delay_rm = m.llist_insert quieted.trans_delay_rm p }
      else trans_delete_unlocked quieted (some p)

  -- The dictionary of a request, made at the first parameter.
  abbrev pub dict_of : Option Dict → Dict
  dict_of none = m.dict_create
  dict_of (some d) = d

  unfoldable pub trans_set_param : Conn → Option ℕ → Option Bytes → Option Bytes → Conn × Bool
  trans_set_param c none key value = (c, false)
  trans_set_param c (some p) none value = (c, false)
  trans_set_param c (some p) (some key) value =
      if is_nil key
      then (c, false)
      else get_trans c p false λ t.
        if trans_status_eq t.status status_new
        then (
          store p
              (record t {
                request_params = some (m.dict_insert (dict_of t.request_params) key value);
              })
              c,
          true,
        )
        else (c, false)

  unfoldable pub trans_set_param_binary : Conn → Option ℕ → Option Bytes → Bytes → Conn × Bool
  unfolding trans_set_param
  trans_set_param_binary c trans key value =
      if not (is_some trans) || str_isempty key
      then (c, false)
      else trans_set_param c trans key (m.base64_encode value)

  unfoldable pub trans_set_timeout : Conn → Option ℕ → ℕ → Conn × Bool
  trans_set_timeout c none timeout_s = (c, false)
  trans_set_timeout c (some p) timeout_s = get_trans c p false λ t.
      if trans_status_eq t.status status_new
      then (store p (record t { timeout_s = timeout_s }) c, true)
      else (c, false)

unfoldable pub trans_set_userdata : Conn → Option ℕ → Option ℕ → Conn × Bool
trans_set_userdata c none user_data = (c, false)
trans_set_userdata c (some p) user_data =
    get_trans c p false λ t. (store p (record t { user_data = user_data }) c, true)

unfoldable pub trans_get_userdata : Conn → Option ℕ → Conn × Option ℕ
trans_get_userdata c none = (c, none)
trans_get_userdata c (some p) = get_trans c p none λ t. (c, t.user_data)

unfoldable pub trans_internal_id : Conn → Option ℕ → Conn × ℕ
trans_internal_id c none = (c, 0)
trans_internal_id c (some p) = get_trans c p 0 λ t. (c, t.trans_id)

-- `none` is the 0 that is returned for NULL; no status has that number.
unfoldable pub trans_status : Conn → Option ℕ → Conn × Option TransStatus
trans_status c none = (c, none)
trans_status c (some p) = get_trans c p none λ t. (c, some t.status)
