-- ===== src/Trans/Response.antt =====
-- src/monetra_trans.c: the functions that read a response.
use libmonetra.Base.{
  ℕ, Bool, ◌&&◌, not, List, [], Option, none, some, if◌then◌else◌, map, is_nil, is_some, Bytes,
}
use libmonetra.Mstdlib.{Mstdlib, Dict, Csv}
use libmonetra.Types.{
  Conn, Trans, ResponseType, status_done, response_unknown, response_kv, response_csv,
  trans_status_eq, response_type_eq, store,
}
use libmonetra.Trans.{get_trans}

-- LM_TRANS_RESPONSE_UNKNOWN is 0, which is returned for NULL.
unfoldable pub trans_response_type : Conn → Option ℕ → Conn × ResponseType
trans_response_type c none = (c, response_unknown)
trans_response_type c (some p) = get_trans c p response_unknown λ t. (c, t.response_type)

abbrev pub is_done : Trans → Bool
is_done t = trans_status_eq t.status status_done

abbrev pub is_kv : Trans → Bool
is_kv t = response_type_eq t.response_type response_kv

unfoldable pub trans_response_dict : Conn → Option ℕ → Conn × Option Dict
trans_response_dict c none = (c, none)
trans_response_dict c (some p) =
    get_trans c p none λ t. (c, if is_done t && is_kv t then t.response_params else none)

-- The keys of M_hash_dict_enumerate, in its order.
abbrev keys_of : Option Dict → List Bytes
keys_of none = []
keys_of (some d) = map (λ e. e.0) d

unfoldable pub trans_response_keys : Conn → Option ℕ → Conn × Option (List Bytes)
trans_response_keys c none = (c, none)
trans_response_keys c (some p) =
    get_trans c p none
      λ t. (c, if is_done t && is_kv t then some (keys_of t.response_params) else none)

unfoldable pub trans_response_raw : Conn → Option ℕ → Conn × Option Bytes
trans_response_raw c none = (c, none)
trans_response_raw c (some p) =
    get_trans c p none λ t. (c, if is_done t && not (is_kv t) then t.response_raw else none)

module _ (m : Mstdlib) where
  unfoldable pub trans_response_param : Conn → Option ℕ → Option Bytes → Conn × Option Bytes
  trans_response_param c none key = (c, none)
  trans_response_param c (some p) none = (c, none)
  trans_response_param c (some p) (some key) =
      if is_nil key
      then (c, none)
      else get_trans c p none
          λ t. (c, if is_done t && is_kv t then m.dict_get t.response_params key else none)

  -- `len` is never NULL here; the length that it gets is the list's.
  unfoldable pub trans_response_param_binary : Conn → Option ℕ → Option Bytes → Conn × Option Bytes
  unfolding trans_response_param
  trans_response_param_binary c trans key =
      let (c', value) = trans_response_param c trans key in
      (c', elim value [ none ↦ none | some text ↦ m.base64_decode text ])

  -- The first read parses the raw response, which the table then owns.
  abbrev pub parsed_csv : Trans → Trans
  parsed_csv t = elim t.response_raw [
    | none ↦ t
    | some raw ↦
        if is_some t.response_csv
        then t
        else record t { response_csv = m.csv_parse raw; response_raw = none }
  ]

  abbrev pub csv_of : Conn → ℕ → Trans → Conn × Option Csv
  csv_of c p t =
      if is_done t && response_type_eq t.response_type response_csv
      then (store p (parsed_csv t) c, (parsed_csv t).response_csv)
      else (c, none)

  unfoldable pub trans_response_csv : Conn → Option ℕ → Conn × Option Csv
  trans_response_csv c none = (c, none)
  trans_response_csv c (some p) = get_trans c p none (csv_of c p)
