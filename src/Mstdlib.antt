-- ===== src/Mstdlib.antt =====
-- mstdlib, the library that libmonetra is built on (include/monetra_api.h includes its headers).
-- A container stands for what its reading functions show: a queue, a list or a buffer for its
-- members in order, a table for its entries. The functions that change or search one, and the
-- answers of the network, are fields: the model's definitions take a value of `Mstdlib`.
use libmonetra.Base.{
  ℕ, ◌+◌, ◌≤◌, ◌<◌, ◌≡◌, Bool, true, List, [], ◌∷◌, ◌++◌, Option, none, some, ◌==◌, if◌then◌else◌,
  Bytes, length, count, erase, ℤ,
}

-- The members of a `M_hash_dict_t`, keys with values; a value may be `NULL`.
abbrev pub Dict : Type 0
Dict = List (Bytes × Option Bytes)

abbrev pub IdMap : Type 0
IdMap = List (ℕ × ℕ)

abbrev pub Csv : Type 0
Csv = List (List Bytes)

pub record Mstdlib : Type 0 where
  -- M_queue_insert, M_queue_take and M_queue_take_first
  pub queue_insert : List ℕ → ℕ → List ℕ
  pub queue_take : List ℕ → ℕ → List ℕ
  pub queue_take_first : List ℕ → Option (ℕ × List ℕ)
  -- M_hash_u64vp_get_direct, M_hash_u64vp_insert and M_hash_u64vp_remove
  pub u64vp_get : IdMap → ℕ → Option ℕ
  pub u64vp_insert : IdMap → ℕ → ℕ → IdMap
  pub u64vp_remove : IdMap → ℕ → IdMap
  -- M_hash_dict_*, with M_HASH_DICT_CASECMP; `none` is a dictionary or a value that is NULL
  pub dict_create : Dict
  pub dict_insert : Dict → Bytes → Option Bytes → Dict
  pub dict_get : Option Dict → Bytes → Option Bytes
  pub dict_num_keys : Option Dict → ℕ
  pub dict_duplicate : Dict → Dict
  pub dict_serialize_buf : Option Dict → Bytes → Bytes
  -- M_llist_insert into an unsorted list
  pub llist_insert : List ℕ → ℕ → List ℕ
  -- M_buf_add_byte, M_buf_add_uint and M_buf_add_str
  pub buf_add_byte : Bytes → ℕ → Bytes
  pub buf_add_uint : Bytes → ℕ → Bytes
  pub buf_add_str : Bytes → Bytes → Bytes
  -- M_parser_consume_until of one byte, that byte included: how many bytes are consumed
  pub parser_consume_until : Bytes → ℕ → ℕ
  -- M_parser_read_uint(M_PARSER_INTEGER_ASCII, 0, 10): the number, and what is left
  pub parser_read_uint : Bytes → Option (ℕ × Bytes)
  pub str_eq : Option Bytes → Option Bytes → Bool
  pub str_caseeq : Option Bytes → Option Bytes → Bool
  pub chr_isalnumsp : ℕ → Bool
  pub str_trim : Bytes → Bytes
  -- M_str_explode_quoted(delim, s, quote, escape) and M_str_explode_str_quoted, at most two pieces
  pub explode_quoted : ℕ → Bytes → ℕ → ℕ → Option (List Bytes)
  pub explode_str_quoted : ℕ → Bytes → ℕ → ℕ → Option (List Bytes)
  pub base64_encode : Bytes → Option Bytes
  pub base64_decode : Bytes → Option Bytes
  -- M_csv_parse_inplace
  pub csv_parse : Bytes → Option Csv
  -- The answers of the system, by the number of the object that is asked about:
  -- M_io_net_client_create and M_io_tls_client_add (the error's text), M_event_add,
  -- M_io_write_from_buf (the bytes that stay),
  -- M_io_get_error_string
  pub net_client_create : ℕ → Bytes → ℕ → Option Bytes
  pub tls_client_add : ℕ → Option Bytes
  pub event_add : ℕ → Bool
  pub io_write : Option ℕ → Bytes → Bytes
  pub io_get_error_string : Option ℕ → Bytes
  -- M_tls_clientctx_set_cert and M_tls_clientctx_set_cert_files
  pub tls_set_cert : Option ℕ → Bytes → Bytes → Bool
  pub tls_set_cert_files : Option ℕ → Bytes → Bytes → Bool
  -- M_tls_clientctx_set_default_trust, M_tls_clientctx_set_trust_ca_file and _dir
  pub tls_set_default_trust : Option ℕ → Bool
  pub tls_set_trust_ca_file : Option ℕ → Bytes → Bool
  pub tls_set_trust_ca_dir : Option ℕ → Bytes → Bool
  -- M_csv_get_cell (row, column's name), M_csv_get_cellbynum (row, column), M_csv_get_numcols,
  -- M_csv_get_numrows, M_csv_get_header
  pub csv_get_cell : Csv → ℕ → Bytes → Option Bytes
  pub csv_get_cellbynum : Csv → ℕ → ℕ → Option Bytes
  pub csv_get_numcols : Csv → ℕ
  pub csv_get_numrows : Csv → ℕ
  pub csv_get_header : Csv → ℕ → Option Bytes
  -- M_str_to_int32 and M_str_to_int64
  pub str_to_int32 : Bytes → ℤ
  pub str_to_int64 : Bytes → ℤ

-- What M_queue documents: insertion at the end, removal of a member wherever it is, and first in,
-- first out.
pub record QueueLaws (m : Mstdlib) : Type 0 where
  pub insert_end : (q : List ℕ) (x : ℕ) → count x q ≡ 0 → m.queue_insert q x ≡ q ++ (x ∷ [])
  pub take_erase : (q : List ℕ) (x : ℕ) → m.queue_take q x ≡ erase x q
  pub first_nil : m.queue_take_first [] ≡ none
  pub first_cons : (x : ℕ) (q : List ℕ) → m.queue_take_first (x ∷ q) ≡ some (x, q)

-- What M_hash_u64vp and M_llist document.
pub record IdMapLaws (m : Mstdlib) : Type 0 where
  pub get_nil : (j : ℕ) → m.u64vp_get [] j ≡ none
  pub get_insert :
      (h : IdMap) (k j v : ℕ)
      → m.u64vp_get (m.u64vp_insert h k v) j ≡ (if k == j then some v else m.u64vp_get h j)
  pub get_remove :
      (h : IdMap) (k j : ℕ)
      → m.u64vp_get (m.u64vp_remove h k) j ≡ (if k == j then none else m.u64vp_get h j)
  pub llist_end : (l : List ℕ) (x : ℕ) → m.llist_insert l x ≡ l ++ (x ∷ [])

-- What M_buf documents.
pub record BufLaws (m : Mstdlib) : Type 0 where
  pub add_byte : (b : Bytes) (c : ℕ) → m.buf_add_byte b c ≡ b ++ (c ∷ [])
  pub add_uint : (b : Bytes) (n : ℕ) → m.buf_add_uint b n ≡ b ++ m.buf_add_uint [] n
  pub add_str : (b s : Bytes) → m.buf_add_str b s ≡ b ++ s
  pub serialize_end :
      (d : Option Dict) (b : Bytes) → m.dict_serialize_buf d b ≡ b ++ m.dict_serialize_buf d []

-- What M_parser documents: a search stops behind the first match, and consumes nothing with no
-- match; a decimal number that M_buf_add_uint wrote reads back, up to the byte behind it.
pub record ParserLaws (m : Mstdlib) : Type 0 where
  pub until_found :
      (s rest : Bytes) (b : ℕ)
      → count b s ≡ 0
      → m.parser_consume_until (s ++ (b ∷ rest)) b ≡ length s + 1
  pub until_missing : (s : Bytes) (b : ℕ) → count b s ≡ 0 → m.parser_consume_until s b ≡ 0
  pub read_uint_print :
      (n b : ℕ) (rest : Bytes)
      → b < b'0'
      → m.parser_read_uint (m.buf_add_uint [] n ++ (b ∷ rest)) ≡ some (n, b ∷ rest)
  pub uint_ne_nil : (n : ℕ) → 1 ≤ length (m.buf_add_uint [] n)
  pub uint_digits : (n b : ℕ) → b < b'0' → count b (m.buf_add_uint [] n) ≡ 0

-- What M_str_eq and M_str_caseeq document.
pub record StrLaws (m : Mstdlib) : Type 0 where
  pub eq_sound : (a b : Bytes) → m.str_eq (some a) (some b) ≡ true → a ≡ b
  pub eq_refl : (a : Bytes) → m.str_eq (some a) (some a) ≡ true
  pub case_refl : (a : Bytes) → m.str_caseeq (some a) (some a) ≡ true
