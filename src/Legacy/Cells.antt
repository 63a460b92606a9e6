-- ===== src/Legacy/Cells.antt =====
-- src/monetra_legacy.c: the cells of a table (M_GetCell to M_GetHeader), and src/monetra_deprecated.c:
-- the parameters that M_TransactionItem, M_TransactionBatch and M_TransactionID read.
use libmonetra.Base.{
  ℕ, ◌-◌, ◌^◌, ◌%◌, Option, none, some, if◌then◌else◌, ◌||◌, Bytes, ltb, codes, ℤ, pos, negsuc,
  is_negative, to_ℕ,
}
use libmonetra.Legacy.{Session, get_csv_handle, response_param}
use libmonetra.Mstdlib.{Mstdlib, Csv}
use libmonetra.Trans.{str_isempty}

-- A size_t as a C `int` of 32 bits, and as a `long` of 64 bits.
abbrev pub wrap : ℕ → ℕ → ℤ
wrap w n = let r = n % 2 ^ w in if ltb r (2 ^ (w - 1)) then pos r else negsuc (2 ^ w - 1 - r)

module _ (m : Mstdlib) where
  abbrev with_csv : {A : Type 0} → Session → ℕ → A → (Csv → A) → Session × A
  with_csv s identifier missing f =
      let (s', csv) = get_csv_handle m s identifier in
      (s', elim csv [ none ↦ missing | some table ↦ f table ])

  unfoldable pub get_cell : Session → ℕ → Option Bytes → ℤ → Session × Option Bytes
  get_cell s identifier none row = (s, none)
  get_cell s identifier (some column) row =
      if str_isempty (some column) || is_negative row
      then (s, none)
      else with_csv s identifier none (λ csv. m.csv_get_cell csv (to_ℕ row) column)

  unfoldable pub get_cell_by_num : Session → ℕ → ℤ → ℤ → Session × Option Bytes
  get_cell_by_num s identifier column row =
      if is_negative column || is_negative row
      then (s, none)
      else with_csv s identifier none (λ csv. m.csv_get_cellbynum csv (to_ℕ row) (to_ℕ column))

  unfoldable pub get_binary_cell : Session → ℕ → Option Bytes → ℤ → Session × Option Bytes
  unfolding get_cell
  get_binary_cell s identifier none row = (s, none)
  get_binary_cell s identifier (some column) row =
      if is_negative row
      then (s, none)
      else let (s', cell) = get_cell s identifier (some column) row in
        (s', elim cell [ none ↦ none | some text ↦ m.base64_decode text ])

  unfoldable pub num_columns : Session → ℕ → Session × ℤ
  num_columns s identifier = with_csv s identifier (pos 0) (λ csv. wrap 32 (m.csv_get_numcols csv))

  unfoldable pub num_rows : Session → ℕ → Session × ℤ
  num_rows s identifier = with_csv s identifier (pos 0) (λ csv. wrap 64 (m.csv_get_numrows csv))

  unfoldable pub get_header : Session → ℕ → ℤ → Session × Option Bytes
  get_header s identifier column_num =
      if is_negative column_num
      then (s, none)
      else with_csv s identifier none (λ csv. m.csv_get_header csv (to_ℕ column_num))

  -- The number that a parameter of the response has; -1 if it is missing.
  abbrev number_param : (Bytes → ℤ) → Session → ℕ → Bytes → ℤ
  number_param read s identifier key = elim (response_param m s identifier (some key)).1 [
    | none ↦ negsuc 0
    | some v ↦ read v
  ]

  unfoldable pub transaction_item : Session → ℕ → ℤ
  transaction_item s identifier = number_param m.str_to_int32 s identifier (codes "item")

  unfoldable pub transaction_batch : Session → ℕ → ℤ
  transaction_batch s identifier = number_param m.str_to_int32 s identifier (codes "batch")

  unfoldable pub transaction_id : Session → ℕ → ℤ
  transaction_id s identifier = number_param m.str_to_int64 s identifier (codes "ttid")

  unfoldable pub transaction_auth : Session → ℕ → Session × Option Bytes
  transaction_auth s identifier = response_param m s identifier (some (codes "auth"))

  unfoldable pub transaction_text : Session → ℕ → Session × Option Bytes
  transaction_text s identifier = response_param m s identifier (some (codes "verbiage"))
