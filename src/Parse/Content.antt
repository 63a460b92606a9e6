-- ===== src/Parse/Content.antt =====
-- src/monetra_parse.c: the type of a response, and the key/value form.
use libmonetra.Base.{
  ℕ, ◌-◌, Bool, false, ◌&&◌, ◌||◌, List, [], ◌∷◌, Option, none, some, if◌then◌else◌, ◌==◌, leb,
  take, is_nil, length, Bytes,
}
use libmonetra.Mstdlib.{Mstdlib, Dict}
use libmonetra.Types.{ResponseType, response_kv, response_csv, response_bulk}

-- The bytes that the scan passes over.
unfoldable pub is_mark : ℕ → Bool
is_mark b = b == b'"' || b == b'_' || b == b'-'

unfoldable pub is_newline : ℕ → Bool
is_newline b = b == b'\r' || b == b'\n'

module _ (m : Mstdlib) where
  -- The loop, from the second byte on.
  unfoldable pub scan : Bytes → ResponseType
  unfolding is_mark is_newline
  scan [] = response_bulk
  scan (b ∷ bs) =
      let rest = scan bs in
      if b == b'='
      then response_kv
      else if b == b','
      then response_csv
      else if is_newline b
      then response_csv
      else if is_mark b
      then rest
      else if m.chr_isalnumsp b
      then rest
      else response_bulk

  unfoldable pub first_byte : Bytes → ResponseType
  unfolding scan
  first_byte [] = response_bulk
  first_byte (b ∷ bs) = if b == b'=' || b == b',' then response_bulk else scan bs

  -- At most 32 bytes are looked at.
  unfoldable pub determine_response_type : Bytes → ResponseType
  unfolding first_byte
  determine_response_type msg = first_byte (take 32 msg)

-- The loop of M_hash_dict_deserialize_unquote. Behind the last byte stands a NUL or the closing
-- quote; either way the loop is over.
unfoldable pub undouble : ℕ → Bytes → Bytes
undouble quote [] = []
undouble quote (b ∷ []) = b ∷ []
undouble quote (b ∷ c ∷ rest) =
    let skipped = b ∷ undouble quote rest in
    let kept = b ∷ undouble quote (c ∷ rest) in if b == quote && c == quote then skipped else kept

unfoldable pub last_is : ℕ → Bytes → Bool
last_is quote [] = false
last_is quote (b ∷ []) = b == quote
last_is quote (b ∷ c ∷ rest) = last_is quote (c ∷ rest)

-- `str++; len -= 2`, where both ends are quotes.
unfoldable pub strip_quotes : ℕ → Bytes → Bytes
unfolding last_is
strip_quotes quote [] = []
strip_quotes quote (b ∷ rest) =
    if leb 1 (length rest) && (b == quote && last_is quote rest)
    then take (length rest - 1) rest
    else b ∷ rest

unfoldable pub unquote : ℕ → Bytes → Option Bytes
unfolding undouble strip_quotes
unquote quote str = if is_nil str then none else some (undouble quote (strip_quotes quote str))

abbrev pub two_pieces : List Bytes → Option (Bytes × Bytes)
two_pieces (k ∷ v ∷ []) = some (k, v)
two_pieces _ = none

module _ (m : Mstdlib) where
  -- A line: a key and a value, both trimmed. `none` is `goto cleanup`.
  unfoldable pub insert_line : Dict → Bytes → Option Dict
  unfolding unquote
  insert_line dict line =
      if is_nil line then some dict else elim (m.explode_str_quoted b'=' line b'"' b'"') [
        | none ↦ none
        | some kv ↦ elim (two_pieces kv) [
          | none ↦ none
          | some (k, v) ↦ some (m.dict_insert dict (m.str_trim k) (unquote b'"' (m.str_trim v)))
        ]
      ]

  unfoldable pub insert_lines : Dict → List Bytes → Option Dict
  insert_lines dict [] = some dict
  insert_lines dict (line ∷ lines) = elim (insert_line dict line) [
    | none ↦ none
    | some dict' ↦ insert_lines dict' lines
  ]

  -- LM_hash_dict_deserialize at the one call of it: whitespace is trimmed, `=` and newline delimit,
  -- and the quote is its own escape.
  unfoldable pub deserialize : Bytes → Option Dict
  unfolding insert_lines insert_line
  deserialize str = if is_nil str then none else elim (m.explode_quoted b'\n' str b'"' b'"') [
    | none ↦ none
    | some kvs ↦ insert_lines m.dict_create kvs
  ]
