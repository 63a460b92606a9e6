-- ===== src/Tests/Reference.antt =====
-- A small mstdlib for the tests: plain lists for the containers, and a network that always answers.
-- A number is written in unary, one `1` for each unit and a `0` behind them.
use libmonetra.Base.{
  ℕ, zero, suc, ◌+◌, ◌≤◌, ◌<◌, ◌≡◌, refl, Bool, true, false, ◌&&◌, ◌||◌, List, [], ◌∷◌, ◌++◌,
  Option, none, some, if◌then◌else◌, ◌==◌, leb, arith, Bytes, length, count, erase, is_nil, codes,
  map, pos,
}
use libmonetra.Mstdlib.{
  Mstdlib, Csv, Dict, IdMap, QueueLaws, IdMapLaws, BufLaws, ParserLaws, StrLaws,
}

abbrev first : List ℕ → Option (ℕ × List ℕ)
first [] = none
first (x ∷ q) = some (x, q)

abbrev lookup : IdMap → ℕ → Option ℕ
lookup [] j = none
lookup ((k, v) ∷ h) j = if k == j then some v else lookup h j

abbrev without : IdMap → ℕ → IdMap
without [] j = []
without ((k, v) ∷ h) j = if k == j then without h j else (k, v) ∷ without h j

abbrev bytes_eq : Bytes → Bytes → Bool
bytes_eq [] [] = true
bytes_eq (a ∷ s) (b ∷ r) = (a == b) && bytes_eq s r
bytes_eq _ _ = false

abbrev option_eq : Option Bytes → Option Bytes → Bool
option_eq (some a) (some b) = bytes_eq a b
option_eq _ _ = false

abbrev lower : ℕ → ℕ
lower b = if leb b'A' b && leb b b'Z' then b + 32 else b

abbrev lowered : Option Bytes → Option Bytes
lowered none = none
lowered (some a) = some (map lower a)

abbrev dict_lookup : Dict → Bytes → Option Bytes
dict_lookup [] j = none
dict_lookup ((k, v) ∷ d) j = if bytes_eq (map lower k) (map lower j) then v else dict_lookup d j

abbrev dict_get : Option Dict → Bytes → Option Bytes
dict_get none j = none
dict_get (some d) j = dict_lookup d j

abbrev dict_size : Option Dict → ℕ
dict_size none = 0
dict_size (some d) = length d

abbrev text_of : Option Bytes → Bytes
text_of none = []
text_of (some s) = s

abbrev serialize : Dict → Bytes
serialize [] = []
serialize ((k, v) ∷ d) = k ++ (b'=' ∷ (text_of v ++ (b'\r' ∷ b'\n' ∷ serialize d)))

abbrev serialize_all : Option Dict → Bytes
serialize_all none = []
serialize_all (some d) = serialize d

abbrev unary : ℕ → Bytes
unary zero = b'0' ∷ []
unary (suc n) = b'1' ∷ unary n

abbrev one_more : Option (ℕ × Bytes) → Option (ℕ × Bytes)
one_more none = none
one_more (some (n, rest)) = some (suc n, rest)

abbrev read_unary : Bytes → Option (ℕ × Bytes)
read_unary [] = none
read_unary (b ∷ bs) =
    if b == b'0' then some (0, bs) else if b == b'1' then one_more (read_unary bs) else none

-- How many bytes there are up to the first `b`, that one included, or 0.
abbrev until : Bytes → ℕ → ℕ
until [] b = 0
until (x ∷ s) b = if x == b then 1 else if until s b == 0 then 0 else suc (until s b)

abbrev split_at : ℕ → Bytes → Bytes × Bytes × Bool
split_at b [] = ([], [], false)
split_at b (x ∷ s) =
    let (before, behind, found) = split_at b s in
    if x == b then ([], s, true) else (x ∷ before, behind, found)

abbrev explode : ℕ → Bytes → Option (List Bytes)
explode b s =
    let (before, behind, found) = split_at b s in
    if is_nil s then none else some (if found then before ∷ behind ∷ [] else before ∷ [])

-- A table is a list of rows, the header first.
abbrev row_at : Csv → ℕ → List Bytes
row_at [] i = []
row_at (r ∷ csv) zero = r
row_at (r ∷ csv) (suc i) = row_at csv i

abbrev nth : List Bytes → ℕ → Option Bytes
nth [] i = none
nth (x ∷ r) zero = some x
nth (x ∷ r) (suc i) = nth r i

abbrev cell_at : Csv → ℕ → ℕ → Option Bytes
cell_at csv row column = nth (row_at csv row) column

abbrev column_of : List Bytes → Bytes → ℕ
column_of [] name = 0
column_of (x ∷ r) name = if bytes_eq x name then 0 else suc (column_of r name)

abbrev rows_of : Csv → ℕ
rows_of [] = 0
rows_of (header ∷ rows) = length rows

abbrev pub reference : Mstdlib
reference = record {
  queue_insert = λ q x. q ++ (x ∷ []);
  queue_take = λ q x. erase x q;
  queue_take_first = first;
  u64vp_get = lookup;
  u64vp_insert = λ h k v. (k, v) ∷ h;
  u64vp_remove = without;
  dict_create = [];
  dict_insert = λ d k v. (k, v) ∷ d;
  dict_get = dict_get;
  dict_num_keys = dict_size;
  dict_duplicate = λ d. d;
  dict_serialize_buf = λ d b. b ++ serialize_all d;
  llist_insert = λ l x. l ++ (x ∷ []);
  buf_add_byte = λ b c. b ++ (c ∷ []);
  buf_add_uint = λ b n. b ++ unary n;
  buf_add_str = λ b s. b ++ s;
  parser_consume_until = until;
  parser_read_uint = read_unary;
  str_eq = option_eq;
  str_caseeq = λ a b. option_eq (lowered a) (lowered b);
  chr_isalnumsp = λ b. leb b'a' b && leb b b'z' || b == b' ';
  str_trim = λ s. s;
  explode_quoted = λ d s q e. explode d s;
  explode_str_quoted = λ d s q e. explode d s;
  base64_encode = λ s. some s;
  base64_decode = λ s. some s;
  csv_parse = λ s. some ((s ∷ []) ∷ []);
  net_client_create = λ io host port. none;
  tls_client_add = λ io. none;
  event_add = λ io. true;
  io_write = λ io b. [];
  io_get_error_string = λ io. codes "closed";
  tls_set_cert = λ ctx key cert. true;
  tls_set_cert_files = λ ctx key cert. true;
  tls_set_default_trust = λ ctx. true;
  tls_set_trust_ca_file = λ ctx path. true;
  tls_set_trust_ca_dir = λ ctx path. true;
  csv_get_cell = λ csv row name. cell_at csv (suc row) (column_of (row_at csv 0) name);
  csv_get_cellbynum = λ csv row column. cell_at csv (suc row) column;
  csv_get_numcols = λ csv. length (row_at csv 0);
  csv_get_numrows = λ csv. rows_of csv;
  csv_get_header = λ csv column. cell_at csv 0 column;
  str_to_int32 = λ s. pos 0;
  str_to_int64 = λ s. pos 0;
}

pub reference_queue : QueueLaws reference
reference_queue = record {
  insert_end = λ q x free. refl;
  take_erase = λ q x. refl;
  first_nil = refl;
  first_cons = λ x q. refl;
}

lookup-without :
    (h : IdMap) (k j : ℕ) → lookup (without h k) j ≡ (if k == j then none else lookup h j)
lookup-without [] k j = ground arith
lookup-without ((i, v) ∷ h) k j = ground (arith, lookup-without h k j)

pub reference_ids : IdMapLaws reference
reference_ids = record {
  get_nil = λ j. refl;
  get_insert = λ h k j v. refl;
  get_remove = lookup-without;
  llist_end = λ l x. refl;
}

pub reference_buf : BufLaws reference
reference_buf = record {
  add_byte = λ b c. refl;
  add_uint = λ b n. refl;
  add_str = λ b s. refl;
  serialize_end = λ d b. refl;
}

until-found : (s rest : Bytes) (b : ℕ) → count b s ≡ 0 → until (s ++ (b ∷ rest)) b ≡ length s + 1
until-found [] rest b h = ground arith
until-found (x ∷ s) rest b h = ground (arith, until-found s rest b (ground arith))

until-missing : (s : Bytes) (b : ℕ) → count b s ≡ 0 → until s b ≡ 0
until-missing [] b h = refl
until-missing (x ∷ s) b h = ground (arith, until-missing s b (ground arith))

read-unary : (n : ℕ) (rest : Bytes) → read_unary (unary n ++ rest) ≡ some (n, rest)
read-unary zero rest = refl
read-unary (suc n) rest = rw (read-unary n rest) refl

length-unary : (n : ℕ) → 1 ≤ length (unary n)
length-unary zero = omega arith
length-unary (suc n) = omega (arith, length-unary n)

count-unary : (n b : ℕ) → b < b'0' → count b (unary n) ≡ 0
count-unary zero b h = ground arith
count-unary (suc n) b h = ground (arith, count-unary n b h)

pub reference_parser : ParserLaws reference
reference_parser = record {
  until_found = until-found;
  until_missing = until-missing;
  read_uint_print = λ n b rest low. read-unary n (b ∷ rest);
  uint_ne_nil = length-unary;
  uint_digits = count-unary;
}

bytes_eq_sound : (a b : Bytes) → bytes_eq a b ≡ true → a ≡ b
bytes_eq_sound [] [] h = refl
bytes_eq_sound [] (x ∷ b) h = cc
bytes_eq_sound (x ∷ a) [] h = cc
bytes_eq_sound (x ∷ a) (y ∷ b) h = ground (arith, bytes_eq_sound a b)

bytes_eq_refl : (a : Bytes) → bytes_eq a a ≡ true
bytes_eq_refl [] = refl
bytes_eq_refl (x ∷ a) = ground (arith, bytes_eq_refl a)

pub reference_str : StrLaws reference
reference_str = record {
  eq_sound = bytes_eq_sound;
  eq_refl = bytes_eq_refl;
  case_refl = λ a. bytes_eq_refl (map lower a);
}
