-- ===== src/Tests/Programs.antt =====
-- The theorems on the programs under apps at concrete inputs.
use libmonetra.Apps.CliAmount.{InRange, draw_amount, parse_random_amount_single}
use libmonetra.Apps.CliOpts.{CliLib, CliOpts, cli_opts_create, parse_random_amount}
use libmonetra.Apps.Load.{random_amount, random_amount_range, ptrannum, ptrannum-differs}
use libmonetra.Base.{
  ℕ, ◌≤◌, ◌<◌, ◌≡◌, ◌≢◌, ◌⊎◌, refl, true, false, List, [], ◌∷◌, ◌++◌, Option, none, some, arith,
  Bytes, ℤ, pos, erase,
}
use libmonetra.Apps.LoadOpts.{LoadOpts, load_opts_create}
use libmonetra.Mstdlib.{Dict}
use libmonetra.Tests.Reference.{reference}

-- A decimal is one byte, the number of its cents.
abbrev one_byte : Bytes → Option (ℤ × Bytes)
one_byte [] = none
one_byte (b ∷ rest) = some (pos b, rest)

abbrev first_dict : List Dict → Option (Dict × List Dict)
first_dict [] = none
first_dict (d ∷ list) = some (d, list)

abbrev pub cli : CliLib
cli = record {
  read_decimal = one_byte;
  explode_all = λ b s. some (s ∷ []);
  strdup_unquote = λ s. s;
  dict_merge = λ d e. e ++ d;
  dict_remove = λ d key. d;
  str_caseeq_max = λ a b n. false;
  print_amount = λ units cents. units ∷ cents ∷ [];
  print_number = λ n. n ∷ [];
  print_padded = λ n. n ∷ [];
  llist_take_node = λ q x. erase x q;
  list_take_first = first_dict;
  tls_set_verify_level = λ ctx level. true;
}

abbrev opts : CliOpts
opts = cli_opts_create reference

drawn : draw_amount (7 ∷ []) ≡ some (7, [])
unfolding draw_amount
drawn = refl

in_single : InRange (parse_random_amount reference cli opts (9 ∷ [])).0 (7 ∷ [])
unfolding parse_random_amount
in_single = (omega arith, omega arith, tt)

parse_random_amount_single_example :
    ((parse_random_amount reference cli opts (9 ∷ [])).1 ≡ true) × (7 < 9)
parse_random_amount_single_example =
    parse_random_amount_single reference cli opts (9 ∷ []) 9 7 (7 ∷ []) [] refl in_single drawn

random_amount_range_example :
    ((rest : List ℕ) (amnt : ℕ)
      → random_amount (850 ∷ 12 ∷ []) ≡ some (amnt, rest)
      → (amnt ≤ 800) ⊎ (899 < amnt))
    × (random_amount (800 ∷ 850 ∷ 12 ∷ []) ≡ some (800, 850 ∷ 12 ∷ []))
random_amount_range_example = random_amount_range (850 ∷ 12 ∷ [])

ptrannum-differs_example : ptrannum 10 25 ≢ ptrannum 10 35
ptrannum-differs_example =
    ptrannum-differs 10 25 35 (omega arith) (omega arith) (omega arith) (omega arith) (omega arith)

abbrev pub load : LoadOpts
load = load_opts_create reference cli
