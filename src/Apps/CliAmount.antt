-- ===== src/Apps/CliAmount.antt =====
-- apps/monetra_cli/src/cli_trans.c: the requests that the command-line client sends, and the random
-- amounts in them.
use libmonetra.Apps.CliOpts.{CliLib, CliOpts, parse_random_amount}
use libmonetra.Base.{
  ℕ, zero, suc, ◌+◌, ◌/◌, ◌%◌, ◌≤◌, ◌<◌, ◌≡◌, refl, Bool, true, false, ◌&&◌, ◌||◌, not, List, [],
  ◌∷◌, Option, none, some, arith, if◌then◌else◌, ◌==◌, leb, is_nil, Bytes, codes, pos, ◌⊎◌, inl,
  inr, Bool-cases, subst, ap,
}
use libmonetra.Mstdlib.{Mstdlib, Dict}
use libmonetra.Trans.{str_isempty}

-- An amount of 8.00 to 8.99 makes the server wait.
abbrev pub is_delay : ℕ → Bool
is_delay amount = leb 800 amount && leb amount 899

-- The loop over M_rand_range: its results from now on, less those that are passed over. `none` says
-- that the list is used up.
unfoldable pub draw_amount : List ℕ → Option (ℕ × List ℕ)
draw_amount [] = none
draw_amount (r ∷ rs) = if is_delay r then draw_amount rs else some (r, rs)

module _ (m : Mstdlib) (l : CliLib) where
  unfoldable pub remove_all : Dict → List Bytes → Dict
  remove_all kvs [] = kvs
  remove_all kvs (key ∷ keys) = remove_all (l.dict_remove kvs key) keys

  abbrev insert_text : Dict → Bytes → Bytes → Dict
  insert_text kvs key value = if is_nil value then kvs else m.dict_insert kvs key (some value)

  -- One request, with its number; the amount if a range is given, the identifier last.
  unfoldable pub request_of : CliOpts → ℕ → List ℕ → Option (Dict × List ℕ)
  unfolding remove_all
  request_of o i draws =
      let named = insert_text m.dict_create (codes "username") o.username in
      let known = insert_text named (codes "password") o.password in
      let merged = l.dict_merge known (m.dict_duplicate o.kvs) in
      let kept = remove_all merged o.remove_keys in
      let identified =
        λ (kvs : Dict). m.dict_insert kvs (codes "identifier") (some (l.print_number (i + 1))) in
      if not (o.min_amount == 0) && not (o.max_amount == 0)
      then elim (draw_amount draws) [
        | none ↦ none
        | some (r, rest) ↦ some (
          identified
              (m.dict_insert kept (codes "amount") (some (l.print_amount (r / 100) (r % 100)))),
          rest,
        )
      ]
      else some (identified kept, draws)

  -- `num` requests from the number `i` on.
  unfoldable pub requests_of : ℕ → CliOpts → ℕ → List ℕ → Option (List Dict)
  requests_of zero o i draws = some []
  requests_of (suc num) o i draws = elim (request_of o i draws) [
    | none ↦ none
    | some (kvs, rest) ↦ elim (requests_of num o (i + 1) rest) [
      | none ↦ none
      | some all ↦ some (kvs ∷ all)
    ]
  ]

  -- The port, without one on the command line: an administrator's is another one.
  unfoldable pub port_of : CliOpts → ℕ
  port_of o =
      if not o.port_set
        && (m.str_caseeq (some o.username) (some (codes "madmin"))
            || l.str_caseeq_max o.username (codes "madmin:") 7)
      then 8666
      else o.port

  -- cli_trans_create: the port and the requests, or the text of what is wrong.
  unfoldable pub cli_trans_create : CliOpts → List ℕ → Option (Bytes ⊎ (ℕ × List Dict))
  unfolding requests_of port_of
  cli_trans_create o draws =
      if m.dict_num_keys (some o.kvs) == 0
      then some (inl (codes "An ACTION and/or kvs must be specified"))
      else if (str_isempty o.keyfile && not (str_isempty o.certfile))
          || (not (str_isempty o.keyfile) && str_isempty o.certfile)
      then some (inl (codes "Key and cert paths must be specified together"))
      else elim (requests_of (if o.dup == 0 then 1 else o.dup) o 0 draws) [
        | none ↦ none
        | some all ↦ some (inr (port_of o, all))
      ]

-- A result of M_rand_range(rand, min, max): it leaves the upper end out.
abbrev pub MayDraw : CliOpts → ℕ → Type 0
MayDraw o r = (o.min_amount ≤ r) × (r < o.max_amount)

abbrev pub InRange : CliOpts → List ℕ → Type 0
InRange o [] = Unit
InRange o (r ∷ rs) = (o.min_amount ≤ r) × (r < o.max_amount) × InRange o rs

drawn_lem :
    (o : CliOpts) (draws rest : List ℕ) (r : ℕ)
    → InRange o draws
    → draw_amount draws ≡ some (r, rest)
    → (o.min_amount ≤ r) × (r < o.max_amount) × (is_delay r ≡ false)
unfolding draw_amount
drawn_lem o [] rest r range e = absurd (ground (arith, e))
drawn_lem o (x ∷ draws) rest r (low, high, range) e = elim (Bool-cases (is_delay x)) [
  | inl slow ↦ drawn_lem o draws rest r range (ground (arith, slow, e))
  | inr fast ↦
      let same : x ≡ r = ground (arith, fast, e) in
      (omega (arith, same), omega (arith, same), ground (arith, same, fast))
]

module _ (m : Mstdlib) (l : CliLib) where
  -- With one decimal, each amount that the client sends is less than it: the amount itself is never
  -- sent. M_rand_range keeps to its range.
  pub parse_random_amount_single :
      (o : CliOpts) (text : Bytes) (b r : ℕ) (draws left : List ℕ)
      → l.read_decimal text ≡ some (pos b, [])
      → InRange (parse_random_amount m l o text).0 draws
      → draw_amount draws ≡ some (r, left)
      → ((parse_random_amount m l o text).1 ≡ true) × (r < b)
  unfolding parse_random_amount
  parse_random_amount_single o text b r draws left one range drawn =
      let given = record o { min_amount = 1; max_amount = b } in
      let parsed : parse_random_amount m l o text ≡ (given, true) =
        rw (one, parse_random_amount) refl in
      let kept : InRange given draws =
        subst (λ (x : CliOpts × Bool). InRange x.0 draws) parsed range in
      (ap (λ (x : CliOpts × Bool). x.1) parsed, (drawn_lem given draws left r kept drawn).1)
