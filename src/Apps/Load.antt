-- ===== src/Apps/Load.antt =====
-- apps/monetra_load/src/monetra_load.c: the amounts and the numbers of the requests of the load test.
use libmonetra.Base.{
  ℕ, ◌+◌, ◌*◌, ◌/◌, ◌%◌, ◌^◌, ◌≤◌, ◌<◌, ◌≡◌, ◌≢◌, refl, ◌||◌, not, List, [], ◌∷◌, Option, none,
  some, arith, if◌then◌else◌, ◌==◌, leb, ltb, ◌⊎◌, inl, inr, Bool-cases, sym, ◌∙◌, ap,
}
use native.Mathlib.Nat.{mod-lt, mod-add-div, div-lt_iff_lt-mul}

-- The loop of GetAmount over M_rand_range: its results from now on. `none` says that the list is used
-- up.
unfoldable pub random_amount : List ℕ → Option (ℕ × List ℕ)
random_amount [] = none
random_amount (amnt ∷ draws) =
    if leb amnt 800 || ltb 899 amnt then some (amnt, draws) else random_amount draws

unfoldable pub get_amount : ℕ → List ℕ → Option (ℕ × List ℕ)
unfolding random_amount
get_amount exact_amount draws =
    if not (exact_amount == 0) then some (exact_amount, draws) else random_amount draws

-- The connection and the ptrannum of the i-th request of enqueue_transactions.
unfoldable pub conn_index : ℕ → ℕ → ℕ
conn_index nconns i = i % nconns

unfoldable pub ptrannum : ℕ → ℕ → ℕ
ptrannum nconns i = ((i % nconns) * 1000000 + i / nconns) % 2 ^ 64

random_amount_lem :
    (draws rest : List ℕ) (amnt : ℕ)
    → random_amount draws ≡ some (amnt, rest)
    → (amnt ≤ 800) ⊎ (899 < amnt)
unfolding random_amount
random_amount_lem [] rest amnt e = absurd (ground (arith, e))
random_amount_lem (x ∷ draws) rest amnt e = elim (Bool-cases (leb x 800 || ltb 899 x)) [
  | inl good ↦ let same : x ≡ amnt = ground (arith, good, e) in ground (arith, same, good)
  | inr slow ↦ random_amount_lem draws rest amnt (ground (arith, slow, e))
]

-- A random amount of the load test is never from 8.01 to 8.99; 8.00 itself is let through.
pub random_amount_range :
    (draws : List ℕ)
    → ((rest : List ℕ) (amnt : ℕ)
        → random_amount draws ≡ some (amnt, rest)
        → (amnt ≤ 800) ⊎ (899 < amnt))
      × (random_amount (800 ∷ draws) ≡ some (800, draws))
unfolding random_amount
random_amount_range draws = (random_amount_lem draws, refl)

parts :
    (n i : ℕ)
    → 0 < n
    → n ≤ 1000000
    → i < 1000000 * n
    → (i % n < n) × (i / n < 1000000) × (ptrannum n i ≡ (i % n) * 1000000 + i / n)
unfolding ptrannum
parts n i some_conn few le =
    let low = mod-lt i some_conn in
    let high = (div-lt_iff_lt-mul some_conn).1 le in (low, high, omega (arith, low, high))

ptrannum_same :
    (n i j : ℕ)
    → 0 < n
    → n ≤ 1000000
    → i < 1000000 * n
    → j < 1000000 * n
    → ptrannum n i ≡ ptrannum n j
    → i ≡ j
ptrannum_same n i j some_conn few le le' same =
    let (low, high, is) = parts n i some_conn few le in
    let (low', high', is') = parts n j some_conn few le' in
    let mods : i % n ≡ j % n = omega (arith, same, is, is', high, high') in
    let divs : i / n ≡ j / n = omega (arith, same, is, is', high, high') in
    sym (mod-add-div i n)
    ∙ ap (λ (x : ℕ). x + n * (i / n)) mods
    ∙ ap (λ (x : ℕ). j % n + n * x) divs
    ∙ mod-add-div j n

-- Two requests of the load test differ in their ptrannum, if there are at most a million connections,
-- and at most a million requests for each.
pub ptrannum-differs :
    (n i j : ℕ)
    → 0 < n
    → n ≤ 1000000
    → i < 1000000 * n
    → j < 1000000 * n
    → i ≢ j
    → ptrannum n i ≢ ptrannum n j
ptrannum-differs n i j some_conn few le le' other same =
    other (ptrannum_same n i j some_conn few le le' same)
