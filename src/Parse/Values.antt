-- ===== src/Parse/Values.antt =====
-- The quotes of a value, and the type of a response (src/monetra_parse.c).
use libmonetra.Base.{
  ℕ, ◌+◌, ◌-◌, ◌≡◌, ◌↔◌, refl, ◌∙◌, Bool, true, false, [], ◌∷◌, ◌++◌, none, some, arith, ap,
  Bool-cases, ◌==◌, if◌then◌else◌, inl, inr, Bytes, length, take, length-append, take_left, count,
  leb, ◌&&◌, ◌||◌, is_nil, not, leb,
}
use libmonetra.Mstdlib.{Mstdlib}
use libmonetra.Parse.Content.{
  is_mark, is_newline, scan, first_byte, determine_response_type, undouble, last_is, strip_quotes,
  unquote,
}
use libmonetra.Types.{response_kv}

-- The way a value is quoted: each quote is written twice.
abbrev pub double : ℕ → Bytes → Bytes
double q [] = []
double q (b ∷ bs) = if b == q then q ∷ q ∷ double q bs else b ∷ double q bs

undouble-cons : (q b : ℕ) (r : Bytes) → (b == q) ≡ false → undouble q (b ∷ r) ≡ b ∷ undouble q r
unfolding undouble
undouble-cons q b [] h = refl
undouble-cons q b (c ∷ r) h = rw h refl

undouble-pair : (q : ℕ) (r : Bytes) → undouble q (q ∷ q ∷ r) ≡ q ∷ undouble q r
unfolding undouble
undouble-pair q r = ground arith

undouble-double : (q : ℕ) (s : Bytes) → undouble q (double q s) ≡ s
undouble-double q [] = unfold undouble in refl
undouble-double q (b ∷ bs) = elim (Bool-cases (b == q)) [
  | inl e ↦ rw e (ground (arith, e, undouble-pair q (double q bs), undouble-double q bs))
  | inr n ↦ rw n (undouble-cons q b (double q bs) n ∙ ap (◌∷◌ b) (undouble-double q bs))
]

last_is-append : (q : ℕ) (s : Bytes) → last_is q (s ++ (q ∷ [])) ≡ true
unfolding last_is
last_is-append q [] = ground arith
last_is-append q (b ∷ []) = ground arith
last_is-append q (b ∷ c ∷ s) = last_is-append q (c ∷ s)

strip_quotes-quoted : (q : ℕ) (s : Bytes) → strip_quotes q (q ∷ (s ++ (q ∷ []))) ≡ s
unfolding strip_quotes
strip_quotes-quoted q s =
    let size : length (s ++ (q ∷ [])) ≡ length s + 1 = length-append s (q ∷ []) in
    let long : leb 1 (length (s ++ (q ∷ []))) ≡ true = ground (arith, size) in
    let same : (q == q) ≡ true = ground arith in
    let n : length (s ++ (q ∷ [])) - 1 ≡ length s = omega (arith, size) in
    rw (long, same, last_is-append q s, n) (take_left s (q ∷ []))

-- A value in quotes whose own quotes are doubled reads back as it was.
pub unquote-double : (q : ℕ) (s : Bytes) → unquote q (q ∷ (double q s ++ (q ∷ []))) ≡ some s
unfolding unquote
unquote-double q s = rw (strip_quotes-quoted q (double q s), undouble-double q s) refl

undouble_plain : (q : ℕ) (s : Bytes) → count q s ≡ 0 → undouble q s ≡ s
undouble_plain q [] h = unfold undouble in refl
undouble_plain q (b ∷ bs) h =
    undouble-cons q b bs (ground arith) ∙ ap (◌∷◌ b) (undouble_plain q bs (ground arith))

-- A value that has no quotes reads back as it is; the empty one is read as missing.
pub unquote_plain :
    (q : ℕ) (s : Bytes) → count q s ≡ 0 → unquote q s ≡ (if is_nil s then none else some s)
unfolding unquote strip_quotes
unquote_plain q [] h = refl
unquote_plain q (b ∷ bs) h =
    let other : (b == q) ≡ false = ground arith in
    ground (arith, other, undouble_plain q (b ∷ bs) h)

module _ (m : Mstdlib) where
  -- The bytes that may stand before the first `=` or `,`.
  abbrev pub is_plain : ℕ → Bool
  is_plain b =
      not (b == b'=')
      && (not (b == b',') && (not (is_newline b) && (is_mark b || m.chr_isalnumsp b)))

  abbrev pub AllPlain : Bytes → Type 0
  AllPlain [] = Unit
  AllPlain (b ∷ bs) = (is_plain b ≡ true) × AllPlain bs

  -- An `=` stands behind plain bytes only.
  abbrev pub HasKey : Bytes → Type 0
  HasKey bs = (pre : Bytes) × (post : Bytes) × (bs ≡ pre ++ (b'=' ∷ post)) × AllPlain pre

  scan_key : (bs : Bytes) → scan m bs ≡ response_kv → HasKey bs
  unfolding scan
  scan_key [] h = cc
  scan_key (b ∷ bs) h = elim (Bool-cases (b == b'=')) [
    | inl e ↦ ([], bs, ground arith, tt)
    | inr n ↦
        let rest : scan m bs ≡ response_kv = ground arith in
        let plain : is_plain b ≡ true = ground arith in
        let (pre, post, is, all) = scan_key bs rest in (b ∷ pre, post, ap (◌∷◌ b) is, (plain, all))
  ]

  key_scan : (pre post : Bytes) → AllPlain pre → scan m (pre ++ (b'=' ∷ post)) ≡ response_kv
  unfolding scan
  key_scan [] post all = refl
  key_scan (b ∷ pre) post all = ground (arith, key_scan pre post all.1)

  -- The first byte is not a separator, and the rest has its `=` behind plain bytes.
  abbrev pub KeyValue : Bytes → Type 0
  KeyValue s =
      (b : ℕ) × (bs : Bytes) × (s ≡ b ∷ bs) × ((b == b'=' || b == b',') ≡ false) × HasKey bs

  first_byte_key : (s : Bytes) → first_byte m s ≡ response_kv → KeyValue s
  unfolding first_byte
  first_byte_key [] h = cc
  first_byte_key (b ∷ bs) h = elim (Bool-cases (b == b'=' || b == b',')) [
    | inl e ↦ absurd (ground arith)
    | inr n ↦ (b, bs, refl, n, scan_key bs (rw n at h))
  ]

  key_first_byte : (s : Bytes) → KeyValue s → first_byte m s ≡ response_kv
  unfolding first_byte
  key_first_byte s (b, bs, e, first, (pre, post, is, all)) =
      ap (first_byte m) e ∙ (rw first (ap (scan m) is ∙ key_scan pre post all))

  -- A response is key/value data exactly if an `=` is among its first 32 bytes, behind plain bytes
  -- only, and is not the first of them; the first byte may be any but `=` and `,`.
  pub determine_response_type-kv :
      (msg : Bytes) → (determine_response_type m msg ≡ response_kv) ↔ KeyValue (take 32 msg)
  unfolding determine_response_type
  determine_response_type-kv msg = (first_byte_key (take 32 msg), key_first_byte (take 32 msg))
