-- ===== src/Legacy/Agreement.antt =====
-- How the results of the old interface agree with one another, and what its index guards let through.
use libmonetra.Base.{
  ℕ, zero, suc, ◌<◌, ◌≡◌, refl, true, false, List, [], ◌∷◌, Option, none, some, arith, Bool-cases,
  inl, inr, ◌⊎◌, length, Bytes, codes, pos, ltb,
}
use libmonetra.Legacy.{Session, element, out_of_bounds, at, response_keys_index, response_param}
use libmonetra.Legacy.Codes.{
  done, ReturnCode, code_error, code_success, code_auth, code_of, return_codes, return_code,
  return_status, success_or_fail, check_status, is_comma_delimited, is_text,
}
use libmonetra.Mstdlib.{Mstdlib, StrLaws}

at-length : {A : Type 0} (xs : List A) → at xs (length xs) ≡ out_of_bounds
at-length [] = refl
at-length (x ∷ xs) = at-length xs

at_bound : {A : Type 0} (xs : List A) (i : ℕ) → i < length xs → (a : A) × (at xs i ≡ element a)
at_bound [] i h = absurd (omega arith)
at_bound (x ∷ xs) zero h = (x, refl)
at_bound (x ∷ xs) (suc i) h = at_bound xs i (omega arith)

-- M_ResponseKeys_index on an array of keys and its length: each index below the length gives an
-- element, but the index that equals the length passes the guard, and is read outside the array.
pub response_keys_index_bounds :
    (k : Bytes) (ks : List Bytes) (i : ℕ)
    → i < length (k ∷ ks)
    → let n = pos (length (k ∷ ks)) in
      ((a : Bytes) × (response_keys_index (some (k ∷ ks)) n (pos i) ≡ element a))
      × (response_keys_index (some (k ∷ ks)) n n ≡ out_of_bounds)
unfolding response_keys_index
response_keys_index_bounds k ks i h =
    let (a, e) = at_bound (k ∷ ks) i h in
    let inside : ltb (length (k ∷ ks)) i ≡ false = ground arith in
    let end : ltb (length (k ∷ ks)) (length (k ∷ ks)) ≡ false = ground arith in
    ((a, rw inside e), rw end (at-length (k ∷ ks)))

module _ (m : Mstdlib) (sl : StrLaws m) where
  success_of_text :
      (v : Bytes)
      → (is_text m v "SUCCESS" ≡ true) ⊎ (is_text m v "AUTH" ≡ true)
      → success_or_fail m (some v) ≡ code_success
  unfolding success_or_fail
  success_of_text v (inl e) =
      rw (sl.eq_sound v (codes "SUCCESS") e, sl.case_refl (codes "SUCCESS")) refl
  success_of_text v (inr e) =
      rw (sl.eq_sound v (codes "AUTH") e, sl.case_refl (codes "AUTH"))
        (elim (Bool-cases (m.str_caseeq (some (codes "AUTH")) (some (codes "SUCCESS")))) [
          | inl a ↦ rw a refl
          | inr a ↦ rw a refl
        ])

  code_of_success :
      (v : Bytes)
      → (code_of m return_codes v ≡ code_success) ⊎ (code_of m return_codes v ≡ code_auth)
      → (is_text m v "SUCCESS" ≡ true) ⊎ (is_text m v "AUTH" ≡ true)
  unfolding code_of
  code_of_success v h = ground arith

  -- M_ReturnStatus accepts whatever M_ReturnCode does: where M_CheckStatus says M_DONE and
  -- M_ReturnCode says M_SUCCESS or M_AUTH, M_ReturnStatus says M_SUCCESS, for an identifier of any
  -- transaction and any response. Nothing is said of the converse. M_str_eq and M_str_caseeq do what
  -- they document.
  pub return_code-return_status :
      (s : Session) (id : ℕ)
      → check_status m s id ≡ done
      → (return_code m s id ≡ code_success) ⊎ (return_code m s id ≡ code_auth)
      → return_status m s id ≡ code_success
  unfolding return_code return_status
  return_code-return_status s id d h = rw d (elim (Bool-cases (is_comma_delimited m s id)) [
    | inl a ↦ rw a refl
    | inr a ↦ rw a (of_text (response_param m s id (some (codes "code"))).1 (keyed a h))
  ])
    where
      reading : Option Bytes → ReturnCode
      reading none = code_error
      reading (some v) = code_of m return_codes v

      of_text :
          (o : Option Bytes)
          → (reading o ≡ code_success) ⊎ (reading o ≡ code_auth)
          → success_or_fail m o ≡ code_success
      of_text none (inl e) = cc
      of_text none (inr e) = cc
      of_text (some v) e = success_of_text v (code_of_success v e)

      keyed :
          is_comma_delimited m s id ≡ false
          → (return_code m s id ≡ code_success) ⊎ (return_code m s id ≡ code_auth)
          → (reading (response_param m s id (some (codes "code"))).1 ≡ code_success)
            ⊎ (reading (response_param m s id (some (codes "code"))).1 ≡ code_auth)
      keyed a e =
          let read : reading (response_param m s id (some (codes "code"))).1 ≡ return_code m s id =
            rw a refl in
          rw read e
