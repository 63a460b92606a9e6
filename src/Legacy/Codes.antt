-- ===== src/Legacy/Codes.antt =====
-- The codes of src/monetra_legacy.c (M_CheckStatus, M_ReturnStatus, M_IsCommaDelimited) and of
-- src/monetra_deprecated.c (M_ReturnCode, M_TransactionAVS, M_TransactionCV and their texts).
use Prim.Native.String.{String}
use libmonetra.Base.{
  ℕ, Bool, true, false, ◌||◌, List, [], ◌∷◌, Option, none, some, if◌then◌else◌, ◌==◌, Bytes, codes,
  ℤ, pos, negsuc,
}
use libmonetra.Conn.{conn_get_trans_by_internal_id}
use libmonetra.Legacy.{Session, response_param}
use libmonetra.Mstdlib.{Mstdlib}
use libmonetra.Trans.{trans_status}
use libmonetra.Trans.Response.{trans_response_type}
use libmonetra.Types.{
  TransStatus, status_all, status_new, status_ready, status_pending, status_done, response_kv,
  response_type_eq,
}

-- M_UNUSED, M_NEW, M_PENDING and M_DONE
pub data CheckStatus : Type 0 where
  unused new pending done : CheckStatus

-- The results of M_ReturnStatus and M_ReturnCode, named as their macros.
pub data ReturnCode : Type 0 where
  code_error code_fail code_success code_auth code_deny code_call code_dupl code_pkup : ReturnCode
  code_retry code_setup code_timeout : ReturnCode

abbrev pub to_int : ReturnCode → ℤ
to_int code_error = negsuc 0
to_int code_fail = pos 0
to_int code_success = pos 1
to_int code_auth = pos 2
to_int code_deny = pos 3
to_int code_call = pos 4
to_int code_dupl = pos 5
to_int code_pkup = pos 6
to_int code_retry = pos 7
to_int code_setup = pos 8
to_int code_timeout = pos 9

unfoldable pub status_code : Option TransStatus → CheckStatus
status_code none = unused
status_code (some status_new) = new
status_code (some status_ready) = pending
status_code (some status_pending) = pending
status_code (some status_done) = done
status_code (some status_all) = unused

abbrev pub is_done : CheckStatus → Bool
is_done done = true
is_done _ = false

abbrev pub return_codes : List (String × ReturnCode)
return_codes =
    ("AUTH", code_auth)
    ∷ ("DENY", code_deny)
    ∷ ("DUPL", code_dupl)
    ∷ ("CALL", code_call)
    ∷ ("PKUP", code_pkup)
    ∷ ("RETRY", code_retry)
    ∷ ("SETUP", code_setup)
    ∷ ("SUCCESS", code_success)
    ∷ ("FAIL", code_fail)
    ∷ ("TIMEOUT", code_timeout)
    ∷ []

module _ (m : Mstdlib) where
  abbrev pub is_text : Bytes → String → Bool
  is_text v text = m.str_eq (some v) (some (codes text))

  -- The rows of M_ReturnCode, in order; what none of them fits is a denial.
  unfoldable pub code_of : List (String × ReturnCode) → Bytes → ReturnCode
  code_of [] v = code_deny
  code_of ((text, code) ∷ rows) v = if is_text v text then code else code_of rows v

  unfoldable pub check_status : Session → ℕ → CheckStatus
  unfolding status_code
  check_status s identifier = elim (conn_get_trans_by_internal_id m s.conn identifier) [
    | none ↦ unused
    | some p ↦ status_code (trans_status s.conn (some p)).1
  ]

  -- The old interface takes every response but key/value data for a table.
  unfoldable pub is_comma_delimited : Session → ℕ → Bool
  is_comma_delimited s identifier = elim (conn_get_trans_by_internal_id m s.conn identifier) [
    | none ↦ false
    | some p ↦
        if response_type_eq (trans_response_type s.conn (some p)).1 response_kv then false else true
  ]

  unfoldable pub parse_comma_delimited : Session → ℕ → Bool
  parse_comma_delimited s identifier = if is_comma_delimited s identifier then true else false

  unfoldable pub success_or_fail : Option Bytes → ReturnCode
  success_or_fail code =
      if m.str_caseeq code (some (codes "SUCCESS")) || m.str_caseeq code (some (codes "AUTH"))
      then code_success
      else code_fail

  unfoldable pub return_status : Session → ℕ → ReturnCode
  unfolding success_or_fail
  return_status s identifier =
      if is_done (check_status s identifier)
      then if is_comma_delimited s identifier
        then code_success
        else success_or_fail (response_param m s identifier (some (codes "code"))).1
      else code_error

  unfoldable pub return_code : Session → ℕ → ReturnCode
  unfolding code_of
  return_code s identifier =
      if is_comma_delimited s identifier
      then code_success
      else elim (response_param m s identifier (some (codes "code"))).1 [
        | none ↦ code_error
        | some v ↦ code_of return_codes v
      ]

  unfoldable pub transaction_avs : Session → ℕ → ℤ
  transaction_avs s identifier = elim (response_param m s identifier (some (codes "avs"))).1 [
    | none ↦ negsuc 0
    | some v ↦
        if is_text v "GOOD"
        then pos 1
        else if is_text v "BAD"
        then pos 0
        else if is_text v "STREET"
        then pos 2
        else if is_text v "ZIP"
        then pos 3
        else negsuc 0
  ]

  unfoldable pub transaction_cv : Session → ℕ → ℤ
  transaction_cv s identifier = elim (response_param m s identifier (some (codes "cv"))).1 [
    | none ↦ negsuc 0
    | some v ↦ if is_text v "GOOD" then pos 1 else if is_text v "BAD" then pos 0 else negsuc 0
  ]

unfoldable pub text_code : ℤ → String
text_code (pos n) =
    if n == 2
    then "AUTH"
    else if n == 3
    then "DENY"
    else if n == 5
    then "DUPLICATE TRANS"
    else if n == 4
    then "CALL PROCESSOR"
    else if n == 6
    then "PICKUP CARD"
    else if n == 7
    then "RETRY"
    else if n == 8
    then "SETUP"
    else if n == 9
    then "TIMEOUT"
    else if n == 1
    then "SUCCESS"
    else if n == 0
    then "FAIL"
    else "UNKNOWN"
text_code (negsuc n) = if n == 0 then "ERROR" else "UNKNOWN"

unfoldable pub text_avs : ℤ → String
text_avs (pos n) =
    if n == 2
    then "STREET FAILED"
    else if n == 3
    then "ZIP FAILED"
    else if n == 1
    then "GOOD"
    else if n == 0
    then "BAD"
    else "UNKNOWN"
text_avs (negsuc n) = "UNKNOWN"

unfoldable pub text_cv : ℤ → String
unfolding text_avs
text_cv code = text_avs code
