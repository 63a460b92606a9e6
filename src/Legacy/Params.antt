-- ===== src/Legacy/Params.antt =====
-- src/monetra_deprecated.c: M_TransParam and its tables. An `int` is the number with the same 32 bits.
-- The formats of M_asprintf for long, double and 64-bit arguments are parameters.
use Prim.Native.Nat.{bit_and}
use Prim.Native.String.{String}
use libmonetra.Base.{
  ℕ, ◌==◌, Bool, false, List, [], ◌∷◌, ◌++◌, Option, none, some, if◌then◌else◌, Bytes, codes,
}
use libmonetra.Legacy.{Session, trans_key_val}
use libmonetra.Mstdlib.{Mstdlib}

-- A `switch` from numbers to texts.
unfoldable pub switch : List (ℕ × String) → ℕ → Option Bytes
switch [] n = none
switch ((k, text) ∷ rows) n = if k == n then some (codes text) else switch rows n

abbrev pub action_rows : List (ℕ × String)
action_rows =
    (1, "SALE")
    ∷ (2, "PREAUTH")
    ∷ (3, "VOID")
    ∷ (4, "FORCE")
    ∷ (5, "FORCE")
    ∷ (6, "OVERRIDE")
    ∷ (7, "RETURN")
    ∷ (8, "SETTLE")
    ∷ (50, "ADMIN")
    ∷ (200, "CHKPWD")
    ∷ (9, "INCREMENTAL")
    ∷ (10, "REVERSAL")
    ∷ (11, "ACTIVATE")
    ∷ (12, "BALANCEINQ")
    ∷ (13, "CASHOUT")
    ∷ (14, "TOREVERSAL")
    ∷ (15, "SETTLERFR")
    ∷ (16, "ISSUE")
    ∷ (17, "TIP")
    ∷ (18, "MERCHRETURN")
    ∷ (19, "IVRREQ")
    ∷ (20, "IVRRESP")
    ∷ (1001, "CHNGPWD")
    ∷ (1002, "LISTSTATS")
    ∷ (1003, "LISTUSERS")
    ∷ (1004, "GETUSERINFO")
    ∷ (1005, "ADDUSER")
    ∷ (1006, "EDITUSER")
    ∷ (1007, "DELUSER")
    ∷ (1008, "ENABLEUSER")
    ∷ (1009, "DISABLEUSER")
    ∷ (1010, "IMPORT")
    ∷ (1011, "EXPORT")
    ∷ (1012, "ERRORLOG")
    ∷ (1013, "CLEARERRORLOG")
    ∷ (1014, "GETSUBACCTS")
    ∷ []

unfoldable pub transform_action : ℕ → Option Bytes
transform_action action = switch action_rows action

abbrev pub admin_rows : List (ℕ × String)
admin_rows =
    (1, "GUT")
    ∷ (2, "GL")
    ∷ (3, "GFT")
    ∷ (5, "QC")
    ∷ (6, "RS")
    ∷ (4, "BT")
    ∷ (7, "CTH")
    ∷ (8, "CFH")
    ∷ (9, "FORCESETTLE")
    ∷ (10, "SETBATCHNUM")
    ∷ (11, "RENUMBERBATCH")
    ∷ (12, "FIELDEDIT")
    ∷ (13, "CLOSEBATCH")
    ∷ []

unfoldable pub transform_admin : ℕ → Option Bytes
transform_admin admin = switch admin_rows admin

abbrev pub excharges_rows : List (ℕ × String)
excharges_rows =
    (1, "REST")
    ∷ (2, "GIFT")
    ∷ (3, "MINI")
    ∷ (4, "TELE")
    ∷ (5, "OTHER")
    ∷ (6, "LAUND")
    ∷ (7, "NONE")
    ∷ (8, "GAS")
    ∷ (9, "MILE")
    ∷ (10, "LATE")
    ∷ (11, "1WAY")
    ∷ (12, "VIOL")
    ∷ []

unfoldable pub transform_excharges : ℕ → Option Bytes
transform_excharges excharges = switch excharges_rows excharges

abbrev pub priority_rows : List (ℕ × String)
priority_rows = (1, "HIGH") ∷ (2, "NORMAL") ∷ (3, "LOW") ∷ []

unfoldable pub transform_priority : ℕ → Option Bytes
transform_priority priority = switch priority_rows priority

-- One `if (types & flag) M_buf_add_str(buf, name)` for each row.
unfoldable pub flags : List (ℕ × String) → ℕ → Bytes
flags [] types = []
flags ((flag, name) ∷ rows) types =
    let rest = flags rows types in if bit_and types flag == 0 then rest else codes name ++ rest

abbrev pub cardtypes_rows : List (ℕ × String)
cardtypes_rows =
    (2, "+VISA")
    ∷ (4, "+MC")
    ∷ (8, "+AMEX")
    ∷ (16, "+DISC")
    ∷ (128, "+DC")
    ∷ (32, "+JCB")
    ∷ (64, "+CB")
    ∷ (256, "+GIFT")
    ∷ (512, "+OTHER")
    ∷ []

-- 1022 is MC_CARD_ALL, all the flags.
unfoldable pub transform_cardtypes : ℕ → Option Bytes
unfolding flags
transform_cardtypes types =
    if types == 1022 then some (codes "ALL") else some (flags cardtypes_rows types)

-- 6 is MC_MODE_BOTH.
unfoldable pub transform_mode : ℕ → Option Bytes
unfolding flags
transform_mode mode =
    if mode == 6
    then some (codes "BOTH")
    else some (flags ((2, "+AUTH") ∷ (4, "+SETTLE") ∷ []) mode)

-- M_tp_type_t
pub data ParamType : Type 0 where
  type_string type_int type_long type_double type_int64 type_custom : ParamType

-- The function of a row: none, or one of those above.
pub data Transform : Type 0 where
  no_transform by_action by_admin by_excharges by_priority by_cardtypes by_mode : Transform

pub record Row : Type 0 where
  pub key : ℕ
  pub strkey : String
  pub valtype : ParamType
  pub int_transform : Transform

abbrev row : ℕ → String → ParamType → Transform → Row
row key strkey valtype int_transform = record {
  key = key;
  strkey = strkey;
  valtype = valtype;
  int_transform = int_transform;
}

-- M_tp_list, less the row of zeros at its end.
abbrev pub tp_list : List Row
tp_list =
    row 1 "action" type_int by_action
    ∷ row 24 "admin" type_int by_admin
    ∷ row 2 "username" type_string no_transform
    ∷ row 3 "password" type_string no_transform
    ∷ row 4 "account" type_string no_transform
    ∷ row 5 "trackdata" type_string no_transform
    ∷ row 6 "expdate" type_string no_transform
    ∷ row 7 "street" type_string no_transform
    ∷ row 8 "zip" type_string no_transform
    ∷ row 9 "cv" type_string no_transform
    ∷ row 10 "comments" type_string no_transform
    ∷ row 11 "clerkid" type_string no_transform
    ∷ row 12 "stationid" type_string no_transform
    ∷ row 13 "apprcode" type_string no_transform
    ∷ row 14 "amount" type_double no_transform
    ∷ row 15 "ptrannum" type_long no_transform
    ∷ row 48 "timestamp" type_long no_transform
    ∷ row 16 "ttid" type_int64 no_transform
    ∷ row 19 "acct" type_string no_transform
    ∷ row 20 "bdate" type_string no_transform
    ∷ row 21 "edate" type_string no_transform
    ∷ row 22 "batch" type_string no_transform
    ∷ row 23 "file" type_string no_transform
    ∷ row 25 "type" type_int by_action
    ∷ row 26 "" type_custom no_transform
    ∷ row 27 "examount" type_double no_transform
    ∷ row 28 "excharges" type_int by_excharges
    ∷ row 29 "rate" type_double no_transform
    ∷ row 30 "rentername" type_string no_transform
    ∷ row 31 "returncity" type_string no_transform
    ∷ row 32 "returnstate" type_string no_transform
    ∷ row 33 "returnlocation" type_string no_transform
    ∷ row 35 "inquiry" type_int no_transform
    ∷ row 34 "priority" type_int by_priority
    ∷ row 36 "cardtypes" type_int by_cardtypes
    ∷ row 37 "sub" type_int no_transform
    ∷ row 38 "marker" type_long no_transform
    ∷ row 39 "devicetype" type_string no_transform
    ∷ row 40 "errorcode" type_string no_transform
    ∷ row 41 "newbatch" type_string no_transform
    ∷ row 42 "curr" type_string no_transform
    ∷ row 43 "descmerch" type_string no_transform
    ∷ row 44 "descloc" type_string no_transform
    ∷ row 45 "origtype" type_int by_action
    ∷ row 47 "voidorigtype" type_int by_action
    ∷ row 46 "pin" type_string no_transform
    ∷ row 2000 "proc" type_string no_transform
    ∷ row 2001 "user" type_string no_transform
    ∷ row 2002 "pwd" type_string no_transform
    ∷ row 2003 "indcode" type_string no_transform
    ∷ row 2004 "merchid" type_string no_transform
    ∷ row 2005 "bankid" type_string no_transform
    ∷ row 2006 "termid" type_string no_transform
    ∷ row 2007 "clientnum" type_string no_transform
    ∷ row 2008 "storeid" type_string no_transform
    ∷ row 2009 "agentid" type_string no_transform
    ∷ row 2010 "chainid" type_string no_transform
    ∷ row 2011 "zipcode" type_string no_transform
    ∷ row 2012 "timezone" type_string no_transform
    ∷ row 2013 "merchcat" type_string no_transform
    ∷ row 2014 "mername" type_string no_transform
    ∷ row 2015 "merchloc" type_string no_transform
    ∷ row 2016 "statecode" type_string no_transform
    ∷ row 2017 "phone" type_string no_transform
    ∷ row 2018 "sub" type_int no_transform
    ∷ row 2019 "cardtypes" type_int by_cardtypes
    ∷ row 2020 "mode" type_string by_mode
    ∷ row 2021 "vnumber" type_string no_transform
    ∷ row 2022 "routingid" type_string no_transform
    ∷ row 2023 "pproperty" type_string no_transform
    ∷ row 2024 "pid" type_string no_transform
    ∷ row 2025 "pidpwd" type_string no_transform
    ∷ row 2026 "smid" type_string no_transform
    ∷ row 2027 "smidpwd" type_string no_transform
    ∷ row 2028 "usddiv" type_string no_transform
    ∷ row 2029 "auddiv" type_string no_transform
    ∷ row 2030 "dkkdiv" type_string no_transform
    ∷ row 2031 "gbpdiv" type_string no_transform
    ∷ row 2032 "hkddiv" type_string no_transform
    ∷ row 2033 "jpydiv" type_string no_transform
    ∷ row 2034 "nzddiv" type_string no_transform
    ∷ row 2035 "nokdiv" type_string no_transform
    ∷ row 2036 "sgddiv" type_string no_transform
    ∷ row 2037 "zardiv" type_string no_transform
    ∷ row 2038 "sekdiv" type_string no_transform
    ∷ row 2039 "chfdiv" type_string no_transform
    ∷ row 2040 "caddiv" type_string no_transform
    ∷ row 2041 "divnum" type_string no_transform
    ∷ []

-- The argument behind the key, of the type that the caller passes.
pub data Arg : Type 0 where
  arg_string : Option Bytes → Arg
  arg_int arg_long arg_double arg_int64 : ℕ → Arg
  arg_custom : Option Bytes → Option Bytes → Arg

-- What M_TransParam makes of the row and the argument: the key and the value that it sets, or an
-- argument that `va_arg` reads at another type than it has, which is undefined.
pub data Value : Type 0 where
  sets : Option Bytes → Option Bytes → Value
  misread : Value

unfoldable pub find_row : List Row → ℕ → Option Row
find_row [] key = none
find_row (r ∷ rows) key = if r.key == key then some r else find_row rows key

-- M_asprintf with %d, %ld, %.2f and %lld.
pub record Formats : Type 0 where
  pub print_int : ℕ → Bytes
  pub print_long : ℕ → Bytes
  pub print_double : ℕ → Bytes
  pub print_int64 : ℕ → Bytes

module _ (f : Formats) where
  unfoldable pub transform : Transform → ℕ → Option Bytes
  transform no_transform n = some (f.print_int n)
  transform by_action n = transform_action n
  transform by_admin n = transform_admin n
  transform by_excharges n = transform_excharges n
  transform by_priority n = transform_priority n
  transform by_cardtypes n = transform_cardtypes n
  transform by_mode n = transform_mode n

  -- The switch on the row's type.
  unfoldable pub row_value : ParamType → Row → Arg → Value
  row_value type_string r (arg_string text) = sets (some (codes r.strkey)) text
  row_value type_int r (arg_int n) = sets (some (codes r.strkey)) (transform r.int_transform n)
  row_value type_long r (arg_long n) = sets (some (codes r.strkey)) (some (f.print_long n))
  row_value type_double r (arg_double n) = sets (some (codes r.strkey)) (some (f.print_double n))
  row_value type_int64 r (arg_int64 n) = sets (some (codes r.strkey)) (some (f.print_int64 n))
  row_value type_custom r (arg_custom key text) = sets key text
  row_value _ r arg = misread

  -- M_TransParam; `none` is the undefined read of an argument.
  unfoldable pub trans_param : Mstdlib → Session → ℕ → ℕ → Arg → Option (Session × Bool)
  unfolding find_row row_value transform
  trans_param m s identifier key arg =
      if identifier == 0 then some (s, false) else elim (find_row tp_list key) [
        | none ↦ some (s, false)
        | some r ↦ elim (row_value r.valtype r arg) [
          | misread ↦ none
          | sets strkey value ↦ some (trans_key_val m s identifier strkey value)
        ]
      ]
