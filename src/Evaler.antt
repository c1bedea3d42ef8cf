-- ===== src/Evaler.antt =====
-- model/evaler.go: math expressions, evaluated by go-eval and read back from their text.
pub mod Types
use ethereum_playbook.Common.{
  Bool, true, false, ◌||◌, Option, none, some, List, [], ◌∷◌, Result, ok, err, panic, ◌>>=◌, ◌>>◌,
  guard, is_empty, if◌then◌else◌,
}
use ethereum_playbook.Common.Text.{Text, codes, text_eq}
use ethereum_playbook.Common.Int.{ℤ}
use ethereum_playbook.Common.Decimal.{integer}
use ethereum_playbook.Errors.{
  Error, compile_failed, empty_value, unsupported_type, unexpected_type, run_failed,
}
use ethereum_playbook.Extern.{
  Run, run_error, prints, Compiled, compile_error, untyped, typed, Float, not_a_float, whole,
  fractional, Libs,
}
use ethereum_playbook.Values.{Value, boolean, big, float}

pub data ExprType : Type 0 where
  expr_bool expr_float expr_integer : ExprType

abbrev pub same_type : ExprType → ExprType → Bool
same_type expr_bool expr_bool = true
same_type expr_float expr_float = true
same_type expr_integer expr_integer = true
same_type _ _ = false

-- The switch over `code.Type().String()`.
unfoldable pub expr_type : Text → Result Error ExprType
expr_type typ =
    if text_eq typ (codes "ideal integer")
    then ok expr_integer
    else if text_eq typ (codes "ideal float")
    then ok expr_float
    else if text_eq typ (codes "bool")
    then ok expr_bool
    else err unsupported_type

abbrev pub mem_type : ExprType → List ExprType → Bool
mem_type t [] = false
mem_type t (e ∷ es) = same_type e t || mem_type t es

-- The closure `checkExpected`: no expectation accepts every type.
unfoldable pub check_expected : List ExprType → ExprType → Result Error (Unit {0})
check_expected expected typ = guard (is_empty expected || mem_type typ expected) unexpected_type

abbrev integer_value : Option ℤ → Result Error Value
integer_value none = panic
integer_value (some z) = ok (big (some z))

-- A float that is integral becomes an integer; any other is returned with no check.
abbrev float_value : List ExprType → Text → Float → Result Error Value
float_value expected shown not_a_float = panic
float_value expected shown (whole z) = do check_expected expected expr_integer; ok (big (some z))
float_value expected shown fractional = ok (float shown)

-- The switch over the type of the expression, on the text of its value.
unfoldable pub read_value : Libs → List ExprType → ExprType → Text → Result Error Value
unfolding check_expected
read_value libs expected expr_bool shown = do
  check_expected expected expr_bool
  ok (boolean (text_eq shown (codes "true")))
read_value libs expected expr_float shown = float_value expected shown (libs.parse_float shown)
read_value libs expected expr_integer shown = do
  z ← integer_value (integer shown)
  check_expected expected expr_integer
  ok z

abbrev finish : Libs → List ExprType → ExprType → Run → Result Error Value
finish libs expected t run_error = err run_failed
finish libs expected t (prints shown) = read_value libs expected t shown

abbrev run_code : Libs → List ExprType → Compiled → Result Error Value
run_code libs expected compile_error = err compile_failed
run_code libs expected untyped = err empty_value
run_code libs expected (typed typ code) = do t ← expr_type typ; finish libs expected t code

-- Evaler.Run
unfoldable pub run : Libs → Text → List ExprType → Result Error Value
unfolding read_value
run libs expr expected = run_code libs expected (libs.compile expr)
