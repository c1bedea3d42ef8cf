-- ===== src/Evaler/Types.antt =====
-- What the type of an evaluation's result can be, given the type that the caller expects.
use ethereum_playbook.Common.{Option, none, some, List, [], ◌∷◌, ok, ◌≡◌, ◌⊎◌, arith, >>=-eq-ok}
use ethereum_playbook.Common.Text.{Text, codes, text_eq}
use ethereum_playbook.Extern.{
  Compiled, Run, prints, run_error, typed, compile_error, untyped, Float, fractional, Libs,
}
use ethereum_playbook.Values.{Value, boolean, big, float}
use ethereum_playbook.Evaler.{
  ExprType, expr_bool, expr_float, expr_integer, expr_type, float_value, finish, run_code,
  read_value, run,
}

-- The expression type of a value that `Evaler.Run` can return.
abbrev pub value_type : Value → Option ExprType
value_type (boolean b) = some expr_bool
value_type (float t) = some expr_float
value_type (big z) = some expr_integer
value_type _ = none

module _ (libs : Libs) (t : ExprType) where
  float_value_type :
      (shown : Text) (f : Float) {v : Value}
      → float_value (t ∷ []) shown f ≡ ok v
      → (value_type v ≡ some t) ⊎ (value_type v ≡ some expr_float)
  unfolding read_value
  float_value_type shown f h = ground arith

  read_value_type :
      (e : ExprType) (shown : Text) {v : Value}
      → read_value libs (t ∷ []) e shown ≡ ok v
      → (value_type v ≡ some t) ⊎ (value_type v ≡ some expr_float)
  unfolding read_value
  read_value_type expr_bool shown h = ground arith
  read_value_type expr_float shown h = float_value_type shown (libs.parse_float shown) h
  read_value_type expr_integer shown h = ground arith

  finish_type :
      (e : ExprType) (r : Run) {v : Value}
      → finish libs (t ∷ []) e r ≡ ok v
      → (value_type v ≡ some t) ⊎ (value_type v ≡ some expr_float)
  finish_type e (prints s) h = read_value_type e s h
  finish_type e run_error h = cc

  run_code_type :
      (c : Compiled) {v : Value}
      → run_code libs (t ∷ []) c ≡ ok v
      → (value_type v ≡ some t) ⊎ (value_type v ≡ some expr_float)
  run_code_type (typed typ r) h =
      let (e, _, finished) = >>=-eq-ok (expr_type typ) (λ e. finish libs (t ∷ []) e r) h in
      finish_type e r finished
  run_code_type compile_error h = cc
  run_code_type untyped h = cc

  -- With one expected type, a result has that type or is a float that is not integral: no other
  -- type gets through.
  pub run_type :
      (expr : Text) {v : Value}
      → run libs expr (t ∷ []) ≡ ok v
      → (value_type v ≡ some t) ⊎ (value_type v ≡ some expr_float)
  unfolding run
  run_type expr h = run_code_type (libs.compile expr) h

-- An expression of type "ideal float" whose value is not integral is returned as a float with no
-- error, whatever types the caller expects.
pub run_fractional :
    (libs : Libs) (expected : List ExprType) (expr shown : Text)
    → libs.compile expr ≡ typed (codes "ideal float") (prints shown)
    → libs.parse_float shown ≡ fractional
    → run libs expr expected ≡ ok (float shown)
unfolding run expr_type text_eq read_value
run_fractional libs expected expr shown c f = rw (c, f)
