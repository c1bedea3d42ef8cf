-- ===== src/Tests/Model.antt =====
-- Values, parameters and amounts at concrete inputs.
use ethereum_playbook.Common.{
  true, some, [], ◌∷◌, ok, err, panic, ◌≡◌, ◌≢◌, ◌↔◌, ◌⊎◌, refl, ◌^◌, All,
}
use ethereum_playbook.Common.Text.{
  Text, codes, text_eq, has_suffix, trim_suffix, split, join, to_lower,
}
use ethereum_playbook.Common.Int.{pos, negsuc, ◌*ℤ◌}
use ethereum_playbook.Common.Decimal.{natural, integer, atoi}
use ethereum_playbook.Errors.{incompatible_param}
use ethereum_playbook.Values.{int, big}
use ethereum_playbook.Evaler.{expr_integer, expr_float, expr_type, run}
use ethereum_playbook.Evaler.Types.{value_type, run_type}
use ethereum_playbook.Params.Refs.{
  is_wallet_ref, is_arg_ref, is_math_rune, is_math_exp, arg_reference_id, new_arg_reference, index,
}
use ethereum_playbook.Params.Refs.Resolve.{arg_text, new_arg_reference_iff}
use ethereum_playbook.Params.Parse.{int8_type, uint8_type, uint16_type, parse_param}
use ethereum_playbook.Params.Parse.Signed.{
  is_int8, parse_param_wraps, parse_param_keeps_iff, in_range,
}
use ethereum_playbook.Params.Parse.Unsigned.{is_uint8, parse_param_unsigned, parse_param_fractional}
use ethereum_playbook.Context.{app_args}
use ethereum_playbook.Valuer.{
  gwei, ether, denominate_value, parse, count_args_using, replace_part, replace_parts, arg_part,
  strip_one, strip, evaluate,
}
use ethereum_playbook.Valuer.Amount.{denominate_value-gwei_iff}
use ethereum_playbook.Valuer.Denominators.{extended}
use ethereum_playbook.Valuer.Failures.{IsGiven, parse-IsGiven}
use ethereum_playbook.Tests.{test_libs, two_wallets}

ether_not_gwei : ether ≢ gwei
ether_not_gwei h = cc

denominate_value-gwei_iff_example :
    (denominate_value (pos 2) gwei ≡ pos 2 *ℤ pos (10 ^ 9)) ↔ ((pos 2 ≡ pos 0) ⊎ (pos 2 ≡ pos 1))
denominate_value-gwei_iff_example = denominate_value-gwei_iff (pos 2)

parse_param_wraps_example : parse_param test_libs int8_type (codes "200") ≡ ok (int 8 (negsuc 55))
unfolding run integer natural text_eq expr_type
parse_param_wraps_example =
    parse_param_wraps test_libs (codes "200") (pos 200) refl int8_type 8 128 is_int8

parse_param_keeps_iff_example :
    (parse_param test_libs int8_type (codes "200") ≡ ok (int 8 (pos 200)))
    ↔ (in_range 128 (pos 200) ≡ true)
unfolding run integer natural text_eq expr_type
parse_param_keeps_iff_example =
    parse_param_keeps_iff test_libs (codes "200") (pos 200) refl int8_type 8 128 is_int8

parse_param_unsigned_example :
    parse_param test_libs uint8_type (codes "256") ≡ err incompatible_param
unfolding run integer natural text_eq expr_type
parse_param_unsigned_example =
    parse_param_unsigned test_libs (codes "256") (pos 256) refl uint8_type 8 256 is_uint8

parse_param_fractional_example : parse_param test_libs uint16_type (codes "0.5") ≡ panic
unfolding run text_eq expr_type
parse_param_fractional_example =
    parse_param_fractional test_libs (codes "0.5") uint16_type (codes "0.5") refl refl refl

run_type_example :
    (value_type (big (some (pos 12))) ≡ some expr_integer)
    ⊎ (value_type (big (some (pos 12))) ≡ some expr_float)
unfolding run integer natural text_eq expr_type
run_type_example = run_type test_libs expr_integer (codes "12") refl

new_arg_reference_iff_example :
    (new_arg_reference (app_args (codes "send") (codes "a" ∷ [])) (codes "$1") ≡ ok (pos 1))
    × ((a : Text)
        → arg_text (codes "send") (codes "a" ∷ []) 1 ≡ some a
        → index (app_args (codes "send") (codes "a" ∷ [])) (pos 1) ≡ ok a)
unfolding arg_reference_id atoi integer natural
new_arg_reference_iff_example =
    new_arg_reference_iff (codes "send") (codes "$1") (codes "a" ∷ []) 1 refl

parse-IsGiven_example :
    All (IsGiven (codes "send" ∷ codes "5" ∷ [])) (count_args_using (codes "$1 wei") [])
unfolding parse replace_parts replace_part arg_part new_arg_reference atoi integer natural split
    join to_lower is_wallet_ref is_arg_ref strip strip_one has_suffix trim_suffix is_math_exp
    is_math_rune evaluate run text_eq denominate_value expr_type
parse-IsGiven_example =
    parse-IsGiven test_libs (codes "send" ∷ codes "5" ∷ []) two_wallets [] (codes "$1 wei")
      (extended (pos 5) (codes "wei")) refl
