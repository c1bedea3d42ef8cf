-- ===== src/Params/Refs.antt =====
-- model/params.go: the prefixes of references, `$n` references to command-line arguments, and the
-- count of the arguments that a parameter or a value uses.
pub mod Resolve
use ethereum_playbook.Common.{
  ℕ, zero, suc, Bool, true, false, ◌&&◌, ◌||◌, not, Option, none, some, List, [], ◌∷◌, ◌++◌, Result,
  ok, err, panic, ◌>>=◌, if◌then◌else◌, drop, length, get_elem?, leb, ◌==◌,
}
use ethereum_playbook.Common.Text.{Text, codes, has_prefix, split}
use ethereum_playbook.Common.Int.{ℤ, pos, negsuc, int_eq}
use ethereum_playbook.Common.Decimal.{atoi}
use ethereum_playbook.Errors.{Error, bad_arg_reference}

-- isWalletRef
unfoldable pub is_wallet_ref : Text → Bool
unfolding has_prefix
is_wallet_ref str = has_prefix str (codes "@")

-- isArgRef
unfoldable pub is_arg_ref : Text → Bool
unfolding has_prefix
is_arg_ref str = has_prefix str (codes "$")

-- The runes that isMathExp lets through.
unfoldable pub is_math_rune : ℕ → Bool
is_math_rune r =
    (leb b'0' r && leb r b'9')
    || (leb b'a' r && leb r b'f')
    || (leb b'A' r && leb r b'F')
    || (leb b'(' r && leb r b'+')
    || (leb b'-' r && leb r b'/')
    || (leb b'<' r && leb r b'>')
    || (leb b'%' r && leb r b'&')
    || r == b'^'
    || r == 32
    || r == b'~'
    || r == b'|'
    || r == b'x'
    || r == b'X'
    || r == b'p'

-- isMathExp
unfoldable pub is_math_exp : Text → Bool
is_math_exp [] = true
is_math_exp (r ∷ str) = is_math_rune r && is_math_exp str

-- argReferenceID; `value[1:]` drops the "$" that its callers have tested.
unfoldable pub arg_reference_id : Text → Result Error ℤ
arg_reference_id value =
    let id = atoi (drop 1 value) in if id.failed then err bad_arg_reference else ok id.value

-- argID > len(args)-1
abbrev pub is_past : List Text → ℤ → Bool
is_past args (pos n) = leb (length args) n
is_past args (negsuc n) = false

-- newArgReference: an argument that was not given is the reference -1.
unfoldable pub new_arg_reference : List Text → Text → Result Error ℤ
unfolding arg_reference_id
new_arg_reference args value = do
  id ← arg_reference_id value
  ok (if is_past args id then negsuc 0 else id)

-- `args[i]`
abbrev pub index : List Text → ℤ → Result Error Text
index args (pos n) = elim (get_elem? args n) [ none ↦ panic | some a ↦ ok a ]
index args (negsuc n) = panic

-- `map[int]struct{}` as a list with no number twice.
abbrev pub has_id : ℤ → List ℤ → Bool
has_id a [] = false
has_id a (x ∷ xs) = int_eq x a || has_id a xs

unfoldable pub add_id : ℤ → List ℤ → List ℤ
add_id a set = if has_id a set then set else a ∷ set

-- A part that is no number is skipped.
abbrev pub add_result : Result Error ℤ → List ℤ → List ℤ
add_result (ok id) set = add_id id set
add_result (err e) set = set
add_result panic set = set

abbrev pub add_part : Text → List ℤ → List ℤ
add_part part set = if is_arg_ref part then add_result (arg_reference_id part) set else set

-- The loop over the parts of a text, in Valuer.CountArgsUsing and ParamSpec.CountArgsUsing.
unfoldable pub count_parts : List Text → List ℤ → List ℤ
unfolding add_id
count_parts [] set = set
count_parts (part ∷ parts) set = count_parts parts (add_part part set)

-- The arguments that a text uses.
unfoldable pub count_args_in : Text → List ℤ → List ℤ
unfolding count_parts
count_args_in str set = count_parts (split str 32) set
