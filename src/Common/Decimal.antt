-- ===== src/Common/Decimal.antt =====
-- Decimal numbers: strconv.Atoi, big.Int.SetString(_, 10) and big.Int.String.
pub mod RoundTrip
use Prim.Native.Nat.{ℕ, zero, suc, ◌+◌, ◌-◌, ◌*◌, ◌/◌, ◌%◌, ◌^◌}
use mathlib.Core.Path.{◌≡◌, refl}
use mathlib.Core.Bool.{Bool, true, false, ◌&&◌}
use mathlib.Core.Option
use mathlib.Core.Option.{Option, none, some}
use mathlib.Core.List.{List, [], ◌∷◌}
use ethereum_playbook.Common.Tests.{leb, ◌==◌, if◌then◌else◌}
use ethereum_playbook.Common.Text.{Text, codes}
use ethereum_playbook.Common.Int.{ℤ, pos, negsuc, neg_of_ℕ, pos_part, neg_part}

abbrev pub is_digit : ℕ → Bool
is_digit c = leb b'0' c && leb c b'9'

-- The value of a run of digits behind those that make `acc`.
unfoldable pub digits_value : ℕ → Text → Option ℕ
digits_value acc [] = some acc
digits_value acc (c ∷ s) =
    let rest = digits_value (acc * 10 + (c - b'0')) s in if is_digit c then rest else none

-- At least one digit.
unfoldable pub natural : Text → Option ℕ
unfolding digits_value
natural [] = none
natural (c ∷ s) = digits_value 0 (c ∷ s)

-- big.Int.SetString in base 10: an optional sign and at least one digit.
unfoldable pub integer : Text → Option ℤ
unfolding natural
integer [] = none
integer (c ∷ s) =
    if c == b'-'
    then Option.map neg_of_ℕ (natural s)
    else if c == b'+'
    then Option.map pos (natural s)
    else Option.map pos (natural (c ∷ s))

-- strconv.Atoi gives a value beside its error: 0 for bad syntax, the nearest int out of range.
pub record Atoi : Type 0 where
  pub value : ℤ
  pub failed : Bool

abbrev pub max_int : ℕ
max_int = 2 ^ 63 - 1

abbrev clamp_int : ℤ → Atoi
clamp_int (pos n) =
    if leb n max_int
    then record { value = pos n; failed = false }
    else record { value = pos max_int; failed = true }
clamp_int (negsuc n) =
    if leb n max_int
    then record { value = negsuc n; failed = false }
    else record { value = negsuc max_int; failed = true }

abbrev atoi_of : Option ℤ → Atoi
atoi_of none = record { value = pos 0; failed = true }
atoi_of (some z) = clamp_int z

unfoldable pub atoi : Text → Atoi
unfolding integer
atoi s = atoi_of (integer s)

-- The digits of `n` in front of `out`; a fuel of `n` is enough.
unfoldable pub emit : ℕ → ℕ → Text → Text
emit zero n out = out
emit (suc fuel) n out =
    let rest = emit fuel (n / 10) ((b'0' + n % 10) ∷ out) in if n == 0 then out else rest

unfoldable pub show_ℕ : ℕ → Text
unfolding emit
show_ℕ n = if n == 0 then b'0' ∷ [] else emit n n []

-- big.Int.String
unfoldable pub show : ℤ → Text
unfolding show_ℕ
show (pos n) = show_ℕ n
show (negsuc n) = b'-' ∷ show_ℕ (suc n)

show_example : show (negsuc 1299) ≡ codes "-1300"
unfolding show
show_example = refl

atoi_example : atoi (codes "-07") ≡ record { value = negsuc 6; failed = false }
unfolding atoi
atoi_example = refl

atoi_range : atoi (codes "9223372036854775808") ≡ record { value = pos max_int; failed = true }
unfolding atoi
atoi_range = refl
