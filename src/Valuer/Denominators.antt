-- ===== src/Valuer/Denominators.antt =====
-- The denominator at the end of a value, and the evaluation of what stands before it.
use mathlib.Core.List.{reverse, reverse-append}
use ethereum_playbook.Common.{
  ℕ, ◌^◌, true, false, ◌&&◌, List, [], ◌∷◌, ◌++◌, ok, panic, ◌≡◌, refl, ap, arith, ◌∙◌, All, map,
  >>=-eq-ok, Bool-cases, inl, inr, ◌==◌, ==_iff,
}
use ethereum_playbook.Common.Text.{Text, codes, has_prefix, has_suffix, split, join-split, to_lower}
use ethereum_playbook.Common.Text.Suffix.{has_suffix-append, trim_suffix-append}
use ethereum_playbook.Common.Int.{ℤ}
use ethereum_playbook.Extern.{Libs}
use ethereum_playbook.Values.{float}
use ethereum_playbook.Evaler.{expr_integer, run}
use ethereum_playbook.Wallets.{Wallets}
use ethereum_playbook.Params.Refs.{is_wallet_ref, is_arg_ref, is_math_rune, is_math_exp}
use ethereum_playbook.Valuer.{
  ExtendedValue, Stripped, gwei, ether, common_denominations, replace_part, replace_parts,
  strip_one, strip, evaluate, parse,
}

-- The four denominators that need no contract.
pub data CommonUnit : Type 0 where
  wei_unit gwei_unit ether_unit eth_unit : CommonUnit

abbrev pub unit_name : CommonUnit → Text
unit_name wei_unit = codes "wei"
unit_name gwei_unit = gwei
unit_name ether_unit = ether
unit_name eth_unit = codes "eth"

is_math_exp-append : (s t : Text) → is_math_exp (s ++ t) ≡ (is_math_exp s && is_math_exp t)
unfolding is_math_exp
is_math_exp-append [] t = refl
is_math_exp-append (c ∷ s) t = ground (arith, is_math_exp-append s t)

is_math_exp-reverse : (s : Text) → is_math_exp (reverse s) ≡ is_math_exp s
unfolding is_math_exp
is_math_exp-reverse [] = refl
is_math_exp-reverse (c ∷ s) =
    ap is_math_exp (reverse-append (c ∷ []) s)
    ∙ is_math_exp-append (reverse s) (c ∷ [])
    ∙ ground (arith, is_math_exp-reverse s)

has_prefix_not_math :
    (t ps : Text) (c : ℕ)
    → is_math_exp t ≡ true
    → is_math_rune c ≡ false
    → has_prefix t (c ∷ ps) ≡ false
unfolding has_prefix is_math_exp
has_prefix_not_math [] ps c h n = refl
has_prefix_not_math (x ∷ t) ps c h n = elim (Bool-cases (x == c)) [
  | inl e ↦ ground (arith, h, n, ap is_math_rune ((==_iff x c).0 e))
  | inr ne ↦ rw ne
]

-- No denominator ends a math expression: each of their last letters is foreign to it.
no_suffix :
    (u : CommonUnit) (e : Text) → is_math_exp e ≡ true → has_suffix e (32 ∷ unit_name u) ≡ false
unfolding has_suffix
no_suffix wei_unit e h =
    has_prefix_not_math (reverse e) (codes "ew ") b'i' (is_math_exp-reverse e ∙ h)
      (unfold is_math_rune in refl)
no_suffix gwei_unit e h =
    has_prefix_not_math (reverse e) (codes "ewg ") b'i' (is_math_exp-reverse e ∙ h)
      (unfold is_math_rune in refl)
no_suffix ether_unit e h =
    has_prefix_not_math (reverse e) (codes "ehte ") b'r' (is_math_exp-reverse e ∙ h)
      (unfold is_math_rune in refl)
no_suffix eth_unit e h =
    has_prefix_not_math (reverse e) (codes "te ") b'h' (is_math_exp-reverse e ∙ h)
      (unfold is_math_rune in refl)

abbrev unsuffixed : Text → Text → Stripped
unsuffixed rest den = record { rest = rest; denominator = den }

strip_one_none :
    (u : CommonUnit) (e den : Text)
    → is_math_exp e ≡ true
    → strip_one (unit_name u) (unsuffixed e den) ≡ ok (unsuffixed e den)
unfolding strip_one
strip_one_none u e den h = rw (no_suffix u e h)

strip_one_unit :
    (u : CommonUnit) (e den : Text)
    → is_math_exp e ≡ true
    → strip_one (unit_name u) (unsuffixed (e ++ 32 ∷ unit_name u) den)
      ≡ ok (unsuffixed e (unit_name u))
unfolding strip_one
strip_one_unit u e den h =
    rw (has_suffix-append e (32 ∷ unit_name u), trim_suffix-append e (32 ∷ unit_name u)) (rw h)

-- A unit before the one that the value ends with does not match.
strip_one_other :
    (e p q : Text)
    → has_prefix (reverse p ++ reverse e) (reverse (32 ∷ q)) ≡ false
    → strip_one q (unsuffixed (e ++ p) []) ≡ ok (unsuffixed (e ++ p) [])
unfolding strip_one has_suffix
strip_one_other e p q h = rw (reverse-append, h)

strip_cons :
    (den : Text) (dens : List Text) (s t : Stripped)
    → strip_one den s ≡ ok t
    → strip (den ∷ dens) s ≡ strip dens t
unfolding strip
strip_cons den dens s t h = rw h

module _ (e : Text) (math : is_math_exp e ≡ true) where
  strip_rest :
      (us : List CommonUnit) (den : Text)
      → strip (map unit_name us) (unsuffixed e den) ≡ ok (unsuffixed e den)
  unfolding strip
  strip_rest [] den = refl
  strip_rest (u ∷ us) den = rw (strip_one_none u e den math) (strip_rest us den)

  strip_match :
      (u : CommonUnit) (us : List CommonUnit)
      → strip (unit_name u ∷ map unit_name us) (unsuffixed (e ++ 32 ∷ unit_name u) [])
        ≡ ok (unsuffixed e (unit_name u))
  strip_match u us =
      strip_cons (unit_name u) (map unit_name us) _ _ (strip_one_unit u e [] math)
      ∙ strip_rest us (unit_name u)

  skip :
      (p q : Text) (dens : List Text)
      → has_prefix (reverse p ++ reverse e) (reverse (32 ∷ q)) ≡ false
      → strip (q ∷ dens) (unsuffixed (e ++ p) []) ≡ strip dens (unsuffixed (e ++ p) [])
  skip p q dens h = strip_cons q dens _ _ (strip_one_other e p q h)

  -- A math expression in front of a common denominator is split from it, and one with no denominator
  -- stays as it is.
  strip_unit :
      (u : CommonUnit)
      → strip common_denominations (unsuffixed (e ++ 32 ∷ unit_name u) [])
        ≡ ok (unsuffixed e (unit_name u))
  unfolding has_prefix
  strip_unit wei_unit = strip_match wei_unit (gwei_unit ∷ ether_unit ∷ eth_unit ∷ [])
  strip_unit gwei_unit =
      skip (32 ∷ gwei) (codes "wei") _ refl ∙ strip_match gwei_unit (ether_unit ∷ eth_unit ∷ [])
  strip_unit ether_unit =
      skip (32 ∷ ether) (codes "wei") _ refl
      ∙ skip (32 ∷ ether) gwei _ refl
      ∙ strip_match ether_unit (eth_unit ∷ [])
  strip_unit eth_unit =
      skip (32 ∷ codes "eth") (codes "wei") _ refl
      ∙ skip (32 ∷ codes "eth") gwei _ refl
      ∙ skip (32 ∷ codes "eth") ether _ refl
      ∙ strip_match eth_unit []

-- No part of the text is a reference.
abbrev pub IsPlain : Text → Type 0
IsPlain v = All (λ p. (is_wallet_ref p ≡ false) × (is_arg_ref p ≡ false)) (split v 32)

replace_parts_plain :
    (args : List Text) (wallets : Wallets) (parts : List Text)
    → All (λ p. (is_wallet_ref p ≡ false) × (is_arg_ref p ≡ false)) parts
    → replace_parts args wallets parts ≡ ok parts
unfolding replace_parts replace_part
replace_parts_plain args wallets [] h = refl
replace_parts_plain args wallets (p ∷ parts) ((w, a), rest) =
    rw (w, a, replace_parts_plain args wallets parts rest)

abbrev pub extended : ℤ → Text → ExtendedValue
extended amount den = record { value = amount; value_wei = amount; denominator = den }

-- How many wei a common denominator stands for.
abbrev pub unit_wei : CommonUnit → ℕ
unit_wei wei_unit = 1
unit_wei gwei_unit = 10 ^ 9
unit_wei ether_unit = 10 ^ 18
unit_wei eth_unit = 1

strip-append :
    (dens more : List Text) (s t : Stripped)
    → strip dens s ≡ ok t
    → strip (dens ++ more) s ≡ strip more t
unfolding strip
strip-append [] more s t h = let q : s ≡ t = ground arith in rw q refl
strip-append (den ∷ dens) more s t h =
    let (s', first, rest) = >>=-eq-ok (strip_one den s) (strip dens) h in
    rw first (strip-append dens more s' t rest)

-- No denominator of the list ends the text.
abbrev pub IsClear : List Text → Text → Type 0
IsClear dens e = All (λ den. has_suffix e (32 ∷ den) ≡ false) dens

strip-clear : (dens : List Text) (s : Stripped) → IsClear dens s.rest → strip dens s ≡ ok s
unfolding strip strip_one
strip-clear [] s h = refl
strip-clear (den ∷ dens) s (own, others) = rw own (strip-clear dens s others)

module _ (libs : Libs) (args : List Text) (wallets : Wallets) (additional : List Text) (v : Text)
    (plain : IsPlain v) where
  parse_plain :
      (s : Stripped)
      → strip common_denominations (unsuffixed (to_lower v) []) ≡ ok s
      → IsClear additional s.rest
      → parse libs args wallets additional v ≡ evaluate libs s
  unfolding parse
  parse_plain s h clear =
      let q : strip (common_denominations ++ additional) (unsuffixed (to_lower v) []) ≡ ok s =
        strip-append common_denominations additional (unsuffixed (to_lower v) []) s h
        ∙ strip-clear additional s clear in
      rw (replace_parts_plain args wallets (split v 32) plain, join-split, q) refl

  module _ (e : Text) (u : CommonUnit) (math : is_math_exp e ≡ true)
      (ends : to_lower v ≡ e ++ 32 ∷ unit_name u) (clear : IsClear additional e) where
    evaluated : parse libs args wallets additional v ≡ evaluate libs (unsuffixed e (unit_name u))
    evaluated = parse_plain (unsuffixed e (unit_name u)) (rw ends (strip_unit e math u)) clear

    -- If the expression evaluates to a float that is not integral, the program stops, also where
    -- the denominator would make the amount integral.
    pub parse_unit_fractional :
        (shown : Text)
        → run libs e (expr_integer ∷ []) ≡ ok (float shown)
        → parse libs args wallets additional v ≡ panic
    unfolding evaluate
    parse_unit_fractional shown h = evaluated ∙ rw (math, h)
