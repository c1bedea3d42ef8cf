-- ===== src/Params/Spec/Outcomes.antt =====
-- What a validated parameter can be, and when validation stops the program.
use ethereum_playbook.Common.{
  suc, Bool, true, false, ◌&&◌, List, [], ◌∷◌, Result, ok, err, panic, ◌>>=◌, ◌≡◌, refl, arith,
  length, is_empty, All, >>=-eq-ok, Bool-cases, inl, inr, ap, drop, Option-cases,
}
use ethereum_playbook.Common.Text.{Text, codes, text_eq, split}
use ethereum_playbook.Errors.{Error}
use ethereum_playbook.Params.Refs.{is_wallet_ref}
use ethereum_playbook.Common.Maps.{lookup}
use ethereum_playbook.Extern.{Libs}
use ethereum_playbook.Values.{Value, nil, address, wallet_reference, arg_reference}
use ethereum_playbook.Evaler.{ExprType, expr_bool, run}
use ethereum_playbook.Evaler.Types.{run_type}
use ethereum_playbook.Wallets.{Wallets, address_field, has_field, new_wallet_field_reference}
use ethereum_playbook.Wallets.References.{
  Resolves, Resolves-of_field, new_wallet_field_reference-Resolves,
}
use ethereum_playbook.Params.Bytes.{parse_bytes, create_static_bytes}
use ethereum_playbook.Params.Parse.{
  ParamType, boolean_type, parse_int_bits, parse_uint_bits, parse_param,
}
use ethereum_playbook.Params.Spec.{
  Param, plain, object, unsupported, wallet_param, wallet_address, argument_param, parse_value,
  resolve_parts, joined, validate_object, validate_param, validate_params, type_text, nillable_str,
  is_address, placeholder_addr,
}

abbrev pub is_reference : Value → Bool
is_reference (wallet_reference r) = true
is_reference (arg_reference id) = true
is_reference _ = false

-- A wallet reference that resolves, or no reference at all.
abbrev pub IsResolvable : Wallets → Value → Type 0
IsResolvable wallets (wallet_reference r) = Resolves wallets r
IsResolvable wallets (arg_reference id) = ⊥
IsResolvable wallets _ = Unit

IsResolvable-of_value :
    (wallets : Wallets) (v : Value) → is_reference v ≡ false → IsResolvable wallets v
IsResolvable-of_value wallets (wallet_reference r) h = cc
IsResolvable-of_value wallets (arg_reference id) h = cc
IsResolvable-of_value wallets _ h = tt

module _ (libs : Libs) (value : Text) where
  run-not_reference :
      (t : ExprType) (v : Value) → run libs value (t ∷ []) ≡ ok v → is_reference v ≡ false
  run-not_reference t v h = ground (arith, run_type libs t value {v = v} h)

  parse_param-not_reference :
      (t : ParamType) (v : Value) → parse_param libs t value ≡ ok v → is_reference v ≡ false
  unfolding parse_param parse_int_bits parse_uint_bits create_static_bytes parse_bytes
  parse_param-not_reference boolean_type v h = run-not_reference expr_bool v h
  parse_param-not_reference _ v h = ground arith

module _ (libs : Libs) (args : List Text) (wallets : Wallets) where
  parse_value-IsResolvable :
      (t : ParamType) (value : Text) (v : Value)
      → parse_value libs t value ≡ ok v
      → IsResolvable wallets v
  parse_value-IsResolvable t value v h = elim (Bool-cases (is_empty value)) [
    | inl e ↦ let q : v ≡ nil = ground arith in rw q tt
    | inr n ↦
        IsResolvable-of_value wallets v (parse_param-not_reference libs value t v (ground arith))
  ]

  argument_param-IsResolvable :
      (t : ParamType) (reference : Text) (v : Value)
      → argument_param libs args t reference ≡ ok v
      → IsResolvable wallets v
  argument_param-IsResolvable t reference v h =
      let (parts, _, parsed) =
        >>=-eq-ok (resolve_parts args (split reference 32)) (λ p. parse_value libs t (joined p))
          h in
      parse_value-IsResolvable t (joined parts) v parsed

  wallet_param-IsResolvable :
      (reference : Text) (v : Value)
      → wallet_param wallets reference ≡ ok v
      → IsResolvable wallets v
  wallet_param-IsResolvable reference v h =
      elim (Bool-cases (text_eq (drop 1 reference) (codes "@"))) [
        | inl e ↦ let q : v ≡ address placeholder_addr = ground (arith, e) in rw q tt
        | inr n ↦
            let bound : (new_wallet_field_reference wallets reference
                  >>= (λ ref. ok (wallet_reference ref)))
                ≡ ok v =
              ground (arith, n) in
            let (r, found, e) =
              >>=-eq-ok (new_wallet_field_reference wallets reference)
                (λ ref. ok (wallet_reference ref)) bound in
            let q : v ≡ wallet_reference r = ground arith in
            rw q (new_wallet_field_reference-Resolves wallets reference found)
      ]

  wallet_address-IsResolvable :
      (name : Text) (v : Value) → wallet_address wallets name ≡ ok v → IsResolvable wallets v
  wallet_address-IsResolvable name v h = elim (Bool-cases (text_eq name (codes "@"))) [
    | inl e ↦ let q : v ≡ address placeholder_addr = ground (arith, e) in rw q tt
    | inr n ↦ elim (Option-cases (lookup name wallets)) [
      | inl missing ↦ absurd (ground (arith, n))
      | inr (w, found) ↦
          let q : v ≡ wallet_reference (record { wallet_name = name; field_name = address_field }) =
            ground (arith, n) in
          rw q (
            Resolves-of_field wallets name address_field w found (unfold has_field text_eq in refl))
    ]
  ]

  validate_object-IsResolvable :
      (t : Result Error ParamType) (value reference : Text) (v : Value)
      → validate_object libs args wallets t value reference ≡ ok v
      → IsResolvable wallets v
  unfolding validate_object
  validate_object-IsResolvable (err e) value reference v h = absurd (ground arith)
  validate_object-IsResolvable panic value reference v h = absurd (ground arith)
  validate_object-IsResolvable (ok t) value [] v h =
      elim (Bool-cases (is_address t && is_wallet_ref value)) [
        | inl a ↦ wallet_address-IsResolvable (drop 1 value) v (ground (arith, a))
        | inr n ↦ parse_value-IsResolvable t value v (ground (arith, n))
      ]
  validate_object-IsResolvable (ok t) value (c ∷ reference) v h =
      elim (Bool-cases (is_wallet_ref (c ∷ reference))) [
        | inl w ↦ wallet_param-IsResolvable (c ∷ reference) v (ground (arith, w))
        | inr n ↦ argument_param-IsResolvable t (c ∷ reference) v (ground (arith, n))
      ]

  validate_param-IsResolvable :
      (p : Param) (v : Value) → validate_param libs args wallets p ≡ ok v → IsResolvable wallets v
  unfolding validate_param
  validate_param-IsResolvable (plain s) v h = IsResolvable-of_value wallets v (ground arith)
  validate_param-IsResolvable (object t value reference) v h =
      validate_object-IsResolvable (type_text t) (nillable_str value) (nillable_str reference) v h
  validate_param-IsResolvable unsupported v h = cc

  pub validate_params-IsResolvable :
      (ps : List Param) (vs : List Value)
      → validate_params libs args wallets ps ≡ ok vs
      → (length vs ≡ length ps) × All (IsResolvable wallets) vs
  unfolding validate_params
  validate_params-IsResolvable [] vs h = let q : vs ≡ [] = ground arith in rw q (refl, tt)
  validate_params-IsResolvable (p ∷ ps) vs h =
      let (v, first, rest) =
        >>=-eq-ok (validate_param libs args wallets p)
          (λ v. validate_params libs args wallets ps >>= λ vs. ok (v ∷ vs)) h in
      let (ws, others, done) =
        >>=-eq-ok (validate_params libs args wallets ps) (λ vs. ok (v ∷ vs)) rest in
      let (len, all) = validate_params-IsResolvable ps ws others in
      let q : vs ≡ v ∷ ws = ground arith in
      rw q (ap suc len, (validate_param-IsResolvable p v first, all))
