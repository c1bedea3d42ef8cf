-- ===== src/Executor/Replace.antt =====
-- What a command sends for its parameters.
pub mod Given
use ethereum_playbook.Common.{
  suc, Bool, true, false, some, List, [], ◌∷◌, ok, if◌then◌else◌, ◌≡◌, refl, arith, ap, Bool-cases,
  inl, inr, length, All,
}
use ethereum_playbook.Common.Text.{Text, text_eq, text_eq_iff}
use ethereum_playbook.Extern.{Libs}
use ethereum_playbook.Values.{
  Value, nil, text, boolean, big, float, int, uint, bytes, static_bytes, address, wallet_reference,
  arg_reference, WalletFieldReference,
}
use ethereum_playbook.Wallets.{Wallets, WalletSpec, address_field, balance_field, field_value}
use ethereum_playbook.Wallets.References.{Resolves}
use ethereum_playbook.Params.Spec.Outcomes.{is_reference, IsResolvable}
use ethereum_playbook.Executor.{
  replace_wallet_placeholders, replace_placeholder, replace_references, replace_reference,
  replace_field, field_param,
}

not_balance : text_eq address_field balance_field ≡ false
unfolding text_eq
not_balance = refl

address_value : (w : WalletSpec) → field_value w address_field ≡ ok (text w.address)
unfolding field_value text_eq
address_value w = refl

balance_value : (w : WalletSpec) → field_value w balance_field ≡ ok (big w.balance)
unfolding field_value text_eq
balance_value w = refl

plain_value :
    (w : WalletSpec) (field : Text) (v : Value)
    → field_value w field ≡ ok v
    → is_reference v ≡ false
unfolding field_value
plain_value w field v h = ground arith

-- A value that takes the place of a parameter: no reference.
abbrev pub IsPlain : Value → Type 0
IsPlain v = is_reference v ≡ false

module _ (libs : Libs) (args : List Text) (wallets : Wallets) where
  field_param-IsPlain :
      (w : WalletSpec) (field : Text) (v : Value)
      → field_value w field ≡ ok v
      → (v' : Value) × (field_param libs field v ≡ ok v') × IsPlain v'
  field_param-IsPlain w field v h = elim (Bool-cases (text_eq field address_field)) [
    | inl a ↦
        let q : field ≡ address_field = (text_eq_iff field address_field).0 a in
        let nb : text_eq field balance_field ≡ false = rw q not_balance in
        let at : field_value w field ≡ ok (text w.address) = rw q (address_value w) in
        let e : v ≡ text w.address = ground (arith, h, at) in
        (address (libs.hex_to_address w.address), rw e (ground (arith, a, nb)), refl)
    | inr na ↦ elim (Bool-cases (text_eq field balance_field)) [
      | inl b ↦
          let q : field ≡ balance_field = (text_eq_iff field balance_field).0 b in
          let at : field_value w field ≡ ok (big w.balance) = rw q (balance_value w) in
          let e : v ≡ big w.balance = ground (arith, h, at) in
          (big w.balance, rw e (ground (arith, b)), refl)
      | inr nb ↦ (v, ground (arith, na, nb), plain_value w field v h)
    ]
  ]

  replace_field-IsPlain :
      (r : WalletFieldReference)
      → Resolves wallets r
      → (v : Value) × (replace_field libs wallets r ≡ ok v) × IsPlain v
  unfolding replace_field
  replace_field-IsPlain r known =
      let (v, read, plain) = field_param-IsPlain known.wallet r.field_name known.value known.read in
      (v, ground (arith, known.found, known.read, read), plain)

  replace_reference-IsPlain :
      (p : Value)
      → IsResolvable wallets p
      → (v : Value) × (replace_reference libs args wallets p ≡ ok (some v)) × IsPlain v
  replace_reference-IsPlain (wallet_reference r) known =
      let (v, read, plain) = replace_field-IsPlain r known in (v, ground (arith, read), plain)
  replace_reference-IsPlain (arg_reference id) known = absurd known
  replace_reference-IsPlain nil known = (nil, refl, refl)
  replace_reference-IsPlain (text s) known = (text s, refl, refl)
  replace_reference-IsPlain (boolean b) known = (boolean b, refl, refl)
  replace_reference-IsPlain (big z) known = (big z, refl, refl)
  replace_reference-IsPlain (float s) known = (float s, refl, refl)
  replace_reference-IsPlain (int w z) known = (int w z, refl, refl)
  replace_reference-IsPlain (uint w n) known = (uint w n, refl, refl)
  replace_reference-IsPlain (bytes b) known = (bytes b, refl, refl)
  replace_reference-IsPlain (static_bytes n b) known = (static_bytes n b, refl, refl)
  replace_reference-IsPlain (address a) known = (address a, refl, refl)

  -- The parameters of a validated command can always be sent: replacing references neither panics
  -- nor drops the parameters, and gives one value, no reference, for each.
  pub replace_references-IsPlain :
      (ps : List Value)
      → All (IsResolvable wallets) ps
      → (vs : List Value) × (replace_references libs args wallets ps ≡ ok (some vs))
        × (length vs ≡ length ps)
        × All IsPlain vs
  unfolding replace_references
  replace_references-IsPlain [] known = ([], refl, refl, tt)
  replace_references-IsPlain (p ∷ ps) (known, others) =
      let (v, read, plain) = replace_reference-IsPlain p known in
      let (vs, rest, same, all) = replace_references-IsPlain ps others in
      (v ∷ vs, rw (read, rest) refl, ap suc same, (plain, all))

-- The placeholder of the wallet's address is no reference, nor is what replaces it.
pub replace_wallet_placeholders-IsResolvable :
    (wallets : Wallets) (ps : List Value) (a : Text)
    → All (IsResolvable wallets) ps
    → All (IsResolvable wallets) (replace_wallet_placeholders ps a)
unfolding replace_wallet_placeholders
replace_wallet_placeholders-IsResolvable wallets [] a known = tt
replace_wallet_placeholders-IsResolvable wallets (p ∷ ps) a (known, others) =
    (one p known, replace_wallet_placeholders-IsResolvable wallets ps a others)
  where
    swapped : (b : Bool) (c : Text) → IsResolvable wallets (if b then address a else address c)
    swapped true c = tt
    swapped false c = tt

    one : (v : Value) → IsResolvable wallets v → IsResolvable wallets (replace_placeholder a v)
    one (address b) k = swapped _ b
    one (wallet_reference r) k = k
    one (arg_reference id) k = k
    one nil k = k
    one (text s) k = k
    one (boolean b) k = k
    one (big z) k = k
    one (float s) k = k
    one (int w z) k = k
    one (uint w n) k = k
    one (bytes b) k = k
    one (static_bytes n b) k = k
