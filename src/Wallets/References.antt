-- ===== src/Wallets/References.antt =====
-- References to wallet fields: what `newWalletFieldReference` accepts can be resolved.
use ethereum_playbook.Common.{
  true, Option, some, List, [], ◌∷◌, ok, ◌≡◌, refl, arith, drop, Option-cases, inl, inr, is_ok,
  ok_of_is_ok, ◌∙◌, Bool-cases,
}
use ethereum_playbook.Common.Text.{Text, split, text_eq}
use ethereum_playbook.Common.Maps.{lookup}
use ethereum_playbook.Values.{Value, WalletFieldReference}
use ethereum_playbook.Wallets.{
  Wallets, WalletSpec, address_field, has_field, field_value, reference_of_parts,
  new_wallet_field_reference, wallet_by_name, field_reference,
}

-- The wallet of the reference exists, and reading its field does not panic.
pub record Resolves (wallets : Wallets) (r : WalletFieldReference) : Type 0 where
  pub wallet : WalletSpec
  pub found : lookup r.wallet_name wallets ≡ some wallet
  pub value : Value
  pub read : field_value wallet r.field_name ≡ ok value

-- FieldValue panics exactly at the names that HasField refuses.
pub is_ok-field_value : (w : WalletSpec) (name : Text) → is_ok (field_value w name) ≡ has_field name
unfolding has_field field_value
is_ok-field_value w name = ground arith

-- No field value depends on the private key, in either of its two forms.
pub field_value_hides_keys :
    (w : WalletSpec) (name key : Text) (priv : Option Text)
    → field_value (record w { priv_key = key; priv = priv }) name ≡ field_value w name
unfolding field_value
field_value_hides_keys w name key priv = refl

module _ (wallets : Wallets) where
  pub Resolves-of_field :
      (name field : Text) (w : WalletSpec)
      → lookup name wallets ≡ some w
      → has_field field ≡ true
      → Resolves wallets (record { wallet_name = name; field_name = field })
  Resolves-of_field name field w found known =
      let (v, read) = ok_of_is_ok (field_value w field) (is_ok-field_value w field ∙ known) in
      record { wallet = w; found = found; value = v; read = read }

  wallet_by_name-Resolves :
      (name : Text) {r : WalletFieldReference}
      → wallet_by_name wallets name ≡ ok r
      → Resolves wallets r
  wallet_by_name-Resolves name {r} h = elim (Option-cases (lookup name wallets)) [
    | inl e ↦ absurd (ground arith)
    | inr (w, e) ↦
        let q : r ≡ record { wallet_name = name; field_name = address_field } = ground arith in
        rw q (Resolves-of_field name address_field w e (unfold has_field text_eq in refl))
  ]

  field_reference-Resolves :
      (name field : Text) {r : WalletFieldReference}
      → field_reference wallets name field ≡ ok r
      → Resolves wallets r
  field_reference-Resolves name field {r} h = elim (Option-cases (lookup name wallets)) [
    | inl e ↦ absurd (ground arith)
    | inr (w, e) ↦ elim (Bool-cases (has_field field)) [
      | inl known ↦
          let q : r ≡ record { wallet_name = name; field_name = field } = ground arith in
          rw q (Resolves-of_field name field w e known)
      | inr unknown ↦ absurd (ground arith)
    ]
  ]

  reference_of_parts-Resolves :
      (parts : List Text) {r : WalletFieldReference}
      → reference_of_parts wallets parts ≡ ok r
      → Resolves wallets r
  reference_of_parts-Resolves [] h = cc
  reference_of_parts-Resolves (name ∷ []) h = wallet_by_name-Resolves name h
  reference_of_parts-Resolves (name ∷ field ∷ []) h = field_reference-Resolves name field h
  reference_of_parts-Resolves (name ∷ field ∷ x ∷ rest) h = wallet_by_name-Resolves name h

  -- A reference that is accepted names a wallet of the specification, and reading the field that it
  -- names does not panic.
  pub new_wallet_field_reference-Resolves :
      (value : Text) {r : WalletFieldReference}
      → new_wallet_field_reference wallets value ≡ ok r
      → Resolves wallets r
  unfolding new_wallet_field_reference
  new_wallet_field_reference-Resolves value h =
      reference_of_parts-Resolves (split (drop 1 value) b'.') h
