-- ===== src/Executor/Replace/Given.antt =====
-- Parameters that no missing balance can make nil.
use ethereum_playbook.Common.{
  Bool, true, false, not, Option, none, some, List, [], ◌∷◌, Result, ok, ◌>>=◌, >>=-eq-ok, ◌≡◌,
  arith, sym, Option-cases, inl, inr, All,
}
use ethereum_playbook.Common.Text.{Text, text_eq}
use ethereum_playbook.Common.Int.{pos, negsuc}
use ethereum_playbook.Common.Maps.{lookup}
use ethereum_playbook.Errors.{Error}
use ethereum_playbook.Extern.{Libs}
use ethereum_playbook.Values.{
  Value, nil, text, boolean, big, float, int, uint, bytes, static_bytes, address, wallet_reference,
  arg_reference, WalletFieldReference,
}
use ethereum_playbook.Wallets.{Wallets, WalletSpec, balance_field, field_value}
use ethereum_playbook.Executor.{
  replace_wallet_placeholders, replace_placeholder, replace_references, replace_reference,
  replace_field, field_param, with_param, params_of,
}

-- A value that is not a nil *big.Int.
abbrev pub is_given : Value → Bool
is_given (big none) = false
is_given _ = true

-- A parameter that is not nil, and does not refer to the balance of a wallet.
abbrev pub is_firm : Value → Bool
is_firm (wallet_reference r) = not (text_eq r.field_name balance_field)
is_firm v = is_given v

abbrev pub AllGiven : List Value → Type 0
AllGiven vs = All (λ v. is_given v ≡ true) vs

abbrev pub AllFirm : List Value → Type 0
AllFirm ps = All (λ p. is_firm p ≡ true) ps

pub replace_wallet_placeholders-AllFirm :
    (ps : List Value) (a : Text) → AllFirm ps → AllFirm (replace_wallet_placeholders ps a)
unfolding replace_wallet_placeholders
replace_wallet_placeholders-AllFirm [] a firm = tt
replace_wallet_placeholders-AllFirm (p ∷ ps) a (firm, others) =
    (one p firm, replace_wallet_placeholders-AllFirm ps a others)
  where
    one : (p : Value) → is_firm p ≡ true → is_firm (replace_placeholder a p) ≡ true
    one (address b) h = ground arith
    one (wallet_reference r) h = h
    one (arg_reference id) h = h
    one nil h = h
    one (text s) h = h
    one (boolean b) h = h
    one (big z) h = h
    one (float s) h = h
    one (int n z) h = h
    one (uint n m) h = h
    one (bytes b) h = h
    one (static_bytes n b) h = h

field_value-given :
    (w : WalletSpec) (field : Text) (v : Value)
    → text_eq field balance_field ≡ false
    → field_value w field ≡ ok v
    → is_given v ≡ true
unfolding field_value
field_value-given w field v other h = ground (arith, other)

module _ (libs : Libs) (args : List Text) (wallets : Wallets) where
  field_param-given :
      (field : Text) (v v' : Value)
      → text_eq field balance_field ≡ false
      → is_given v ≡ true
      → field_param libs field v ≡ ok v'
      → is_given v' ≡ true
  field_param-given field v v' other given h = ground (arith, other, given)

  replace_field-given :
      (r : WalletFieldReference) (v : Value)
      → text_eq r.field_name balance_field ≡ false
      → replace_field libs wallets r ≡ ok v
      → is_given v ≡ true
  unfolding replace_field
  replace_field-given r v other h = elim (Option-cases (lookup r.wallet_name wallets)) [
    | inl missing ↦ absurd (ground (arith, missing))
    | inr (w, found) ↦
        let bound : (field_value w r.field_name >>= field_param libs r.field_name) ≡ ok v =
          ground (arith, found) in
        let (u, read, made) =
          >>=-eq-ok (field_value w r.field_name) (field_param libs r.field_name) bound in
        field_param-given r.field_name u v other (field_value-given w r.field_name u other read)
          made
  ]

  replace_reference-given :
      (p v : Value)
      → is_firm p ≡ true
      → replace_reference libs args wallets p ≡ ok (some v)
      → is_given v ≡ true
  replace_reference-given (wallet_reference r) v firm h =
      let give : Value → Result Error (Option Value) = λ u. ok (some u) in
      let (u, read, same) = >>=-eq-ok (replace_field libs wallets r) give h in
      let q : u ≡ v = ground arith in
      replace_field-given r v (ground (arith, firm)) (rw (sym q) read)
  replace_reference-given (arg_reference (negsuc n)) v firm h = absurd (ground arith)
  replace_reference-given (arg_reference (pos n)) v firm h = ground arith
  replace_reference-given nil v firm h = let q : nil ≡ v = ground arith in rw (sym q) firm
  replace_reference-given (text s) v firm h = let q : text s ≡ v = ground arith in rw (sym q) firm
  replace_reference-given (boolean b) v firm h =
      let q : boolean b ≡ v = ground arith in rw (sym q) firm
  replace_reference-given (big z) v firm h = let q : big z ≡ v = ground arith in rw (sym q) firm
  replace_reference-given (float s) v firm h = let q : float s ≡ v = ground arith in rw (sym q) firm
  replace_reference-given (int n z) v firm h = let q : int n z ≡ v = ground arith in rw (sym q) firm
  replace_reference-given (uint n m) v firm h =
      let q : uint n m ≡ v = ground arith in rw (sym q) firm
  replace_reference-given (bytes b) v firm h = let q : bytes b ≡ v = ground arith in rw (sym q) firm
  replace_reference-given (static_bytes n b) v firm h =
      let q : static_bytes n b ≡ v = ground arith in rw (sym q) firm
  replace_reference-given (address a) v firm h =
      let q : address a ≡ v = ground arith in rw (sym q) firm

  abbrev pushed : Value → Option (List Value) → Result Error (Option (List Value))
  pushed v r = ok (elim r [ none ↦ none | some vs ↦ some (v ∷ vs) ])

  -- What is sent for such parameters has no nil *big.Int.
  pub replace_references-AllGiven :
      (ps : List Value) (o : Option (List Value))
      → AllFirm ps
      → replace_references libs args wallets ps ≡ ok o
      → AllGiven (params_of o)
  unfolding replace_references
  replace_references-AllGiven [] o firm h = let q : o ≡ some [] = ground arith in rw q tt
  replace_references-AllGiven (p ∷ ps) o (firm, others) h =
      let rest = replace_references libs args wallets ps in
      let (v, read, h1) = >>=-eq-ok (replace_reference libs args wallets p) (with_param rest) h in
      with_first (λ r. replace_references-AllGiven ps r others) v read h1
    where
      finish :
          (v : Value) (r : Option (List Value))
          → is_given v ≡ true
          → AllGiven (params_of r)
          → pushed v r ≡ ok o
          → AllGiven (params_of o)
      finish v none own all done = let q : o ≡ none = ground arith in rw q tt
      finish v (some vs) own all done = let q : o ≡ some (v ∷ vs) = ground arith in rw q (own, all)

      with_first :
          ((r : Option (List Value))
            → replace_references libs args wallets ps ≡ ok r
            → AllGiven (params_of r))
          → (v : Option Value) → replace_reference libs args wallets p ≡ ok v
          → with_param (replace_references libs args wallets ps) v ≡ ok o
          → AllGiven (params_of o)
      with_first later none read h1 = let q : o ≡ none = ground arith in rw q tt
      with_first later (some v) read h1 =
          let more : Option (List Value) → Result Error (Option (List Value)) = pushed v in
          let (r, sent, done) = >>=-eq-ok (replace_references libs args wallets ps) more h1 in
          finish v r (replace_reference-given p v firm read) (later r sent) done
