-- ===== src/Executor/Send/Keep.antt =====
-- What the run of a WRITE command keeps: wallets that are known, references that resolve, and
-- instances that pointers reach.
use ethereum_playbook.Common.{
  ℕ, zero, suc, true, Option, none, some, List, [], ◌∷◌, Result, ok, err, panic, ◌≡◌, refl, sym, ap,
  ◌∙◌, arith, Bool-cases, Option-cases, inl, inr, map, get_elem?, get_elem?-map, is_ok,
}
use ethereum_playbook.Common.Text.{Text, text_eq, text_eq_iff}
use ethereum_playbook.Common.Int.{ℤ}
use ethereum_playbook.Common.Maps.{lookup, insert, lookup-insert}
use ethereum_playbook.Errors.{Error}
use ethereum_playbook.Extern.{Libs}
use ethereum_playbook.Values.{
  Value, nil, text, boolean, big, float, int, uint, bytes, static_bytes, address, wallet_reference,
  arg_reference, WalletFieldReference,
}
use ethereum_playbook.Wallets.{Wallets, WalletSpec, has_field}
use ethereum_playbook.Wallets.References.{Resolves, Resolves-of_field, is_ok-field_value}
use ethereum_playbook.Contracts.{
  Contracts, ContractSpec, ContractInstanceSpec, InstancePtr, no_ptr, own, shared, deref,
}
use ethereum_playbook.Params.Spec.Outcomes.{IsResolvable}
use ethereum_playbook.Executor.Count.{IsKnown}
use ethereum_playbook.Executor.Chain.{Chain, Written}
use ethereum_playbook.Executor.Send.{
  refresh, refresh_instance, fetch_token_symbol, update_at, update_instance, deployed_at,
  after_deploy, fetched,
}

module _ (wallets : Wallets) (k : Text) (w : WalletSpec) where
  IsKnown-insert : (name : Text) → IsKnown wallets name → IsKnown (insert k w wallets) name
  IsKnown-insert name (v, found) = elim (Bool-cases (text_eq k name)) [
    | inl same ↦ (w, lookup-insert k name w wallets ∙ rw same refl)
    | inr other ↦ (v, lookup-insert k name w wallets ∙ rw other found)
  ]

  Resolves-insert :
      (r : WalletFieldReference) → Resolves wallets r → Resolves (insert k w wallets) r
  Resolves-insert r known =
      let has : has_field r.field_name ≡ true =
        sym (is_ok-field_value known.wallet r.field_name) ∙ ap is_ok known.read in
      let (v, found) = IsKnown-insert r.wallet_name (known.wallet, known.found) in
      Resolves-of_field (insert k w wallets) r.wallet_name r.field_name v found has

  IsResolvable-insert : (v : Value) → IsResolvable wallets v → IsResolvable (insert k w wallets) v
  IsResolvable-insert (wallet_reference r) h = Resolves-insert r h
  IsResolvable-insert (arg_reference id) h = h
  IsResolvable-insert nil h = h
  IsResolvable-insert (text s) h = h
  IsResolvable-insert (boolean b) h = h
  IsResolvable-insert (big z) h = h
  IsResolvable-insert (float s) h = h
  IsResolvable-insert (int n z) h = h
  IsResolvable-insert (uint n m) h = h
  IsResolvable-insert (bytes b) h = h
  IsResolvable-insert (static_bytes n b) h = h
  IsResolvable-insert (address a) h = h

module _ (wallets : Wallets) (name : Text) (w : WalletSpec) (balance : Option ℤ) where
  pub IsKnown-fetched : (n : Text) → IsKnown wallets n → IsKnown (fetched wallets name w balance) n
  IsKnown-fetched n h = by_cases balance
    where
      by_cases : (b : Option ℤ) → IsKnown (fetched wallets name w b) n
      by_cases none = h
      by_cases (some b) = IsKnown-insert wallets name (record w { balance = some b }) n h

  pub IsResolvable-fetched :
      (v : Value) → IsResolvable wallets v → IsResolvable (fetched wallets name w balance) v
  IsResolvable-fetched v h = by_cases balance
    where
      by_cases : (b : Option ℤ) → IsResolvable (fetched wallets name w b) v
      by_cases none = h
      by_cases (some b) = IsResolvable-insert wallets name (record w { balance = some b }) v h

-- A pointer that reaches an instance.
abbrev pub IsReached : Contracts → InstancePtr → Type 0
IsReached contracts p = (i : ContractInstanceSpec) × (deref contracts p ≡ some i)

module _ (libs : Libs) (chain : Chain) where
  lookup-refresh :
      (key : Text) (contracts : Contracts) (c : ContractSpec)
      → lookup key contracts ≡ some c
      → lookup key (refresh libs chain contracts)
        ≡ some (record c { instances = map (refresh_instance libs chain) c.instances })
  unfolding lookup refresh
  lookup-refresh key [] c h = cc
  lookup-refresh key ((j, d) ∷ rest) c h = elim (Bool-cases (text_eq j key)) [
    | inl same ↦ let q : d ≡ c = ground (arith, same) in rw (same, q) refl
    | inr other ↦ rw other (lookup-refresh key rest c (ground (arith, other)))
  ]

  pub IsReached-refresh :
      (contracts : Contracts) (p : InstancePtr)
      → IsReached contracts p
      → IsReached (refresh libs chain contracts) p
  unfolding deref
  IsReached-refresh contracts no_ptr (i, h) = cc
  IsReached-refresh contracts (own j) (i, h) = (i, h)
  IsReached-refresh contracts (shared key n) (i, h) = elim (Option-cases (lookup key contracts)) [
    | inl missing ↦ absurd (ground (arith, missing))
    | inr (c, found) ↦
        let at : get_elem? c.instances n ≡ some i = ground (arith, found) in
        (
          refresh_instance libs chain i,
          ground (
            arith,
            lookup-refresh key contracts c found,
            get_elem?-map (refresh_instance libs chain) c.instances n i at,
          ),
        )
  ]

update_at-some :
    (f : ContractInstanceSpec → ContractInstanceSpec) (n m : ℕ) (is : List ContractInstanceSpec)
    (i : ContractInstanceSpec)
    → get_elem? is m ≡ some i
    → (j : ContractInstanceSpec) × (get_elem? (update_at f n is) m ≡ some j)
update_at-some f n m [] i h = cc
update_at-some f zero zero (x ∷ xs) i h = (f x, refl)
update_at-some f zero (suc m) (x ∷ xs) i h = (i, h)
update_at-some f (suc n) zero (x ∷ xs) i h = (i, h)
update_at-some f (suc n) (suc m) (x ∷ xs) i h = update_at-some f n m xs i h

update_shared-IsReached :
    (f : ContractInstanceSpec → ContractInstanceSpec) (key : Text) (n : ℕ) (contracts : Contracts)
    (c : ContractSpec) (p : InstancePtr)
    → lookup key contracts ≡ some c
    → IsReached contracts p
    → IsReached (insert key (record c { instances = update_at f n c.instances }) contracts) p
unfolding deref
update_shared-IsReached f key n contracts c no_ptr found (i, h) = cc
update_shared-IsReached f key n contracts c (own j) found (i, h) = (i, h)
update_shared-IsReached f key n contracts c (shared k m) found (i, h) =
    let c' : ContractSpec = record c { instances = update_at f n c.instances } in
    elim (Bool-cases (text_eq key k)) [
      | inl same ↦
          let q : key ≡ k = (text_eq_iff key k).0 same in
          let here : lookup k contracts ≡ some c = ap (λ t. lookup t contracts) (sym q) ∙ found in
          let at : get_elem? c.instances m ≡ some i = ground (arith, here) in
          let (j, new) = update_at-some f n m c.instances i at in
          (j, ground (arith, lookup-insert key k c' contracts, same, new))
      | inr other ↦ (i, ground (arith, lookup-insert key k c' contracts, other, h))
    ]

update_instance-IsReached :
    (f : ContractInstanceSpec → ContractInstanceSpec) (ptr : InstancePtr) (contracts : Contracts)
    (p : InstancePtr)
    → IsReached contracts p
    → IsReached (update_instance f ptr contracts) p
update_instance-IsReached f no_ptr contracts p h = h
update_instance-IsReached f (own j) contracts p h = h
update_instance-IsReached f (shared key n) contracts p h =
    elim (Option-cases (lookup key contracts)) [
      | inl missing ↦
          let q : update_instance f (shared key n) contracts ≡ contracts =
            ground (arith, missing) in
          rw q h
      | inr (c, found) ↦
          let q : update_instance f (shared key n) contracts
              ≡ insert key (record c { instances = update_at f n c.instances }) contracts =
            ground (arith, found) in
          rw q (update_shared-IsReached f key n contracts c p found h)
    ]

pub IsReached-after_deploy :
    (libs : Libs) (chain : Chain) (ptr : InstancePtr) (contracts : Contracts)
    (written : Result Error Written) (p : InstancePtr)
    → IsReached contracts p
    → IsReached (after_deploy libs chain ptr contracts written) p
unfolding after_deploy
IsReached-after_deploy libs chain ptr contracts panic p h = h
IsReached-after_deploy libs chain ptr contracts (err e) p h = h
IsReached-after_deploy libs chain ptr contracts (ok r) p h =
    elim (Option-cases (deployed_at r.request)) [
      | inl kept ↦
          let q : after_deploy libs chain ptr contracts (ok r) ≡ contracts = ground (arith, kept) in
          rw q h
      | inr (at, deployed) ↦
          let f : ContractInstanceSpec → ContractInstanceSpec =
            λ i. fetch_token_symbol libs chain (record i { address = at }) in
          let q : after_deploy libs chain ptr contracts (ok r) ≡ update_instance f ptr contracts =
            ground (arith, deployed) in
          rw q (update_instance-IsReached f ptr contracts p h)
    ]
