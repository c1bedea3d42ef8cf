-- ===== src/Executor/Send/Bound.antt =====
-- The run of a WRITE command keeps every instance bound.
use ethereum_playbook.Common.{
  ℕ, zero, suc, true, Option, none, some, List, [], ◌∷◌, Result, ok, err, panic, ◌≡◌, refl, arith,
  map, Bool-cases, Option-cases, inl, inr,
}
use ethereum_playbook.Common.Text.{Text, text_eq}
use ethereum_playbook.Common.Maps.{lookup, insert}
use ethereum_playbook.Errors.{Error}
use ethereum_playbook.Extern.{Libs}
use ethereum_playbook.Contracts.{
  Contracts, ContractSpec, ContractInstanceSpec, InstancePtr, no_ptr, own, shared, deref, is_bound,
}
use ethereum_playbook.Commands.{is_nil}
use ethereum_playbook.Contracts.Bound.{HasBound, AllBound, HasBound-get_elem?, AllBound-lookup}
use ethereum_playbook.Executor.Chain.{Chain, Written}
use ethereum_playbook.Executor.Send.{
  refresh, refresh_instance, upper_symbol, fetch_token_symbol, update_at, update_instance,
  deployed_at, after_deploy, instances_bound, all_bound, target_bound,
}
use ethereum_playbook.Executor.Send.Keep.{IsReached}

instances_bound-true : (is : List ContractInstanceSpec) → HasBound is → instances_bound is ≡ true
instances_bound-true [] all = refl
instances_bound-true (i ∷ is) (first, others) =
    ground (arith, first, instances_bound-true is others)

pub all_bound-true : (contracts : Contracts) → AllBound contracts → all_bound contracts ≡ true
unfolding all_bound
all_bound-true [] all = refl
all_bound-true ((key, c) ∷ rest) (first, others) =
    ground (arith, instances_bound-true c.instances first, all_bound-true rest others)

-- A pointer into the contracts of the specification.
abbrev pub IsShared : InstancePtr → Type 0
IsShared p = (key : Text) × (n : ℕ) × (p ≡ shared key n)

pub target_bound-nil :
    (contracts : Contracts) (p : InstancePtr) → is_nil p ≡ true → target_bound contracts p ≡ true
unfolding target_bound
target_bound-nil contracts no_ptr h = refl
target_bound-nil contracts (own i) h = cc
target_bound-nil contracts (shared key n) h = cc

-- An instance that such a pointer reaches is bound.
pub shared-is_bound :
    (contracts : Contracts) (p : InstancePtr) (i : ContractInstanceSpec)
    → AllBound contracts
    → IsShared p
    → deref contracts p ≡ some i
    → is_bound i ≡ true
unfolding deref
shared-is_bound contracts no_ptr i all (key, n, q) h = cc
shared-is_bound contracts (own j) i all (key, n, q) h = cc
shared-is_bound contracts (shared key n) i all q h = elim (Option-cases (lookup key contracts)) [
  | inl missing ↦ absurd (ground (arith, missing))
  | inr (c, found) ↦
      HasBound-get_elem? c.instances n i (AllBound-lookup contracts key c all found)
        (ground (arith, found))
]

pub target_bound-shared :
    (contracts : Contracts) (p : InstancePtr)
    → AllBound contracts
    → IsShared p
    → IsReached contracts p
    → target_bound contracts p ≡ true
unfolding target_bound
target_bound-shared contracts no_ptr all (key, n, q) reached = cc
target_bound-shared contracts (own j) all (key, n, q) reached = cc
target_bound-shared contracts (shared key n) all q (i, points) =
    ground (arith, points, shared-is_bound contracts (shared key n) i all q points)

module _ (libs : Libs) (chain : Chain) where
  upper_symbol-is_bound :
      (i : ContractInstanceSpec) (o : Option Text)
      → is_bound (upper_symbol libs chain i o) ≡ is_bound i
  upper_symbol-is_bound i none = refl
  upper_symbol-is_bound i (some s) = refl

  fetch_token_symbol-is_bound :
      (i : ContractInstanceSpec) → is_bound (fetch_token_symbol libs chain i) ≡ is_bound i
  unfolding fetch_token_symbol
  fetch_token_symbol-is_bound i = upper_symbol-is_bound i _

  refresh_instance-HasBound :
      (is : List ContractInstanceSpec)
      → HasBound is
      → HasBound (map (refresh_instance libs chain) is)
  refresh_instance-HasBound [] all = tt
  refresh_instance-HasBound (i ∷ is) (bound, others) =
      (ground (arith, bound, fetch_token_symbol-is_bound i), refresh_instance-HasBound is others)

  pub AllBound-refresh :
      (contracts : Contracts) → AllBound contracts → AllBound (refresh libs chain contracts)
  unfolding refresh
  AllBound-refresh [] all = tt
  AllBound-refresh ((key, c) ∷ rest) (bound, others) =
      (refresh_instance-HasBound c.instances bound, AllBound-refresh rest others)

  update_at-HasBound :
      (f : ContractInstanceSpec → ContractInstanceSpec)
      → ((i : ContractInstanceSpec) → is_bound i ≡ true → is_bound (f i) ≡ true)
      → (n : ℕ) (is : List ContractInstanceSpec) → HasBound is
      → HasBound (update_at f n is)
  update_at-HasBound f keeps n [] all = tt
  update_at-HasBound f keeps zero (i ∷ is) (bound, others) = (keeps i bound, others)
  update_at-HasBound f keeps (suc n) (i ∷ is) (bound, others) =
      (bound, update_at-HasBound f keeps n is others)

  AllBound-insert :
      (key : Text) (c : ContractSpec) (contracts : Contracts)
      → HasBound c.instances
      → AllBound contracts
      → AllBound (insert key c contracts)
  unfolding insert
  AllBound-insert key c [] bound all = (bound, tt)
  AllBound-insert key c ((k, d) ∷ rest) bound (first, others) = elim (Bool-cases (text_eq k key)) [
    | inl same ↦ rw same (bound, others)
    | inr other ↦ rw other (first, AllBound-insert key c rest bound others)
  ]

  update_instance-AllBound :
      (f : ContractInstanceSpec → ContractInstanceSpec)
      → ((i : ContractInstanceSpec) → is_bound i ≡ true → is_bound (f i) ≡ true)
      → (p : InstancePtr) (contracts : Contracts) → AllBound contracts
      → AllBound (update_instance f p contracts)
  update_instance-AllBound f keeps no_ptr contracts all = all
  update_instance-AllBound f keeps (own j) contracts all = all
  update_instance-AllBound f keeps (shared key n) contracts all =
      elim (Option-cases (lookup key contracts)) [
        | inl missing ↦
            let q : update_instance f (shared key n) contracts ≡ contracts =
              ground (arith, missing) in
            rw q all
        | inr (c, found) ↦
            let q : update_instance f (shared key n) contracts
                ≡ insert key (record c { instances = update_at f n c.instances }) contracts =
              ground (arith, found) in
            rw q (
              AllBound-insert key (record c { instances = update_at f n c.instances }) contracts
                (update_at-HasBound f keeps n c.instances
                  (AllBound-lookup contracts key c all found))
                all)
      ]

  pub AllBound-after_deploy :
      (ptr : InstancePtr) (contracts : Contracts) (written : Result Error Written)
      → AllBound contracts
      → AllBound (after_deploy libs chain ptr contracts written)
  unfolding after_deploy
  AllBound-after_deploy ptr contracts panic all = all
  AllBound-after_deploy ptr contracts (err e) all = all
  AllBound-after_deploy ptr contracts (ok r) all = elim (Option-cases (deployed_at r.request)) [
    | inl kept ↦
        let q : after_deploy libs chain ptr contracts (ok r) ≡ contracts = ground (arith, kept) in
        rw q all
    | inr (at, deployed) ↦
        let f : ContractInstanceSpec → ContractInstanceSpec =
          λ i. fetch_token_symbol libs chain (record i { address = at }) in
        let q : after_deploy libs chain ptr contracts (ok r) ≡ update_instance f ptr contracts =
          ground (arith, deployed) in
        rw q (
          update_instance-AllBound f
            (λ i bound. rw (fetch_token_symbol-is_bound (record i { address = at })) bound) ptr
            contracts all)
  ]
