-- ===== src/Contracts/Bound.antt =====
-- The instances that have a bound contract.
use ethereum_playbook.Common.{
  ℕ, zero, suc, true, some, List, [], ◌∷◌, ok, ◌>>=◌, >>=-eq-ok, ◌≡◌, arith, All, get_elem?,
  Bool-cases, inl, inr,
}
use ethereum_playbook.Common.Text.{Text, text_eq}
use ethereum_playbook.Common.Maps.{lookup}
use ethereum_playbook.Extern.{Libs}
use ethereum_playbook.Contracts.{
  Contracts, ContractSpec, ContractInstanceSpec, is_bound, validate_instance, validate_instances,
  validate_contract, source_of, validate,
}

-- Every instance has a bound contract.
abbrev pub HasBound : List ContractInstanceSpec → Type 0
HasBound is = All (λ i. is_bound i ≡ true) is

abbrev pub AllBound : Contracts → Type 0
AllBound [] = Unit
AllBound ((key, c) ∷ rest) = HasBound c.instances × AllBound rest

pub HasBound-get_elem? :
    (is : List ContractInstanceSpec) (n : ℕ) (i : ContractInstanceSpec)
    → HasBound is
    → get_elem? is n ≡ some i
    → is_bound i ≡ true
HasBound-get_elem? [] n i all h = cc
HasBound-get_elem? (j ∷ js) zero i (own, others) h = let q : i ≡ j = ground arith in rw q own
HasBound-get_elem? (j ∷ js) (suc n) i (own, others) h = HasBound-get_elem? js n i others h

pub AllBound-lookup :
    (contracts : Contracts) (key : Text) (c : ContractSpec)
    → AllBound contracts
    → lookup key contracts ≡ some c
    → HasBound c.instances
unfolding lookup
AllBound-lookup [] key c all h = cc
AllBound-lookup ((k, d) ∷ rest) key c (own, others) h = elim (Bool-cases (text_eq k key)) [
  | inl same ↦ let q : c ≡ d = ground (arith, same) in rw q own
  | inr other ↦ AllBound-lookup rest key c others (ground (arith, other))
]

module _ (libs : Libs) where
  validate_instance-is_bound :
      (src : Text) (i j : ContractInstanceSpec)
      → validate_instance libs src i ≡ ok j
      → is_bound j ≡ true
  unfolding validate_instance
  validate_instance-is_bound src i j h = elim (Bool-cases (libs.binds src)) [
    | inr fails ↦ absurd (ground (arith, fails))
    | inl binds ↦ ground (arith, binds)
  ]

  validate_instances-HasBound :
      (src : Text) (is js : List ContractInstanceSpec)
      → validate_instances libs src is ≡ ok js
      → HasBound js
  unfolding validate_instances
  validate_instances-HasBound src [] js h = let q : js ≡ [] = ground arith in rw q tt
  validate_instances-HasBound src (i ∷ is) js h =
      let more = validate_instances libs src is in
      let (j, own, h1) =
        >>=-eq-ok (validate_instance libs src i) (λ j. more >>= λ ks. ok (j ∷ ks)) h in
      let (ks, others, done) = >>=-eq-ok more (λ ks. ok (j ∷ ks)) h1 in
      let q : js ≡ j ∷ ks = ground arith in
      rw q (validate_instance-is_bound src i j own, validate_instances-HasBound src is ks others)

  -- Contracts.Validate binds every instance of the contracts that it accepts.
  pub validate-AllBound :
      (dir : Text) (contracts contracts' : Contracts)
      → validate libs dir contracts ≡ ok contracts'
      → AllBound contracts'
  unfolding validate
  validate-AllBound dir [] contracts' h = let q : contracts' ≡ [] = ground arith in rw q tt
  validate-AllBound dir ((key, c) ∷ rest) contracts' h =
      let more = validate libs dir rest in
      let (d, _, h1) =
        >>=-eq-ok (validate_contract libs dir c)
          (λ d. validate_instances libs (source_of d) d.instances >>= λ is.
            more >>= λ ds. ok ((key, record d { instances = is }) ∷ ds))
          h in
      let (is, own, h2) =
        >>=-eq-ok (validate_instances libs (source_of d) d.instances)
          (λ is. more >>= λ ds. ok ((key, record d { instances = is }) ∷ ds)) h1 in
      let (ds, others, done) =
        >>=-eq-ok more (λ ds. ok ((key, record d { instances = is }) ∷ ds)) h2 in
      let q : contracts' ≡ (key, record d { instances = is }) ∷ ds = ground arith in
      rw q (
        validate_instances-HasBound (source_of d) d.instances is own,
        validate-AllBound dir rest ds others,
      )
