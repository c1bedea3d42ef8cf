-- ===== src/Contracts/Instances.antt =====
-- The instance that a command is given exists.
use ethereum_playbook.Common.{
  ℕ, zero, suc, Bool, true, false, some, List, [], ◌∷◌, ok, ◌≡◌, ◌⊎◌, inl, inr, refl, arith,
  is_empty, get_elem?, Bool-cases, Option-cases,
}
use ethereum_playbook.Common.Text.{Text, text_eq, text_eq_iff, to_lower}
use ethereum_playbook.Common.Maps.{lookup}
use ethereum_playbook.Contracts.{
  Contracts, ContractSpec, ContractInstanceSpec, InstancePtr, shared, position, deref, select_in,
  select, select_instance,
}

-- A position that is found is that of an instance that passes the test.
pub position_sound :
    (p : ContractInstanceSpec → Bool) (is : List ContractInstanceSpec) (n : ℕ)
    → position p is ≡ some n
    → (i : ContractInstanceSpec) × (get_elem? is n ≡ some i) × (p i ≡ true)
unfolding position
position_sound p [] n h = cc
position_sound p (i ∷ is) zero h = elim (Bool-cases (p i)) [
  | inl passes ↦ (i, refl, passes)
  | inr fails ↦ absurd (ground (arith, fails))
]
position_sound p (i ∷ is) (suc n) h =
    let (j, at, passes) = position_sound p is n (ground arith) in (j, at, passes)

-- The pointer is that of an instance of the contract with this name: of the first one, if no address
-- was asked for, and otherwise of one that has the address, up to case.
pub record Selected (contracts : Contracts) (name address : Text) (ptr : InstancePtr) : Type 0 where
  pub contract : ContractSpec
  pub place : ℕ
  pub contract_instance : ContractInstanceSpec
  pub found : lookup name contracts ≡ some contract
  pub there : get_elem? contract.instances place ≡ some contract_instance
  pub pointer : ptr ≡ shared name place
  pub matches :
      ((is_empty address ≡ true) × (place ≡ 0))
      ⊎ ((is_empty address ≡ false) × (to_lower contract_instance.address ≡ address))

-- Such a pointer points to its instance.
pub Selected-points :
    (contracts : Contracts) (name address : Text) (ptr : InstancePtr)
    → Selected contracts name address ptr
    → (i : ContractInstanceSpec) × (deref contracts ptr ≡ some i)
unfolding deref
Selected-points contracts name address ptr s =
    let q : ptr ≡ shared name s.place = s.pointer in
    let found : lookup name contracts ≡ some s.contract = s.found in
    let there : get_elem? s.contract.instances s.place ≡ some s.contract_instance = s.there in
    (s.contract_instance, rw q (ground (arith, found, there)))

head_of :
    (is : List ContractInstanceSpec)
    → is_empty is ≡ false
    → (i : ContractInstanceSpec) × (get_elem? is 0 ≡ some i)
head_of [] h = cc
head_of (i ∷ is) h = (i, refl)

module _ (contracts : Contracts) (key address : Text) (c : ContractSpec)
    (found : lookup key contracts ≡ some c) where
  select_in-Selected :
      (ptr : InstancePtr)
      → is_empty c.instances ≡ false
      → select_in key address c ≡ ok ptr
      → Selected contracts key address ptr
  select_in-Selected ptr some_instance h = elim (Bool-cases (is_empty address)) [
    | inl e ↦
        let (i, first) = head_of c.instances some_instance in
        let q : ptr ≡ shared key 0 = ground (arith, e) in
        rw q (record {
          contract = c;
          place = 0;
          contract_instance = i;
          found = found;
          there = first;
          pointer = refl;
          matches = inl (e, refl);
        })
    | inr n ↦
        elim (Option-cases (position (λ i. text_eq (to_lower i.address) address) c.instances)) [
          | inl missing ↦ absurd (ground (arith, n, missing))
          | inr (k, e) ↦
              let (i, at, same) =
                position_sound (λ i. text_eq (to_lower i.address) address) c.instances k e in
              let q : ptr ≡ shared key k = ground (arith, n, e) in
              rw q (record {
                contract = c;
                place = k;
                contract_instance = i;
                found = found;
                there = at;
                pointer = refl;
                matches = inr (n, (text_eq_iff _ _).0 same);
              })
        ]
  ]

select-Selected :
    (contracts : Contracts) (i : ContractInstanceSpec) (result : InstancePtr)
    → select contracts i ≡ ok result
    → Selected contracts i.name (to_lower i.address) result
select-Selected contracts i result h = elim (Option-cases (lookup i.name contracts)) [
  | inl missing ↦ absurd (ground (arith, missing))
  | inr (c, found) ↦
      select_in-Selected contracts i.name (to_lower i.address) c found result
        (ground (arith, found)) (ground (arith, found))
]

-- A command whose instance is accepted points to an instance of the contract of that name: the first
-- one if no address is given, and otherwise one with the given address.
pub select_instance-Selected :
    (contracts : Contracts) (ptr : InstancePtr) (i : ContractInstanceSpec) (result : InstancePtr)
    → deref contracts ptr ≡ some i
    → select_instance contracts ptr ≡ ok result
    → Selected contracts i.name (to_lower i.address) result
select_instance-Selected contracts ptr i result points h =
    select-Selected contracts i result (unfold select_instance in ground (arith, points))

-- A pointer that the search gives is that of an instance of a contract.
pub select_instance-Searched :
    (contracts : Contracts) (from ptr : InstancePtr)
    → select_instance contracts from ≡ ok ptr
    → (name : Text) × (address : Text) × Selected contracts name address ptr
select_instance-Searched contracts from ptr chosen = elim (Option-cases (deref contracts from)) [
  | inl missing ↦ absurd (unfold select_instance in ground (arith, missing))
  | inr (i, points) ↦
      (i.name, to_lower i.address, select_instance-Selected contracts from i ptr points chosen)
]

pub select_instance-points :
    (contracts : Contracts) (from ptr : InstancePtr)
    → select_instance contracts from ≡ ok ptr
    → (i : ContractInstanceSpec) × (deref contracts ptr ≡ some i)
select_instance-points contracts from ptr chosen =
    let (name, address, s) = select_instance-Searched contracts from ptr chosen in
    Selected-points contracts name address ptr s
