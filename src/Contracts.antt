-- ===== src/Contracts.antt =====
-- model/contracts.go: contract specifications and their instances. Commands share the instances by
-- pointer: the contract's key and a position stand for one.
pub mod Bound
pub mod Instances
use ethereum_playbook.Common.{
  ℕ, zero, suc, ◌+◌, Bool, true, false, not, ◌&&◌, ◌||◌, Option, none, some, List, [], ◌∷◌, Result,
  ok, err, panic, ◌>>=◌, ◌>>◌, guard, or_err, if◌then◌else◌, is_empty, get_elem?,
}
use ethereum_playbook.Common.Text.{Text, codes, text_eq, to_upper, to_lower}
use ethereum_playbook.Common.Maps.{Map, lookup}
use ethereum_playbook.Errors.{
  Error, no_root_name, no_sol_path, no_sol_file, bad_sol_file, unknown_contract, undeployable,
  bad_instance_address, unbound, no_instance, no_contract_name, no_contract, no_instances,
  address_mismatch,
}
use ethereum_playbook.Extern.{Libs}

abbrev pub zero_address : Text
zero_address = codes "0x0"

-- `binding` is the *ethfw.BoundContract, by the source that it binds.
pub record ContractInstanceSpec : Type 0 where
  pub name : Text
  pub address : Text
  pub binding : Option Text
  pub token_symbol : Text

pub record ContractSpec : Type 0 where
  pub name : Text
  pub sol_path : Text
  pub instances : List ContractInstanceSpec
  pub src : Option Text

-- `map[string]*ContractSpec`; no entry is a nil pointer.
abbrev pub Contracts : Type 0
Contracts = Map ContractSpec

-- A *ContractInstanceSpec of a command: nil, an object of its own as the YAML gives it, or an
-- instance of a contract.
pub data InstancePtr : Type 0 where
  no_ptr : InstancePtr
  own : ContractInstanceSpec → InstancePtr
  shared : Text → ℕ → InstancePtr

-- Contracts.UseSolc
unfoldable pub use_solc : Contracts → Bool
use_solc [] = false
use_solc ((key, c) ∷ rest) = not (is_empty c.sol_path) || use_solc rest

-- ContractSpec.Validate
unfoldable pub validate_contract : Libs → Text → ContractSpec → Result Error ContractSpec
validate_contract libs dir spec = do
  guard (not (is_empty spec.name)) no_root_name
  guard (not (is_empty spec.sol_path)) no_sol_path
  let path = if libs.is_abs spec.sol_path then spec.sol_path else libs.from_slash spec.sol_path
  guard (libs.is_file (libs.join_path dir path)) no_sol_file
  sources ← or_err bad_sol_file (libs.compile_sol dir path)
  src ← or_err unknown_contract (lookup spec.name sources)
  ok (record spec { sol_path = path; src = some src })

-- ContractInstanceSpec.IsDeployed
unfoldable pub is_deployed : ContractInstanceSpec → Bool
is_deployed i = not (is_empty i.address) && not (text_eq i.address zero_address)

-- ContractInstanceSpec.Validate
unfoldable pub validate_instance :
    Libs → Text → ContractInstanceSpec → Result Error ContractInstanceSpec
validate_instance libs src spec = do
  (if is_empty spec.address || text_eq spec.address zero_address
      then guard (not (is_empty spec.name)) undeployable
      else guard (libs.is_hex_address spec.address) bad_instance_address)
  guard (libs.binds src) unbound
  ok (record spec { binding = some src })

unfoldable pub validate_instances :
    Libs → Text → List ContractInstanceSpec → Result Error (List ContractInstanceSpec)
validate_instances libs src [] = ok []
validate_instances libs src (i ∷ is) = do
  i' ← validate_instance libs src i
  is' ← validate_instances libs src is
  ok (i' ∷ is')

abbrev source_of : ContractSpec → Text
source_of c = elim c.src [ none ↦ [] | some src ↦ src ]

-- Contracts.Validate
unfoldable pub validate : Libs → Text → Contracts → Result Error Contracts
validate libs dir [] = ok []
validate libs dir ((key, c) ∷ rest) = do
  c' ← validate_contract libs dir c
  instances ← validate_instances libs (source_of c') c'.instances
  rest' ← validate libs dir rest
  ok ((key, record c' { instances = instances }) ∷ rest')

-- Whether an instance has a bound contract, which validation gives it.
abbrev pub is_bound : ContractInstanceSpec → Bool
is_bound i = elim i.binding [ none ↦ false | some src ↦ true ]

-- The position of the first instance that passes a test.
unfoldable pub position : (ContractInstanceSpec → Bool) → List ContractInstanceSpec → Option ℕ
position p [] = none
position p (i ∷ is) =
    let rest = position p is in
    if p i then some 0 else elim rest [ none ↦ none | some n ↦ some (suc n) ]

-- The first instance that passes a test.
abbrev find_instance :
    (ContractInstanceSpec → Bool) → List ContractInstanceSpec → Option ContractInstanceSpec
find_instance p [] = none
find_instance p (i ∷ is) = let rest = find_instance p is in if p i then some i else rest

-- Contracts.FindByTokenSymbol
unfoldable pub find_by_token_symbol : Contracts → Text → Option ContractInstanceSpec
find_by_token_symbol [] symbol = none
find_by_token_symbol ((key, c) ∷ rest) symbol =
    let others = find_by_token_symbol rest symbol in
    elim (find_instance (λ i. text_eq i.token_symbol (to_upper symbol)) c.instances) [
      | none ↦ others
      | some i ↦ some i
    ]

-- The instance that a pointer points to.
unfoldable pub deref : Contracts → InstancePtr → Option ContractInstanceSpec
deref contracts no_ptr = none
deref contracts (own i) = some i
deref contracts (shared key n) = elim (lookup key contracts) [
  | none ↦ none
  | some c ↦ get_elem? c.instances n
]

abbrev select_in : Text → Text → ContractSpec → Result Error InstancePtr
select_in key address c =
    if is_empty address
    then ok (shared key 0)
    else elim (position (λ i. text_eq (to_lower i.address) address) c.instances) [
      | none ↦ err address_mismatch
      | some n ↦ ok (shared key n)
    ]

abbrev select : Contracts → ContractInstanceSpec → Result Error InstancePtr
select contracts i = do
  guard (not (is_empty i.name)) no_contract_name
  c ← or_err no_contract (lookup i.name contracts)
  guard (not (is_empty c.instances)) no_instances
  select_in i.name (to_lower i.address) c

-- The search for the instance of a command, in ViewCmdSpec.Validate and WriteCmdSpec.Validate: the
-- contract by name, and its first instance or the one with the given address.
unfoldable pub select_instance : Contracts → InstancePtr → Result Error InstancePtr
unfolding deref
select_instance contracts ptr = do i ← or_err no_instance (deref contracts ptr); select contracts i
