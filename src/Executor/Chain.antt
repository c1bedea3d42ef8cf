-- ===== src/Executor/Chain.antt =====
-- executor/exec_write.go: what a WRITE command asks of the Geth node and the key cache, and what it
-- submits.
use ethereum_playbook.Common.{ℕ, Bool, Option, List}
use ethereum_playbook.Common.Text.{Text}
use ethereum_playbook.Common.Int.{ℤ}
use ethereum_playbook.Errors.{Error}
use ethereum_playbook.Values.{Value}

-- A transfer of ether, before it is signed.
pub record Transfer : Type 0 where
  pub nonce : ℕ
  pub recipient : Text
  pub amount : Option ℤ
  pub gas_limit : ℕ
  pub gas_price : Option ℤ

-- bind.TransactOpts; the value and the price are pointers.
pub record TransactOpts : Type 0 where
  pub from : Text
  pub value : Option ℤ
  pub gas_price : Option ℤ

-- The Geth node and the key cache during one WRITE command; `none` is an error. `packs` tells whether
-- the encoding of the parameters of a method, for the contract at an address, ends without a panic;
-- the constructor has no name and no address.
pub record Chain : Type 0 where
  pub symbol : Text → Option Text
  pub balance_at : Text → Option ℤ
  pub suggest_gas_price : Option ℤ
  pub nonce_at : Text → Option ℕ
  pub estimate_gas : Text → Text → Option ℤ → Option ℤ → Option ℕ
  pub cached_key : Text → Text → Option Text
  pub sign : Transfer → Option ℤ → Text → Option Text
  pub packs : Text → Text → List Value → Bool
  pub send : Text → Option Error
  -- the address and the hash
  pub deploy : TransactOpts → List Value → Option (Text × Text)
  pub transact : Text → TransactOpts → Text → List Value → Option Text

-- What a command submits.
pub data Request : Type 0 where
  sends_ether : Transfer → Request
  deploys : Text → TransactOpts → List Value → Request
  calls : Text → TransactOpts → Text → List Value → Request

-- The result of a command that reaches its submission: the hash may stand beside an error.
pub record Written : Type 0 where
  pub hash : Text
  pub failure : Option Error
  pub request : Request
