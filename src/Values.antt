-- ===== src/Values.antt =====
-- The Go values that move through `interface{}`: parameters, results of evaluations and fields.
use ethereum_playbook.Common.{ℕ, Bool, Option, some, List, Result, ok, panic}
use ethereum_playbook.Common.Text.{Text}
use ethereum_playbook.Common.Int.{ℤ}
use ethereum_playbook.Errors.{Error}

-- model/wallets.go, WalletFieldReference
pub record WalletFieldReference : Type 0 where
  pub wallet_name : Text
  pub field_name : Text

-- The dynamic types that the program makes or tests. `int w` and `uint w` are intN and uintN.
pub data Value : Type 0 where
  nil : Value
  text : Text → Value
  boolean : Bool → Value
  -- *big.Int, which may be nil, and *big.Float by its text
  big : Option ℤ → Value
  float : Text → Value
  int : ℕ → ℤ → Value
  uint : ℕ → ℕ → Value
  -- []byte, and [n]byte as an array of n bytes
  bytes : List ℕ → Value
  static_bytes : ℕ → List ℕ → Value
  address : Text → Value
  wallet_reference : WalletFieldReference → Value
  arg_reference : ℤ → Value

-- The type assertion `v.(*big.Int)`, for a value that is not nil.
abbrev pub as_big : Value → Result Error ℤ
as_big (big (some z)) = ok z
as_big _ = panic
