-- ===== src/Extern.antt =====
-- The third-party packages and the host that the playbook calls: go-ethereum, sbinet/go-eval, the
-- regular expressions, the hash ring, solc and the file system. They are parameters of the model.
use ethereum_playbook.Common.{ℕ, Bool, Option, List}
use ethereum_playbook.Common.Text.{Text}
use ethereum_playbook.Common.Int.{ℤ}
use ethereum_playbook.Common.Maps.{Map}

-- `Code.Run` and `Value.String`.
pub data Run : Type 0 where
  run_error : Run
  prints : Text → Run

-- `World.Compile`: an error, code with no type, or code with the name of its type.
pub data Compiled : Type 0 where
  compile_error : Compiled
  untyped : Compiled
  typed : Text → Run → Compiled

-- `big.ParseFloat` with `IsInt` and `Int`; there are no floats here, so their text stands for them.
pub data Float : Type 0 where
  not_a_float : Float
  whole : ℤ → Float
  fractional : Float

pub record Libs : Type 0 where
  -- common.IsHexAddress, common.HexToAddress (20 bytes) and Address.Hex
  pub is_hex_address : Text → Bool
  pub hex_to_address : Text → Text
  pub address_hex : Text → Text
  -- go-eval
  pub compile : Text → Compiled
  pub parse_float : Text → Float
  -- regexp.Compile and MatchString
  pub compile_regexp : Text → Option (Text → Bool)
  -- hashring.New(names).GetNode(hash), "" where there is no node
  pub get_node : List Text → Text → Text
  -- time.ParseDuration, in nanoseconds, and ethfw.Gwei(n).String()
  pub parse_duration : Text → Option ℤ
  pub gwei_text : ℕ → Text
  -- rpc.Dial, and a call of net_version on the client
  pub dials : Text → Bool
  pub answers : Text → Bool
  -- path/filepath and os.Stat
  pub is_abs : Text → Bool
  pub from_slash : Text → Text
  pub join_path : Text → Text → Text
  pub is_file : Text → Bool
  -- the contracts that solc finds in a file of a directory, and ethfw.BindContract
  pub compile_sol : Text → Text → Option (Map Text)
  pub binds : Text → Bool
