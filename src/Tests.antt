-- ===== src/Tests.antt =====
-- The data of the tests: packages, wallets and commands that are written out.
pub mod Model
pub mod Selecting
pub mod Sending
pub mod Running
pub mod Writing
pub mod Keys
pub mod Printing
pub mod Session
pub mod Commands
use ethereum_playbook.Common.{
  ℕ, Bool, true, false, ◌||◌, ◌==◌, Option, none, some, List, [], ◌∷◌, if◌then◌else◌,
}
use ethereum_playbook.Common.Text.{Text, codes, text_eq}
use ethereum_playbook.Common.Int.{pos}
use ethereum_playbook.Extern.{Libs, Compiled, typed, prints, fractional}
use ethereum_playbook.Wallets.{Wallets, WalletSpec}

abbrev has_byte : ℕ → Text → Bool
has_byte b [] = false
has_byte b (c ∷ cs) = b == c || has_byte b cs

abbrev compile_literal : Text → Compiled
compile_literal s =
    typed (if has_byte b'.' s then codes "ideal float" else codes "ideal integer") (prints s)

abbrev first_name : List Text → Text
first_name [] = []
first_name (name ∷ names) = name

-- Packages that evaluate literals, match every name, and pick the first node.
abbrev pub test_libs : Libs
test_libs = record {
  is_hex_address = λ s. true;
  hex_to_address = λ s. s;
  address_hex = λ s. s;
  compile = compile_literal;
  parse_float = λ s. fractional;
  compile_regexp = λ rx. some (λ name. true);
  get_node = λ names hash. first_name names;
  parse_duration = λ s. some (pos 600000000000);
  gwei_text = λ n. codes "40000000000";
  dials = λ node. true;
  answers = λ node. text_eq node (codes "live");
  is_abs = λ path. true;
  from_slash = λ path. path;
  join_path = λ dir path. path;
  is_file = λ path. true;
  compile_sol = λ dir path. some [];
  binds = λ src. true;
}

abbrev pub alice : WalletSpec
alice = record {
  address = codes "0xa1";
  priv_key = [];
  password = codes "secret";
  key_store = [];
  key_file = [];
  balance = some (pos 7);
  priv = none;
}

abbrev pub bob : WalletSpec
bob = record {
  address = codes "0xb0";
  priv_key = codes "k";
  password = [];
  key_store = [];
  key_file = [];
  balance = none;
  priv = none;
}

abbrev pub two_wallets : Wallets
two_wallets = (codes "bob", bob) ∷ (codes "alice", alice) ∷ []
