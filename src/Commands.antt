-- ===== src/Commands.antt =====
-- model/cmds_call.go, cmds_read.go, cmds_write.go: the three kinds of commands and their validation.
-- The compiled regular expression of a command is not kept: nothing reads it again.
pub mod Write
pub mod Twice
use ethereum_playbook.Common.{
  ℕ, Bool, true, false, not, ◌&&◌, ◌||◌, Option, none, some, List, [], ◌∷◌, Result, ok, err, panic,
  ◌>>=◌, ◌>>◌, guard, or_err, if◌then◌else◌, is_empty, length,
}
use ethereum_playbook.Common.Text.{Text, codes, text_eq}
use ethereum_playbook.Common.Int.{ℤ}
use ethereum_playbook.Common.Maps.{Map, lookup}
use ethereum_playbook.Errors.{
  Error, wallet_reference, bad_regexp, no_wallets, no_method, instance_with_to, unknown_recipient,
  recipient_without_address,
}
use ethereum_playbook.Extern.{Libs}
use ethereum_playbook.Wallets.{Wallets, WalletSpec, get_all, get_one}
use ethereum_playbook.Contracts.{Contracts, InstancePtr, no_ptr, zero_address, select_instance}
use ethereum_playbook.Params.Refs.{is_wallet_ref}
use ethereum_playbook.Params.Spec
use ethereum_playbook.Params.Spec.{ParamSpec}
use ethereum_playbook.Valuer

pub record CallCmdSpec : Type 0 where
  pub param_spec : ParamSpec
  pub description : Text
  pub wallet : Text
  pub method : Text
  pub matching : List Text

pub record ViewCmdSpec : Type 0 where
  pub param_spec : ParamSpec
  pub description : Text
  pub wallet : Text
  pub method : Text
  pub contract_instance : InstancePtr
  pub matching : List Text

pub record WriteCmdSpec : Type 0 where
  pub param_spec : ParamSpec
  pub description : Text
  pub wallet : Text
  pub sticky : Text
  pub to : Text
  pub value : Text
  pub method : Text
  pub contract_instance : InstancePtr
  pub matching : Option Text

-- What a validation reads: the packages, the arguments, and two sections of the specification.
pub record Env : Type 0 where
  pub libs : Libs
  pub args : List Text
  pub wallets : Wallets
  pub contracts : Contracts

abbrev with_matches : List Text → Result Error (List Text)
with_matches matches = do guard (not (is_empty matches)) no_wallets; ok matches

-- The wallets of a CALL or VIEW command: all that the expression matches, if it is given.
unfoldable pub match_all : Env → Text → List Text → Result Error (List Text)
match_all env wallet matching = do
  guard (is_empty wallet || not (is_wallet_ref wallet)) wallet_reference
  rx ← or_err bad_regexp (env.libs.compile_regexp wallet)
  if is_empty wallet then ok matching else with_matches (get_all env.wallets rx)

-- CallCmdSpec.Validate
unfoldable pub validate_call : Env → CallCmdSpec → Result Error CallCmdSpec
validate_call env cmd = do
  matching ← match_all env cmd.wallet cmd.matching
  guard (not (is_empty cmd.method)) no_method
  ps ← Spec.validate env.libs env.args env.wallets cmd.param_spec
  ok (record cmd { matching = matching; param_spec = ps })

-- ViewCmdSpec.Validate
unfoldable pub validate_view : Env → ViewCmdSpec → Result Error ViewCmdSpec
validate_view env cmd = do
  matching ← match_all env cmd.wallet cmd.matching
  ptr ← select_instance env.contracts cmd.contract_instance
  guard (not (is_empty cmd.method)) no_method
  ps ← Spec.validate env.libs env.args env.wallets cmd.param_spec
  ok (record cmd { matching = matching; contract_instance = ptr; param_spec = ps })

-- A wallet expression that is missing becomes ".".
abbrev pub wallet_or_all : Text → Text
wallet_or_all wallet = if is_empty wallet then codes "." else wallet

abbrev pub sticky_or_name : Text → Text → Text
sticky_or_name sticky name = if is_empty sticky then name else sticky

abbrev with_match : Bool → Option Text → Result Error Text
with_match false m = err no_wallets
with_match true none = err no_wallets
with_match true (some w) = ok w

-- The wallet of a WRITE command: one that the expression matches, which must be given.
unfoldable pub match_one : Env → Text → WriteCmdSpec → Result Error Text
match_one env name cmd = do
  guard (is_empty cmd.wallet || not (is_wallet_ref cmd.wallet)) wallet_reference
  rx ← or_err bad_regexp (env.libs.compile_regexp (wallet_or_all cmd.wallet))
  with_match (not (is_empty cmd.wallet))
      (get_one env.libs env.wallets rx (sticky_or_name cmd.sticky name))

abbrev pub is_nil : InstancePtr → Bool
is_nil no_ptr = true
is_nil _ = false

abbrev recipient_address : WalletSpec → Result Error Text
recipient_address w = do
  guard (not (is_empty w.address || text_eq w.address zero_address)) recipient_without_address
  ok w.address

-- The recipient of a WRITE command: a wallet's name is replaced by the wallet's address.
unfoldable pub recipient : Wallets → Text → Result Error Text
recipient wallets to = do
  guard (not (is_wallet_ref to)) wallet_reference
  if text_eq to zero_address
      then ok to
      else (do w ← or_err unknown_recipient (lookup to wallets); recipient_address w)

-- Where a WRITE command sends: to an instance of a contract, or to a recipient.
unfoldable pub destination : Env → WriteCmdSpec → Result Error WriteCmdSpec
destination env cmd =
    if is_empty cmd.to
    then (do
      ptr ← select_instance env.contracts cmd.contract_instance
      ok (record cmd { contract_instance = ptr }))
    else if not (is_nil cmd.contract_instance)
    then err instance_with_to
    else (do to ← recipient env.wallets cmd.to; ok (record cmd { to = to }))

-- WriteCmdSpec.Validate
unfoldable pub validate_write : Env → Text → WriteCmdSpec → Result Error WriteCmdSpec
validate_write env name cmd = do
  matching ← match_one env name cmd
  cmd' ← destination env (record cmd {
    wallet = wallet_or_all cmd.wallet;
    sticky = sticky_or_name cmd.sticky name;
    matching = some matching;
  })
  ps ← Spec.validate env.libs env.args env.wallets cmd.param_spec
  ok (record cmd' { param_spec = ps })

-- CountArgsUsing and ArgCount of the three kinds
unfoldable pub count_args_using : ParamSpec → List ℤ → List ℤ
count_args_using spec set = Spec.count_args_using spec.params set

unfoldable pub count_args_using_write : WriteCmdSpec → List ℤ → List ℤ
count_args_using_write cmd set =
    Valuer.count_args_using cmd.value (Spec.count_args_using cmd.param_spec.params set)

unfoldable pub arg_count : ParamSpec → ℕ
unfolding count_args_using
arg_count spec = length (count_args_using spec [])

unfoldable pub arg_count_write : WriteCmdSpec → ℕ
unfolding count_args_using_write
arg_count_write cmd = length (count_args_using_write cmd [])
