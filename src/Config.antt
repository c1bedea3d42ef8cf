-- ===== src/Config.antt =====
-- model/config.go: the global parameters.
pub mod Defaults
use ethereum_playbook.Common.{
  ℕ, Bool, true, false, Option, none, some, List, [], ◌∷◌, ◌++◌, if◌then◌else◌, is_empty, leb, ◌-◌,
  ◌^◌,
}
use ethereum_playbook.Common.Text.{Text, codes}
use ethereum_playbook.Common.Int.{ℤ}
use ethereum_playbook.Common.Decimal.{natural, integer}
use ethereum_playbook.Errors.{Error, bad_gas_price, bad_gas_limit, bad_chain_id, bad_await_timeout}
use ethereum_playbook.Extern.{Libs}

pub record ConfigSpec : Type 0 where
  pub gas_price : Text
  pub gas_limit : Text
  pub chain_id : Text
  pub await_timeout : Text
  pub spec_dir : Text

-- DefaultConfigSpec
unfoldable pub default_config : Libs → ConfigSpec
default_config libs = record {
  gas_price = libs.gwei_text 40;
  gas_limit = codes "10000000";
  chain_id = codes "1";
  await_timeout = codes "10m";
  spec_dir = [];
}

abbrev fitting : ℕ → Option ℕ
fitting n = if leb n (2 ^ 64 - 1) then some n else none

abbrev fit : Option ℕ → Option ℕ
fit none = none
fit (some n) = fitting n

-- GasLimitInt: strconv.ParseUint in base 10, to 64 bits.
unfoldable pub gas_limit_int : ConfigSpec → Option ℕ
gas_limit_int spec = fit (natural spec.gas_limit)

-- GasPriceInt
unfoldable pub gas_price_int : ConfigSpec → Option ℤ
gas_price_int spec = integer spec.gas_price

-- ChainIDInt
unfoldable pub chain_id_int : ConfigSpec → Option ℤ
chain_id_int spec = integer spec.chain_id

-- AwaitTimeoutDuration
unfoldable pub await_timeout_duration : Libs → ConfigSpec → Option ℤ
await_timeout_duration libs spec = libs.parse_duration spec.await_timeout

-- A field that is given is parsed, and one that is not takes its default.
abbrev pub or_default : Text → Text → Text
or_default given default = if is_empty given then default else given

abbrev pub logs {ℓ} : {A : Type ℓ} → Text → Option A → Error → List Error
logs given (some a) e = []
logs given none e = if is_empty given then [] else e ∷ []

-- What ConfigSpec.Validate returns, writes and logs.
pub record Validated : Type 0 where
  pub accepted : Bool
  pub config : ConfigSpec
  pub logged : List Error

-- ConfigSpec.Validate: a field that does not parse is logged, and `true` is returned all the same.
unfoldable pub validate : Libs → ConfigSpec → Validated
validate libs spec = record {
  accepted = true;
  config = record spec {
    gas_price = or_default spec.gas_price (default_config libs).gas_price;
    gas_limit = or_default spec.gas_limit (default_config libs).gas_limit;
    chain_id = or_default spec.chain_id (default_config libs).chain_id;
    await_timeout = or_default spec.await_timeout (default_config libs).await_timeout;
  };
  logged =
      logs spec.gas_price (gas_price_int spec) bad_gas_price
      ++ (logs spec.gas_limit (gas_limit_int spec) bad_gas_limit
          ++ (logs spec.chain_id (chain_id_int spec) bad_chain_id
              ++ logs spec.await_timeout (await_timeout_duration libs spec) bad_await_timeout));
}
