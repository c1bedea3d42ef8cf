-- ===== src/Tests/Writing.antt =====
-- The run of WRITE commands and of targets at concrete inputs.
use ethereum_playbook.Common.{
  ℕ, Bool, true, false, ◌||◌, Option, none, some, List, [], ◌∷◌, Result, ok, ◌≡◌, ◌≤◌, refl, All,
  map, take,
}
use ethereum_playbook.Common.Text.{Text, codes}
use ethereum_playbook.Common.Int.{pos}
use ethereum_playbook.Values.{text}
use ethereum_playbook.Targets.{Cmds, name, cmd_names}
use ethereum_playbook.Executor.{CommandResult}
use ethereum_playbook.Common.Text.{text_eq}
use ethereum_playbook.Common.Maps.{lookup}
use ethereum_playbook.Executor.Chain.{Chain}
use ethereum_playbook.Executor.Send.{price, limit, greater}
use ethereum_playbook.Executor.Send.Gas.{price_lem}
use ethereum_playbook.Executor.Target.{Runner, run_target}
use ethereum_playbook.Executor.Target.Order.{sent_names, run_target-cmd_names}
use ethereum_playbook.Tests.Running.{encodes}
use ethereum_playbook.Tests.Sending.{two_cmds}

price_lem_example :
    (greater (pos 50) (pos 50) ≡ false)
    × (greater (pos 40) (pos 50) ≡ false)
    × (limit (some 1000) (some 21) ≤ 1000)
unfolding price
price_lem_example = price_lem (pos 50) (pos 40) (pos 50) 1000 (some 21) refl

abbrev pub quiet_chain : Chain
quiet_chain = record {
  symbol = λ at. none;
  balance_at = λ at. some (pos 9);
  suggest_gas_price = some (pos 50);
  nonce_at = λ at. some 3;
  estimate_gas = λ from to amount gas. some 21000;
  cached_key = λ at password. some (codes "key");
  sign = λ tx chain_id key. some (codes "0xAB");
  packs = λ at method ps. encodes ps;
  send = λ hash. none;
  deploy = λ opts ps. none;
  transact = λ at opts method ps. none;
}

abbrev mined_result : CommandResult
mined_result = record { name = []; wallet = []; result = text (codes "tx:0x1"); error = none }

abbrev counting : Runner ℕ
counting = record {
  run_call = λ s cmd. (s, some []);
  run_view = λ s cmd. (s, some []);
  run_write = λ s cmd. (s, some (mined_result ∷ []));
  await = λ s v. (s, none);
}

run_target-cmd_names_example :
    (k : ℕ) × (sent_names (run_target counting two_cmds (codes "block" ∷ codes "pay &" ∷ []) 0)
      ≡ take k (cmd_names (codes "block" ∷ codes "pay &" ∷ [])))
unfolding name ethereum_playbook.Common.Maps.member ethereum_playbook.Common.Text.text_eq
    ethereum_playbook.Common.Text.trim_space ethereum_playbook.Common.Text.trim_suffix
    ethereum_playbook.Common.Text.has_prefix ethereum_playbook.Targets.is_deferred
    ethereum_playbook.Common.Text.has_suffix
run_target-cmd_names_example =
    run_target-cmd_names counting two_cmds (codes "block" ∷ codes "pay &" ∷ []) 0 (refl, (refl, tt))
