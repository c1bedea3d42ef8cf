-- ===== src/Tests/Selecting.antt =====
-- Wallets, contracts, the inventory and the configuration at concrete inputs.
use mathlib.Core.List.{Perm, Permᴰ}
use ethereum_playbook.Common.{
  Bool, true, ◌&&◌, none, some, List, [], ◌∷◌, ◌≡◌, ◌≢◌, refl, arith, ◌↔◌,
}
use ethereum_playbook.Common.Text.{Text, codes, text_eq, text_eq_refl, to_lower, split}
use ethereum_playbook.Common.Maps.{keys, lookup, member}
use ethereum_playbook.Common.Sort.{matching, insert_sorted, text_leb, IsSorted, sort_strings}
use ethereum_playbook.Common.Decimal.{natural, integer}
use ethereum_playbook.Wallets.{Wallets, get_all, get_one, has_field, new_wallet_field_reference}
use ethereum_playbook.Wallets.References.{Resolves, new_wallet_field_reference-Resolves}
use ethereum_playbook.Wallets.Selection.{get_all_lem, selection_order, get_one_lem}
use ethereum_playbook.Contracts.{
  Contracts, ContractInstanceSpec, own, shared, select_instance, position,
}
use ethereum_playbook.Contracts.Instances.{Selected, select_instance-Selected}
use ethereum_playbook.Inventory.{Inventory}
use ethereum_playbook.Inventory
use ethereum_playbook.Config.{
  default_config, gas_price_int, gas_limit_int, chain_id_int, await_timeout_duration,
}
use ethereum_playbook.Config
use ethereum_playbook.Config.Defaults.{IsUsable, validate-IsUsable}
use ethereum_playbook.Tests.{test_libs, two_wallets, alice, bob}

abbrev any : Text → Bool
any name = true

get_all_lem_example :
    IsSorted (get_all two_wallets any)
    × ((name : Text)
        → member name (get_all two_wallets any) ≡ (member name (keys two_wallets) && any name))
get_all_lem_example = get_all_lem two_wallets any

abbrev other_order : Wallets
other_order = (codes "alice", alice) ∷ (codes "bob", bob) ∷ []

same_keys : Perm (keys two_wallets) (keys other_order)
same_keys = ∣ Permᴰ.swap refl refl ∣₁

selection_order_example :
    (get_all two_wallets any ≡ get_all other_order any)
    × (get_one test_libs two_wallets any (codes "s")
        ≡ get_one test_libs other_order any (codes "s"))
selection_order_example =
    selection_order two_wallets other_order same_keys test_libs any (codes "s")

picks_member :
    (names : List Text) → names ≢ [] → member (test_libs.get_node names (codes "s")) names ≡ true
unfolding member
picks_member [] h = absurd (h refl)
picks_member (name ∷ names) h = ground (arith, text_eq_refl name)

some_wallet : get_all two_wallets any ≢ []
unfolding get_all sort_strings matching insert_sorted text_leb
some_wallet h = absurd (ground arith)

get_one_lem_example :
    (name : Text) × (get_one test_libs two_wallets any (codes "s") ≡ some name) × (any name ≡ true)
get_one_lem_example = get_one_lem test_libs two_wallets any (codes "s") picks_member some_wallet

new_wallet_field_reference-Resolves_example :
    Resolves two_wallets (record { wallet_name = codes "alice"; field_name = codes "balance" })
unfolding new_wallet_field_reference split lookup text_eq has_field
new_wallet_field_reference-Resolves_example =
    new_wallet_field_reference-Resolves two_wallets (codes "@alice.balance") refl

abbrev token_at : Text → ContractInstanceSpec
token_at address = record {
  name = codes "token";
  address = address;
  binding = none;
  token_symbol = codes "TOK";
}

abbrev two_instances : Contracts
two_instances =
    (
      codes "token",
      record {
        name = codes "Token";
        sol_path = codes "t.sol";
        instances = token_at (codes "0x0") ∷ token_at (codes "0xAB") ∷ [];
        src = none;
      },
    )
    ∷ []

select_instance-Selected_example :
    Selected two_instances (codes "token") (codes "0xab") (shared (codes "token") 1)
unfolding select_instance lookup text_eq position to_lower
select_instance-Selected_example =
    select_instance-Selected two_instances (own (token_at (codes "0xab"))) (token_at (codes "0xab"))
      (shared (codes "token") 1) refl refl

abbrev two_nodes : Inventory
two_nodes = (codes "main", codes "dead" ∷ codes "live" ∷ []) ∷ []

default_IsUsable : IsUsable test_libs (default_config test_libs)
unfolding default_config gas_price_int gas_limit_int chain_id_int await_timeout_duration integer
    natural
default_IsUsable = record { price = λ h. cc; limit = λ h. cc; chain = λ h. cc; timeout = λ h. cc }

validate-IsUsable_example :
    ((Config.validate test_libs (default_config test_libs)).accepted ≡ true)
    × (((Config.validate test_libs (default_config test_libs)).logged ≡ [])
        ↔ IsUsable test_libs (Config.validate test_libs (default_config test_libs)).config)
validate-IsUsable_example = validate-IsUsable test_libs (default_config test_libs) default_IsUsable
