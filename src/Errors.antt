-- ===== src/Errors.antt =====
-- The errors of the playbook: Go's `error` values by their messages, and the messages that a
-- validator logs when it returns false.

pub data Error : Type 0 where
  -- model/evaler.go
  compile_failed empty_value unsupported_type unexpected_type run_failed : Error
  -- model/params.go
  bad_arg_reference value_and_reference unknown_wallet unsupported_param : Error
  incompatible_param param_parsing not_hex : Error
  -- model/wallets.go
  unknown_reference unknown_field malformed_reference : Error
  bad_address bad_private_key address_differs no_password no_key_file bad_key_file : Error
  bad_key_store key_not_located key_not_loaded : Error
  -- model/valuer.go
  illegal_field insufficient_args not_math : Error
  -- model/config.go, which only logs them
  bad_gas_price bad_gas_limit bad_chain_id bad_await_timeout : Error
  -- model/cmds_*.go
  name_not_unique wallet_reference bad_regexp no_wallets no_instance no_contract_name : Error
  no_contract no_instances address_mismatch no_method instance_with_to unknown_recipient : Error
  recipient_without_address : Error
  -- model/targets.go
  deferred_by_default unknown_command : Error
  -- model/spec.go, model/contracts.go, model/inventory.go
  no_inventory no_client no_live_node no_commands wallets_required bad_wallet : Error
  no_root_name no_sol_path no_sol_file bad_sol_file unknown_contract undeployable : Error
  bad_instance_address unbound : Error
  -- main.go
  unreadable_spec bad_yaml no_abs_path no_compiler command_not_found target_not_found : Error
  -- executor
  not_deployed unknown_token token_not_deployed no_recipient no_private_key bad_result : Error
  not_a_hash failed_status rpc_failed timed_out : Error
