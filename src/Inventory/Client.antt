-- ===== src/Inventory/Client.antt =====
-- What the validation of the inventory says of the node that the client dials.
use ethereum_playbook.Common.{Bool, false, ◌||◌, List, [], ◌∷◌, Result, ok, if◌then◌else◌}
use ethereum_playbook.Common.Text.{Text, text_eq}
use ethereum_playbook.Errors.{Error}
use ethereum_playbook.Extern.{Libs}
use ethereum_playbook.Inventory.{Inventory, is_live, validate_group}

module _ (libs : Libs) where
  abbrev pub has_live : List Text → Bool
  has_live [] = false
  has_live (node ∷ nodes) = is_live libs node || has_live nodes

  abbrev pub checked_group : Text → Text → List Text → Result Error (List Text)
  checked_group group name nodes =
      if text_eq name group then validate_group libs nodes else ok nodes
