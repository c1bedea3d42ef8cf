-- ===== src/Inventory.antt =====
-- model/inventory.go: groups of Geth nodes.
pub mod Client
use ethereum_playbook.Common.{
  Bool, true, false, not, ◌&&◌, ◌||◌, Option, none, some, List, [], ◌∷◌, Result, ok, err, panic,
  ◌>>=◌, ◌>>◌, guard, if◌then◌else◌,
}
use ethereum_playbook.Common.Text.{Text, text_eq}
use ethereum_playbook.Common.Maps.{Map, lookup}
use ethereum_playbook.Errors.{Error, no_live_node, no_client}
use ethereum_playbook.Extern.{Libs}

abbrev pub Inventory : Type 0
Inventory = Map (List Text)

-- A node that accepts the connection and answers a call.
abbrev pub is_live : Libs → Text → Bool
is_live libs node = libs.dials node && libs.answers node

-- InventorySpec.Validate: the group becomes its first live node.
unfoldable pub validate_group : Libs → List Text → Result Error (List Text)
validate_group libs [] = err no_live_node
validate_group libs (node ∷ nodes) =
    let rest = validate_group libs nodes in if is_live libs node then ok (node ∷ []) else rest

-- Inventory.Validate: the loop variable is a copy, so the group that validation leaves is lost, and
-- the inventory keeps the group as it was.
unfoldable pub validate : Libs → Text → Inventory → Result Error Inventory
validate libs group [] = ok []
validate libs group ((name, nodes) ∷ rest) = do
  checked ← (if text_eq name group then validate_group libs nodes else ok nodes)
  rest' ← validate libs group rest
  ok ((name, nodes) ∷ rest')

abbrev pub first_client : Libs → List Text → Result Error Text
first_client libs [] = panic
first_client libs (node ∷ nodes) = if libs.dials node then ok node else err no_client

-- Inventory.GetClient, with the node for the client
unfoldable pub get_client : Libs → Inventory → Text → Result Error Text
get_client libs inventory group = elim (lookup group inventory) [
  | none ↦ err no_client
  | some nodes ↦ first_client libs nodes
]
