-- ===== src/Context.antt =====
-- model/context.go: what a run knows of its command line. The values of the Go context are fields;
-- the compiler and the key cache are third-party objects.
use ethereum_playbook.Common.{List, ◌∷◌}
use ethereum_playbook.Common.Text.{Text}

pub record AppContext : Type 0 where
  pub app_command : Text
  pub app_command_args : List Text
  pub node_group : Text
  pub spec_dir : Text

-- NewAppContext and its accessors
unfoldable pub new_app_context : Text → List Text → Text → Text → AppContext
new_app_context command args group dir = record {
  app_command = command;
  app_command_args = args;
  node_group = group;
  spec_dir = dir;
}

-- main.go, newCommand and newTarget: the command's name goes before the arguments.
unfoldable pub app_args : Text → List Text → List Text
app_args name args = name ∷ args
