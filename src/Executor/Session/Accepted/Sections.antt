-- ===== src/Executor/Session/Accepted/Sections.antt =====
-- Every target of a specification whose commands and targets are accepted runs.
use ethereum_playbook.Common.{ℕ, List, [], ◌∷◌, Result, ok, if◌then◌else◌, ◌≡◌, All}
use ethereum_playbook.Common.Text.{Text, text_eq}
use ethereum_playbook.Common.Maps.{Map}
use ethereum_playbook.Errors.{Error}
use ethereum_playbook.Wallets.{Wallets}
use ethereum_playbook.Commands.{Env}
use ethereum_playbook.Targets
use ethereum_playbook.Targets.{Cmds}
use ethereum_playbook.Executor.Count.{IsKnown}

-- A property that every command of a section has.
abbrev pub AllCmds : {C : Type 0} → (C → Type 0) → Map C → Type 0
AllCmds P [] = Unit
AllCmds P ((n, c) ∷ rest) = P c × AllCmds P rest

-- A section keeps what the validation of one command keeps.
module _ {C : Type 0} (P : C → Type 0) (validate_one : Text → C → Result Error C) (app : Text)
    (one_keeps : (n : Text) (c c' : C) → validate_one n c ≡ ok c' → P c → P c') where
  abbrev one : Text → C → Result Error C
  one n cmd = if text_eq app n then validate_one n cmd else ok cmd

  abbrev entry : Text → C → (Map C × List Text) → Result Error (Map C × List Text)
  entry n c p = ok ((n, c) ∷ p.0, p.1)

module _ (env : Env) (step : ℕ) where
  -- What the YAML decoder leaves in the sections: no matching wallets yet, or known ones.
  pub record AreLoaded (cmds : Cmds) : Type 0 where
    pub calls : AllCmds (λ c. All (IsKnown env.wallets) c.matching) cmds.calls
    pub views : AllCmds (λ c. All (IsKnown env.wallets) c.matching) cmds.views
