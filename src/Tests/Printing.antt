-- ===== src/Tests/Printing.antt =====
-- The command line, and what is printed, at concrete inputs.
use mathlib.Core.List.Perm
use mathlib.Core.List.{Permᴰ}
use ethereum_playbook.Common.{
  ℕ, zero, suc, ◌+◌, Bool, true, false, ◌||◌, Option, none, some, List, [], ◌∷◌, ◌++◌, Result, ok,
  err, panic, ◌≡◌, ◌≢◌, ◌↔◌, refl, map, length, arith, if◌then◌else◌,
}
use ethereum_playbook.Common.Text.{Text, codes, text_eq, text_eq_iff}
use ethereum_playbook.Common.Int.{pos}
use ethereum_playbook.Common.Maps.{Map, lookup, keys}
use ethereum_playbook.Common.Sort.{sort_strings}
use ethereum_playbook.Extern.{Libs}
use ethereum_playbook.Values.{text}
use ethereum_playbook.Prettify.{plain, single, Format, prettify_value}
use ethereum_playbook.Prettify.Numbers.{read_back, of_hex_text, read_back-prettify_value}
use ethereum_playbook.Main.{Host, load_spec}
use ethereum_playbook.Main.Load.{IsNilSpec, load_spec-panic_iff}
use ethereum_playbook.Main.Register.{Registration, register_commands}
use ethereum_playbook.Main.Register.Order.{
  NoNull, SameMap, SameCmds, reg_names, register_commands-same, register_commands-names,
}
use ethereum_playbook.Main.Export.{Printer}
use ethereum_playbook.Targets.{CmdPointers}
use ethereum_playbook.Tests.{test_libs}
use ethereum_playbook.Tests.Sending.{two_cmds}

abbrev short_addresses : Libs
short_addresses = record test_libs { is_hex_address = λ s. false }

-- Every hexadecimal text stands for 171.
abbrev pub test_format : Format
test_format = record { decode_big = λ s. some (pos 171); printed = λ v. codes "printed" }

read_back-prettify_value_example :
    read_back (prettify_value short_addresses test_format (plain (text (codes "0xab"))))
    ≡ some (pos 171)
unfolding ethereum_playbook.Common.Text.has_prefix
read_back-prettify_value_example =
    read_back-prettify_value short_addresses test_format
      (of_hex_text (codes "0xab") (pos 171) refl refl refl refl)

abbrev pub test_printer : Printer
test_printer = record { marshal = λ padding v. some (codes "json"); shape = λ v. single (plain v) }

abbrev two_targets : Map (List Text)
two_targets = (codes "b", codes "pay" ∷ []) ∷ (codes "a", codes "block" ∷ codes "pay &" ∷ []) ∷ []

abbrev two_targets' : Map (List Text)
two_targets' = (codes "a", codes "block" ∷ codes "pay &" ∷ []) ∷ (codes "b", codes "pay" ∷ []) ∷ []

abbrev two_pointers : CmdPointers
two_pointers = record {
  calls = map (λ p. (p.0, some p.1)) two_cmds.calls;
  views = [];
  writes = map (λ p. (p.0, some p.1)) two_cmds.writes;
}

-- A null entry among the CALL commands stops the program.
test_null_command :
    register_commands (λ n. true) (record two_pointers { calls = (codes "block", none) ∷ [] }) []
    ≡ none
unfolding register_commands ethereum_playbook.Main.Register.register_section
    ethereum_playbook.Main.Register.register_names sort_strings lookup text_eq
test_null_command = refl

NoNull-calls : NoNull two_pointers.calls
unfolding lookup
NoNull-calls n h = absurd (ground (arith, text_eq_iff (codes "block") n))

NoNull-views : NoNull two_pointers.views
unfolding lookup
NoNull-views n h = cc

NoNull-writes : NoNull two_pointers.writes
unfolding lookup
NoNull-writes n h = absurd (ground (arith, text_eq_iff (codes "pay") n))

register_commands-names_example :
    (rs : List Registration) × (register_commands (λ n. true) two_pointers two_targets ≡ some rs)
    × (reg_names rs
        ≡ sort_strings (keys two_targets)
          ++ (sort_strings (keys two_pointers.calls)
              ++ (sort_strings (keys two_pointers.views)
                  ++ (sort_strings (keys two_pointers.writes) ++ []))))
register_commands-names_example =
    register_commands-names (λ n. true) two_pointers NoNull-calls NoNull-views NoNull-writes
      two_targets (λ n h. refl) (λ n h. refl) (λ n h. refl) (λ n h. refl)

same_values : (n : Text) → lookup n two_targets ≡ lookup n two_targets'
unfolding lookup
same_values n = ground (arith, text_eq_iff (codes "a") n, text_eq_iff (codes "b") n)

same_targets : SameMap two_targets two_targets'
same_targets = record { names = ∣ Permᴰ.swap refl refl ∣₁; values = same_values }

same_cmds : SameCmds two_pointers two_pointers
same_cmds = record {
  calls = record { names = Perm.refl _; values = λ n. refl };
  views = record { names = Perm.refl _; values = λ n. refl };
  writes = record { names = Perm.refl _; values = λ n. refl };
}

register_commands-same_example :
    register_commands (λ n. true) two_pointers two_targets
    ≡ register_commands (λ n. true) two_pointers two_targets'
register_commands-same_example =
    register_commands-same two_pointers two_pointers same_cmds (λ n. true) two_targets two_targets'
      same_targets

-- A host on which every file holds the empty document.
abbrev pub empty_host : Host
empty_host = record {
  read_file = λ path. some [];
  unmarshal = λ content. some none;
  abs = λ path. some path;
  dir = λ path. path;
  look_path = λ path. none;
  is_sol_compiler = λ path. false;
}

load_spec-panic_iff_example :
    (load_spec empty_host test_libs (codes "playbook.yml") ≡ panic)
    ↔ IsNilSpec empty_host (codes "playbook.yml")
load_spec-panic_iff_example = load_spec-panic_iff empty_host test_libs (codes "playbook.yml")
