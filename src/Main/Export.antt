-- ===== src/Main/Export.antt =====
-- main.go, exportResultsText and the printer of newTarget: the lines that a run prints.
pub mod Lines
use ethereum_playbook.Common.{Option, none, some, List, [], ◌∷◌, ◌++◌, if◌then◌else◌, is_empty}
use ethereum_playbook.Common.Text.{Text, codes}
use ethereum_playbook.Extern.{Libs}
use ethereum_playbook.Values.{Value}
use ethereum_playbook.Wallets.{Wallets, name_of}
use ethereum_playbook.Executor.{CommandResult}
use ethereum_playbook.Executor.Target.{Sent, stopped, panicked, sends}
use ethereum_playbook.Prettify.{Printable, Pretty, Format, prettify}

-- What is printed as JSON: a result, or an ErrorObject.
pub data Json : Type 0 where
  shown : Pretty → Json
  error_object : Text → Json

-- The lines on the standard output, until the program goes on or panics.
pub data Output : Type 0 where
  finished crashed : Output
  line : Text → Output → Output

abbrev pub and_then : Output → Output → Output
and_then finished later = later
and_then crashed later = crashed
and_then (line l rest) later = line l (and_then rest later)

-- json.MarshalIndent with a prefix, and what a result is as a Go value: a Value does not tell the
-- slices and maps that a node answers with.
pub record Printer : Type 0 where
  pub marshal : Text → Json → Option Text
  pub shape : Value → Printable

module _ (libs : Libs) (format : Format) (printer : Printer) (wallets : Wallets)
    (padding : Text) where
  -- jsonPaddedString, and the printing of its text behind a heading; it panics where the value cannot
  -- be marshalled.
  abbrev print_json : Text → Json → Output
  print_json heading v = elim (printer.marshal padding v) [
    | none ↦ crashed
    | some s ↦ line (padding ++ heading ++ s) finished
  ]

  -- The result, or the error in its place.
  abbrev json_of : CommandResult → Json
  json_of r = elim r.error [
    | some e ↦ error_object e
    | none ↦ shown (prettify libs format (printer.shape r.result))
  ]

  -- "%s (@%s): "
  abbrev heading_of : CommandResult → Text
  heading_of r = r.wallet ++ codes " (@" ++ name_of wallets r.wallet ++ codes "): "

  -- The loop of exportResultsText.
  unfoldable pub export_each : List CommandResult → Output
  export_each [] = finished
  export_each (r ∷ rs) = and_then (print_json (heading_of r) (json_of r)) (export_each rs)

  -- exportResultsText. A single result that is no wallet's has no heading.
  unfoldable pub export_results_text : List CommandResult → Output
  export_results_text [] = print_json [] (error_object (codes "no results"))
  export_results_text (r ∷ []) =
      if is_empty r.wallet then print_json [] (json_of r) else export_each (r ∷ [])
  export_results_text (r ∷ q ∷ rs) = export_each (r ∷ q ∷ rs)

-- The goroutine of newTarget: for each list that comes over the channel its command's name and, behind
-- tabs, its results. Reading the first of none panics. The goroutine that prints keeps up with the one
-- that runs the commands.
module _ (libs : Libs) (format : Format) (printer : Printer) (wallets : Wallets) where
  unfoldable pub print_sent : Sent → Output
  print_sent stopped = finished
  print_sent panicked = crashed
  print_sent (sends [] later) = crashed
  print_sent (sends (r ∷ rs) later) = line (r.name ++ codes ":") (
      and_then (export_results_text libs format printer wallets (codes "\t") (r ∷ rs))
        (print_sent later))
