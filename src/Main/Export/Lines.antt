-- ===== src/Main/Export/Lines.antt =====
-- How many lines are printed, and that a clean run is printed to its end.
use mathlib.Core.Path.{subst}
use ethereum_playbook.Common.{
  ℕ, suc, ◌+◌, some, List, [], ◌∷◌, ◌++◌, length, if◌then◌else◌, is_empty, ◌≡◌, refl, arith,
  Bool-cases, inl, inr,
}
use ethereum_playbook.Common.Text.{Text, codes}
use ethereum_playbook.Extern.{Libs}
use ethereum_playbook.Wallets.{Wallets}
use ethereum_playbook.Executor.{CommandResult}
use ethereum_playbook.Executor.Target.{Sent, stopped, panicked, sends}
use ethereum_playbook.Executor.Target.Clean.{IsClean}
use ethereum_playbook.Prettify.{Format}
use ethereum_playbook.Main.Export.{
  Json, Output, finished, crashed, line, and_then, Printer, print_json, json_of, heading_of,
  export_each, export_results_text, print_sent,
}

-- The output ends without a panic, after so many lines.
abbrev pub Prints : ℕ → Output → Type 0
Prints n finished = n ≡ 0
Prints n crashed = ⊥
Prints n (line l rest) = (m : ℕ) × (n ≡ suc m) × Prints m rest

-- The lines that the lists of a target take: the name of the command, and one for each result.
abbrev pub line_count : Sent → ℕ
line_count stopped = 0
line_count panicked = 0
line_count (sends rs later) = suc (length rs) + line_count later

and_then-Prints :
    (n m k : ℕ) (o p : Output) → k ≡ n + m → Prints n o → Prints m p → Prints k (and_then o p)
and_then-Prints n m k finished p sum h rest =
    let q : m ≡ k = ground (arith, sum, h) in subst (λ i. Prints i p) q rest
and_then-Prints n m k crashed p sum h rest = absurd h
and_then-Prints n m k (line l o) p sum (i, e, h) rest =
    (i + m, ground (arith, sum, e), and_then-Prints i m (i + m) o p refl h rest)

module _ (libs : Libs) (format : Format) (printer : Printer)
    (marshals : (padding : Text) (v : Json)
      → (s : Text) × (printer.marshal padding v ≡ some s)) where
  module _ (wallets : Wallets) (padding : Text) where
    print_json-Prints :
        (heading : Text) (v : Json)
        → Prints 1 (print_json libs format printer wallets padding heading v)
    print_json-Prints heading v =
        let (s, made) = marshals padding v in
        let q : print_json libs format printer wallets padding heading v
            ≡ line (padding ++ heading ++ s) finished =
          ground (arith, made) in
        rw q (0, refl, refl)

    export_each-Prints :
        (rs : List CommandResult)
        → Prints (length rs) (export_each libs format printer wallets padding rs)
    unfolding export_each
    export_each-Prints [] = refl
    export_each-Prints (r ∷ rs) =
        and_then-Prints 1 (length rs) (suc (length rs))
          (print_json libs format printer wallets padding
            (heading_of libs format printer wallets padding r)
            (json_of libs format printer wallets padding r))
          (export_each libs format printer wallets padding rs) (ground arith)
          (print_json-Prints (heading_of libs format printer wallets padding r)
            (json_of libs format printer wallets padding r))
          (export_each-Prints rs)

    -- If JSON texts can be made, exportResultsText prints one line for each result, and one where there
    -- is none.
    pub export_results_text-Prints :
        (rs : List CommandResult)
        → Prints
            (if is_empty rs then 1 else length rs)
            (export_results_text libs format printer wallets padding rs)
    unfolding export_results_text
    export_results_text-Prints [] = print_json-Prints [] _
    export_results_text-Prints (r ∷ []) = elim (Bool-cases (is_empty r.wallet)) [
      | inl e ↦ rw e (print_json-Prints [] (json_of libs format printer wallets padding r))
      | inr n ↦ rw n (export_each-Prints (r ∷ []))
    ]
    export_results_text-Prints (r ∷ q ∷ rs) = export_each-Prints (r ∷ q ∷ rs)

  -- If JSON texts can be made, what a run sends without a panic and without an empty list is printed
  -- to its end: for each list the command's name and one line for each result.
  pub print_sent-Prints :
      (wallets : Wallets) (sent : Sent)
      → IsClean sent
      → Prints (line_count sent) (print_sent libs format printer wallets sent)
  unfolding print_sent
  print_sent-Prints wallets stopped h = refl
  print_sent-Prints wallets panicked h = absurd h
  print_sent-Prints wallets (sends [] later) h = absurd h
  print_sent-Prints wallets (sends (r ∷ rs) later) h = (
    suc (length rs) + line_count later,
    ground arith,
    and_then-Prints (suc (length rs)) (line_count later) (suc (length rs) + line_count later)
        (export_results_text libs format printer wallets (codes "\t") (r ∷ rs))
        (print_sent libs format printer wallets later) refl
        (export_results_text-Prints wallets (codes "\t") (r ∷ rs))
        (print_sent-Prints wallets later h),
  )
