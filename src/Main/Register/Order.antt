-- ===== src/Main/Register/Order.antt =====
-- The subcommands come in the order of their names, whatever the order of the maps.
use mathlib.Core.Logic.{∥∥₁_elim}
use mathlib.Core.List.{Perm, map-append}
use ethereum_playbook.Common.{
  Bool, true, Option, none, some, List, [], ◌∷◌, ◌++◌, map, length, ◌≡◌, ◌≢◌, refl, sym, ap, ◌∙◌,
  arith, Option-cases, inl, inr,
}
use ethereum_playbook.Common.Text.{Text, codes, text_eq_refl}
use ethereum_playbook.Common.Int.{ℤ}
use ethereum_playbook.Common.Maps.{Map, lookup, keys, member, lookup_of_member}
use ethereum_playbook.Common.Sort.{sort_strings, matching, sort-matching-permᴰ, member-sort_strings}
use ethereum_playbook.Targets.{
  CmdPointers, cmd_names, name, count_args_of, count_args_all, arg_count,
}
use ethereum_playbook.Common.Decimal.{show_ℕ}
use ethereum_playbook.Commands.{count_args_using, count_args_using_write}
use ethereum_playbook.Main.Register.{
  new_target, accepts, Registration, target_entry, call_entry, view_entry, write_entry,
  register_names, register_section, register_commands, prepend, append_all,
}

texts_set : IsSet (List Text)
texts_set = hlevel

matching_all : (xs : List Text) → matching (λ x. true) xs ≡ xs
unfolding matching
matching_all [] = refl
matching_all (x ∷ xs) = ap (λ l. x ∷ l) (matching_all xs)

sort_strings-perm : {xs ys : List Text} → Perm xs ys → sort_strings xs ≡ sort_strings ys
sort_strings-perm {xs} {ys} same =
    ∥∥₁_elim same (texts_set _ _)
      (λ d. cc (sort-matching-permᴰ (λ x. true) d, matching_all xs, matching_all ys))

abbrev pub reg_names : List Registration → List Text
reg_names rs = map (λ r. r.name) rs

-- Two iterations over the same entries of a map.
pub record SameMap {ℓ} {V : Type ℓ} (m1 m2 : Map V) : Type ℓ where
  pub names : Perm (keys m1) (keys m2)
  pub values : (n : Text) → lookup n m1 ≡ lookup n m2

-- The entry of a section is there, and gives a registration of its name.
abbrev Gives : {V : Type 0} → (Text → V → Option Registration) → Map V → Text → Type 0
Gives {V} entry m n =
    (v : V) × (r : Registration) × (lookup n m ≡ some v) × (entry n v ≡ some r) × (r.name ≡ n)

module _ {V : Type 0} (takes : Text → Bool) (entry : Text → V → Option Registration) where
  register_names-total :
      (m : Map V) (names : List Text)
      → ((n : Text) → member n names ≡ true → (takes n ≡ true) × Gives entry m n)
      → (rs : List Registration) × (register_names takes entry m names ≡ some rs)
        × (reg_names rs ≡ names)
  unfolding register_names member
  register_names-total m [] known = ([], refl, refl)
  register_names-total m (n ∷ names) known =
      let (taken, (v, r, found, made, named)) = known n (ground (arith, text_eq_refl n)) in
      let (rs, more, same) = register_names-total m names (λ k h. known k (ground (arith, h))) in
      (r ∷ rs, ground (arith, found, made, taken, more), cc (named, same))

  register_section-total :
      (m : Map V)
      → ((n : Text) → member n (keys m) ≡ true → (takes n ≡ true) × Gives entry m n)
      → (rs : List Registration) × (register_section takes entry m ≡ some rs)
        × (reg_names rs ≡ sort_strings (keys m))
  unfolding register_section
  register_section-total m known =
      register_names-total m (sort_strings (keys m))
        (λ n h. known n (sym (member-sort_strings n (keys m)) ∙ h))

module _ {ℓ} {V : Type ℓ} (takes : Text → Bool) (e1 e2 : Text → V → Option Registration)
    (alike : (n : Text) (v : V) → e1 n v ≡ e2 n v) (m1 m2 : Map V) (same : SameMap m1 m2) where
  register_names-same :
      (names : List Text) → register_names takes e1 m1 names ≡ register_names takes e2 m2 names
  unfolding register_names
  register_names-same [] = refl
  register_names-same (n ∷ names) = elim (Option-cases (lookup n m2)) [
    | inl missing ↦ rw (same.values n ∙ missing, missing) refl
    | inr (v, found) ↦ rw (same.values n ∙ found, found, alike n v, register_names-same names) refl
  ]

  register_section-same : register_section takes e1 m1 ≡ register_section takes e2 m2
  unfolding register_section
  register_section-same =
      ap (register_names takes e1 m1) (sort_strings-perm same.names)
      ∙ register_names-same (sort_strings (keys m2))

-- Two iterations over the same commands.
pub record SameCmds (c1 c2 : CmdPointers) : Type 0 where
  pub calls : SameMap c1.calls c2.calls
  pub views : SameMap c1.views c2.views
  pub writes : SameMap c1.writes c2.writes

module _ (c1 c2 : CmdPointers) (same : SameCmds c1 c2) where
  count_args_of-same : (n : Text) (set : List ℤ) → count_args_of c1 n set ≡ count_args_of c2 n set
  unfolding count_args_of
  count_args_of-same n set =
      ground (arith, same.calls.values n, same.views.values n, same.writes.values n)

  count_args_all-same :
      (specs : List Text) (set : List ℤ) → count_args_all c1 specs set ≡ count_args_all c2 specs set
  unfolding count_args_all
  count_args_all-same [] set = refl
  count_args_all-same (spec ∷ specs) set = elim (Option-cases (count_args_of c2 (name spec) set)) [
    | inl bad ↦ ground (arith, count_args_of-same (name spec) set, bad)
    | inr (next, counted) ↦
        ground (arith, count_args_of-same (name spec) set, counted, count_args_all-same specs next)
  ]

  target_entry-same :
      (n : Text) (target : List Text) → target_entry c1 n target ≡ target_entry c2 n target
  unfolding arg_count
  target_entry-same n target = rw (count_args_all-same target []) refl

  -- registerCommands registers the same subcommands in the same order, whatever the order in which the
  -- iterations over the sections of the specification meet their names.
  pub register_commands-same :
      (takes : Text → Bool) (t1 t2 : Map (List Text))
      → SameMap t1 t2
      → register_commands takes c1 t1 ≡ register_commands takes c2 t2
  unfolding register_commands
  register_commands-same takes t1 t2 targets =
      rw
        (
          register_section-same takes (target_entry c1) (target_entry c2) target_entry-same t1 t2
              targets,
          register_section-same takes call_entry call_entry (λ n v. refl) c1.calls c2.calls
              same.calls,
          register_section-same takes view_entry view_entry (λ n v. refl) c1.views c2.views
              same.views,
          register_section-same takes write_entry write_entry (λ n v. refl) c1.writes c2.writes
              same.writes,
        )
        refl

names-append : (rs ss : List Registration) → reg_names (rs ++ ss) ≡ reg_names rs ++ reg_names ss
names-append = map-append (λ r. r.name)

-- Registrations with these names, in this order.
abbrev Named : Option (List Registration) → List Text → Type 0
Named o l = (rs : List Registration) × (o ≡ some rs) × (reg_names rs ≡ l)

option_inj : {rs ss : List Registration} → some rs ≡ some ss → rs ≡ ss
option_inj h = ground arith

append_all-Named :
    (o : Option (List Registration)) (os : List (Option (List Registration))) (l m : List Text)
    → Named o l
    → Named (append_all os) m
    → Named (append_all (o ∷ os)) (l ++ m)
append_all-Named none os l m (rs, made, n) k = absurd (ground arith)
append_all-Named (some rs) os l m (rs', made, n) (ss, more, q) =
    (rs ++ ss, ap (prepend rs) more, names-append rs ss ∙ cc (option_inj made, n, q))

-- No entry of a section is null.
abbrev pub NoNull : {C : Type 0} → Map (Option C) → Type 0
NoNull m = (n : Text) → lookup n m ≢ some none

module _ (takes : Text → Bool) (cmds : CmdPointers) (calls : NoNull cmds.calls)
    (views : NoNull cmds.views) (writes : NoNull cmds.writes) where
  -- The command line library takes these names.
  abbrev pub Takes : List Text → Type 0
  Takes names = (n : Text) → member n names ≡ true → takes n ≡ true

  count_args_of-total :
      (n : Text) (set : List ℤ) → (out : List ℤ) × (count_args_of cmds n set ≡ some out)
  unfolding count_args_of
  count_args_of-total n set = elim (Option-cases (lookup n cmds.calls)) [
    | inr (none, null) ↦ absurd (calls n null)
    | inr (some c, found) ↦ (count_args_using c.param_spec set, ground (arith, found))
    | inl no_call ↦ elim (Option-cases (lookup n cmds.views)) [
      | inr (none, null) ↦ absurd (views n null)
      | inr (some c, found) ↦ (count_args_using c.param_spec set, ground (arith, no_call, found))
      | inl no_view ↦ elim (Option-cases (lookup n cmds.writes)) [
        | inr (none, null) ↦ absurd (writes n null)
        | inr (some c, found) ↦
            (count_args_using_write c set, ground (arith, no_call, no_view, found))
        | inl no_write ↦ (set, ground (arith, no_call, no_view, no_write))
      ]
    ]
  ]

  count_args_all-total :
      (specs : List Text) (set : List ℤ)
      → (out : List ℤ) × (count_args_all cmds specs set ≡ some out)
  unfolding count_args_all
  count_args_all-total [] set = (set, refl)
  count_args_all-total (spec ∷ specs) set =
      let (next, counted) = count_args_of-total (name spec) set in
      let (out, rest) = count_args_all-total specs next in (out, ground (arith, counted, rest))

  target_entry-Gives :
      (targets : Map (List Text)) (n : Text)
      → member n (keys targets) ≡ true
      → Gives (target_entry cmds) targets n
  unfolding arg_count
  target_entry-Gives targets n h =
      let (target, found) = lookup_of_member n targets h in
      let (out, counted) = count_args_all-total target [] in
      let described =
        codes "Target with "
        ++ show_ℕ (length (cmd_names target))
        ++ codes " commands"
        ++ accepts (length out) in
      (target, new_target n described (length out), found, ground (arith, counted), refl)

  Gives-of_entry :
      {C : Type 0} (entry : Text → Option C → Option Registration) (m : Map (Option C))
      → NoNull m
      → ((n : Text) (c : C) → (r : Registration) × (entry n (some c) ≡ some r) × (r.name ≡ n))
      → (n : Text) (c : Option C) → lookup n m ≡ some c
      → Gives entry m n
  Gives-of_entry entry m given makes n none null = absurd (given n null)
  Gives-of_entry entry m given makes n (some c) found =
      let (r, made, named) = makes n c in (some c, r, found, made, named)

  Gives-of_member :
      {C : Type 0} (entry : Text → Option C → Option Registration) (m : Map (Option C))
      → NoNull m
      → ((n : Text) (c : C) → (r : Registration) × (entry n (some c) ≡ some r) × (r.name ≡ n))
      → (n : Text) → member n (keys m) ≡ true
      → Gives entry m n
  Gives-of_member entry m given makes n h =
      let (c, found) = lookup_of_member n m h in Gives-of_entry entry m given makes n c found

  -- If no entry of the command sections is null, and the command line library takes the names,
  -- registerCommands does not panic, and registers one subcommand for each target, CALL, VIEW and WRITE
  -- command, each section in the order of the names.
  pub register_commands-names :
      (targets : Map (List Text))
      → Takes (keys targets)
      → Takes (keys cmds.calls)
      → Takes (keys cmds.views)
      → Takes (keys cmds.writes)
      → (rs : List Registration) × (register_commands takes cmds targets ≡ some rs)
        × (reg_names rs
            ≡ sort_strings (keys targets)
              ++ (sort_strings (keys cmds.calls)
                  ++ (sort_strings (keys cmds.views) ++ (sort_strings (keys cmds.writes) ++ []))))
  unfolding register_commands
  register_commands-names targets of_targets of_calls of_views of_writes =
      append_all-Named _ _ _ _
        (register_section-total takes (target_entry cmds) targets
          (λ n h. (of_targets n h, target_entry-Gives targets n h)))
        (append_all-Named _ _ _ _
          (register_section-total takes call_entry cmds.calls (λ n h. (
            of_calls n h,
            Gives-of_member call_entry cmds.calls calls (λ n c. (_, refl, refl)) n h,
          )))
          (append_all-Named _ _ _ _
            (register_section-total takes view_entry cmds.views (λ n h. (
              of_views n h,
              Gives-of_member view_entry cmds.views views (λ n c. (_, refl, refl)) n h,
            )))
            (append_all-Named _ [] _ []
              (register_section-total takes write_entry cmds.writes (λ n h. (
                of_writes n h,
                Gives-of_member write_entry cmds.writes writes (λ n c. (_, refl, refl)) n h,
              )))
              ([], refl, refl))))
