-- ===== src/Wallets/Keys/Search.antt =====
-- The search of a key store ends at a key file that it loaded.
use ethereum_playbook.Common.{
  Bool, true, if◌then◌else◌, Option, some, List, [], ◌∷◌, Result, ok, ◌>>=◌, >>=-eq-ok, ◌≡◌, inl,
  inr, sym, ap, ◌∙◌, arith, Bool-cases,
}
use ethereum_playbook.Common.Text.{Text, text_eq}
use ethereum_playbook.Errors.{Error}
use ethereum_playbook.Extern.{Libs}
use ethereum_playbook.Wallets.Keys.{
  Disk, KeyFile, KeyJson, unreadable, null_json, key_json, WalkEntry, walk_error, directory, file,
  checked_key_file, load_key_file, for_each_key_file,
}

module _ (libs : Libs) (disk : Disk) where
  checked_key_file-path :
      (path : Text) (json : KeyJson) (f : KeyFile)
      → checked_key_file libs disk path json ≡ ok f
      → f.path ≡ path
  checked_key_file-path path unreadable f h = cc
  checked_key_file-path path null_json f h = cc
  checked_key_file-path path (key_json a) f h = ground arith

  load_key_file-path :
      (path : Text) (f : KeyFile) → load_key_file libs disk path ≡ ok f → f.path ≡ path
  unfolding load_key_file
  load_key_file-path path f h = checked_key_file-path path (disk.read_key_file path) f h

  -- The file at which the search stops is one that it loaded and for which the callback stops it.
  pub for_each_key_file-found :
      (root : Text) (stops : KeyFile → Bool) (entries : List WalkEntry) (f : KeyFile)
      → for_each_key_file libs disk root stops entries ≡ ok (some f)
      → (load_key_file libs disk f.path ≡ ok f) × (stops f ≡ true)
  unfolding for_each_key_file
  for_each_key_file-found root stops [] f h = absurd (ground arith)
  for_each_key_file-found root stops (walk_error ∷ entries) f h = cc
  for_each_key_file-found root stops (directory path ∷ entries) f h =
      for_each_key_file-found root stops entries f h
  for_each_key_file-found root stops (file path ∷ entries) f h =
      let rest = for_each_key_file libs disk root stops entries in
      elim (Bool-cases (text_eq path root)) [
        | inl here ↦ for_each_key_file-found root stops entries f (ground (arith, here))
        | inr there ↦
            let next : KeyFile → Result Error (Option KeyFile) =
              λ g. if stops g then ok (some g) else rest in
            let bound : (load_key_file libs disk path >>= next) ≡ ok (some f) =
              ground (arith, there) in
            let (g, read, later) = >>=-eq-ok (load_key_file libs disk path) next bound in
            elim (Bool-cases (stops g)) [
              | inl stop ↦
                  let q : g ≡ f = ground (arith, stop) in
                  rw (sym q)
                    (ap (load_key_file libs disk) (load_key_file-path path g read) ∙ read, stop)
              | inr go ↦ for_each_key_file-found root stops entries f (ground (arith, go))
            ]
      ]
