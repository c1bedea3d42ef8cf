-- ===== src/Main/Load.antt =====
-- The loading of a specification.
use ethereum_playbook.Common.{
  Option, none, some, ok, panic, or_err, or_err-ne-panic, >>=-panic_cases, ◌≡◌, ◌↔◌, refl, arith,
  inl, inr,
}
use ethereum_playbook.Common.Text.{Text}
use ethereum_playbook.Errors.{Error, unreadable_spec, bad_yaml, no_abs_path}
use ethereum_playbook.Extern.{Libs}
use ethereum_playbook.Playbook.{Spec}
use ethereum_playbook.Main.{Host, load_spec, with_dir}

-- A file that can be read, whose YAML leaves the pointer to the specification nil.
pub record IsNilSpec (host : Host) (path : Text) : Type 0 where
  pub content : Text
  pub full_path : Text
  pub read : host.read_file path ≡ some content
  pub nil : host.unmarshal content ≡ some none
  pub absolute : host.abs path ≡ some full_path

or_err-eq-ok : {A : Type 0} (e : Error) (o : Option A) {a : A} → or_err e o ≡ ok a → o ≡ some a
or_err-eq-ok e none h = cc
or_err-eq-ok e (some a) h = ground arith

with_dir-panic :
    (libs : Libs) (dir : Text) (spec : Option Spec) → with_dir libs dir spec ≡ panic → spec ≡ none
with_dir-panic libs dir none h = refl
with_dir-panic libs dir (some spec) h = cc

-- loadSpec panics exactly when the file can be read, its absolute path is known, and its YAML leaves
-- the pointer to the specification nil.
pub load_spec-panic_iff :
    (host : Host) (libs : Libs) (path : Text)
    → (load_spec host libs path ≡ panic) ↔ IsNilSpec host path
unfolding load_spec
load_spec-panic_iff host libs path =
    (forth, λ (n : IsNilSpec host path). ground (arith, n.read, n.nil, n.absolute))
  where
    forth : load_spec host libs path ≡ panic → IsNilSpec host path
    forth h = elim (>>=-panic_cases (or_err unreadable_spec (host.read_file path)) _ h) [
      | inl bad ↦ absurd (or_err-ne-panic _ _ bad)
      | inr (content, read, h1) ↦
          elim (>>=-panic_cases (or_err bad_yaml (host.unmarshal content)) _ h1) [
            | inl bad ↦ absurd (or_err-ne-panic _ _ bad)
            | inr (spec, parsed, h2) ↦
                elim (>>=-panic_cases (or_err no_abs_path (host.abs path)) _ h2) [
                  | inl bad ↦ absurd (or_err-ne-panic _ _ bad)
                  | inr (full_path, absolute, h3) ↦ record {
                    content = content;
                    full_path = full_path;
                    read = or_err-eq-ok unreadable_spec (host.read_file path) read;
                    nil = cc (
                      or_err-eq-ok bad_yaml (host.unmarshal content) parsed,
                      with_dir-panic libs (host.dir full_path) spec h3,
                    );
                    absolute = or_err-eq-ok no_abs_path (host.abs path) absolute;
                  }
                ]
          ]
    ]
