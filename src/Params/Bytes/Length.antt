-- ===== src/Params/Bytes/Length.antt =====
-- The arrays that createStaticBytes makes.
use ethereum_playbook.Common.{
  ℕ, suc, ◌*◌, Option, none, some, List, [], ◌∷◌, ◌≡◌, refl, arith, length,
}
use ethereum_playbook.Common.Text.{Text}
use ethereum_playbook.Params.Bytes.{join_digits, hex_digit, hex_decode}

join_digits-some :
    (x y : Option ℕ) (r : Option (List ℕ)) (buf : List ℕ)
    → join_digits x y r ≡ some buf
    → (rest : List ℕ) × (r ≡ some rest) × (length buf ≡ suc (length rest))
join_digits-some (some h) (some l) (some rest) buf e = (rest, refl, ground arith)
join_digits-some (some h) (some l) none buf e = cc
join_digits-some (some h) none r buf e = cc
join_digits-some none y r buf e = cc

-- Hexadecimal digits are decoded two to a byte.
pub hex_decode-length :
    (s : Text) (buf : List ℕ) → hex_decode s ≡ some buf → length s ≡ 2 * length buf
unfolding hex_decode
hex_decode-length [] buf h = ground arith
hex_decode-length (x ∷ []) buf h = cc
hex_decode-length (x ∷ y ∷ s) buf h =
    let (rest, e, len) = join_digits-some (hex_digit x) (hex_digit y) (hex_decode s) buf h in
    omega (arith, len, hex_decode-length s rest e)
