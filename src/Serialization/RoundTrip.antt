-- ===== src/Serialization/RoundTrip.antt =====
-- What `operator<<` writes, `operator>>` reads back, whatever follows in the buffer.
use mathlib.Core.List.{append_assoc}
use native.Mathlib.Nat.{pow-succ'}
use opencbdc_tx.Common.{
  ℕ, zero, suc, ◌*◌, ◌/◌, ◌^◌, ◌<◌, ◌≡◌, refl, ap, ◌∙◌, List, [], ◌∷◌, ◌++◌, some, length, All,
  arith,
}
use opencbdc_tx.Serialization.{
  Bytes, Parser, ◌>>=◌, le_bytes, le_value, read, write_uint, read_uint, write_all, write_vector,
  read_all, read_vector,
}

le_value-le_bytes : (k n : ℕ) → n < 256 ^ k → le_value (le_bytes k n) ≡ n
unfolding le_value le_bytes
le_value-le_bytes zero n h = omega arith
le_value-le_bytes (suc k) n h =
    let p : 256 ^ suc k ≡ 256 * 256 ^ k = pow-succ' 256 k in
    omega (arith, le_value-le_bytes k (n / 256) (omega arith))

read-le_bytes : (k n : ℕ) (rest : Bytes) → read k (le_bytes k n ++ rest) ≡ some (le_bytes k n, rest)
unfolding read le_bytes
read-le_bytes zero n rest = refl
read-le_bytes (suc k) n rest = rw (read-le_bytes k (n / 256) rest)

-- A chain goes on with what its first parser yields.
pub bind_some :
    {A B : Type 0} (p : Parser A) (f : A → Parser B) {bs rest : Bytes} {a : A}
    → p bs ≡ some (a, rest)
    → (p >>= f) bs ≡ f a rest
bind_some p f h = rw (h, ◌>>=◌)

pub read_uint-write_uint :
    (k n : ℕ) (rest : Bytes) → n < 256 ^ k → read_uint k (write_uint k n ++ rest) ≡ some (n, rest)
unfolding read_uint write_uint
read_uint-write_uint k n rest h =
    bind_some (read k) _ (read-le_bytes k n rest)
    ∙ ap (λ v. some (v, rest)) (le_value-le_bytes k n h)

-- `w` and `p` agree on `x`.
abbrev pub Agrees : {A : Type 0} → (A → Bytes) → Parser A → A → Type 0
Agrees w p x = (rest : Bytes) → p (w x ++ rest) ≡ some (x, rest)

module _ {A : Type 0} (w : A → Bytes) (p : Parser A) where
  read_all-write_all :
      (xs : List A) (rest : Bytes)
      → All (Agrees w p) xs
      → read_all p (length xs) (write_all w xs ++ rest) ≡ some (xs, rest)
  unfolding read_all write_all
  read_all-write_all [] rest h = refl
  read_all-write_all (x ∷ xs) rest h = rw (append_assoc (w x) (write_all w xs) rest) (
      bind_some p _ (h.0 (write_all w xs ++ rest))
      ∙ bind_some (read_all p (length xs)) _ (read_all-write_all xs rest h.1))

  pub read_vector-write_vector :
      (xs : List A) (rest : Bytes)
      → length xs < 256 ^ 8
      → All (Agrees w p) xs
      → read_vector p (write_vector w xs ++ rest) ≡ some (xs, rest)
  unfolding read_vector write_vector
  read_vector-write_vector xs rest n h =
      rw (append_assoc (write_uint 8 (length xs)) (write_all w xs) rest) (
        bind_some (read_uint 8) _ (read_uint-write_uint 8 (length xs) (write_all w xs ++ rest) n)
        ∙ read_all-write_all xs rest h)
