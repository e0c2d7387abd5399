-- ===== src/Serialization.antt =====
-- src/util/serialization/format.hpp over src/util/serialization/buffer_serializer.cpp.
-- A buffer is the list of its bytes; `operator<<` appends bytes, `operator>>` is a parser of the
-- bytes from the cursor on, and `none` stands for a stream that is no longer valid.
pub mod RoundTrip
use opencbdc_tx.Common.{
  ℕ, zero, suc, ◌+◌, ◌*◌, ◌/◌, ◌%◌, List, [], ◌∷◌, ◌++◌, Option, none, some, length,
}

abbrev pub Bytes : Type 0
Bytes = List ℕ

abbrev pub Parser : Type 0 → Type 0
Parser A = Bytes → Option (A × Bytes)

infixl 5 ◌>>=◌
abbrev pub ◌>>=◌ : {A B : Type 0} → Parser A → (A → Parser B) → Parser B
◌>>=◌ p f bs = elim (p bs) [ none ↦ none | some (a, rest) ↦ f a rest ]

abbrev pub done : {A : Type 0} → A → Parser A
done a bs = some (a, bs)

-- The bytes of an integer in memory, least significant first, and back.
unfoldable pub le_bytes : ℕ → ℕ → Bytes
le_bytes zero n = []
le_bytes (suc k) n = (n % 256) ∷ le_bytes k (n / 256)

unfoldable pub le_value : Bytes → ℕ
le_value [] = 0
le_value (b ∷ bs) = b + 256 * le_value bs

-- `buffer_serializer::read`: the next `len` bytes, if there are so many.
unfoldable pub read : ℕ → Parser Bytes
read zero bs = some ([], bs)
read (suc len) [] = none
read (suc len) (b ∷ bs) = (do got ← read len; done (b ∷ got)) bs

-- Integers and arrays of bytes, as the numbers that they hold.
unfoldable pub write_uint : ℕ → ℕ → Bytes
write_uint width n = le_bytes width n

unfoldable pub read_uint : ℕ → Parser ℕ
read_uint width = do bs ← read width; done (le_value bs)

unfoldable pub write_all : {A : Type 0} → (A → Bytes) → List A → Bytes
write_all write [] = []
write_all write (x ∷ xs) = write x ++ write_all write xs

unfoldable pub write_vector : {A : Type 0} → (A → Bytes) → List A → Bytes
write_vector write xs = write_uint 8 (length xs) ++ write_all write xs

unfoldable pub read_all : {A : Type 0} → Parser A → ℕ → Parser (List A)
read_all p zero = done []
read_all p (suc n) = do x ← p; xs ← read_all p n; done (x ∷ xs)

unfoldable pub read_vector : {A : Type 0} → Parser A → Parser (List A)
read_vector p = do len ← read_uint 8; read_all p len
