-- ===== src/Crypto.antt =====
-- The third-party cryptography that the program calls: SHA-256 of 3rdparty/crypto and the Schnorr
-- signatures of libsecp256k1. Both are parameters of the model. Hashes (src/util/common/hash.hpp)
-- and keys and signatures (src/util/common/keys.hpp) are the numbers whose base-256 digits, least
-- significant first, are the bytes of the C++ array.
use opencbdc_tx.Common.{ℕ, ◌%◌, ◌&&◌, Bool, Option, leb}
use opencbdc_tx.Serialization.{Bytes}

abbrev pub Hash : Type 0
Hash = ℕ

abbrev pub Pubkey : Type 0
Pubkey = ℕ

abbrev pub Signature : Type 0
Signature = ℕ

pub record Crypto : Type 0 where
  -- `CSHA256`, from the bytes written to the digest.
  pub sha256 : Bytes → Hash
  -- `secp256k1_xonly_pubkey_parse`: the parsed key, where the call returns 1.
  pub xonly_pubkey_parse : Pubkey → Option ℕ
  -- `secp256k1_schnorrsig_verify` of a signature of a 32-byte message under a parsed key.
  pub schnorrsig_verify : Signature → Hash → ℕ → Bool

-- `config::hash_in_shard_range`: the first byte of the hash lies in the inclusive range.
unfoldable pub hash_in_shard_range : ℕ × ℕ → Hash → Bool
hash_in_shard_range (first, last) h = leb first (h % 256) && leb (h % 256) last
