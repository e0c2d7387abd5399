-- ===== src/Transaction/Validation/Attestations.antt =====
-- `check_attestations`: enough of them, each by a known sentinel over this transaction.
use opencbdc_tx.Common.{
  ℕ, ◌≤◌, ◌≡◌, refl, ◌↔◌, List, [], ◌∷◌, Bool, true, ◌&&◌, length, all, All, contains, arith, inl,
  inr, some, Option-cases,
}
use opencbdc_tx.Crypto.{Pubkey, Signature, Crypto}
use opencbdc_tx.Transaction.{CompactTx, compact_tx_hash, verify}
use opencbdc_tx.Transaction.Validation.{check_attestations}

-- By a known key, which parses and under which the signature of the hash verifies.
abbrev pub IsGood : Crypto → CompactTx → List Pubkey → Pubkey × Signature → Type 0
IsGood c tx pubkeys att =
    (contains att.0 pubkeys ≡ true)
    × ((key : ℕ) × (c.xonly_pubkey_parse att.0 ≡ some key)
        × (c.schnorrsig_verify att.1 (compact_tx_hash c tx) key ≡ true))

-- At least `threshold` attestations, all of them good.
pub record IsAttested (c : Crypto) (tx : CompactTx) (pubkeys : List Pubkey) (threshold : ℕ)
    : Type 0 where
  pub enough : threshold ≤ length tx.attestations
  pub good : All (IsGood c tx pubkeys) tx.attestations

module _ (c : Crypto) (tx : CompactTx) (pubkeys : List Pubkey) where
  abbrev passes : Pubkey × Signature → Bool
  passes att = contains att.0 pubkeys && verify c tx att

  passes_sound : (att : Pubkey × Signature) → passes att ≡ true → IsGood c tx pubkeys att
  unfolding verify
  passes_sound att h = elim (Option-cases (c.xonly_pubkey_parse att.0)) [
    | inl e ↦ absurd (ground arith)
    | inr (key, e) ↦ (ground arith, (key, e, ground arith))
  ]

  passes_complete : (att : Pubkey × Signature) → IsGood c tx pubkeys att → passes att ≡ true
  unfolding verify
  passes_complete att g = ground (arith, g.1.1, g.1.2)

  all_sound :
      (atts : List (Pubkey × Signature)) → all passes atts ≡ true → All (IsGood c tx pubkeys) atts
  all_sound [] h = tt
  all_sound (att ∷ atts) h = (passes_sound att (ground arith), all_sound atts (ground arith))

  all_complete :
      (atts : List (Pubkey × Signature)) → All (IsGood c tx pubkeys) atts → all passes atts ≡ true
  all_complete [] g = refl
  all_complete (att ∷ atts) g = ground (arith, passes_complete att g.0, all_complete atts g.1)

  -- A compact transaction passes exactly when it has at least as many attestations as the threshold
  -- and every one of them is by a known sentinel key and verifies over the transaction's hash.
  pub check_attestations_iff :
      (threshold : ℕ)
      → (check_attestations c tx pubkeys threshold ≡ true) ↔ IsAttested c tx pubkeys threshold
  unfolding check_attestations
  check_attestations_iff threshold = (
    (λ h. record { enough = ground arith; good = all_sound tx.attestations (ground arith) }),
    λ a. ground (arith, a.enough, all_complete tx.attestations a.good),
  )
