-- ===== src/Transaction/Validation/Witness.antt =====
-- `check_witness`: what a witness that passes has, and the loop over all of them.
use opencbdc_tx.Common.{
  ℕ, zero, suc, ◌+◌, ◌<◌, ◌≡◌, refl, ◌↔◌, [], ◌∷◌, true, none, some, length, take, drop, arith,
  Option-cases, inl, inr,
}
use native.Mathlib.Nat.{add-zero, zero-add}
use opencbdc_tx.Crypto.{Crypto}
use opencbdc_tx.Serialization.{Bytes, le_value}
use opencbdc_tx.Transaction.{Input, FullTx, tx_id}
use opencbdc_tx.Transaction.Validation.{
  witness_at, input_at, bytes_at, check_p2pk_witness_len, check_p2pk_witness_commitment,
  check_p2pk_witness_signature, check_p2pk_witness, check_witness_program, check_witness,
  check_witnesses_from,
}

-- A pay-to-public-key witness of 97 bytes: the type byte 0 and a key that together hash to the
-- commitment of the input's output, then a signature of the transaction's identifier by that key.
pub record Spends (c : Crypto) (tx : FullTx) (inp : Input) (wit : Bytes) : Type 0 where
  pub len : length wit ≡ 97
  pub program_type : take 1 wit ≡ 0 ∷ []
  pub commitment : c.sha256 (take 33 wit) ≡ inp.prevout_data.witness_program_commitment
  pub key : ℕ
  pub parsed : c.xonly_pubkey_parse (le_value (take 32 (drop 1 wit))) ≡ some key
  pub signature : c.schnorrsig_verify (le_value (take 64 (drop 33 wit))) (tx_id c tx) key ≡ true

module _ (c : Crypto) (tx : FullTx) where
  len_iff : (idx : ℕ) → (check_p2pk_witness_len tx idx ≡ none) ↔ (length (witness_at tx idx) ≡ 97)
  unfolding check_p2pk_witness_len
  len_iff idx = ground arith

  commitment_iff :
      (idx : ℕ)
      → (check_p2pk_witness_commitment c tx idx ≡ none) ↔ (
          c.sha256 (take 33 (witness_at tx idx))
          ≡ (input_at tx idx).prevout_data.witness_program_commitment)
  unfolding check_p2pk_witness_commitment
  commitment_iff idx = ground arith

  abbrev SignedBy : Bytes → ℕ → Type 0
  SignedBy wit key =
      (c.xonly_pubkey_parse (le_value (take 32 (drop 1 wit))) ≡ some key)
      × (c.schnorrsig_verify (le_value (take 64 (drop 33 wit))) (tx_id c tx) key ≡ true)

  signature_sound :
      (idx : ℕ)
      → check_p2pk_witness_signature c tx idx ≡ none
      → (key : ℕ) × SignedBy (witness_at tx idx) key
  unfolding check_p2pk_witness_signature
  signature_sound idx h =
      elim (Option-cases (c.xonly_pubkey_parse (le_value (bytes_at 1 32 (witness_at tx idx))))) [
        | inl e ↦ absurd (ground arith)
        | inr (key, e) ↦ (key, (e, ground arith))
      ]

  signature_complete :
      (idx key : ℕ)
      → SignedBy (witness_at tx idx) key
      → check_p2pk_witness_signature c tx idx ≡ none
  unfolding check_p2pk_witness_signature
  signature_complete idx key s = ground arith

  program_sound :
      (idx : ℕ) (wit : Bytes)
      → witness_at tx idx ≡ wit
      → check_witness_program c tx idx wit ≡ none
      → Spends c tx (input_at tx idx) wit
  unfolding check_witness_program check_p2pk_witness
  program_sound idx [] e h = absurd (ground arith)
  program_sound idx (b ∷ bs) e h =
      let s = signature_sound idx (ground arith) in
      record {
        len = rw e at ((len_iff idx).0 (ground arith));
        program_type = ground arith;
        commitment = rw e at ((commitment_iff idx).0 (ground arith));
        key = s.0;
        parsed = rw e at (s.1.0);
        signature = rw e at (s.1.1);
      }

  program_complete :
      (idx : ℕ) (wit : Bytes)
      → witness_at tx idx ≡ wit
      → Spends c tx (input_at tx idx) wit
      → check_witness_program c tx idx wit ≡ none
  unfolding check_witness_program check_p2pk_witness
  program_complete idx [] e s = absurd (omega (arith, s.len))
  program_complete idx (b ∷ bs) e s =
      let l : check_p2pk_witness_len tx idx ≡ none = (len_iff idx).1 (rw e s.len) in
      let m : check_p2pk_witness_commitment c tx idx ≡ none =
        (commitment_iff idx).1 (rw e s.commitment) in
      let n : check_p2pk_witness_signature c tx idx ≡ none =
        signature_complete idx s.key (rw e (s.parsed, s.signature)) in
      ground (arith, s.program_type, l, m, n)

  pub check_witness_iff :
      (idx : ℕ)
      → (check_witness c tx idx ≡ none) ↔ Spends c tx (input_at tx idx) (witness_at tx idx)
  unfolding check_witness
  check_witness_iff idx =
      (program_sound idx (witness_at tx idx) refl, program_complete idx (witness_at tx idx) refl)

  check_witnesses_from_sound :
      (idx rounds : ℕ)
      → check_witnesses_from c tx idx rounds ≡ none
      → (i : ℕ) → i < rounds
      → check_witness c tx (idx + i) ≡ none
  unfolding check_witnesses_from
  check_witnesses_from_sound idx zero h i lt = absurd (omega arith)
  check_witnesses_from_sound idx (suc rounds) h zero lt = rw (add-zero idx) (ground arith)
  check_witnesses_from_sound idx (suc rounds) h (suc i) lt =
      let e : idx + suc i ≡ idx + 1 + i = omega arith in
      rw e (check_witnesses_from_sound (idx + 1) rounds (ground arith) i (omega arith))

  check_witnesses_from_complete :
      (idx rounds : ℕ)
      → ((i : ℕ) → i < rounds → check_witness c tx (idx + i) ≡ none)
      → check_witnesses_from c tx idx rounds ≡ none
  unfolding check_witnesses_from
  check_witnesses_from_complete idx zero h = refl
  check_witnesses_from_complete idx (suc rounds) h =
      let first : check_witness c tx idx ≡ none = rw (← add-zero idx) (h 0 (omega arith)) in
      rw (first, check_witnesses_from)
        (check_witnesses_from_complete (idx + 1) rounds (λ i lt.
          let e : idx + 1 + i ≡ idx + suc i = omega arith in rw e (h (suc i) (omega arith))))

  pub check_witnesses_iff :
      (n : ℕ)
      → (check_witnesses_from c tx 0 n ≡ none)
        ↔ ((i : ℕ) → i < n → Spends c tx (input_at tx i) (witness_at tx i))
  check_witnesses_iff n = (
    (λ h i lt. (check_witness_iff i).0 (rw (← zero-add i) (check_witnesses_from_sound 0 n h i lt))),
    λ s.
        check_witnesses_from_complete 0 n
          (λ i lt. rw (zero-add i) ((check_witness_iff i).1 (s i lt))),
  )
