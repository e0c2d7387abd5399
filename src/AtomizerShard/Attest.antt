-- ===== src/AtomizerShard/Attest.antt =====
-- Attesting to inputs.
use opencbdc_tx.Common.{
  ℕ, ◌+◌, ◌≡◌, refl, ◌≢◌, Bool, true, false, not, ◌&&◌, ◌||◌, List, [], ◌∷◌, ◌++◌, ◌==◌, is_empty,
  insert, contains, contains-insert, arith, Bool-cases, inl, inr,
}
use opencbdc_tx.Crypto.{Hash}
use opencbdc_tx.Transaction.{CompactTx}
use opencbdc_tx.TxErrors.{inputs_dne}
use opencbdc_tx.AtomizerShard.{
  Database, Shard, Digested, tx_notify_request, tx_error, is_output_on_shard, check_inputs,
  digest_transaction,
}

contains-snoc :
    (j : Hash) (xs : List Hash) (x : Hash) → contains j (xs ++ x ∷ []) ≡ (contains j xs || x == j)
unfolding contains
contains-snoc j [] x = ground arith
contains-snoc j (y ∷ xs) x = ground (arith, contains-snoc j xs x)

-- The input at the index `k`, counted from `i`, is in the shard's range and unspent in its snapshot.
unfoldable pub is_attested : {D : Type 0} → Database D → Shard D → ℕ → ℕ → List Hash → Bool
is_attested L s i k [] = false
is_attested L s i k (inp ∷ inps) =
    (i == k && (is_output_on_shard s inp && L.has s.snp inp)) || is_attested L s (i + 1) k inps

module _ {D : Type 0} (L : Database D) where
  -- An input that the shard should hold and does not.
  abbrev pub is_missing : Shard D → Hash → Bool
  is_missing s inp = is_output_on_shard s inp && not (L.has s.snp inp)

  check_inputs_dne :
      (s : Shard D) (i : ℕ) (inps : List Hash) (atts : List ℕ) (dne : List Hash) (j : Hash)
      → contains j (check_inputs L s i inps atts dne).1
        ≡ (contains j dne || (contains j inps && is_missing s j))
  unfolding check_inputs contains
  check_inputs_dne s i [] atts dne j = ground arith
  check_inputs_dne s i (inp ∷ inps) atts dne j = ground (
    arith,
    check_inputs_dne s (i + 1) inps atts dne j,
    check_inputs_dne s (i + 1) inps (insert i atts) dne j,
    check_inputs_dne s (i + 1) inps atts (dne ++ inp ∷ []) j,
    contains-snoc j dne inp,
  )

  check_inputs_attested :
      (s : Shard D) (i : ℕ) (inps : List Hash) (atts : List ℕ) (dne : List Hash) (k : ℕ)
      → contains k (check_inputs L s i inps atts dne).0
        ≡ (contains k atts || is_attested L s i k inps)
  unfolding check_inputs is_attested
  check_inputs_attested s i [] atts dne k = ground arith
  check_inputs_attested s i (inp ∷ inps) atts dne k = ground (
    arith,
    check_inputs_attested s (i + 1) inps atts dne k,
    check_inputs_attested s (i + 1) inps (insert i atts) dne k,
    check_inputs_attested s (i + 1) inps atts (dne ++ inp ∷ []) k,
    contains-insert k i atts,
  )

  -- What a shard says of a transaction with inputs, once it has seen a block.
  pub data Attests (s : Shard D) (tx : CompactTx) : Digested → Type 0 where
    attested :
        (atts : List ℕ)
        → ((j : Hash) → contains j tx.inputs ≡ true → is_missing s j ≡ false)
        → ((k : ℕ) → contains k atts ≡ is_attested L s 0 k tx.inputs)
        → Attests s tx (tx_notify_request tx atts s.snp_height)
    missing :
        (dne : List Hash)
        → ((j : Hash) → contains j dne ≡ (contains j tx.inputs && is_missing s j))
        → is_empty dne ≡ false
        → Attests s tx (tx_error (record { tx_id = tx.id; info = inputs_dne dne }))

  empty_contains : (xs : List Hash) (j : Hash) → is_empty xs ≡ true → contains j xs ≡ false
  unfolding contains
  empty_contains [] j e = refl
  empty_contains (x ∷ xs) j e = absurd (ground arith)

  -- Once the shard has seen a block, a transaction with inputs is answered from the snapshot: if an
  -- input of the shard's range is not unspent, with exactly those that are not; otherwise with a
  -- notification at the snapshot's height that attests exactly the indexes of the inputs in range.
  pub digest_transaction-Attests :
      (tx : CompactTx) (s : Shard D)
      → s.snp_height ≢ 0
      → tx.inputs ≢ []
      → Attests s tx (digest_transaction L tx s)
  unfolding digest_transaction contains
  digest_transaction-Attests tx s seen some_input =
      let atts = (check_inputs L s 0 tx.inputs [] []).0 in
      let dne = (check_inputs L s 0 tx.inputs [] []).1 in
      let known : (s.snp_height == 0) ≡ false = ground arith in
      let filled : is_empty tx.inputs ≡ false = ground arith in
      elim (Bool-cases (is_empty dne)) [
        | inl e ↦
            rw (digest_transaction, known, filled, e)
              (attested atts
                (λ j h.
                  ground (arith, check_inputs_dne s 0 tx.inputs [] [] j, empty_contains dne j e))
                (λ k. check_inputs_attested s 0 tx.inputs [] [] k))
        | inr e ↦
            rw (digest_transaction, known, filled, e)
              (missing dne (λ j. check_inputs_dne s 0 tx.inputs [] [] j) e)
      ]
