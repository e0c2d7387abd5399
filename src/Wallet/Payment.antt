-- ===== src/Wallet/Payment.antt =====
-- What the payments make of a wallet's coins.
use opencbdc_tx.Common.{
  ℕ, zero, suc, ◌+◌, ◌-◌, ◌*◌, ◌%◌, ◌^◌, ◌≤◌, ◌<◌, ◌≡◌, sym, ap, ◌∙◌, List, [], ◌∷◌, ◌++◌, Option,
  none, some, ltb, ◌==◌, true, false, if◌then◌else◌, refl, arith, Bool-cases, inl, inr,
}
use opencbdc_tx.Crypto.{Crypto, Pubkey}
use opencbdc_tx.Transaction.{Output, FullTx}
use opencbdc_tx.Transaction.Validation.{get_p2pk_witness_commitment}
use opencbdc_tx.Wallet.{
  Wallet, with_outputs, change_output, accumulate_inputs, send_to, fan, repeat_output,
}
use opencbdc_tx.Wallet.Coins.{sum_values, one_more}
use opencbdc_tx.Wallet.Inputs.{
  assets, Funded, Leave, Accumulated, lacking, paid, accumulate_inputs-Accumulated,
}

-- The sum of the values of outputs.
unfoldable pub sum_outputs : List Output → ℕ
sum_outputs [] = 0
sum_outputs (out ∷ outs) = out.value + sum_outputs outs

-- The outcomes of a payment with `outputs` for the worth of its inputs: the wallet does not have the
-- amount and stays as it is, or a transaction has these outputs, which are worth as much as its
-- inputs, and these leave the wallet.
pub data Payment (c : Crypto) (outputs : ℕ → List Output) (amount : ℕ) (w : Wallet)
    : Wallet × Option FullTx → Type 0 where
  refused : assets w < amount → Payment c outputs amount w (w, none)
  pays :
      (left : Wallet) (tx : FullTx)
      → amount ≤ sum_values tx.inputs
      → tx.outputs ≡ outputs (sum_values tx.inputs)
      → sum_outputs tx.outputs ≡ sum_values tx.inputs
      → Leave c w left tx.inputs
      → Payment c outputs amount w (left, some tx)

sum_outputs-append :
    (xs ys : List Output) → sum_outputs (xs ++ ys) ≡ sum_outputs xs + sum_outputs ys
unfolding sum_outputs
sum_outputs-append [] ys = omega arith
sum_outputs-append (x ∷ xs) ys = omega (arith, sum_outputs-append xs ys)

sum_outputs-repeat_output :
    (n : ℕ) (out : Output) → sum_outputs (repeat_output n out) ≡ n * out.value
unfolding sum_outputs repeat_output
sum_outputs-repeat_output zero out = omega arith
sum_outputs-repeat_output (suc n) out =
    omega (arith, sum_outputs-repeat_output n out, one_more n out.value)

with_outputs-Payment :
    (c : Crypto) (amount : ℕ) (w : Wallet) (outputs meant : ℕ → List Output)
    (r : Wallet × Option (FullTx × ℕ))
    → ((total : ℕ) → amount ≤ total → sum_outputs (outputs total) ≡ total)
    → ((total : ℕ) → amount ≤ total → outputs total ≡ meant total)
    → Accumulated c amount w r
    → Payment c meant amount w (with_outputs outputs r)
unfolding with_outputs
with_outputs-Payment c amount w outputs meant r o e (lacking h) = refused h
with_outputs-Payment c amount w outputs meant r o e (paid v tx total h s l) =
    pays v (record tx { outputs = outputs total }) (omega (arith, h, s))
      (e total h ∙ ap meant (sym s)) (o total h ∙ sym s)
      (record {
        seeded = l.seeded;
        taken = l.taken;
        both = l.both;
        seeds = l.seeds;
        next_seed = l.next_seed;
        last_seed = l.last_seed;
        queue = l.queue;
        utxos = l.utxos;
        worth = l.worth;
        funded = l.funded;
      })

module _ (c : Crypto) (payee change_key : Pubkey) where
  -- The amount to the payee, and what is over to the change key.
  abbrev pub payee_and_change : ℕ → ℕ → List Output
  payee_and_change amount total =
      record { witness_program_commitment = get_p2pk_witness_commitment c payee; value = amount }
      ∷ (if total == amount
          then []
          else record {
            witness_program_commitment = get_p2pk_witness_commitment c change_key;
            value = total - amount;
          }
            ∷ [])

module _ (c : Crypto) (payee change_key : Pubkey) (w : Wallet) (f : Funded w) where
  sum_outputs-change_output :
      (amount total : ℕ)
      → amount ≤ total
      → amount + sum_outputs (change_output c amount total change_key) ≡ total
  unfolding sum_outputs change_output
  sum_outputs-change_output amount total h = elim (Bool-cases (ltb amount total)) [
    | inl g ↦ rw (change_output, g) (omega (arith, h))
    | inr g ↦ rw (change_output, g) (ground arith)
  ]

  change_lem :
      (amount total : ℕ)
      → amount ≤ total
      → record { witness_program_commitment = get_p2pk_witness_commitment c payee; value = amount }
          ∷ change_output c amount total change_key
        ≡ payee_and_change c payee change_key amount total
  unfolding change_output
  change_lem amount total h = elim (Bool-cases (ltb amount total)) [
    | inl g ↦
        let over : (total == amount) ≡ false = ground arith in rw (change_output, g, over) refl
    | inr g ↦ let even : (total == amount) ≡ true = ground arith in rw (change_output, g, even) refl
  ]

  -- On a wallet whose balance is that of its queue and does not overflow, `send_to` gives no transaction
  -- and leaves the wallet as it is if the wallet does not have the amount. Otherwise it gives one that
  -- pays the amount to the payee's key and what the inputs are worth above it, if anything, to the
  -- change key, in this order. Its inputs are worth the amount or more, and are those of the wallet's
  -- next seeds and of the front of its queue: these leave the seeds, the queue and the set, where
  -- nothing else changes, and the balance and what the wallet has go down by what they are worth.
  pub send_to-Payment :
      (amount : ℕ)
      → Payment c
          (payee_and_change c payee change_key amount)
          amount
          w
          (send_to c amount payee change_key w)
  unfolding send_to sum_outputs
  send_to-Payment amount =
      with_outputs-Payment c amount w _ (payee_and_change c payee change_key amount)
        (accumulate_inputs c amount w) (λ total h. sum_outputs-change_output amount total h)
        (λ total h. change_lem amount total h) (accumulate_inputs-Accumulated c amount w f)

  -- The same of `fan`, to as many outputs of a value as asked for after the change, if their total does
  -- not overflow.
  pub fan-Payment :
      (output_count value : ℕ)
      → output_count * value < 2 ^ 64
      → Payment c
          (λ total.
            change_output c (output_count * value) total change_key
            ++ repeat_output output_count (record {
              witness_program_commitment = get_p2pk_witness_commitment c payee;
              value = value;
            }))
          (output_count * value)
          w
          (fan c output_count value payee change_key w)
  unfolding fan
  fan-Payment n v b =
      let same : (n * v) % 2 ^ 64 ≡ n * v = omega (arith, b) in
      rw (fan, same)
        (with_outputs-Payment c (n * v) w _ _ (accumulate_inputs c (n * v) w)
          (λ total h.
            sum_outputs-append (change_output c (n * v) total change_key) (repeat_output n _)
            ∙ omega (
              arith,
              sum_outputs-repeat_output n (record {
                witness_program_commitment = get_p2pk_witness_commitment c payee;
                value = v;
              }),
              sum_outputs-change_output (n * v) total h,
            ))
          (λ total h. refl) (accumulate_inputs-Accumulated c (n * v) w f))
