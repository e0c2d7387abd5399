-- ===== src/Transaction/Validation/Balance.antt =====
-- `check_in_out_set`: the wrapped totals are the true ones wherever the check passes.
use opencbdc_tx.Common.{
  ℕ, ◌+◌, ◌%◌, ◌^◌, ◌<◌, ◌≡◌, ◌↔◌, List, [], ◌∷◌, none, some, All, arith, Option-cases, inl, inr,
}
use opencbdc_tx.Transaction.{FullTx}
use opencbdc_tx.Transaction.Validation.{total_from, input_values, output_values, check_in_out_set}

abbrev pub sum : List ℕ → ℕ
sum [] = 0
sum (v ∷ vs) = v + sum vs

-- A positive value that fits a `uint64_t`.
abbrev pub IsAmount : ℕ → Type 0
IsAmount v = (0 < v) × (v < 2 ^ 64)

total_from_sound :
    (vs : List ℕ) (total t : ℕ)
    → total < 2 ^ 64
    → All (λ v. v < 2 ^ 64) vs
    → total_from total vs ≡ some t
    → (t ≡ total + sum vs) × (total + sum vs < 2 ^ 64) × All (λ v. 0 < v) vs
unfolding total_from
total_from_sound [] total t fits h e = ground arith
total_from_sound (v ∷ vs) total t fits h e =
    ground (arith, total_from_sound vs ((total + v) % 2 ^ 64) t)

total_from_complete :
    (vs : List ℕ) (total : ℕ)
    → total + sum vs < 2 ^ 64
    → All (λ v. 0 < v) vs
    → total_from total vs ≡ some (total + sum vs)
unfolding total_from
total_from_complete [] total fits h = ground arith
total_from_complete (v ∷ vs) total fits h =
    ground (arith, total_from_complete vs ((total + v) % 2 ^ 64))

-- What the check promises of the values of the inputs and the outputs.
pub record IsBalanced (ins outs : List ℕ) : Type 0 where
  pub ins_positive : All (λ v. 0 < v) ins
  pub outs_positive : All (λ v. 0 < v) outs
  pub equal : sum ins ≡ sum outs
  pub fits : sum ins < 2 ^ 64

module _ (tx : FullTx) (hi : All (λ v. v < 2 ^ 64) (input_values tx))
    (ho : All (λ v. v < 2 ^ 64) (output_values tx)) where
  check_in_out_set_sound :
      check_in_out_set tx ≡ none → IsBalanced (input_values tx) (output_values tx)
  unfolding check_in_out_set
  check_in_out_set_sound h = elim (Option-cases (total_from 0 (input_values tx))) [
    | inl e ↦ absurd (ground arith)
    | inr (i, ei) ↦ elim (Option-cases (total_from 0 (output_values tx))) [
      | inl e ↦ absurd (ground arith)
      | inr (o, eo) ↦
          let is = total_from_sound (input_values tx) 0 i (omega arith) hi ei in
          let os = total_from_sound (output_values tx) 0 o (omega arith) ho eo in
          record {
            ins_positive = is.2;
            outs_positive = os.2;
            equal = ground arith;
            fits = omega arith;
          }
    ]
  ]

  check_in_out_set_complete :
      IsBalanced (input_values tx) (output_values tx) → check_in_out_set tx ≡ none
  unfolding check_in_out_set
  check_in_out_set_complete b = ground (
    arith,
    b.equal,
    total_from_complete (input_values tx) 0 (omega (arith, b.fits)) b.ins_positive,
    total_from_complete (output_values tx) 0 (omega (arith, b.fits, b.equal)) b.outs_positive,
  )

  pub check_in_out_set_iff :
      (check_in_out_set tx ≡ none) ↔ IsBalanced (input_values tx) (output_values tx)
  check_in_out_set_iff = (check_in_out_set_sound, check_in_out_set_complete)
