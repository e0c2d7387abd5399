-- ===== src/Wallet/Inputs.antt =====
-- What `accumulate_inputs` makes of a wallet's coins.
use opencbdc_tx.Common.{
  ℕ, zero, suc, ◌+◌, ◌-◌, ◌*◌, ◌%◌, ◌^◌, ◌≤◌, ◌<◌, ◌≡◌, sym, ap, ◌∙◌, List, [], ◌∷◌, ◌++◌, Option,
  none, some, ltb, length, not, ◌&&◌, refl, arith, Bool-cases, inl, inr,
}
use opencbdc_tx.Crypto.{Crypto}
use opencbdc_tx.Transaction.{Input, FullTx}
use opencbdc_tx.Wallet.{
  has_utxo, Wallet, seeds, take_seeds, take_queue, pop_utxos, accumulate_inputs,
}
use opencbdc_tx.Wallet.Coins.{
  sum_values, one_more, TakesQueue, take_queue-TakesQueue, AreSeeds, TakesSeeds,
  take_seeds-TakesSeeds, Pops, pop_utxos-Pops,
}

-- What a wallet has to spend: the seeds that are left and the inputs of the queue.
unfoldable pub assets : Wallet → ℕ
assets w = (w.seed_to - w.seed_from) * w.seed_value + sum_values w.spend_queue

-- The balance is that of the queue, and nothing wraps.
pub record Funded (w : Wallet) : Type 0 where
  pub seeded : w.seed_from ≤ w.seed_to
  pub bounded : w.seed_to < 2 ^ 64
  pub balanced : w.balance ≡ sum_values w.spend_queue
  pub small : assets w < 2 ^ 64

sum_values-append : (xs ys : List Input) → sum_values (xs ++ ys) ≡ sum_values xs + sum_values ys
unfolding sum_values
sum_values-append [] ys = omega arith
sum_values-append (x ∷ xs) ys = omega (arith, sum_values-append xs ys)

omega_zero : (n : ℕ) → n + sum_values [] ≡ n
unfolding sum_values
omega_zero n = omega arith

add_mul : (a b v : ℕ) → (a + b) * v ≡ a * v + b * v
add_mul zero b v = omega arith
add_mul (suc a) b v =
    ap (λ x. x * v) (omega arith) ∙ one_more (a + b) v ∙ omega (arith, add_mul a b v, one_more a v)

split_mul : (a n v : ℕ) → n ≤ a → a * v ≡ (a - n) * v + n * v
split_mul a n v h = ap (λ x. x * v) (omega arith) ∙ add_mul (a - n) n v

-- The seeds that were taken are put back.
abbrev put_back : ℕ → Wallet → Wallet
put_back n w = record w { seed_from = (w.seed_from + 2 ^ 64 - n) % 2 ^ 64 }

-- The inputs leave a wallet: first those of its next seeds, then the front of its queue, which also
-- leave the set, where nothing else changes. What is left is worth the rest.
pub record Leave (c : Crypto) (w left : Wallet) (inputs : List Input) : Type 0 where
  pub seeded : List Input
  pub taken : List Input
  pub both : inputs ≡ seeded ++ taken
  pub seeds : AreSeeds c w seeded
  pub next_seed : left.seed_from ≡ w.seed_from + length seeded
  pub last_seed : left.seed_to ≡ w.seed_to
  pub queue : w.spend_queue ≡ taken ++ left.spend_queue
  pub utxos :
      (inp : Input)
      → has_utxo inp left.utxos_set ≡ (has_utxo inp w.utxos_set && not (has_utxo inp taken))
  pub worth : assets left + sum_values inputs ≡ assets w
  pub funded : Funded left

-- The two outcomes: the wallet does not have the amount and stays as it is, or inputs that are worth
-- the amount or more leave it.
pub data Accumulated (c : Crypto) (amount : ℕ) (w : Wallet)
    : Wallet × Option (FullTx × ℕ) → Type 0 where
  lacking : assets w < amount → Accumulated c amount w (w, none)
  paid :
      (left : Wallet) (tx : FullTx) (total : ℕ)
      → amount ≤ total
      → sum_values tx.inputs ≡ total
      → Leave c w left tx.inputs
      → Accumulated c amount w (left, some (tx, total))

module _ (c : Crypto) (amount : ℕ) (w : Wallet) (f : Funded w) where
  abbrev r : List Input × ℕ × Wallet
  r = take_seeds c (seeds w) amount 0 w

  seeds_left : seeds w ≡ w.seed_to - w.seed_from
  unfolding seeds
  seeds_left = omega (arith, f.seeded, f.bounded)

  seeded : TakesSeeds c (seeds w) amount 0 w r
  unfolding assets
  seeded =
      take_seeds-TakesSeeds c (seeds w) amount 0 w (omega (arith, seeds_left, f.seeded)) f.bounded
        (rw seeds_left (omega (arith, f.small)))

  abbrev q : List Input × ℕ
  q = take_queue amount r.1 r.2.spend_queue

  same_queue : r.2.spend_queue ≡ w.spend_queue
  same_queue = ap (λ x. x.spend_queue) seeded.moves

  split_seeds :
      (w.seed_to - w.seed_from) * w.seed_value
      ≡ (w.seed_to - w.seed_from - length r.0) * w.seed_value + length r.0 * w.seed_value
  split_seeds =
      split_mul (w.seed_to - w.seed_from) (length r.0) w.seed_value
        (omega (arith, seeded.within, seeds_left))

  queued : TakesQueue amount r.1 r.2.spend_queue q
  unfolding assets
  queued =
      take_queue-TakesQueue amount r.1 r.2.spend_queue
        (rw same_queue (omega (arith, seeded.sum, split_seeds, f.small)))

  whole_queue : sum_values w.spend_queue ≡ sum_values q.0 + sum_values queued.rest
  whole_queue = ap sum_values (sym same_queue ∙ queued.split) ∙ sum_values-append q.0 queued.rest

  -- The amount is not reached, so everything was counted.
  too_little : q.1 < amount → assets w < amount
  unfolding assets sum_values
  too_little h =
      let each : length r.0 ≡ w.seed_to - w.seed_from =
        seeded.all (omega (arith, queued.sum, h)) ∙ seeds_left in
      omega (
        arith,
        h,
        queued.sum,
        seeded.sum,
        whole_queue,
        ap sum_values (queued.all h),
        ap (λ x. x * w.seed_value) each,
      )

  abbrev left : Wallet
  left = pop_utxos q.0 r.2

  pops : Pops q.0 queued.rest r.2 left
  unfolding assets
  pops =
      let same = ap (λ x. x.balance) seeded.moves in
      pop_utxos-Pops q.0 queued.rest r.2 queued.split (omega (arith, same, f.balanced, whole_queue))
        (omega (arith, same, f.balanced, f.small))

  seed_to-left : left.seed_to ≡ w.seed_to
  seed_to-left = pops.to ∙ ap (λ x. x.seed_to) seeded.moves

  seed_from-left : left.seed_from ≡ w.seed_from + length r.0
  seed_from-left = pops.from ∙ ap (λ x. x.seed_from) seeded.moves

  seed_value-left : left.seed_value ≡ w.seed_value
  seed_value-left = pops.value ∙ ap (λ x. x.seed_value) seeded.moves

  assets-left :
      assets left ≡ (w.seed_to - w.seed_from - length r.0) * w.seed_value + sum_values queued.rest
  unfolding assets
  assets-left =
      ap (λ x. x * left.seed_value + sum_values left.spend_queue)
        (omega (arith, seed_to-left, seed_from-left))
      ∙ ap (λ x. (w.seed_to - w.seed_from - length r.0) * x + sum_values left.spend_queue)
          seed_value-left
      ∙ ap (λ x. (w.seed_to - w.seed_from - length r.0) * w.seed_value + sum_values x) pops.queue

  assets-paid : assets left + q.1 ≡ assets w
  unfolding assets
  assets-paid = omega (arith, assets-left, queued.sum, seeded.sum, split_seeds, whole_queue)

  Funded-left : Funded left
  Funded-left = record {
    seeded = omega (arith, seed_to-left, seed_from-left, seeded.within, seeds_left, f.seeded);
    bounded = omega (arith, seed_to-left, f.bounded);
    balanced = omega (
      arith,
      pops.paid,
      ap (λ x. x.balance) seeded.moves,
      f.balanced,
      whole_queue,
      ap sum_values pops.queue,
    );
    small = omega (arith, assets-paid, f.small);
  }

  refused_at : (v : Wallet) → v ≡ w → assets w < amount → Accumulated c amount w (v, none)
  refused_at v p h = rw p (lacking h)

  restored : put_back (length r.0) r.2 ≡ w
  restored =
      ap (put_back (length r.0)) seeded.moves
      ∙ ap (λ x. record w { seed_from = x }) (omega (arith, f.seeded, f.bounded))

  same_utxos : r.2.utxos_set ≡ w.utxos_set
  same_utxos = ap (λ x. x.utxos_set) seeded.moves

  worth_inputs : sum_values (r.0 ++ q.0) ≡ q.1
  worth_inputs = sum_values-append r.0 q.0 ∙ omega (arith, queued.sum, seeded.sum, seeded.values)

  pub accumulate_inputs-Accumulated : Accumulated c amount w (accumulate_inputs c amount w)
  unfolding accumulate_inputs
  accumulate_inputs-Accumulated =
      elim (Bool-cases (ltb q.1 amount))
        as (λ x. Accumulated c amount w (accumulate_inputs c amount w)) [
          | inl e ↦ rw (accumulate_inputs, e) (refused_at _ restored (too_little (ground arith)))
          | inr e ↦
              rw (accumulate_inputs, e)
                (paid left _ q.1 (ground arith) worth_inputs (record {
                  seeded = r.0;
                  taken = q.0;
                  both = refl;
                  seeds = seeded.seeds;
                  next_seed = seed_from-left;
                  last_seed = seed_to-left;
                  queue = sym same_queue ∙ queued.split ∙ ap (λ x. q.0 ++ x) (sym pops.queue);
                  utxos =
                      λ x. pops.utxos x ∙ ap (λ y. has_utxo x y && not (has_utxo x q.0)) same_utxos;
                  worth = ap (λ x. assets left + x) worth_inputs ∙ assets-paid;
                  funded = Funded-left;
                }))
        ]
