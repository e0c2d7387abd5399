-- ===== src/Wallet/Coins.antt =====
-- What `accumulate_inputs` takes out of a wallet.
use opencbdc_tx.Common.{
  ℕ, zero, suc, ◌+◌, ◌-◌, ◌*◌, ◌%◌, ◌^◌, ◌≤◌, ◌<◌, ◌≡◌, refl, sym, ap, ◌∙◌, true, false, not, ◌&&◌,
  List, [], ◌∷◌, ◌++◌, some, ◌==◌, ltb, length, arith, Bool-cases, inl, inr,
}
use opencbdc_tx.Crypto.{Crypto}
use opencbdc_tx.Transaction.{Input, FullTx, tx_id, input_from_output_at, out_point_eq}
use opencbdc_tx.Wallet.{
  Wallet, take_seeds, take_queue, pop_utxos, create_seeded_input, create_seeded_transaction,
  erase_utxo, has_utxo,
}

pub one_more : (n v : ℕ) → suc n * v ≡ v + n * v
one_more n v = omega arith

-- The sum of the values of inputs.
unfoldable pub sum_values : List Input → ℕ
sum_values [] = 0
sum_values (inp ∷ inps) = inp.prevout_data.value + sum_values inps

-- The loop on the queue takes a prefix, and all of it if the amount is not reached.
pub record TakesQueue (amount total : ℕ) (queue : List Input) (r : List Input × ℕ) : Type 0 where
  pub rest : List Input
  pub split : queue ≡ r.0 ++ rest
  pub sum : r.1 ≡ total + sum_values r.0
  pub all : r.1 < amount → rest ≡ []

pub take_queue-TakesQueue :
    (amount total : ℕ) (queue : List Input)
    → total + sum_values queue < 2 ^ 64
    → TakesQueue amount total queue (take_queue amount total queue)
unfolding take_queue sum_values
take_queue-TakesQueue amount total [] h = record {
  rest = [];
  split = refl;
  sum = omega arith;
  all = λ f. refl;
}
take_queue-TakesQueue amount total (utxo ∷ queue) h =
    elim (Bool-cases (ltb total amount))
      as (λ x. TakesQueue amount total (utxo ∷ queue) (take_queue amount total (utxo ∷ queue))) [
        | inl e ↦
            let next =
              take_queue-TakesQueue amount ((total + utxo.prevout_data.value) % 2 ^ 64) queue
                (omega arith) in
            rw (take_queue, e)
              (record {
                rest = next.rest;
                split = ap (λ q. utxo ∷ q) next.split;
                sum = next.sum ∙ omega arith;
                all = next.all;
              })
        | inr e ↦
            rw (take_queue, e)
              (record {
                rest = utxo ∷ queue;
                split = refl;
                sum = omega arith;
                all = λ f. absurd (ground arith);
              })
      ]

-- The inputs of the seeds of a wallet, from the first that is left on.
abbrev pub AreSeeds : Crypto → Wallet → List Input → Type 0
AreSeeds c w [] = Unit
AreSeeds c w (inp ∷ inps) =
    (create_seeded_input c w.seed_from w ≡ some inp)
    × AreSeeds c (record w { seed_from = w.seed_from + 1 }) inps

AreSeeds-from :
    (c : Crypto) (i j : ℕ)
    → i ≡ j
    → (w : Wallet) (inps : List Input) → AreSeeds c (record w { seed_from = i }) inps
    → AreSeeds c (record w { seed_from = j }) inps
AreSeeds-from c i j e w inps a = rw (sym e) a

-- The loop on the seeds takes the first ones, and all of them if the amount is not reached.
pub record TakesSeeds (c : Crypto) (fuel amount total : ℕ) (w : Wallet)
    (r : List Input × ℕ × Wallet) : Type 0 where
  pub within : length r.0 ≤ fuel
  pub sum : r.1 ≡ total + length r.0 * w.seed_value
  pub values : sum_values r.0 ≡ length r.0 * w.seed_value
  pub moves : r.2 ≡ record w { seed_from = w.seed_from + length r.0 }
  pub seeds : AreSeeds c w r.0
  pub all : r.1 < amount → length r.0 ≡ fuel

abbrev seeded_tx : Wallet → FullTx
seeded_tx w = record {
  inputs =
      record {
        prevout = record { tx_id = 0; index = w.seed_from };
        prevout_data = record { witness_program_commitment = 0; value = w.seed_value };
      }
      ∷ [];
  outputs =
      record { witness_program_commitment = w.seed_witness_commitment; value = w.seed_value } ∷ [];
  witness = [];
}

module _ (c : Crypto) where
  abbrev seeded_input : Wallet → Input
  seeded_input w = record {
    prevout = record { tx_id = tx_id c (seeded_tx w); index = 0 };
    prevout_data = record {
      witness_program_commitment = w.seed_witness_commitment;
      value = w.seed_value;
    };
  }

  create_seeded_input-some :
      (w : Wallet)
      → (w.seed_from == w.seed_to) ≡ false
      → create_seeded_input c w.seed_from w ≡ some (seeded_input w)
  unfolding create_seeded_input create_seeded_transaction input_from_output_at
  create_seeded_input-some w e = rw (create_seeded_input, create_seeded_transaction, e) refl

  one_seed :
      (fuel amount total : ℕ) (w : Wallet)
      → ltb total amount ≡ true
      → (w.seed_from == w.seed_to) ≡ false
      → w.seed_from < 2 ^ 64 - 1
      → total + suc fuel * w.seed_value < 2 ^ 64
      → TakesSeeds c fuel amount
          ((total + w.seed_value) % 2 ^ 64)
          (record w { seed_from = (w.seed_from + 1) % 2 ^ 64 })
          (take_seeds c fuel amount
            ((total + w.seed_value) % 2 ^ 64)
            (record w { seed_from = (w.seed_from + 1) % 2 ^ 64 }))
      → TakesSeeds c (suc fuel) amount total w (take_seeds c (suc fuel) amount total w)
  unfolding take_seeds sum_values
  one_seed fuel amount total w f left low h next =
      let n =
        length
          (take_seeds c fuel amount ((total + w.seed_value) % 2 ^ 64)
            (record w { seed_from = (w.seed_from + 1) % 2 ^ 64 })).0 in
      let one : (w.seed_from + 1) % 2 ^ 64 ≡ w.seed_from + 1 = omega arith in
      rw (take_seeds, left, f, create_seeded_input-some w left)
        (record {
          within = omega (arith, next.within);
          sum = next.sum ∙ omega (arith, one_more n w.seed_value, one_more fuel w.seed_value);
          values = ap (λ x. w.seed_value + x) next.values ∙ sym (one_more n w.seed_value);
          moves = next.moves ∙ ap (λ x. record w { seed_from = x }) (omega arith);
          seeds = (
            create_seeded_input-some w left,
            AreSeeds-from c ((w.seed_from + 1) % 2 ^ 64) (w.seed_from + 1) one w
                (take_seeds c fuel amount ((total + w.seed_value) % 2 ^ 64)
                  (record w { seed_from = (w.seed_from + 1) % 2 ^ 64 })).0
                next.seeds,
          );
          all = λ g. ap suc (next.all g);
        })

  pub take_seeds-TakesSeeds :
      (fuel amount total : ℕ) (w : Wallet)
      → w.seed_from + fuel ≡ w.seed_to
      → w.seed_to < 2 ^ 64
      → total + fuel * w.seed_value < 2 ^ 64
      → TakesSeeds c fuel amount total w (take_seeds c fuel amount total w)
  unfolding take_seeds sum_values
  take_seeds-TakesSeeds zero amount total w e b h = record {
    within = omega arith;
    sum = omega arith;
    values = omega arith;
    moves = ap (λ x. record w { seed_from = x }) (omega arith);
    seeds = tt;
    all = λ f. refl;
  }
  take_seeds-TakesSeeds (suc fuel) amount total w e b h =
      elim (Bool-cases (ltb total amount))
        as (λ x. TakesSeeds c (suc fuel) amount total w (take_seeds c (suc fuel) amount total w)) [
          | inl f ↦ one_seed fuel amount total w f left (omega arith) h (
              take_seeds-TakesSeeds fuel amount ((total + w.seed_value) % 2 ^ 64)
                (record w { seed_from = (w.seed_from + 1) % 2 ^ 64 }) (omega arith) b
                (omega (arith, one_more fuel w.seed_value)))
          | inr f ↦
              rw (take_seeds, left, f)
                (record {
                  within = omega arith;
                  sum = omega arith;
                  values = omega arith;
                  moves = ap (λ x. record w { seed_from = x }) (omega arith);
                  seeds = tt;
                  all = λ g. absurd (ground arith);
                })
        ]
    where
      left : (w.seed_from == w.seed_to) ≡ false
      left = ground arith

has_utxo-erase_utxo :
    (inp x : Input) (utxos : List Input)
    → has_utxo inp (erase_utxo x utxos)
      ≡ (has_utxo inp utxos && not (out_point_eq x.prevout inp.prevout))
unfolding has_utxo erase_utxo out_point_eq
has_utxo-erase_utxo inp x [] = refl
has_utxo-erase_utxo inp x (utxo ∷ utxos) = ground (arith, has_utxo-erase_utxo inp x utxos)

-- The inputs that were taken leave the queue and the set, and their value the balance.
pub record Pops (taken rest : List Input) (w u : Wallet) : Type 0 where
  pub queue : u.spend_queue ≡ rest
  pub utxos :
      (inp : Input)
      → has_utxo inp u.utxos_set ≡ (has_utxo inp w.utxos_set && not (has_utxo inp taken))
  pub paid : u.balance + sum_values taken ≡ w.balance
  pub from : u.seed_from ≡ w.seed_from
  pub to : u.seed_to ≡ w.seed_to
  pub value : u.seed_value ≡ w.seed_value

pub pop_utxos-Pops :
    (taken rest : List Input) (w : Wallet)
    → w.spend_queue ≡ taken ++ rest
    → sum_values taken ≤ w.balance
    → w.balance < 2 ^ 64
    → Pops taken rest w (pop_utxos taken w)
unfolding pop_utxos sum_values has_utxo
pop_utxos-Pops [] rest w e h b = record {
  queue = e;
  utxos = λ x. ground arith;
  paid = omega arith;
  from = refl;
  to = refl;
  value = refl;
}
pop_utxos-Pops (inp ∷ taken) rest w e h b =
    let next =
      pop_utxos-Pops taken rest
        (record w {
          balance = (w.balance + 2 ^ 64 - inp.prevout_data.value) % 2 ^ 64;
          utxos_set = erase_utxo inp w.utxos_set;
          spend_queue = taken ++ rest;
        })
        refl (omega arith) (omega arith) in
    rw (pop_utxos, e)
      (record {
        queue = next.queue;
        utxos = λ x. ground (arith, next.utxos x, has_utxo-erase_utxo x inp w.utxos_set);
        paid = omega (arith, next.paid);
        from = next.from;
        to = next.to;
        value = next.value;
      })
