-- ===== src/DistributedTx/Commit.antt =====
-- A whole batch over in-memory locking shards: prepared, committed and discarded.
use opencbdc_tx.Common.{
  ℕ, zero, suc, ◌<◌, ◌≡◌, refl, Bool, true, false, List, [], ◌∷◌, Option, some, length, get_or,
  replicate, returned, ◌>>=◌, arith, ◌∙◌, sym, length-replicate,
}
use opencbdc_tx.Crypto.{Hash, hash_in_shard_range}
use opencbdc_tx.Transaction.{CompactTx}
use opencbdc_tx.LockingShard.{Config, LockingShard, lock_outputs, apply_outputs, discard_dtx}
use opencbdc_tx.LockingShard.Batch.{is_spent, is_created}
use opencbdc_tx.LockingShard.Atomic.{IsFresh, Commits, apply_outputs-lock_outputs}
use opencbdc_tx.DistributedTx.{
  Interface, Run, select, all_true, lock_shards, apply_shards, discard_shards, execute, start, done,
}
use opencbdc_tx.DistributedTx.Prepare.{refused, Below, Answered, collect-refused, select-Within}
use opencbdc_tx.DistributedTx.Execution.{
  Agrees, prepared, execute-prepared, committed, execute-committed, execute-discarded,
}

abbrev pub Shard : Type 0
Shard = Config × LockingShard

-- The in-memory shard behind the interface that the coordinator calls.
unfoldable pub in_memory : Interface Shard
in_memory = record {
  hash_in_shard_range = λ s h. hash_in_shard_range s.0.output_range h;
  lock_outputs = λ txs id s. lock_outputs s.0 txs id s.1 >>= λ r. returned ((s.0, r.0), r.1);
  apply_outputs = λ flags id s. apply_outputs s.0 flags id s.1 >>= λ r. returned ((s.0, r.0), r.1);
  discard_dtx = λ id s. let (t, ok) = discard_dtx id s.1 in ((s.0, t), ok);
}

-- Each shard has a batch that it can take in one piece, with an index below `n` for each of its
-- transactions.
abbrev pub IsReady : ℕ → Hash → List (List ℕ) → List (List CompactTx) → List Shard → Type 0
IsReady n id (idxs ∷ idxss) (txs ∷ txss) (s ∷ shards) =
    (length idxs ≡ length txs)
    × Below n idxs
    × IsFresh s.0 txs id s.1
    × IsReady n id idxss txss shards
IsReady n id [] [] [] = Unit
IsReady n id idxss txss shards = ⊥

-- On each shard, the unspent set changes by exactly the transactions that are flagged.
abbrev pub Committed :
    List Bool → List (List ℕ) → List (List CompactTx) → List Shard → List Shard → Type 0
Committed flags (idxs ∷ idxss) (txs ∷ txss) (s ∷ shards) (u ∷ shards') =
    ((fs : List Bool) × (select flags idxs ≡ returned fs) × Commits s.0 fs txs s.1.coins u.1.coins)
    × Committed flags idxss txss shards shards'
Committed flags [] [] [] [] = Unit
Committed flags idxss txss shards shards' = ⊥

apply_outputs-running :
    (c : Config) (fs : List Bool) (id : Hash) (s u : LockingShard)
    → apply_outputs c fs id s ≡ returned (u, true)
    → u.running ≡ true
unfolding apply_outputs
apply_outputs-running c fs id s u e = ground (arith)

discard_dtx-running :
    (id : Hash) (u : LockingShard)
    → u.running ≡ true
    → ((discard_dtx id u).1 ≡ true) × ((discard_dtx id u).0.coins ≡ u.coins)
unfolding discard_dtx
discard_dtx-running id u r = rw (discard_dtx, r) (refl, refl)

nothing_Commits : (s : Shard) → Commits s.0 [] [] s.1.coins s.1.coins
unfolding is_created is_spent
nothing_Commits s = record { uhs = λ j. ground arith; locked = λ j. refl }

abbrev pub Phases : ℕ → Hash → List (List ℕ) → List (List CompactTx) → List Shard → Type 0
Phases n id idxss txss shards =
    (locked : List Shard) × (txss' : List (List CompactTx)) × (answers : List
      (Option (List Bool) × List ℕ))
    × (lock_shards in_memory id idxss txss shards ≡ returned (locked, txss', answers))
    × Answered n answers
    × ((flags : List Bool)
        → length flags ≡ n
        → ((k : ℕ) → k < n → get_or flags k true ≡ true → refused k answers ≡ false)
        → (applied : List Shard) × (oks : List Bool) × (shards' : List Shard) × (oks' : List Bool)
          × (apply_shards in_memory id flags idxss locked ≡ returned (applied, oks))
          × (all_true oks ≡ true)
          × (discard_shards in_memory id idxss applied ≡ returned (shards', oks'))
          × (all_true oks' ≡ true)
          × Committed flags idxss txss shards shards')

pub lock_shards-Phases :
    (n : ℕ) (id : Hash) (idxss : List (List ℕ)) (txss : List (List CompactTx)) (shards : List Shard)
    → IsReady n id idxss txss shards
    → Phases n id idxss txss shards
unfolding lock_shards apply_shards discard_shards select refused all_true in_memory
lock_shards-Phases n id [] [] [] r =
    ([], [], [], refl, tt, λ flags l h. ([], [], [], [], refl, refl, refl, refl, tt))
lock_shards-Phases n id [] [] (s ∷ shards) r = absurd r
lock_shards-Phases n id [] (txs ∷ txss) shards r = absurd r
lock_shards-Phases n id (idxs ∷ idxss) [] shards r = absurd r
lock_shards-Phases n id (idxs ∷ idxss) (txs ∷ txss) [] r = absurd r
lock_shards-Phases n id ([] ∷ idxss) ((tx ∷ txs) ∷ txss) (s ∷ shards) r =
    absurd (omega (arith, r.0))
lock_shards-Phases n id ([] ∷ idxss) ([] ∷ txss) (s ∷ shards) (same, below, fresh, r) =
    let (locked, txss', answers, e, a, next) = lock_shards-Phases n id idxss txss shards r in
    (
      s ∷ locked,
      [] ∷ txss',
      answers,
      rw (lock_shards, e) refl,
      a,
      λ flags l h.
          let (applied, oks, shards', oks', p, t, d, t', c) = next flags l h in
          (
            s ∷ applied,
            oks,
            s ∷ shards',
            oks',
            rw (apply_shards, p) refl,
            t,
            rw (discard_shards, d) refl,
            t',
            (([], refl, nothing_Commits s), c),
          ),
    )
lock_shards-Phases n id ((i ∷ idxs) ∷ idxss) (txs ∷ txss) (s ∷ shards) (same, below, fresh, r) =
    let (locked, txss', answers, e, a, next) = lock_shards-Phases n id idxss txss shards r in
    let (t, rs, el, count, apply) = apply_outputs-lock_outputs s.0 txs id s.1 fresh in
    (
      (s.0, t) ∷ locked,
      [] ∷ txss',
      (some rs, i ∷ idxs) ∷ answers,
      rw (lock_shards, in_memory, el, e) refl,
      (count ∙ sym same, below, a),
      λ flags l h.
          let (applied, oks, shards', oks', p, y, d, y', c) =
            next flags l (λ k q g. ground (arith, h k q g)) in
          let (fs, es, w) =
            select-Within n flags rs (i ∷ idxs) l (count ∙ sym same) below
              (λ k q g. ground (arith, h k q g)) in
          let (u, ea, commits) = apply fs w in
          let (ok, kept) = discard_dtx-running id u (apply_outputs-running s.0 fs id t u ea) in
          (
            (s.0, u) ∷ applied,
            true ∷ oks,
            (s.0, (discard_dtx id u).0) ∷ shards',
            true ∷ oks',
            rw (apply_shards, es, in_memory, ea, p) refl,
            y,
            rw (discard_shards, in_memory, ok, d) refl,
            y',
            ((fs, es, rw kept commits), c),
          ),
    )

pub get_or-replicate : (n k : ℕ) → get_or (replicate n true) k true ≡ true
get_or-replicate zero k = refl
get_or-replicate (suc n) zero = refl
get_or-replicate (suc n) (suc k) = get_or-replicate n k

-- Let each shard run, not know the batch's identifier, and have for each transaction of its part
-- an index in the batch; let the part spend distinct inputs, none of them in two transactions or
-- locked; and let the callbacks succeed. Then the batch is executed from the start to its end: it
-- returns one flag for each transaction and is done, and on every shard exactly the flagged
-- transactions of its part have their inputs removed and their outputs added; no other unspent
-- hash and no lock has changed.
pub execute-Committed :
    {W : Type 0} (r : Run Shard W)
    → r.dtx.state ≡ start
    → Agrees r.dtx
    → IsReady (length r.dtx.full_txs) r.dtx.dtx_id r.dtx.tx_idxs r.dtx.txs r.shards
    → (u : Run Shard W) × (flags : List Bool) × (execute in_memory r ≡ returned (u, some flags))
      × (u.dtx.state ≡ done)
      × (length flags ≡ length r.dtx.full_txs)
      × Committed flags r.dtx.tx_idxs r.dtx.txs r.shards u.shards
unfolding prepared committed
execute-Committed r at agrees ready =
    let n = length r.dtx.full_txs in
    let (locked, txss', answers, e, a, next) =
      lock_shards-Phases n r.dtx.dtx_id r.dtx.tx_idxs r.dtx.txs r.shards ready in
    let (flags, c, l, only) =
      collect-refused answers (replicate n true) (rw (length-replicate n true) a) in
    let l' : length flags ≡ n = l ∙ length-replicate n true in
    let (applied, oks, shards', oks', p, y, d, y', all_done) =
      next flags l' (λ k q g. ground (arith, only k, get_or-replicate n k)) in
    let r1 = prepared in_memory r locked txss' flags in
    let r2 = committed in_memory r1 applied in
    let (u, ex, fin, same) =
      execute-discarded in_memory r2 shards' oks' refl
        (record {
          prepares = agrees.prepares;
          commits = agrees.commits;
          discards = agrees.discards;
          finishes = agrees.finishes;
        })
        d y' in
    (
      u,
      flags,
      execute-prepared in_memory r locked txss' answers flags at agrees e c l'
          ∙ execute-committed in_memory r1 applied oks refl
              (record {
                prepares = agrees.prepares;
                commits = agrees.commits;
                discards = agrees.discards;
                finishes = agrees.finishes;
              })
              p y
          ∙ ex,
      fin,
      l',
      rw same all_done,
    )
