-- ===== src/Sentinel.antt =====
-- src/uhs/twophase/sentinel_2pc/controller.cpp and src/uhs/atomizer/sentinel/controller.cpp: a sentinel
-- validates a transaction, attests to it, gathers the attestations of others and forwards it. The
-- random choices of a sentinel with the answers that they lead to are a list of draws; the key of the
-- sentinel and libsecp256k1 are the field `sign`.
pub mod Attested
pub mod Broadcast
use opencbdc_tx.Common.{
  ℕ, zero, suc, ◌+◌, ◌%◌, Bool, true, false, not, ltb, List, [], ◌∷◌, Option, none, some, ◌==◌,
  length, get_elem?, contains, insert, emplace, if◌then◌else◌, Outcome, returned, terminated, ◌>>=◌,
}
use opencbdc_tx.Crypto.{Hash, Pubkey, Signature, Crypto, hash_in_shard_range}
use opencbdc_tx.Transaction.{FullTx, CompactTx, compact_tx, compact_tx_hash}
use opencbdc_tx.Transaction.Validation.{TxError, check_tx}

pub record Sentinel : Type 0 where
  pub attestation_threshold : ℕ
  pub pubkey : Pubkey
  pub sign : Hash → Signature
  pub clients : ℕ

-- What becomes of a request to validate: the call fails, or the answer has an attestation or none.
pub data Response : Type 0 where
  unreachable : Response
  invalid : Response
  attests : Pubkey → Signature → Response

-- The rounds end while an answer is awaited, or the transaction is refused or forwarded.
pub data Gathered : Type 0 where
  waits : Gathered
  refuses : Gathered
  forwards : CompactTx → Gathered

pub data Executed : Type 0 where
  static_invalid : TxError → Executed
  gathers : Gathered → Executed

unfoldable pub add_attestation : Pubkey → Signature → CompactTx → CompactTx
add_attestation key sig ctx = record ctx { attestations = emplace key sig ctx.attestations }

-- `gather_attestations` with `validate_result_handler`, which calls it again.
unfoldable pub gather_attestations :
    Sentinel → List (ℕ × Response) → CompactTx → List ℕ → Outcome Gathered
gather_attestations s [] ctx requested =
    returned (if ltb (length ctx.attestations) s.attestation_threshold then waits else forwards ctx)
gather_attestations s ((id, response) ∷ draws) ctx requested =
    elim (ltb (length ctx.attestations) s.attestation_threshold) [
      | false ↦ returned (forwards ctx)
      | true ↦ elim (contains id requested) [
        | true ↦ gather_attestations s draws ctx requested
        | false ↦ elim (ltb id s.clients) [
          | false ↦ terminated
          | true ↦ elim response [
            | unreachable ↦ gather_attestations s draws ctx requested
            | invalid ↦ returned refuses
            | attests key sig ↦
                gather_attestations s draws (add_attestation key sig ctx) (insert id requested)
          ]
        ]
      ]
    ]

module _ (c : Crypto) where
  -- `compact_tx::sign`, inserted.
  unfoldable pub attest : Sentinel → CompactTx → CompactTx
  attest s ctx = add_attestation s.pubkey (s.sign (compact_tx_hash c ctx)) ctx

  -- `execute_transaction` of the two-phase architecture.
  unfoldable pub execute_transaction : Sentinel → FullTx → List (ℕ × Response) → Outcome Executed
  execute_transaction s tx draws = elim (check_tx c tx) [
    | some err ↦ returned (static_invalid err)
    | none ↦
        let ctx = compact_tx c tx in
        gather_attestations s draws (if ltb 0 s.attestation_threshold then attest s ctx else ctx) []
        >>= λ g. returned (gathers g)
  ]

  -- The answer to another sentinel.
  unfoldable pub validate_transaction : Sentinel → FullTx → Option (Pubkey × Signature)
  validate_transaction s tx = elim (check_tx c tx) [
    | some err ↦ none
    | none ↦ some (s.pubkey, s.sign (compact_tx_hash c (compact_tx c tx)))
  ]

-- `shard_info`
pub record ShardInfo : Type 0 where
  pub range : ℕ × ℕ
  pub peer_id : ℕ

-- `k`, `k + 1` and so on, `n` of them.
unfoldable pub indices_from : ℕ → ℕ → List ℕ
indices_from k zero = []
indices_from k (suc n) = k ∷ indices_from (k + 1) n

-- `send_compact_tx` of the atomizer's sentinel, the loop over the inputs: it reads the input at `i`,
-- the index of the loop over the shards.
unfoldable pub send_inputs :
    ℕ → ℕ × ℕ → List Hash → List ℕ → List ℕ → Bool → Outcome (List ℕ × Bool)
send_inputs i range inputs [] inputs_sent should_send = returned (inputs_sent, should_send)
send_inputs i range inputs (j ∷ js) inputs_sent should_send = elim (contains j inputs_sent) [
  | true ↦ send_inputs i range inputs js inputs_sent should_send
  | false ↦ elim (get_elem? inputs i) [
    | none ↦ terminated
    | some input ↦ elim (hash_in_shard_range range input) [
      | true ↦ send_inputs i range inputs js (insert j inputs_sent) true
      | false ↦ send_inputs i range inputs js inputs_sent should_send
    ]
  ]
]

module _ (connected : ℕ → Bool) (shards : List ShardInfo) (offset : ℕ) where
  -- The loop over the shards, at these indexes; the peers that the transaction is sent to.
  unfoldable pub send_shards : List Hash → List ℕ → List ℕ → Outcome (List ℕ)
  send_shards inputs [] inputs_sent = returned []
  send_shards inputs (i ∷ idxs) inputs_sent = elim (length inputs_sent == length inputs) [
    | true ↦ returned []
    | false ↦ elim (get_elem? shards ((i + offset) % length shards)) [
      | none ↦ terminated
      | some shard ↦ elim (connected shard.peer_id) [
        | false ↦ send_shards inputs idxs inputs_sent
        | true ↦ do
          (sent, should_send) ←
              send_inputs i shard.range inputs (indices_from 0 (length inputs)) inputs_sent false
          peers ← send_shards inputs idxs sent
          returned (if should_send then shard.peer_id ∷ peers else peers)
      ]
    ]
  ]

  unfoldable pub send_compact_tx : CompactTx → Outcome (List ℕ)
  send_compact_tx ctx = send_shards ctx.inputs (indices_from 0 (length shards)) []
