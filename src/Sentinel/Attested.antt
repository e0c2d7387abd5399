-- ===== src/Sentinel/Attested.antt =====
-- What the two-phase sentinel forwards, and whether a coordinator or a shard accepts it.
use opencbdc_tx.Common.{
  ℕ, ◌≤◌, ◌≡◌, refl, ap, sym, ◌∙◌, inl, inr, true, ltb, List, [], ◌∷◌, none, length, contains,
  lookup, emplace, insert, All, All-mono, ◌>>=◌, Outcome, returned, >>=-returned,
  returned_injective, arith, Bool-cases, Option-cases, if◌then◌else◌,
}
use opencbdc_tx.Crypto.{Pubkey, Signature, Crypto}
use opencbdc_tx.Transaction.{FullTx, CompactTx, compact_tx, compact_tx_hash, write_compact_tx}
use opencbdc_tx.Transaction.Validation.{check_tx, check_attestations}
use opencbdc_tx.Transaction.Validation.Attestations.{IsGood, check_attestations_iff}
use opencbdc_tx.Sentinel.{
  Sentinel, Response, unreachable, invalid, attests, Gathered, waits, refuses, forwards, Executed,
  static_invalid, gathers, add_attestation, gather_attestations, attest, execute_transaction,
}

module _ (c : Crypto) (s : Sentinel) (base : CompactTx) (pubkeys : List Pubkey) where
  -- The transaction, with good attestations.
  record IsAttesting (ctx : CompactTx) : Type 0 where
    same : record ctx { attestations = [] } ≡ record base { attestations = [] }
    good : All (IsGood c base pubkeys) ctx.attestations

  -- A response of an honest sentinel.
  abbrev pub IsHonest : ℕ × Response → Type 0
  IsHonest (id, unreachable) = Unit
  IsHonest (id, invalid) = Unit
  IsHonest (id, attests key sig) = IsGood c base pubkeys (key, sig)

  add-IsAttesting :
      (key : Pubkey) (sig : Signature) (ctx : CompactTx)
      → IsGood c base pubkeys (key, sig)
      → IsAttesting ctx
      → IsAttesting (add_attestation key sig ctx)
  unfolding add_attestation emplace
  add-IsAttesting key sig ctx g a = record {
    same = a.same;
    good = elim (Option-cases (lookup key ctx.attestations)) [
      | inl e ↦ rw (emplace, e) (g, a.good)
      | inr (v, e) ↦ rw (emplace, e) a.good
    ];
  }

  -- What is forwarded has enough attestations, all of them good.
  abbrev Forwarded : Outcome Gathered → Type 0
  Forwarded (returned (forwards ctx)) =
      IsAttesting ctx × (s.attestation_threshold ≤ length ctx.attestations)
  Forwarded x = Unit

  gather-Forwarded :
      (draws : List (ℕ × Response)) (ctx : CompactTx) (requested : List ℕ)
      → All IsHonest draws
      → IsAttesting ctx
      → Forwarded (gather_attestations s draws ctx requested)
  unfolding gather_attestations
  gather-Forwarded [] ctx requested h a =
      elim (Bool-cases (ltb (length ctx.attestations) s.attestation_threshold)) [
        | inl e ↦ rw (gather_attestations, e) tt
        | inr e ↦ rw (gather_attestations, e) (a, ground arith)
      ]
  gather-Forwarded ((id, response) ∷ draws) ctx requested (honest, h) a =
      elim (Bool-cases (ltb (length ctx.attestations) s.attestation_threshold)) [
        | inr e ↦ rw (gather_attestations, e) (a, ground arith)
        | inl e ↦ elim (Bool-cases (contains id requested)) [
          | inl r ↦ rw (gather_attestations, e, r) (gather-Forwarded draws ctx requested h a)
          | inr r ↦ elim (Bool-cases (ltb id s.clients)) [
            | inr l ↦ rw (gather_attestations, e, r, l) tt
            | inl l ↦
                rw (gather_attestations, e, r, l)
                  (answer response honest (gather-Forwarded draws ctx requested h a) (λ key sig g.
                    gather-Forwarded draws (add_attestation key sig ctx) (insert id requested) h
                      (add-IsAttesting key sig ctx g a)))
          ]
        ]
      ]
    where
      answer :
          (x : Response)
          → IsHonest (id, x)
          → Forwarded (gather_attestations s draws ctx requested)
          → ((key : Pubkey) (sig : Signature)
              → IsGood c base pubkeys (key, sig)
              → Forwarded
                  (gather_attestations s draws (add_attestation key sig ctx) (insert id requested)))
          → Forwarded (elim x [
            | unreachable ↦ gather_attestations s draws ctx requested
            | invalid ↦ returned refuses
            | attests key sig ↦
                gather_attestations s draws (add_attestation key sig ctx) (insert id requested)
          ])
      answer unreachable g same more = same
      answer invalid g same more = tt
      answer (attests key sig) g same more = more key sig g

module _ (c : Crypto) (s : Sentinel) (tx : FullTx) (pubkeys : List Pubkey) where
  gathered : Executed → Gathered
  gathered (static_invalid err) = waits
  gathered (gathers g) = g

  Forwarded-at :
      (base : CompactTx) (x y : Outcome Gathered)
      → x ≡ y
      → Forwarded c s base pubkeys x
      → Forwarded c s base pubkeys y
  Forwarded-at base x y e f = rw (sym e) f

  starting : CompactTx
  starting = if ltb 0 s.attestation_threshold then attest c s (compact_tx c tx) else compact_tx c tx

  starting-IsAttesting :
      IsGood c (compact_tx c tx) pubkeys (s.pubkey, s.sign (compact_tx_hash c (compact_tx c tx)))
      → IsAttesting c s (compact_tx c tx) pubkeys starting
  unfolding starting attest compact_tx
  starting-IsAttesting own =
      let none_yet : IsAttesting c s (compact_tx c tx) pubkeys (compact_tx c tx) = record {
        same = refl;
        good = tt;
      } in
      elim (Bool-cases (ltb 0 s.attestation_threshold)) [
        | inr e ↦ rw e none_yet
        | inl e ↦ rw e (
            add-IsAttesting c s (compact_tx c tx) pubkeys s.pubkey
              (s.sign (compact_tx_hash c (compact_tx c tx))) (compact_tx c tx) own none_yet)
      ]

  still-IsGood :
      (ctx : CompactTx)
      → record ctx { attestations = [] } ≡ record (compact_tx c tx) { attestations = [] }
      → All (IsGood c (compact_tx c tx) pubkeys) ctx.attestations
      → All (IsGood c ctx pubkeys) ctx.attestations
  unfolding compact_tx_hash
  still-IsGood ctx same good =
      let hash : compact_tx_hash c ctx ≡ compact_tx_hash c (compact_tx c tx) =
        ap (λ x. c.sha256 (write_compact_tx x)) same in
      All-mono (λ att g. (g.0, (g.1.0, g.1.1, rw hash g.1.2))) ctx.attestations good

  -- Let the sentinel's key be one of the known keys and its signature good, and let the same hold of
  -- each attestation that it is answered with. What it forwards is then a transaction that passes
  -- the static checks, in its compact form but for the attestations, and it passes the check of
  -- attestations that the coordinators and the shards make with the same keys and threshold.
  pub execute_transaction-Accepted :
      (draws : List (ℕ × Response)) (ctx : CompactTx)
      → IsGood c (compact_tx c tx) pubkeys (s.pubkey, s.sign (compact_tx_hash c (compact_tx c tx)))
      → All (IsHonest c s (compact_tx c tx) pubkeys) draws
      → execute_transaction c s tx draws ≡ returned (gathers (forwards ctx))
      → (check_tx c tx ≡ none)
        × (record ctx { attestations = [] } ≡ compact_tx c tx)
        × (check_attestations c ctx pubkeys s.attestation_threshold ≡ true)
  unfolding execute_transaction compact_tx gathered starting
  execute_transaction-Accepted draws ctx own honest h = elim (Option-cases (check_tx c tx)) [
    | inr (err, e) ↦ absurd (ground arith)
    | inl e ↦
        let ran : execute_transaction c s tx draws
            ≡ gather_attestations s draws starting [] >>= (λ g. returned (gathers g)) =
          rw (execute_transaction, e) refl in
        let (g, k, m) = >>=-returned (gather_attestations s draws starting []) _ (sym ran ∙ h) in
        let same = ap gathered (returned_injective (gathers g) (gathers (forwards ctx)) m) in
        let (a, enough) =
          Forwarded-at (compact_tx c tx) (gather_attestations s draws starting [])
            (returned (forwards ctx)) (k ∙ ap returned same)
            (gather-Forwarded c s (compact_tx c tx) pubkeys draws starting [] honest
              (starting-IsAttesting own)) in
        (
          e,
          a.same,
          (check_attestations_iff c ctx pubkeys s.attestation_threshold).1
              (record { enough = enough; good = still-IsGood ctx a.same a.good }),
        )
  ]
