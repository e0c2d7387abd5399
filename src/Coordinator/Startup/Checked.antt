-- ===== src/Coordinator/Startup/Checked.antt =====
-- Which configurations `init` of controller.cpp accepts.
use opencbdc_tx.Common.{
  ℕ, zero, suc, ◌<◌, ◌≤◌, ◌^◌, ◌≡◌, refl, ◌⊎◌, inl, inr, true, false, ltb, List, [], ◌∷◌, none,
  some, length, get_elem?, All, returned, terminated, arith, Bool-cases,
}
use opencbdc_tx.Coordinator.Startup.{last_index, lacks_node, is_refused, at, endpoints_of, init}

last_index_lem : (n : ℕ) → 0 < n → n < 2 ^ 64 → (k : ℕ) → ltb (last_index n) k ≡ false → k < n
unfolding last_index
last_index_lem n p q k h = ground arith

last_index_out : (n : ℕ) → 0 < n → n < 2 ^ 64 → (k : ℕ) → ltb (last_index n) k ≡ true → n ≤ k
unfolding last_index
last_index_out n p q k h = ground arith

get_in_range :
    {A : Type 0} (xs : List A) (i : ℕ) → i < length xs → (x : A) × (get_elem? xs i ≡ some x)
get_in_range [] i h = absurd (omega arith)
get_in_range (x ∷ xs) zero h = (x, refl)
get_in_range (x ∷ xs) (suc i) h = get_in_range xs i (omega arith)

All-get :
    {A : Type 0} (P : A → Type 0) (xs : List A) (i : ℕ) (x : A)
    → get_elem? xs i ≡ some x
    → All P xs
    → P x
All-get P [] i x e a = absurd (ground arith)
All-get P (y ∷ xs) zero x e a = let same : y ≡ x = ground arith in rw⁻¹ same a.0
All-get P (y ∷ xs) (suc i) x e a = All-get P xs i x e a.1

module _ {E : Type 0} where
  -- A vector has an element, and fewer than 2 ^ 64.
  abbrev pub IsSized : List E → Type 0
  IsSized v = (0 < length v) × (length v < 2 ^ 64)

  abbrev pub AreSized : List (List E) → Type 0
  AreSized vecs = (0 < length vecs) × (length vecs < 2 ^ 64) × All IsSized vecs

  -- The identifiers are those of an endpoint, and each cluster has a node of that identifier.
  abbrev pub AreInRange : ℕ → ℕ → List (List E) → Type 0
  AreInRange coordinator_id node_id vecs =
      (coordinator_id < length vecs) × All (λ v. node_id < length v) vecs

  lacks_none :
      (k : ℕ) (vecs : List (List E))
      → All IsSized vecs
      → lacks_node k vecs ≡ false
      → All (λ v. k < length v) vecs
  unfolding lacks_node
  lacks_none k [] s h = tt
  lacks_none k (v ∷ vecs) (s, ss) h = elim (Bool-cases (ltb (last_index (length v)) k)) [
    | inl e ↦ absurd (ground arith)
    | inr e ↦ (last_index_lem (length v) s.0 s.1 k e, lacks_none k vecs ss (ground arith))
  ]

  lacks_some :
      (k : ℕ) (vecs : List (List E))
      → All IsSized vecs
      → lacks_node k vecs ≡ true
      → All (λ v. k < length v) vecs
      → ⊥
  unfolding lacks_node
  lacks_some k [] s h a = absurd (ground arith)
  lacks_some k (v ∷ vecs) (s, ss) h (a, others) =
      elim (Bool-cases (ltb (last_index (length v)) k)) [
        | inl e ↦ let out = last_index_out (length v) s.0 s.1 k e in omega arith
        | inr e ↦ lacks_some k vecs ss (ground arith) others
      ]

  accepted :
      (c n : ℕ) (vecs : List (List E))
      → AreSized vecs
      → is_refused c n vecs ≡ false
      → AreInRange c n vecs
  unfolding is_refused
  accepted c n vecs (p, q, s) h = elim (Bool-cases (ltb (last_index (length vecs)) c)) [
    | inl e ↦ absurd (ground arith)
    | inr e ↦ (last_index_lem (length vecs) p q c e, lacks_none n vecs s (ground arith))
  ]

  refused :
      (c n : ℕ) (vecs : List (List E))
      → AreSized vecs
      → is_refused c n vecs ≡ true
      → AreInRange c n vecs
      → ⊥
  unfolding is_refused
  refused c n vecs (p, q, s) h (a, others) = elim (Bool-cases (ltb (last_index (length vecs)) c)) [
    | inl e ↦ let out = last_index_out (length vecs) p q c e in omega arith
    | inr e ↦ lacks_some n vecs s (ground arith) others
  ]

  -- On configurations without an empty vector, `init` never indexes past an end: it refuses, or it
  -- takes the endpoint of its cluster and node and the raft endpoints of its cluster, and it refuses
  -- exactly where one of the identifiers is not in range in one of the two vectors.
  pub init_iff :
      (c n : ℕ) (endpoints rafts : List (List E))
      → AreSized endpoints
      → AreSized rafts
      → (AreInRange c n endpoints
          × AreInRange c n rafts
          × ((vec : List E) × (e : E) × (raft : List E) × (get_elem? endpoints c ≡ some vec)
              × (get_elem? vec n ≡ some e)
              × (get_elem? rafts c ≡ some raft)
              × (init c n endpoints rafts ≡ returned (some (e, raft)))))
        ⊎ (((AreInRange c n endpoints × AreInRange c n rafts) → ⊥)
            × (init c n endpoints rafts ≡ returned none))
  unfolding init at endpoints_of
  init_iff c n endpoints rafts s t = elim (Bool-cases (is_refused c n endpoints)) [
    | inl e ↦ inr ((λ a. refused c n endpoints s e a.0), rw (init, e) refl)
    | inr e ↦
        let a = accepted c n endpoints s e in
        let (vec, g) = get_in_range endpoints c a.0 in
        let (x, h) = get_in_range vec n (All-get (λ v. n < length v) endpoints c vec g a.1) in
        elim (Bool-cases (is_refused c n rafts)) [
          | inl f ↦
              inr ((λ b. refused c n rafts t f b.1), rw (init, e, endpoints_of, g, at, h, f) refl)
          | inr f ↦
              let b = accepted c n rafts t f in
              let (raft, k) = get_in_range rafts c b.0 in
              inl (a, b, (vec, x, raft, g, h, k, rw (init, e, endpoints_of, g, at, h, f, k) refl))
        ]
  ]

  -- With no endpoints at all the test passes, since the size less one wraps, and the first index is
  -- past the end.
  pub init_empty : (c n : ℕ) (rafts : List (List E)) → c < 2 ^ 64 → init c n [] rafts ≡ terminated
  unfolding init is_refused lacks_node last_index endpoints_of
  init_empty c n rafts h = ground arith
