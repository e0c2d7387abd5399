-- ===== src/ErrorCache/Sound.antt =====
-- What the cache answers is an error that it holds, about what was asked.
use opencbdc_tx.Common.{
  Option-cases, ℕ, suc, ◌≤◌, ◌≡◌, refl, sym, ap, ◌≢◌, ◌⊎◌, inl, inr, true, false, not, ◌&&◌, List,
  [], ◌∷◌, ◌++◌, some, ◌==◌, length, length-append, lookup, contains, Bool-cases, arith,
}
use opencbdc_tx.Crypto.{Hash}
use opencbdc_tx.TxErrors.{TxError}
use opencbdc_tx.BlockCache.{remove_all, emplace_all}
use opencbdc_tx.BlockCache.Spent.{lookup-remove_all, lookup-emplace_all}
use opencbdc_tx.ErrorCache.{
  input_uhs_ids, ErrorCache, error_cache, evict_error, add_error, push_errors,
}

-- The error is one of the list.
abbrev pub Among : TxError → List TxError → Type 0
Among e [] = ⊥
Among e (x ∷ xs) = (x ≡ e) ⊎ Among e xs

-- Each entry of an index is an error of the queue that has the key among its own.
abbrev pub IsIndex : (TxError → List Hash) → List (Hash × TxError) → List TxError → Type 0
IsIndex keys m errs =
    (j : Hash) (e : TxError) → lookup j m ≡ some e → Among e errs × (contains j (keys e) ≡ true)

abbrev pub tx_key : TxError → List Hash
tx_key e = e.tx_id ∷ []

abbrev pub uhs_keys : TxError → List Hash
uhs_keys e = input_uhs_ids e.info

Among-snoc : (e x : TxError) (errs : List TxError) → Among e errs → Among e (errs ++ x ∷ [])
Among-snoc e x [] h = absurd h
Among-snoc e x (y ∷ errs) (inl h) = inl h
Among-snoc e x (y ∷ errs) (inr h) = inr (Among-snoc e x errs h)

Among-last : (x : TxError) (errs : List TxError) → Among x (errs ++ x ∷ [])
Among-last x [] = inl refl
Among-last x (y ∷ errs) = inr (Among-last x errs)

emplace_all-IsIndex :
    (keys : TxError → List Hash) (m : List (Hash × TxError)) (errs : List TxError) (x : TxError)
    → IsIndex keys m errs
    → IsIndex keys (emplace_all (keys x) x m) (errs ++ x ∷ [])
emplace_all-IsIndex keys m errs x i = λ j e h. elim (Option-cases (lookup j m)) [
  | inr (y, p) ↦
      let same : y ≡ e = ground (arith, lookup-emplace_all j (keys x) x m) in
      let (among, key) = i j e (ground arith) in (Among-snoc e x errs among, key)
  | inl p ↦
      let same : x ≡ e = ground (arith, lookup-emplace_all j (keys x) x m) in
      let key : contains j (keys x) ≡ true = ground (arith, lookup-emplace_all j (keys x) x m) in
      rw (sym same) (Among-last x errs, key)
]

remove_all-IsIndex :
    (keys : TxError → List Hash) (m : List (Hash × TxError)) (errs : List TxError) (x : TxError)
    → IsIndex keys m (x ∷ errs)
    → IsIndex keys (remove_all (keys x) m) errs
remove_all-IsIndex keys m errs x i = λ j e h.
    let kept : contains j (keys x) ≡ false = ground (arith, lookup-remove_all j (keys x) m) in
    let (among, key) = i j e (ground (arith, lookup-remove_all j (keys x) m)) in
    elim among [
      | inl same ↦ absurd (ground (arith, ap (λ y. contains j (keys y)) same))
      | inr rest ↦ (rest, key)
    ]

-- The queue is within its limit, and the indexes are of its errors.
pub record IsSound (c : ErrorCache) : Type 0 where
  pub bound : c.k_errs ≢ 0 → length c.errs ≤ c.k_errs
  pub by_tx : IsIndex tx_key c.tx_id_errs c.errs
  pub by_uhs : IsIndex uhs_keys c.uhs_errs c.errs

pub error_cache-IsSound : (k : ℕ) → IsSound (error_cache k)
unfolding error_cache lookup
error_cache-IsSound k = record {
  bound = λ h. omega arith;
  by_tx = λ j e h. absurd (ground arith);
  by_uhs = λ j e h. absurd (ground arith);
}

MakesRoom : ErrorCache → ErrorCache → Type 0
MakesRoom c e = IsSound e × (c.k_errs ≢ 0 → suc (length e.errs) ≤ c.k_errs) × (e.k_errs ≡ c.k_errs)

evict_error-MakesRoom :
    (c : ErrorCache) (errs : List TxError) → c.errs ≡ errs → IsSound c → MakesRoom c (evict_error c)
unfolding evict_error MakesRoom
evict_error-MakesRoom c [] e s = rw (evict_error, e) (s, (λ h. ground (arith, ap length e)), refl)
evict_error-MakesRoom c (x ∷ rest) e s =
    elim (Bool-cases (not (c.k_errs == 0) && length c.errs == c.k_errs)) [
      | inl full ↦
          rw (evict_error, e, full)
            (
              record {
                bound = λ h. ground (arith, ap length e);
                by_tx = remove_all-IsIndex tx_key c.tx_id_errs rest x (rw e at s.by_tx);
                by_uhs = remove_all-IsIndex uhs_keys c.uhs_errs rest x (rw e at s.by_uhs);
              },
              (λ h. ground (arith, ap length e)),
              refl,
            )
      | inr room ↦ rw (evict_error, e, room) (s, (λ h. ground (arith, ap length e, s.bound)), refl)
    ]

-- Pushing errors keeps the cache within its limit, if it has one, and whatever the cache answers
-- for a transaction or for a hash is an error that it still holds, about that transaction or hash.
pub push_errors-IsSound :
    (errs : List TxError) (c : ErrorCache) → IsSound c → IsSound (push_errors errs c)
unfolding push_errors add_error MakesRoom
push_errors-IsSound [] c s = s
push_errors-IsSound (x ∷ errs) c s =
    let (t, room, same) = evict_error-MakesRoom c c.errs refl s in
    let e = evict_error c in
    push_errors-IsSound errs (add_error x e) (record {
      bound = λ h. omega (arith, room (rw (sym same) h), same, length-append e.errs (x ∷ []));
      by_tx = emplace_all-IsIndex tx_key e.tx_id_errs e.errs x t.by_tx;
      by_uhs = emplace_all-IsIndex uhs_keys e.uhs_errs e.errs x t.by_uhs;
    })
