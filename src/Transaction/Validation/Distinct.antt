-- ===== src/Transaction/Validation/Distinct.antt =====
-- `check_input_set`: no outpoint is spent twice.
use opencbdc_tx.Common.{
  ℕ, ◌+◌, ◌≡◌, refl, ◌≢◌, ◌↔◌, List, [], ◌∷◌, map, true, false, none, All, All-mono, arith,
  Bool-cases, inl, inr,
}
use opencbdc_tx.Transaction.{OutPoint, Input, FullTx, out_point_eq}
use opencbdc_tx.Transaction.Validation.{seen_before, check_input_set_from, check_input_set}

abbrev pub NotIn : OutPoint → List OutPoint → Type 0
NotIn p qs = All (λ q. q ≢ p) qs

-- Every element differs from all those behind it.
abbrev pub AreDistinct : List OutPoint → Type 0
AreDistinct [] = Unit
AreDistinct (p ∷ ps) = All (λ q. p ≢ q) ps × AreDistinct ps

abbrev pub prevouts : List Input → List OutPoint
prevouts = map (λ inp. inp.prevout)

out_point_eq→eq : (a b : OutPoint) → out_point_eq a b ≡ true → a ≡ b
unfolding out_point_eq
out_point_eq→eq a b h = ground arith

eq→out_point_eq : (a b : OutPoint) → a ≡ b → out_point_eq a b ≡ true
unfolding out_point_eq
eq→out_point_eq a b h = ground arith

not_seen : (p : OutPoint) (qs : List OutPoint) → seen_before p qs ≡ false → NotIn p qs
unfolding seen_before
not_seen p [] h = tt
not_seen p (q ∷ qs) h = ((λ e. ground (arith, eq→out_point_eq q p e)), not_seen p qs (ground arith))

seen_not : (p : OutPoint) (qs : List OutPoint) → NotIn p qs → seen_before p qs ≡ false
unfolding seen_before
seen_not p [] h = refl
seen_not p (q ∷ qs) h = elim (Bool-cases (out_point_eq q p)) [
  | inl e ↦ absurd (h.0 (out_point_eq→eq q p e))
  | inr e ↦ ground (arith, seen_not p qs h.1)
]

-- The loop passes exactly when the outpoints differ from one another and from those seen.
check_input_set_from_sound :
    (inps : List OutPoint) (idx : ℕ) (ins : List Input)
    → check_input_set_from inps idx ins ≡ none
    → AreDistinct (prevouts ins) × All (λ p. NotIn p inps) (prevouts ins)
unfolding check_input_set_from
check_input_set_from_sound inps idx [] h = (tt, tt)
check_input_set_from_sound inps idx (inp ∷ rest) h =
    elim (Bool-cases (seen_before inp.prevout inps)) [
      | inl e ↦ absurd (ground arith)
      | inr e ↦
          let ih = check_input_set_from_sound (inp.prevout ∷ inps) (idx + 1) rest (ground arith) in
          (
            (All-mono (λ p n. n.0) (prevouts rest) ih.1, ih.0),
            (not_seen inp.prevout inps e, All-mono (λ p n. n.1) (prevouts rest) ih.1),
          )
    ]

zip_All {ℓ κ} :
    {A : Type 0} (P : A → Type ℓ) (Q : A → Type κ) (xs : List A)
    → All P xs
    → All Q xs
    → All (λ x. P x × Q x) xs
zip_All P Q [] p q = tt
zip_All P Q (x ∷ xs) p q = ((p.0, q.0), zip_All P Q xs p.1 q.1)

check_input_set_from_complete :
    (inps : List OutPoint) (idx : ℕ) (ins : List Input)
    → AreDistinct (prevouts ins)
    → All (λ p. NotIn p inps) (prevouts ins)
    → check_input_set_from inps idx ins ≡ none
unfolding check_input_set_from
check_input_set_from_complete inps idx [] d n = refl
check_input_set_from_complete inps idx (inp ∷ rest) d n = rw (seen_not inp.prevout inps n.0) (
    check_input_set_from_complete (inp.prevout ∷ inps) (idx + 1) rest d.1
      (zip_All _ _ (prevouts rest) d.0 n.1))

none_seen : (ps : List OutPoint) → All (λ p. NotIn p []) ps
none_seen [] = tt
none_seen (p ∷ ps) = (tt, none_seen ps)

pub check_input_set_iff :
    (tx : FullTx) → (check_input_set tx ≡ none) ↔ AreDistinct (prevouts tx.inputs)
unfolding check_input_set
check_input_set_iff tx = (
  (λ h. (check_input_set_from_sound [] 0 tx.inputs h).0),
  λ d. check_input_set_from_complete [] 0 tx.inputs d (none_seen (prevouts tx.inputs)),
)
