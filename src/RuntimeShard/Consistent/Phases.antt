-- ===== src/RuntimeShard/Consistent/Phases.antt =====
-- `prepare` and `finish` keep the shard consistent.
use opencbdc_tx.RuntimeShard.Operations.{check_update, prepare_error, prepare, erase_ticket, finish}
use opencbdc_tx.Common.{
  ◌⊎◌, ℕ, ◌≡◌, refl, sym, ap, ◌∙◌, Bool, true, false, List, [], Option, none, some, contains,
  lookup, arith, Bool-cases, Option-cases, inl, inr, is_empty,
}
use opencbdc_tx.RuntimeShard.{
  TicketState, Key, Value, begun, prepared, wounded, committed, Ticket, Shard, ticket_of,
  set_ticket, ShardError,
}
use opencbdc_tx.RuntimeShard.Consistent.{Consistent, is_live}
use opencbdc_tx.RuntimeShard.Consistent.Tickets.{
  Proper, Consistent-Proper, set_ticket-Consistent, Unlocked, erase_ticket-Consistent, Sound,
  set_ticket-IsSettled, erase_ticket-IsSettled,
}
use opencbdc_tx.RuntimeShard.Consistent.Calls.{lookup-ticket_of}

abbrev pub is_error : Option ShardError → Bool
is_error none = false
is_error (some e) = true

pub no_error : (o : Option ShardError) → o ≡ none → is_error o ≡ true → ⊥
no_error none h e = ground arith
no_error (some x) h e = ground arith

pub prepare_error-none :
    (t : Ticket) (u : List (Key × Value))
    → prepare_error t u ≡ none
    → (t.state ≡ begun) × (t.queued_locks ≡ [])
unfolding prepare_error
prepare_error-none t u h = go t.state refl
  where
    queued :
        (b : Bool)
        → t.state ≡ begun
        → is_empty t.queued_locks ≡ b
        → (t.state ≡ begun) × (t.queued_locks ≡ [])
    queued true e f = (e, ground arith)
    queued false e f = absurd (no_error (prepare_error t u) h (rw (prepare_error, e, f) refl))

    go : (st : TicketState) → t.state ≡ st → (t.state ≡ begun) × (t.queued_locks ≡ [])
    go begun e = queued (is_empty t.queued_locks) e refl
    go prepared e = absurd (no_error (prepare_error t u) h (rw (prepare_error, e) refl))
    go wounded e = absurd (no_error (prepare_error t u) h (rw (prepare_error, e) refl))
    go committed e = absurd (no_error (prepare_error t u) h (rw (prepare_error, e) refl))

prepared-Proper :
    (n : ℕ) (t : Ticket) (u : List (Key × Value)) (s : Shard)
    → Consistent s
    → ticket_of n s ≡ t
    → t.queued_locks ≡ []
    → Proper (record t { state_update = u; state = prepared })
unfolding contains is_live
prepared-Proper n t u s c e q = record {
  held_once = rw⁻¹ e (c.held_once n);
  queued_once = rw q tt;
  idle = λ k h. absurd (ground arith);
  ready = λ k. rw q (λ x. absurd (ground arith));
  needy = λ k. rw q (λ x. absurd (ground arith));
}

pub prepare-Sound : (n : ℕ) (u : List (Key × Value)) (s : Shard) → Sound s → Sound (prepare n u s).0
unfolding prepare
prepare-Sound n u s sound = go (lookup n s.tickets) refl
  where
    checked :
        (t : Ticket) (r : Option ShardError)
        → lookup n s.tickets ≡ some t
        → prepare_error t u ≡ r
        → Sound (prepare n u s).0
    checked t (some err) e f = rw (prepare, e, f) sound
    checked t none e f =
        let same = lookup-ticket_of n t s e in
        let free = prepare_error-none t u f in
        rw (prepare, e, f)
          (record {
            consistent =
                set_ticket-Consistent n (record t { state_update = u; state = prepared }) s
                  sound.consistent (ap (λ x. x.locks_held) (sym same))
                  (ap (λ x. x.queued_locks) (sym same))
                  (prepared-Proper n t u s sound.consistent same (free.1));
            settled = set_ticket-IsSettled [] n _ s sound.settled;
          })

    go : (r : Option Ticket) → lookup n s.tickets ≡ r → Sound (prepare n u s).0
    go none e = rw (prepare, e) sound
    go (some t) e = checked t (prepare_error t u) e refl

committed-Unlocked :
    (n : ℕ) (s : Shard) → Consistent s → (ticket_of n s).state ≡ committed → Unlocked n s
unfolding is_live
committed-Unlocked n s c e =
    let p = Consistent-Proper n s c in
    record {
      unheld = λ k. p.idle k (ap is_live e);
      unqueued = λ k. elim (Bool-cases (contains k (ticket_of n s).queued_locks)) [
        | inl f ↦ absurd (ground (arith, ap is_live (sym e ∙ p.ready k f)))
        | inr f ↦ f
      ];
    }

pub finish-Sound : (n : ℕ) (s : Shard) → Sound s → Sound (finish n s).0
unfolding finish
finish-Sound n s sound = go (lookup n s.tickets) refl
  where
    by_state :
        (t : Ticket) (st : TicketState)
        → lookup n s.tickets ≡ some t
        → t.state ≡ st
        → Sound (finish n s).0
    by_state t begun e f = rw (finish, e, f) sound
    by_state t wounded e f = rw (finish, e, f) sound
    by_state t prepared e f = rw (finish, e, f) sound
    by_state t committed e f =
        rw (finish, e, f)
          (record {
            consistent = erase_ticket-Consistent n s sound.consistent (
                committed-Unlocked n s sound.consistent
                  (ap (λ x. x.state) (lookup-ticket_of n t s e) ∙ f));
            settled = erase_ticket-IsSettled [] n s sound.settled;
          })

    go : (r : Option Ticket) → lookup n s.tickets ≡ r → Sound (finish n s).0
    go none e = rw (finish, e) sound
    go (some t) e = by_state t t.state e refl

pub prepare-cases :
    (n : ℕ) (u : List (Key × Value)) (s : Shard)
    → ((prepare n u s).0 ≡ s)
      ⊎ ((t : Ticket) × (ticket_of n s ≡ t)
          × (prepare_error t u ≡ none)
          × ((prepare n u s).0 ≡ set_ticket n (record t { state_update = u; state = prepared }) s))
unfolding prepare
prepare-cases n u s = elim (Option-cases (lookup n s.tickets)) [
  | inl e ↦ inl (rw (prepare, e) refl)
  | inr (t, e) ↦ elim (Option-cases (prepare_error t u)) [
    | inl f ↦ inr (t, lookup-ticket_of n t s e, f, rw (prepare, e, f) refl)
    | inr (x, f) ↦ inl (rw (prepare, e, f) refl)
  ]
]

pub finish-cases :
    (n : ℕ) (s : Shard)
    → ((finish n s).0 ≡ s)
      ⊎ (((ticket_of n s).state ≡ committed) × ((finish n s).0 ≡ erase_ticket n s))
unfolding finish
finish-cases n s = elim (Option-cases (lookup n s.tickets)) [
  | inl e ↦ inl (rw (finish, e) refl)
  | inr (t, e) ↦ by_state t t.state e refl
]
  where
    by_state :
        (t : Ticket) (st : TicketState)
        → lookup n s.tickets ≡ some t
        → t.state ≡ st
        → ((finish n s).0 ≡ s)
          ⊎ (((ticket_of n s).state ≡ committed) × ((finish n s).0 ≡ erase_ticket n s))
    by_state t begun e f = inl (rw (finish, e, f) refl)
    by_state t wounded e f = inl (rw (finish, e, f) refl)
    by_state t prepared e f = inl (rw (finish, e, f) refl)
    by_state t committed e f =
        inr (ap (λ x. x.state) (lookup-ticket_of n t s e) ∙ f, rw (finish, e, f) refl)

pub prepare_error-check :
    (t : Ticket) (u : List (Key × Value)) → prepare_error t u ≡ none → check_update t u ≡ none
unfolding prepare_error check_update
prepare_error-check t u h = sym checks ∙ h
  where
    checks : prepare_error t u ≡ check_update t u
    checks = rw (prepare_error, (prepare_error-none t u h).0, (prepare_error-none t u h).1) refl
