-- ===== src/TicketMachine/Unique.antt =====
-- No ticket number is given twice, as long as the counter does not wrap.
use opencbdc_tx.Common.{ℕ, zero, suc, ◌+◌, ◌*◌, ◌%◌, ◌^◌, ◌≤◌, ◌<◌, ◌≡◌, List, [], ◌∷◌, All, arith}
use native.Mathlib.Nat.{suc-mul}
use opencbdc_tx.TicketMachine.{TicketMachine, get_ticket_number}

-- The ranges of a number of calls, first to last.
unfoldable pub ticket_ranges : ℕ → TicketMachine → List (ℕ × ℕ)
ticket_ranges zero m = []
ticket_ranges (suc n) m = let (m', r) = get_ticket_number m in r ∷ ticket_ranges n m'

-- Each range is of the given size and ends before every later one begins.
abbrev pub AreApart : ℕ → List (ℕ × ℕ) → Type 0
AreApart size [] = Unit
AreApart size (r ∷ rs) = (r.1 ≡ r.0 + size) × All (λ q. r.1 ≤ q.0) rs × AreApart size rs

fits :
    (next range n : ℕ)
    → next + suc n * range < 2 ^ 64
    → ((next + range) % 2 ^ 64 ≡ next + range) × ((next + range) % 2 ^ 64 + n * range < 2 ^ 64)
fits next range n h = (omega (arith, suc-mul n range), omega (arith, suc-mul n range))

begins_later :
    (n lower : ℕ) (m : TicketMachine)
    → lower ≤ m.next_ticket_number
    → m.next_ticket_number + n * m.range < 2 ^ 64
    → All (λ q. lower ≤ q.0) (ticket_ranges n m)
unfolding ticket_ranges get_ticket_number
begins_later zero lower m le h = tt
begins_later (suc n) lower m le h =
    let (same, below) = fits m.next_ticket_number m.range n h in
    (le, begins_later n lower (get_ticket_number m).0 (omega (arith, same)) below)

-- Of the ranges that any number of calls give, each has as many numbers as the machine's range, and
-- no number is in two of them, if the numbers given in all fit 64 bits.
pub ticket_ranges-AreApart :
    (n : ℕ) (m : TicketMachine)
    → m.next_ticket_number + n * m.range < 2 ^ 64
    → AreApart m.range (ticket_ranges n m)
unfolding ticket_ranges get_ticket_number
ticket_ranges-AreApart zero m h = tt
ticket_ranges-AreApart (suc n) m h =
    let (same, below) = fits m.next_ticket_number m.range n h in
    let next = (get_ticket_number m).0 in
    (same, begins_later n _ next (omega arith) below, ticket_ranges-AreApart n next below)
