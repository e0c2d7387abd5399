-- ===== src/TicketMachine.antt =====
-- src/parsec/ticket_machine/impl.hpp and impl.cpp: the source of the ticket numbers, which order the
-- transactions of the programmable platform. The counter is atomic and of 64 bits.
pub mod Unique
use opencbdc_tx.Common.{ℕ, zero, suc, ◌+◌, ◌%◌, ◌^◌, List, [], ◌∷◌}

pub record TicketMachine : Type 0 where
  pub range : ℕ
  pub next_ticket_number : ℕ

unfoldable pub ticket_machine : ℕ → TicketMachine
ticket_machine range = record { range = range; next_ticket_number = 0 }

-- The first ticket number, and the one past the last.
unfoldable pub get_ticket_number : TicketMachine → TicketMachine × (ℕ × ℕ)
get_ticket_number m = (
  record m { next_ticket_number = (m.next_ticket_number + m.range) % 2 ^ 64 },
  (m.next_ticket_number, (m.next_ticket_number + m.range) % 2 ^ 64),
)
