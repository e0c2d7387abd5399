-- ===== src/Tests/Tickets.antt =====
-- Ticket numbers: an instance of the theorem.
use opencbdc_tx.Common.{arith}
use opencbdc_tx.TicketMachine.{ticket_machine}
use opencbdc_tx.TicketMachine.Unique.{ticket_ranges, AreApart, ticket_ranges-AreApart}

ticket_ranges-AreApart_example : AreApart 100 (ticket_ranges 3 (ticket_machine 100))
unfolding ticket_machine
ticket_ranges-AreApart_example = ticket_ranges-AreApart 3 (ticket_machine 100) (omega arith)
