-- ===== src/Governance/Order.antt =====
-- The order in which the store hands events over does not matter (projections/governance.py).
use rationale_vault.Prelude.{String, List, Result, ◌≡◌, ap, order_by-Reordered, Reordered}
use rationale_vault.Value.{ℤ}
use rationale_vault.Events.{EventRecord, for_each}
use rationale_vault.Governance.{governance_round, default_governance, project}

-- The projection of events and of the same events in another order, got from the first by exchanges
-- of neighbours with different sequence numbers, are the same.
pub project-Reordered :
    (parse_int : String → Result ℤ) (events reordered : List EventRecord)
    → Reordered (λ e. e.event_sequence) events reordered
    → project parse_int events ≡ project parse_int reordered
unfolding project
project-Reordered parse_int events reordered h =
    ap (λ es. for_each (λ s event. governance_round parse_int event s) es default_governance)
      (order_by-Reordered (λ e. e.event_sequence) events reordered h)
