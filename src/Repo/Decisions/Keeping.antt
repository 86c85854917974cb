-- ===== src/Repo/Decisions/Keeping.antt =====
-- Recording a decision (src/smartdialer/repo/decisions.py) keeps the tables valid.
use smart_dialer.Store.{Decision, Db}
use smart_dialer.Store.Evolution.{Evolves-refl}
use smart_dialer.Store.Keeping.{Keeps}
use smart_dialer.Store.Statements.{Statement, start, run}
use smart_dialer.Repo.Decisions.{record_decision}

pub record_decision-Keeps : (r : Decision) (d : Db) → Keeps d (record_decision r d)
unfolding record_decision
record_decision-Keeps r d v = (
  record {
    agents = v.agents;
    borrowers = v.borrowers;
    calls = v.calls;
    agent_ids = v.agent_ids;
    borrower_ids = v.borrower_ids;
    call_ids = v.call_ids;
    event_ids = v.event_ids;
  },
  record {
    written = run start (Statement.elsewhere (record_decision r d)) tt;
    agents = (Evolves-refl d).agents;
    borrowers = (Evolves-refl d).borrowers;
    calls = (Evolves-refl d).calls;
    events = (Evolves-refl d).events;
  },
)
