-- ===== src/Store/Keeping.antt =====
-- A change of the database that keeps it valid and follows the evolution of its rows, and how an
-- INSERT or an UPDATE of one table is shown to be such a change.
use smart_dialer.Common.{
  ◌+◌, ◌≡◌, Bool, true, List, [], ◌∷◌, ◌++◌, All, All-mono, update_where, Extends-append,
  Extends-update_where, All-update_where, All-snoc,
}
use smart_dialer.Store.{Agent, Borrower, Call, Event, Db}
use smart_dialer.Store.Evolution.{
  AgentEvolves, BorrowerEvolves, CallEvolves, EventEvolves, AgentEvolves-refl, BorrowerEvolves-refl,
  CallEvolves-refl, EventEvolves-refl, Evolves, Evolves-refl, Evolves-trans,
}
use smart_dialer.Store.Statements.{Statement, start, run}
use smart_dialer.Store.Validity.{
  AgentIsValid, BorrowerIsValid, CallIsValid, IsValid, Serial-snoc, Serial-update_where,
}

abbrev pub Keeps : Db → Db → Type 0
Keeps d e = IsValid d → IsValid e × Evolves d e

pub Keeps-refl : (d : Db) → Keeps d d
Keeps-refl d v = (v, Evolves-refl d)

pub Keeps-trans : (d e f : Db) → Keeps d e → Keeps e f → Keeps d f
Keeps-trans d e f h k v = let (w, g) = h v in let (u, l) = k w in (u, Evolves-trans d e f g l)

pub update_agents :
    (p : Agent → Bool) (f : Agent → Agent)
    → ((a : Agent) → AgentIsValid a → p a ≡ true → AgentIsValid (f a) × AgentEvolves a (f a))
    → ((a : Agent) → (f a).id ≡ a.id)
    → (d : Db) → Keeps d (record d { agents = update_where p f d.agents })
update_agents p f step same d v = (
  record {
    agents = All-update_where AgentIsValid p f (λ a w e. (step a w e).0) d.agents v.agents;
    borrowers = v.borrowers;
    calls = v.calls;
    agent_ids = Serial-update_where (λ a. a.id) p f same 1 d.next_agent d.agents v.agent_ids;
    borrower_ids = v.borrower_ids;
    call_ids = v.call_ids;
    event_ids = v.event_ids;
  },
  record {
    written =
        run start (Statement.update_agents p f)
          (All-mono AgentIsValid _ (λ a w e. (step a w e).1.same_campaign) d.agents v.agents);
    agents =
        Extends-update_where AgentEvolves AgentIsValid p f AgentEvolves-refl
          (λ a w e. (step a w e).1) d.agents v.agents;
    borrowers = (Evolves-refl d).borrowers;
    calls = (Evolves-refl d).calls;
    events = (Evolves-refl d).events;
  },
)

pub update_borrowers :
    (p : Borrower → Bool) (f : Borrower → Borrower)
    → ((b : Borrower)
        → BorrowerIsValid b
        → p b ≡ true
        → BorrowerIsValid (f b) × BorrowerEvolves b (f b))
    → ((b : Borrower) → (f b).id ≡ b.id)
    → (d : Db) → Keeps d (record d { borrowers = update_where p f d.borrowers })
update_borrowers p f step same d v = (
  record {
    agents = v.agents;
    borrowers =
        All-update_where BorrowerIsValid p f (λ b w e. (step b w e).0) d.borrowers v.borrowers;
    calls = v.calls;
    agent_ids = v.agent_ids;
    borrower_ids =
        Serial-update_where (λ b. b.id) p f same 1 d.next_borrower d.borrowers v.borrower_ids;
    call_ids = v.call_ids;
    event_ids = v.event_ids;
  },
  record {
    written =
        run start (Statement.elsewhere (record d { borrowers = update_where p f d.borrowers })) tt;
    agents = (Evolves-refl d).agents;
    borrowers =
        Extends-update_where BorrowerEvolves BorrowerIsValid p f BorrowerEvolves-refl
          (λ b w e. (step b w e).1) d.borrowers v.borrowers;
    calls = (Evolves-refl d).calls;
    events = (Evolves-refl d).events;
  },
)

pub update_calls :
    (p : Call → Bool) (f : Call → Call)
    → ((c : Call) → CallIsValid c → p c ≡ true → CallIsValid (f c) × CallEvolves c (f c))
    → ((c : Call) → (f c).id ≡ c.id)
    → (d : Db) → Keeps d (record d { calls = update_where p f d.calls })
update_calls p f step same d v = (
  record {
    agents = v.agents;
    borrowers = v.borrowers;
    calls = All-update_where CallIsValid p f (λ c w e. (step c w e).0) d.calls v.calls;
    agent_ids = v.agent_ids;
    borrower_ids = v.borrower_ids;
    call_ids = Serial-update_where (λ c. c.id) p f same 1 d.next_call d.calls v.call_ids;
    event_ids = v.event_ids;
  },
  record {
    written =
        run start (Statement.update_calls p f)
          (All-mono CallIsValid _ (λ c w e. (step c w e).1.same_campaign) d.calls v.calls);
    agents = (Evolves-refl d).agents;
    borrowers = (Evolves-refl d).borrowers;
    calls =
        Extends-update_where CallEvolves CallIsValid p f CallEvolves-refl (λ c w e. (step c w e).1)
          d.calls v.calls;
    events = (Evolves-refl d).events;
  },
)

abbrev Any : Event → Type 0
Any e = Unit

All-Any : (es : List Event) → All Any es
All-Any [] = tt
All-Any (e ∷ es) = (tt, All-Any es)

pub update_events :
    (p : Event → Bool) (f : Event → Event)
    → ((e : Event) → EventEvolves e (f e))
    → (d : Db) → Keeps d (record d { events = update_where p f d.events })
update_events p f step d v = (
  record {
    agents = v.agents;
    borrowers = v.borrowers;
    calls = v.calls;
    agent_ids = v.agent_ids;
    borrower_ids = v.borrower_ids;
    call_ids = v.call_ids;
    event_ids =
        Serial-update_where (λ e. e.id) p f (λ e. (step e).same_id) 1 d.next_event d.events
          v.event_ids;
  },
  record {
    written = run start (Statement.elsewhere (record d { events = update_where p f d.events })) tt;
    agents = (Evolves-refl d).agents;
    borrowers = (Evolves-refl d).borrowers;
    calls = (Evolves-refl d).calls;
    events =
        Extends-update_where EventEvolves Any p f EventEvolves-refl (λ e _ _. step e) d.events
          (All-Any d.events);
  },
)

pub insert_agent :
    (a : Agent) (d : Db)
    → AgentIsValid a
    → a.id ≡ d.next_agent
    → Keeps d (record d { agents = d.agents ++ a ∷ []; next_agent = d.next_agent + 1 })
insert_agent a d w e v = (
  record {
    agents = All-snoc AgentIsValid d.agents a v.agents w;
    borrowers = v.borrowers;
    calls = v.calls;
    agent_ids = Serial-snoc (λ a. a.id) 1 d.next_agent d.agents a e v.agent_ids;
    borrower_ids = v.borrower_ids;
    call_ids = v.call_ids;
    event_ids = v.event_ids;
  },
  record {
    written = run start (Statement.insert_agent a) tt;
    agents = Extends-append AgentEvolves AgentEvolves-refl d.agents (a ∷ []);
    borrowers = (Evolves-refl d).borrowers;
    calls = (Evolves-refl d).calls;
    events = (Evolves-refl d).events;
  },
)

pub insert_call :
    (c : Call) (d : Db)
    → CallIsValid c
    → c.id ≡ d.next_call
    → Keeps d (record d { calls = d.calls ++ c ∷ []; next_call = d.next_call + 1 })
insert_call c d w e v = (
  record {
    agents = v.agents;
    borrowers = v.borrowers;
    calls = All-snoc CallIsValid d.calls c v.calls w;
    agent_ids = v.agent_ids;
    borrower_ids = v.borrower_ids;
    call_ids = Serial-snoc (λ c. c.id) 1 d.next_call d.calls c e v.call_ids;
    event_ids = v.event_ids;
  },
  record {
    written = run start (Statement.insert_call c) tt;
    agents = (Evolves-refl d).agents;
    borrowers = (Evolves-refl d).borrowers;
    calls = Extends-append CallEvolves CallEvolves-refl d.calls (c ∷ []);
    events = (Evolves-refl d).events;
  },
)

pub insert_borrower :
    (b : Borrower) (d : Db)
    → BorrowerIsValid b
    → b.id ≡ d.next_borrower
    → Keeps d (record d { borrowers = d.borrowers ++ b ∷ []; next_borrower = d.next_borrower + 1 })
insert_borrower b d w e v = (
  record {
    agents = v.agents;
    borrowers = All-snoc BorrowerIsValid d.borrowers b v.borrowers w;
    calls = v.calls;
    agent_ids = v.agent_ids;
    borrower_ids = Serial-snoc (λ b. b.id) 1 d.next_borrower d.borrowers b e v.borrower_ids;
    call_ids = v.call_ids;
    event_ids = v.event_ids;
  },
  record {
    written =
        run start
          (Statement.elsewhere
            (record d { borrowers = d.borrowers ++ b ∷ []; next_borrower = d.next_borrower + 1 }))
          tt;
    agents = (Evolves-refl d).agents;
    borrowers = Extends-append BorrowerEvolves BorrowerEvolves-refl d.borrowers (b ∷ []);
    calls = (Evolves-refl d).calls;
    events = (Evolves-refl d).events;
  },
)

pub insert_event :
    (e : Event) (d : Db)
    → e.id ≡ d.next_event
    → Keeps d (record d { events = d.events ++ e ∷ []; next_event = d.next_event + 1 })
insert_event e d q v = (
  record {
    agents = v.agents;
    borrowers = v.borrowers;
    calls = v.calls;
    agent_ids = v.agent_ids;
    borrower_ids = v.borrower_ids;
    call_ids = v.call_ids;
    event_ids = Serial-snoc (λ e. e.id) 1 d.next_event d.events e q v.event_ids;
  },
  record {
    written =
        run start
          (Statement.elsewhere
            (record d { events = d.events ++ e ∷ []; next_event = d.next_event + 1 }))
          tt;
    agents = (Evolves-refl d).agents;
    borrowers = (Evolves-refl d).borrowers;
    calls = (Evolves-refl d).calls;
    events = Extends-append EventEvolves EventEvolves-refl d.events (e ∷ []);
  },
)
