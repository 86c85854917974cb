-- ===== src/Store/Evolution.antt =====
-- How rows of the tables may change over time: the relations that every transaction of the
-- program is proved to follow.
use smart_dialer.Common.{
  ◌≤◌, ◌≡◌, refl, ◌∙◌, Option, none, some, arith, coalesce, Extends, Extends-refl, Extends-trans,
}
use smart_dialer.Store.{Agent, Borrower, Call, Event, Db}
use smart_dialer.Store.Statements.{Written, start, Written-trans}

-- A nullable column that is written once: a value that is there stays.
abbrev pub Kept : {A : Type 0} → Option A → Option A → Type 0
Kept x y = coalesce x y ≡ y

Kept-trans : {A : Type 0} (x y z : Option A) → Kept x y → Kept y z → Kept x z
Kept-trans none y z h k = refl
Kept-trans (some a) y z h k = ground (arith, h, k)

-- The version counts the changes of an agent's row: equal versions mean an equal row.
pub record AgentEvolves (a b : Agent) : Type 0 where
  pub same_id : b.id ≡ a.id
  pub same_campaign : b.campaign_id ≡ a.campaign_id
  pub version_grows : a.version ≤ b.version
  pub version_counts : a.version ≡ b.version → a ≡ b

-- A call keeps what it was created with. Its rank grows, and its state changes only with its
-- rank. A provider's reference and a time of the life cycle are never overwritten.
pub record CallEvolves (c d : Call) : Type 0 where
  pub same_id : d.id ≡ c.id
  pub same_campaign : d.campaign_id ≡ c.campaign_id
  pub same_agent : d.agent_id ≡ c.agent_id
  pub same_borrower : d.borrower_id ≡ c.borrower_id
  pub same_key : d.idempotency_key ≡ c.idempotency_key
  pub rank_grows : c.state_rank ≤ d.state_rank
  pub state_follows : c.state_rank ≡ d.state_rank → d.state ≡ c.state
  pub ref_kept : Kept c.provider_call_id d.provider_call_id
  pub initiated_kept : Kept c.initiated_at d.initiated_at
  pub answered_kept : Kept c.answered_at d.answered_at
  pub terminal_kept : Kept c.terminal_at d.terminal_at

-- A borrower keeps its number and its limit, and its attempts only grow.
pub record BorrowerEvolves (b c : Borrower) : Type 0 where
  pub same_id : c.id ≡ b.id
  pub same_phone : c.phone ≡ b.phone
  pub same_limit : c.max_attempts ≡ b.max_attempts
  pub attempts_grow : b.attempt_count ≤ c.attempt_count

-- An event keeps what the provider sent, and the call that it was once matched with.
pub record EventEvolves (e f : Event) : Type 0 where
  pub same_id : f.id ≡ e.id
  pub same_provider : f.provider ≡ e.provider
  pub same_event : f.provider_event_id ≡ e.provider_event_id
  pub same_ref : f.provider_call_id ≡ e.provider_call_id
  pub same_type : f.event_type ≡ e.event_type
  pub call_kept : Kept e.call_id f.call_id

pub AgentEvolves-refl : (a : Agent) → AgentEvolves a a
AgentEvolves-refl a = ground arith

AgentEvolves-trans : (a b c : Agent) → AgentEvolves a b → AgentEvolves b c → AgentEvolves a c
AgentEvolves-trans a b c h k = record {
  same_id = k.same_id ∙ h.same_id;
  same_campaign = k.same_campaign ∙ h.same_campaign;
  version_grows = omega arith;
  version_counts = λ e. h.version_counts (omega arith) ∙ k.version_counts (omega arith);
}

pub CallEvolves-refl : (c : Call) → CallEvolves c c
CallEvolves-refl c = ground arith

CallEvolves-trans : (c d e : Call) → CallEvolves c d → CallEvolves d e → CallEvolves c e
CallEvolves-trans c d e h k = record {
  same_id = k.same_id ∙ h.same_id;
  same_campaign = k.same_campaign ∙ h.same_campaign;
  same_agent = k.same_agent ∙ h.same_agent;
  same_borrower = k.same_borrower ∙ h.same_borrower;
  same_key = k.same_key ∙ h.same_key;
  rank_grows = omega arith;
  state_follows = λ q. k.state_follows (omega arith) ∙ h.state_follows (omega arith);
  ref_kept = Kept-trans _ _ _ h.ref_kept k.ref_kept;
  initiated_kept = Kept-trans _ _ _ h.initiated_kept k.initiated_kept;
  answered_kept = Kept-trans _ _ _ h.answered_kept k.answered_kept;
  terminal_kept = Kept-trans _ _ _ h.terminal_kept k.terminal_kept;
}

pub BorrowerEvolves-refl : (b : Borrower) → BorrowerEvolves b b
BorrowerEvolves-refl b = ground arith

BorrowerEvolves-trans :
    (b c d : Borrower) → BorrowerEvolves b c → BorrowerEvolves c d → BorrowerEvolves b d
BorrowerEvolves-trans b c d h k = ground arith

pub EventEvolves-refl : (e : Event) → EventEvolves e e
EventEvolves-refl e = ground arith

EventEvolves-trans : (e f g : Event) → EventEvolves e f → EventEvolves f g → EventEvolves e g
EventEvolves-trans e f g h k = record {
  same_id = k.same_id ∙ h.same_id;
  same_provider = k.same_provider ∙ h.same_provider;
  same_event = k.same_event ∙ h.same_event;
  same_ref = k.same_ref ∙ h.same_ref;
  same_type = k.same_type ∙ h.same_type;
  call_kept = Kept-trans _ _ _ h.call_kept k.call_kept;
}

-- One database is a later version of another: statements lead there, and the rows follow their
-- relations.
pub record Evolves (d e : Db) : Type 0 where
  pub written : Written d e
  pub agents : Extends AgentEvolves d.agents e.agents
  pub borrowers : Extends BorrowerEvolves d.borrowers e.borrowers
  pub calls : Extends CallEvolves d.calls e.calls
  pub events : Extends EventEvolves d.events e.events

pub Evolves-refl : (d : Db) → Evolves d d
Evolves-refl d = record {
  written = start;
  agents = Extends-refl AgentEvolves AgentEvolves-refl d.agents;
  borrowers = Extends-refl BorrowerEvolves BorrowerEvolves-refl d.borrowers;
  calls = Extends-refl CallEvolves CallEvolves-refl d.calls;
  events = Extends-refl EventEvolves EventEvolves-refl d.events;
}

pub Evolves-trans : (d e f : Db) → Evolves d e → Evolves e f → Evolves d f
Evolves-trans d e f h k = record {
  written = Written-trans d e f h.written k.written;
  agents =
      Extends-trans AgentEvolves AgentEvolves-trans d.agents e.agents f.agents h.agents k.agents;
  borrowers =
      Extends-trans BorrowerEvolves BorrowerEvolves-trans d.borrowers e.borrowers f.borrowers
        h.borrowers k.borrowers;
  calls = Extends-trans CallEvolves CallEvolves-trans d.calls e.calls f.calls h.calls k.calls;
  events =
      Extends-trans EventEvolves EventEvolves-trans d.events e.events f.events h.events k.events;
}
