-- ===== src/Repo/Agents.antt =====
-- src/smartdialer/repo/agents.py: reserving by compare-and-set, and forcing a state.
pub mod Reserve
pub mod Keeping
use smart_dialer.Common.{
  ℕ, ◌+◌, String, Bool, not, ◌&&◌, ◌||◌, Option, none, some, List, [], ◌∷◌, ◌++◌, if◌then◌else◌,
  ◌==◌, is_some, select, find, update_where, take, order_by,
}
use smart_dialer.Domain.Enums.{AgentState, is_available, is_reserved, is_dialing, is_wrap_up}
use smart_dialer.Store.{Agent, Db}

-- PICK_CANDIDATES. `locked` says which rows other transactions hold: SKIP LOCKED passes them over.
abbrev pub free : (ℕ → Bool) → ℕ → Agent → Bool
free locked campaign_id a =
    a.campaign_id == campaign_id && is_available a.state && not (locked a.id)

unfoldable pub pick_candidates : (ℕ → Bool) → ℕ → ℕ → Db → List Agent
pick_candidates locked campaign_id n db =
    take n (order_by (λ a. a.updated_at) (select (free locked campaign_id) db.agents))

-- The WHERE clause of RESERVE_CAS, and what it sets.
abbrev pub reservable : ℕ → ℕ → Agent → Bool
reservable agent_id version a = a.id == agent_id && is_available a.state && a.version == version

abbrev pub reserved_by : String → ℕ → ℕ → Agent → Agent
reserved_by worker lease_until now a = record a {
  state = AgentState.reserved;
  version = a.version + 1;
  lease_owner = some worker;
  lease_expires_at = some lease_until;
  updated_at = now;
}

unfoldable pub reserve : ℕ → ℕ → String → ℕ → ℕ → Db → Db × Bool
reserve agent_id version worker lease_until now db = (
  record db {
    agents =
        update_where (reservable agent_id version) (reserved_by worker lease_until now) db.agents;
  },
  is_some (find (reservable agent_id version) db.agents),
)

-- The assignments of FORCE_STATE.
abbrev pub forced : AgentState → Option String → Option ℕ → Option ℕ → ℕ → Agent → Agent
forced state worker lease_until call_id now a = record a {
  state = state;
  version = a.version + 1;
  updated_at = now;
  state_changed_at = now;
  lease_owner = if is_reserved state || is_dialing state then worker else none;
  lease_expires_at =
      if is_reserved state || is_dialing state || is_wrap_up state then lease_until else none;
  current_call_id = call_id;
}

abbrev pub has_id : ℕ → Agent → Bool
has_id agent_id a = a.id == agent_id

unfoldable pub force_state :
    ℕ → AgentState → Option String → Option ℕ → Option ℕ → ℕ → Db → Db × Bool
force_state agent_id state worker lease_until call_id now db = (
  record db {
    agents = update_where (has_id agent_id) (forced state worker lease_until call_id now) db.agents;
  },
  is_some (find (has_id agent_id) db.agents),
)

unfoldable pub release : ℕ → ℕ → Db → Db × Bool
unfolding force_state
release agent_id now db = force_state agent_id AgentState.available none none none now db

unfoldable pub login : ℕ → ℕ → Db → Db × Bool
unfolding force_state
login agent_id now db = force_state agent_id AgentState.available none none none now db

unfoldable pub logout : ℕ → ℕ → Db → Db × Bool
unfolding force_state
logout agent_id now db = force_state agent_id AgentState.offline none none none now db

unfoldable pub pause : ℕ → ℕ → Db → Db × Bool
unfolding force_state
pause agent_id now db = force_state agent_id AgentState.paused none none none now db

unfoldable pub get : ℕ → Db → Option Agent
get agent_id db = find (has_id agent_id) db.agents

-- A new agent is OFFLINE at version 0 (the column defaults).
unfoldable pub create : ℕ → String → ℕ → Db → Db × ℕ
create campaign_id ext_ref now db = (
  record db {
    agents =
        db.agents
        ++ record {
          id = db.next_agent;
          campaign_id = campaign_id;
          ext_ref = ext_ref;
          state = AgentState.offline;
          version = 0;
          lease_owner = none;
          lease_expires_at = none;
          current_call_id = none;
          state_changed_at = now;
          updated_at = now;
        }
          ∷ [];
    next_agent = db.next_agent + 1;
  },
  db.next_agent,
)
