-- ===== src/Repo/Agents/Keeping.antt =====
-- Every statement of src/smartdialer/repo/agents.py keeps the tables valid.
use smart_dialer.Common.{ℕ, ◌≡◌, refl, String, true, ◌||◌, Option, none, arith, is_some}
use smart_dialer.Domain.Enums.{AgentState, is_reserved, is_wrap_up}
use smart_dialer.Store.{Db}
use smart_dialer.Store.Keeping.{Keeps, update_agents, insert_agent}
use smart_dialer.Repo.Agents.{reserve, force_state, release, login, logout, pause, create}

pub reserve-Keeps :
    (agent_id version : ℕ) (worker : String) (lease_until now : ℕ) (d : Db)
    → Keeps d (reserve agent_id version worker lease_until now d).0
unfolding reserve
reserve-Keeps agent_id version worker lease_until now =
    update_agents _ _ (λ a v e. (ground arith, ground arith)) (λ a. refl)

-- What a call of `force_state` must pass for the row to be valid afterwards.
pub record Fits (state : AgentState) (lease_until : Option ℕ) (call_id : Option ℕ) : Type 0 where
  pub bound : is_some call_id ≡ true → state ≡ AgentState.dialing
  pub leased : is_reserved state || is_wrap_up state ≡ true → is_some lease_until ≡ true

pub force_state-Keeps :
    (agent_id : ℕ) (state : AgentState) (worker : Option String) (lease_until call_id : Option ℕ)
    (now : ℕ) (d : Db)
    → Fits state lease_until call_id
    → Keeps d (force_state agent_id state worker lease_until call_id now d).0
unfolding force_state
force_state-Keeps agent_id state worker lease_until call_id now d h =
    update_agents _ _ (λ a v e. (ground arith, ground arith)) (λ a. refl) d

pub release-Keeps : (agent_id now : ℕ) (d : Db) → Keeps d (release agent_id now d).0
unfolding release
release-Keeps agent_id now d = force_state-Keeps agent_id _ none none none now d (ground arith)

pub login-Keeps : (agent_id now : ℕ) (d : Db) → Keeps d (login agent_id now d).0
unfolding login
login-Keeps agent_id now d = force_state-Keeps agent_id _ none none none now d (ground arith)

pub logout-Keeps : (agent_id now : ℕ) (d : Db) → Keeps d (logout agent_id now d).0
unfolding logout
logout-Keeps agent_id now d = force_state-Keeps agent_id _ none none none now d (ground arith)

pub pause-Keeps : (agent_id now : ℕ) (d : Db) → Keeps d (pause agent_id now d).0
unfolding pause
pause-Keeps agent_id now d = force_state-Keeps agent_id _ none none none now d (ground arith)

pub create-Keeps :
    (campaign_id : ℕ) (ext_ref : String) (now : ℕ) (d : Db)
    → Keeps d (create campaign_id ext_ref now d).0
unfolding create
create-Keeps campaign_id ext_ref now d = insert_agent _ d (ground arith) refl
