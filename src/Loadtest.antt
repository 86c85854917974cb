-- ===== src/Loadtest.antt =====
-- loadtest/run_load.py: the measurement of contended reservations, less its clock.
pub mod Course
pub mod Losses
use smart_dialer.Common.{
  ℕ, ◌≡◌, ◌&&◌, Bool, true, false, not, Option, none, some, List, [], ◌∷◌, if◌then◌else◌, ◌==◌,
  count, select, take,
}
use smart_dialer.Domain.Enums.{is_available}
use smart_dialer.Store.{Agent, Db}
use smart_dialer.Repo.Agents

abbrev pub available_in : ℕ → Agent → Bool
available_in campaign_id a = a.campaign_id == campaign_id && is_available a.state

-- The agents that `_time_cas_contention` goes for. LIMIT without an ORDER BY may take any rows; these
-- are the first.
unfoldable pub cands : ℕ → ℕ → Db → List Agent
cands campaign_id n_workers db = take n_workers (select (available_in campaign_id) db.agents)

-- Where `attempt` is: before its SELECT, before its reserve, at its end, or at the exception that
-- `row["id"]` is without a row.
pub data Phase : Type 0 where
  starting : Phase
  has_read : ℕ → Phase
  ended : Bool → Phase
  failed : Phase

-- The next statement of the attempt for an agent.
unfoldable pub attempt : ℕ → ℕ → ℕ → Phase → Db → Phase × Db
unfolding Agents.get Agents.reserve
attempt lease_until now agent_id Phase.starting db = elim (Agents.get agent_id db) [
  | none ↦ (Phase.failed, db)
  | some a ↦ (Phase.has_read a.version, db)
]
attempt lease_until now agent_id (Phase.has_read version) db =
    let (db', ok) = Agents.reserve agent_id version "loadtest" lease_until now db in
    (Phase.ended ok, db')
attempt lease_until now agent_id (Phase.ended ok) db = (Phase.ended ok, db)
attempt lease_until now agent_id Phase.failed db = (Phase.failed, db)

-- asyncio.gather: the statements of the attempts in any order, an agent's number for each. An agent
-- stands in the candidates once, so its number tells its attempt.
unfoldable pub gather : ℕ → ℕ → List ℕ → (ℕ → Phase) → Db → (ℕ → Phase) × Db
unfolding attempt
gather lease_until now [] phases db = (phases, db)
gather lease_until now (i ∷ order) phases db =
    let (phase, db') = attempt lease_until now i (phases i) db in
    gather lease_until now order (λ j. if j == i then phase else phases j) db'

-- `if not ok: losses += 1`
abbrev pub is_loss : Phase → Bool
is_loss (Phase.ended ok) = not ok
is_loss _ = false

unfoldable pub losses : (ℕ → Phase) → List Agent → ℕ
losses phases rows = count (λ a. is_loss (phases a.id)) rows
