-- ===== src/Sim/Injectors.antt =====
-- src/smartdialer/sim/injectors.py: what the injectors do when their time has come.
use smart_dialer.Common.{ℕ, ◌+◌, Bool, ◌&&◌, ◌==◌, List, [], ◌∷◌, select, take}
use smart_dialer.Domain.Enums.{is_available}
use smart_dialer.Store.{Agent, Db}
use smart_dialer.Store.Keeping.{Keeps, Keeps-refl, Keeps-trans}
use smart_dialer.Repo.Agents
use smart_dialer.Repo.Agents.Keeping.{logout-Keeps}

-- trigger_outage of the simulated provider: the end of its outage.
abbrev pub trigger_outage : ℕ → ℕ → ℕ
trigger_outage clock_now duration = clock_now + duration

abbrev pub idle_in : ℕ → Agent → Bool
idle_in campaign_id a = a.campaign_id == campaign_id && is_available a.state

abbrev pub logout_each : List Agent → ℕ → Db → Db
logout_each [] now db = db
logout_each (a ∷ rows) now db = logout_each rows now (Agents.logout a.id now db).0

-- AgentMassLogout. LIMIT without an ORDER BY may take any rows; these are the first.
unfoldable pub mass_logout : ℕ → ℕ → ℕ → Db → Db
mass_logout campaign_id n now db =
    logout_each (take n (select (idle_in campaign_id) db.agents)) now db

logout_each-Keeps : (rows : List Agent) (now : ℕ) (d : Db) → Keeps d (logout_each rows now d)
logout_each-Keeps [] now d = Keeps-refl d
logout_each-Keeps (a ∷ rows) now d =
    Keeps-trans d _ _ (logout-Keeps a.id now d) (logout_each-Keeps rows now _)
