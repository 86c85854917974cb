-- ===== src/Loadtest/Losses.antt =====
-- The attempts of loadtest/run_load.py never lose a reservation.
use smart_dialer.Common.{ℕ, ◌≡◌, Bool, true, false, some, List}
use smart_dialer.Domain.Enums.{is_available}
use smart_dialer.Store.{Agent, Db}
use smart_dialer.Repo.Agents
use smart_dialer.Loadtest.{Phase, gather}

-- The attempts begin on course.
abbrev Found : Db → Agent → Type 0
Found d a = (Agents.get a.id d ≡ some a) × (is_available a.state ≡ true)

-- An attempt that has reserved its agent.
abbrev pub has_won : Phase → Bool
has_won (Phase.ended ok) = ok
has_won _ = false

module _ (lease_until now : ℕ) (order : List ℕ) (d : Db) where
  abbrev after : ℕ → Phase
  after = (gather lease_until now order (λ i. Phase.starting) d).0
