-- ===== src/Repo/Decisions.antt =====
-- src/smartdialer/repo/decisions.py: the audit trail of pacing decisions. A row's number is its
-- place in the table.
pub mod Keeping
use smart_dialer.Common.{ℕ, List, [], ◌∷◌, ◌++◌, ◌==◌, take, reverse_onto, select}
use smart_dialer.Store.{Decision, Db}

unfoldable pub record_decision : Decision → Db → Db
record_decision r db = record db { decisions = db.decisions ++ r ∷ [] }

-- ORDER BY id DESC LIMIT $2
unfoldable pub latest : ℕ → ℕ → Db → List Decision
latest campaign_id limit db =
    take limit (reverse_onto (select (λ r. r.campaign_id == campaign_id) db.decisions) [])
