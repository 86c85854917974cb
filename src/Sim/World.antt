-- ===== src/Sim/World.antt =====
-- src/smartdialer/sim/world.py: setting up a campaign, and the `seed` command of src/smartdialer/cli.py.
-- The campaign's row and its number are given, and so are the random numbers in the phones.
pub mod Phones
pub mod Setup
use smart_dialer.Common.{
  ℕ, String, joined, zero, suc, ◌+◌, ◌*◌, max, List, [], ◌∷◌, if◌then◌else◌, ltb, numeral,
}
use smart_dialer.Store.{Db}
use smart_dialer.Repo.Agents
use smart_dialer.Repo.Borrowers

-- `for i in range(n)`: an agent is created and logged in.
unfoldable pub staff : ℕ → ℕ → ℕ → ℕ → Db → Db
unfolding Agents.create Agents.login
staff campaign_id now i zero db = db
staff campaign_id now i (suc n) db =
    let (created, agent_id) = Agents.create campaign_id (joined "agent-" (numeral i "")) now db in
    staff campaign_id now (i + 1) n (Agents.login agent_id now created).0

-- `f"+1555{rng.randint(…)}-{i}"`
unfoldable pub sim_phone : (ℕ → ℕ) → ℕ → String
sim_phone draw i = joined "+1555" (numeral (draw i) (joined "-" (numeral i "")))

-- `[… for i in range(n)]`, from a number on.
abbrev pub phones_from : (ℕ → String) → ℕ → ℕ → List String
phones_from phone i zero = []
phones_from phone i (suc n) = phone i ∷ phones_from phone (i + 1) n

unfoldable pub setup_campaign : ℕ → ℕ → (ℕ → ℕ) → ℕ → Db → Db
unfolding staff Borrowers.seed_many
setup_campaign campaign_id agents draw now db =
    Borrowers.seed_many campaign_id (phones_from (sim_phone draw) 0 (max (agents * 80) 2000)) now
      (staff campaign_id now 0 agents db)

-- `f"{i:05d}"`
unfoldable pub padded : ℕ → String
padded i =
    if ltb i 10
    then joined "0000" (numeral i "")
    else if ltb i 100
    then joined "000" (numeral i "")
    else if ltb i 1_000
    then joined "00" (numeral i "")
    else if ltb i 10_000
    then joined "0" (numeral i "")
    else numeral i ""

-- `f"+1555000{i:05d}"`
unfoldable pub demo_phone : ℕ → String
demo_phone i = joined "+1555000" (padded i)

-- The `seed` command.
unfoldable pub seed : ℕ → ℕ → ℕ → ℕ → Db → Db
unfolding staff Borrowers.seed_many
seed campaign_id agents borrowers now db =
    Borrowers.seed_many campaign_id (phones_from demo_phone 0 borrowers) now
      (staff campaign_id now 0 agents db)
