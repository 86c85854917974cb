-- ===== src/Store/Statements.antt =====
-- A transaction as the statements that it runs: the UPDATEs and INSERTs of the tables that
-- migrations/002_counters.sql has triggers on, and those of the others.
use smart_dialer.Common.{◌+◌, ◌≡◌, Bool, true, [], ◌∷◌, ◌++◌, All, update_where}
use smart_dialer.Store.{Agent, Call, Db}

pub data Statement : Type 0 where
  update_agents : (Agent → Bool) → (Agent → Agent) → Statement
  update_calls : (Call → Bool) → (Call → Call) → Statement
  insert_agent : Agent → Statement
  insert_call : Call → Statement
  elsewhere : Db → Statement

-- `elsewhere e` gives the tables without triggers the rows that they have in `e`.
abbrev pub execute : Statement → Db → Db
execute (Statement.update_agents p f) d = record d { agents = update_where p f d.agents }
execute (Statement.update_calls p f) d = record d { calls = update_where p f d.calls }
execute (Statement.insert_agent a) d = record d {
  agents = d.agents ++ a ∷ [];
  next_agent = d.next_agent + 1;
}
execute (Statement.insert_call c) d = record d {
  calls = d.calls ++ c ∷ [];
  next_call = d.next_call + 1;
}
execute (Statement.elsewhere e) d = record e {
  agents = d.agents;
  calls = d.calls;
  next_agent = d.next_agent;
  next_call = d.next_call;
}

-- No UPDATE moves a row to another campaign.
abbrev pub IsLocal : Statement → Db → Type 0
IsLocal (Statement.update_agents p f) d =
    All (λ a. p a ≡ true → (f a).campaign_id ≡ a.campaign_id) d.agents
IsLocal (Statement.update_calls p f) d =
    All (λ c. p c ≡ true → (f c).campaign_id ≡ c.campaign_id) d.calls
IsLocal _ d = Unit

-- The statements that lead from one database to another.
pub data Written (d : Db) : Db → Type 0 where
  start : Written d d
  run : {e : Db} → Written d e → (s : Statement) → IsLocal s e → Written d (execute s e)

pub Written-trans : (d e f : Db) → Written d e → Written e f → Written d f
Written-trans d e f w start = w
Written-trans d e f w (run v s l) = run (Written-trans d e _ w v) s l
