-- ===== src/Repo/Triggers.antt =====
-- The table campaign_counters of src/migrations/002_counters.sql, and what its triggers make of it
-- while a transaction runs its statements.
mod Updates
mod Inserts
pub mod Tally
use mathlib.Core.Option
use smart_dialer.Common.{ℕ, Option, none, some, if◌then◌else◌}
use smart_dialer.Store.{Db}
use smart_dialer.Store.Statements.{Statement, Written, start, run}
use smart_dialer.Repo.Counters.{
  Counters, on_agent_update, on_agent_insert, on_call_update, on_call_insert, fire_updates,
}
use smart_dialer.Repo.Metrics.{agent_in, call_in, counts_fast}

-- The rows by their primary key.
abbrev pub CampaignCounters : Type 0
CampaignCounters = ℕ → Option Counters

-- The triggers that a statement fires. An INSERT makes a row of zeros where there is none before it
-- updates the row; an UPDATE that finds no row changes nothing.
unfoldable pub fires : Statement → Db → CampaignCounters → CampaignCounters
fires (Statement.update_agents p f) d k c =
    Option.map (fire_updates (agent_in c) on_agent_update p f d.agents) (k c)
fires (Statement.update_calls p f) d k c =
    Option.map (fire_updates (call_in c) on_call_update p f d.calls) (k c)
fires (Statement.insert_agent a) d k c =
    if agent_in c a then some (on_agent_insert a (counts_fast (k c))) else k c
fires (Statement.insert_call x) d k c =
    if call_in c x then some (on_call_insert x (counts_fast (k c))) else k c
fires (Statement.elsewhere e) d k c = k c

-- The counters after the statements, each of which fires its triggers.
unfoldable pub counters_after : {d e : Db} → Written d e → CampaignCounters → CampaignCounters
unfolding fires
counters_after start k = k
counters_after (run {e} w s l) k = fires s e (counters_after w k)
