-- ===== src/Repo/Counters.antt =====
-- src/migrations/002_counters.sql: the triggers that keep a campaign's counters, and the counts
-- that they stand for. Other campaigns' rows leave a campaign's counters alone.
pub mod Agreement
use smart_dialer.Common.{
  ℕ, ◌+◌, ◌-◌, Bool, true, false, ◌&&◌, List, [], ◌∷◌, if◌then◌else◌, ◌==◌, count, not,
}
use smart_dialer.Domain.Enums.{
  AgentState, CallState, is_available, is_reserved, is_dialing, is_wrap_up, same_call_state,
}
use smart_dialer.Domain.Transitions.{contains_state}
use smart_dialer.Store.{Agent, Call}

-- A row of campaign_counters.
pub record Counters : Type 0 where
  pub agents_available : ℕ
  pub agents_reserved : ℕ
  pub agents_dialing : ℕ
  pub agents_connected : ℕ
  pub agents_wrapup : ℕ
  pub calls_ringing : ℕ
  pub calls_connected : ℕ

-- A row as the triggers insert it, by the defaults of its columns.
abbrev pub no_counts : Counters
no_counts = record {
  agents_available = 0;
  agents_reserved = 0;
  agents_dialing = 0;
  agents_connected = 0;
  agents_wrapup = 0;
  calls_ringing = 0;
  calls_connected = 0;
}

abbrev pub is_connected : AgentState → Bool
is_connected AgentState.connected = true
is_connected _ = false

-- `state IN ('INITIATED','RINGING')`
abbrev pub is_ringing : CallState → Bool
is_ringing s = contains_state s (CallState.initiated ∷ CallState.ringing ∷ [])

abbrev pub is_talking : CallState → Bool
is_talking s = same_call_state s CallState.connected

-- `CASE WHEN … THEN 1 ELSE 0 END`
abbrev pub one_if : Bool → ℕ
one_if b = if b then 1 else 0

-- A counter after the update of a row: `counter + (CASE …NEW…) - (CASE …OLD…)`.
abbrev pub moved : {S : Type 0} → (S → Bool) → S → S → ℕ → ℕ
moved is old new k = k + one_if (is new) - one_if (is old)

-- The UPDATE branch of trg_agents_counters. It skips the rows whose state is the same, for which
-- `moved` changes nothing.
unfoldable pub on_agent_update : Agent → Agent → Counters → Counters
on_agent_update old new k = record k {
  agents_available = moved is_available old.state new.state k.agents_available;
  agents_reserved = moved is_reserved old.state new.state k.agents_reserved;
  agents_dialing = moved is_dialing old.state new.state k.agents_dialing;
  agents_connected = moved is_connected old.state new.state k.agents_connected;
  agents_wrapup = moved is_wrap_up old.state new.state k.agents_wrapup;
}

-- The INSERT branch.
unfoldable pub on_agent_insert : Agent → Counters → Counters
on_agent_insert new k = record k {
  agents_available = k.agents_available + one_if (is_available new.state);
  agents_reserved = k.agents_reserved + one_if (is_reserved new.state);
  agents_dialing = k.agents_dialing + one_if (is_dialing new.state);
  agents_connected = k.agents_connected + one_if (is_connected new.state);
  agents_wrapup = k.agents_wrapup + one_if (is_wrap_up new.state);
}

-- trg_calls_counters.
unfoldable pub on_call_update : Call → Call → Counters → Counters
on_call_update old new k = record k {
  calls_ringing = moved is_ringing old.state new.state k.calls_ringing;
  calls_connected = moved is_talking old.state new.state k.calls_connected;
}

unfoldable pub on_call_insert : Call → Counters → Counters
on_call_insert new k = record k {
  calls_ringing = k.calls_ringing + one_if (is_ringing new.state);
  calls_connected = k.calls_connected + one_if (is_talking new.state);
}

-- A trigger FOR EACH ROW of an UPDATE, at the counters of one campaign: those of NEW's campaign
-- are the ones that it updates.
unfoldable pub fire_updates :
    {A : Type 0}
    → (A → Bool)
    → (A → A → Counters → Counters)
    → (A → Bool)
    → (A → A)
    → List A
    → Counters
    → Counters
fire_updates mine on p f [] k = k
fire_updates mine on p f (x ∷ xs) k =
    fire_updates mine on p f xs (if p x && mine (f x) then on x (f x) k else k)

-- The counts by state of a campaign's rows.
abbrev pub in_state : {A S : Type 0} → (A → Bool) → (A → S) → (S → Bool) → List A → ℕ
in_state mine state is xs = count (λ x. mine x && is (state x)) xs
