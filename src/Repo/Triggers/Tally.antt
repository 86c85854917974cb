-- ===== src/Repo/Triggers/Tally.antt =====
-- The triggers of src/migrations/002_counters.sql keep the counters at the counts.
use smart_dialer.Common.{
  ℕ, ◌≡◌, ap, ◌∙◌, false, Option, none, some, List, [], ◌∷◌, Bool, All, All-mono, All-snoc,
  update_where, ◌==◌, Bool-cases, inl, inr,
}
use mathlib.Core.Option
use smart_dialer.Repo.Counters.Agreement.{Stays}
use smart_dialer.Store.{Agent, Call, Db}
use smart_dialer.Store.Statements.{Statement, execute, IsLocal, Written, start, run}
use smart_dialer.Repo.Counters.{
  Counters, on_agent_update, on_agent_insert, on_call_update, on_call_insert, fire_updates,
}
use smart_dialer.Repo.Metrics.{agent_in, call_in, counts_naive, counts_fast}
use smart_dialer.Repo.Triggers.{CampaignCounters, fires, counters_after}
use smart_dialer.Repo.Triggers.Updates.{counts-agents_updated, counts-calls_updated}
use smart_dialer.Repo.Triggers.Inserts.{
  counts-insert_agent, counts-other_agent, counts-insert_call, counts-other_call, no_counts-empty,
}

-- A campaign's counters are its counts, and a campaign without counters has no agent and no call.
abbrev pub Tallied : ℕ → Option Counters → Db → Type 0
Tallied c none d = All (λ a. agent_in c a ≡ false) d.agents × All (λ x. call_in c x ≡ false) d.calls
Tallied c (some k) d = k ≡ counts_naive c d

abbrev pub Tallies : CampaignCounters → Db → Type 0
Tallies k d = (c : ℕ) → Tallied c (k c) d

-- What is read of the counters is then the counts.
pub Tallied-counts :
    (c : ℕ) (row : Option Counters) (d : Db) → Tallied c row d → counts_fast row ≡ counts_naive c d
Tallied-counts c none d h = no_counts-empty c d h.0 h.1
Tallied-counts c (some k) d h = h

-- Rows of other campaigns stay in them.
unowned :
    {A : Type 0} (mine p : A → Bool) (f : A → A) (xs : List A)
    → All (Stays mine p f) xs
    → All (λ x. mine x ≡ false) xs
    → All (λ x. mine x ≡ false) (update_where p f xs)
unowned mine p f [] s h = tt
unowned mine p f (x ∷ xs) s h = elim (Bool-cases (p x)) [
  | inl e ↦ rw e (s.0 e ∙ h.0, unowned mine p f xs s.1 h.1)
  | inr e ↦ rw e (h.0, unowned mine p f xs s.1 h.1)
]

module _ (c : ℕ) (d : Db) where
  Tallied-update_agents :
      (row : Option Counters) (p : Agent → Bool) (f : Agent → Agent)
      → All (Stays (agent_in c) p f) d.agents
      → Tallied c row d
      → Tallied c
          (Option.map (fire_updates (agent_in c) on_agent_update p f d.agents) row)
          (execute (Statement.update_agents p f) d)
  Tallied-update_agents none p f l h = (unowned (agent_in c) p f d.agents l h.0, h.1)
  Tallied-update_agents (some k) p f l h =
      ap (fire_updates (agent_in c) on_agent_update p f d.agents) h
      ∙ counts-agents_updated c d p f l

  Tallied-update_calls :
      (row : Option Counters) (p : Call → Bool) (f : Call → Call)
      → All (Stays (call_in c) p f) d.calls
      → Tallied c row d
      → Tallied c
          (Option.map (fire_updates (call_in c) on_call_update p f d.calls) row)
          (execute (Statement.update_calls p f) d)
  Tallied-update_calls none p f l h = (h.0, unowned (call_in c) p f d.calls l h.1)
  Tallied-update_calls (some k) p f l h =
      ap (fire_updates (call_in c) on_call_update p f d.calls) h ∙ counts-calls_updated c d p f l

  other_agent :
      (row : Option Counters) (a : Agent)
      → agent_in c a ≡ false
      → Tallied c row d
      → Tallied c row (execute (Statement.insert_agent a) d)
  other_agent none a m h = (All-snoc _ d.agents a h.0 m, h.1)
  other_agent (some k) a m h = h ∙ counts-other_agent c d a m

  other_call :
      (row : Option Counters) (x : Call)
      → call_in c x ≡ false
      → Tallied c row d
      → Tallied c row (execute (Statement.insert_call x) d)
  other_call none x m h = (h.0, All-snoc _ d.calls x h.1 m)
  other_call (some k) x m h = h ∙ counts-other_call c d x m

-- Tables that agree in agents and calls have the same counts.
Tallied-elsewhere :
    (c : ℕ) (row : Option Counters) (d e : Db)
    → Tallied c row d
    → Tallied c row (execute (Statement.elsewhere e) d)
unfolding counts_naive
Tallied-elsewhere c none d e h = h
Tallied-elsewhere c (some k) d e h = h

fires-Tallies :
    (s : Statement) (d : Db) (k : CampaignCounters)
    → IsLocal s d
    → Tallies k d
    → Tallies (fires s d k) (execute s d)
unfolding fires
fires-Tallies (Statement.update_agents p f) d k l h c =
    Tallied-update_agents c d (k c) p f (All-mono _ _ (λ a s e. ap (λ i. i == c) (s e)) d.agents l)
      (h c)
fires-Tallies (Statement.update_calls p f) d k l h c =
    Tallied-update_calls c d (k c) p f (All-mono _ _ (λ x s e. ap (λ i. i == c) (s e)) d.calls l)
      (h c)
fires-Tallies (Statement.insert_agent a) d k l h c = elim (Bool-cases (agent_in c a)) [
  | inl m ↦
      rw m (ap (on_agent_insert a) (Tallied-counts c (k c) d (h c)) ∙ counts-insert_agent c d a m)
  | inr m ↦ rw m (other_agent c d (k c) a m (h c))
]
fires-Tallies (Statement.insert_call x) d k l h c = elim (Bool-cases (call_in c x)) [
  | inl m ↦
      rw m (ap (on_call_insert x) (Tallied-counts c (k c) d (h c)) ∙ counts-insert_call c d x m)
  | inr m ↦ rw m (other_call c d (k c) x m (h c))
]
fires-Tallies (Statement.elsewhere e) d k l h c = Tallied-elsewhere c (k c) d e (h c)

pub counters_after-Tallies :
    {d e : Db} (w : Written d e) (k : CampaignCounters)
    → Tallies k d
    → Tallies (counters_after w k) e
unfolding counters_after
counters_after-Tallies start k h = h
counters_after-Tallies (run {e} w s l) k h =
    fires-Tallies s e (counters_after w k) l (counters_after-Tallies w k h)
