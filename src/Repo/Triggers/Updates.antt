-- ===== src/Repo/Triggers/Updates.antt =====
-- The triggers keep the counters at the counts of the rows.
use smart_dialer.Common.{ℕ, ◌≡◌, refl, Bool, arith, All, update_where}
use smart_dialer.Domain.Enums.{
  AgentState, CallState, is_available, is_reserved, is_dialing, is_wrap_up,
}
use smart_dialer.Store.{Agent, Call, Db}
use smart_dialer.Store.Statements.{Statement, execute}
use smart_dialer.Repo.Counters.{
  Counters, is_connected, is_ringing, is_talking, on_agent_update, on_call_update, fire_updates,
  moved, in_state,
}
use smart_dialer.Repo.Counters.Agreement.{counted, untouched, Stays}
use smart_dialer.Repo.Metrics.{agent_in, call_in, counts_naive}

pub Counters-ext :
    (k l : Counters)
    → k.agents_available ≡ l.agents_available
    → k.agents_reserved ≡ l.agents_reserved
    → k.agents_dialing ≡ l.agents_dialing
    → k.agents_connected ≡ l.agents_connected
    → k.agents_wrapup ≡ l.agents_wrapup
    → k.calls_ringing ≡ l.calls_ringing
    → k.calls_connected ≡ l.calls_connected
    → k ≡ l
Counters-ext k l a b c d e f g = ground (arith, a, b, c, d, e, f, g)

module _ (campaign_id : ℕ) (d : Db) where
  pub counts-agents_updated :
      (p : Agent → Bool) (f : Agent → Agent)
      → All (Stays (agent_in campaign_id) p f) d.agents
      → fire_updates
          (agent_in campaign_id)
          on_agent_update
          p
          f
          d.agents
          (counts_naive campaign_id d)
        ≡ counts_naive campaign_id (execute (Statement.update_agents p f) d)
  unfolding counts_naive on_agent_update
  counts-agents_updated p f h =
      Counters-ext _ _ (moves (λ k. k.agents_available) is_available (λ x y k. refl) refl)
        (moves (λ k. k.agents_reserved) is_reserved (λ x y k. refl) refl)
        (moves (λ k. k.agents_dialing) is_dialing (λ x y k. refl) refl)
        (moves (λ k. k.agents_connected) is_connected (λ x y k. refl) refl)
        (moves (λ k. k.agents_wrapup) is_wrap_up (λ x y k. refl) refl)
        (stays (λ k. k.calls_ringing) (λ x y k. refl))
        (stays (λ k. k.calls_connected) (λ x y k. refl))
    where
      moves :
          (field : Counters → ℕ) (is : AgentState → Bool)
          → ((x y : Agent) (k : Counters)
              → field (on_agent_update x y k) ≡ moved is x.state y.state (field k))
          → field (counts_naive campaign_id d)
            ≡ in_state (agent_in campaign_id) (λ a. a.state) is d.agents
          → field (
              fire_updates
                (agent_in campaign_id)
                on_agent_update
                p
                f
                d.agents
                (counts_naive campaign_id d))
            ≡ in_state (agent_in campaign_id) (λ a. a.state) is (update_where p f d.agents)
      moves field is m q =
          let k =
            counted (agent_in campaign_id) (λ a. a.state) on_agent_update p f field is m d.agents h
              (counts_naive campaign_id d) 0 (omega (arith, q)) in
          omega (arith, k)

      stays :
          (field : Counters → ℕ)
          → ((x y : Agent) (k : Counters) → field (on_agent_update x y k) ≡ field k)
          → field (
              fire_updates
                (agent_in campaign_id)
                on_agent_update
                p
                f
                d.agents
                (counts_naive campaign_id d))
            ≡ field (counts_naive campaign_id d)
      stays field m =
          untouched (agent_in campaign_id) (λ (a : Agent). a.state) on_agent_update p f field m
            d.agents _

  pub counts-calls_updated :
      (p : Call → Bool) (f : Call → Call)
      → All (Stays (call_in campaign_id) p f) d.calls
      → fire_updates (call_in campaign_id) on_call_update p f d.calls (counts_naive campaign_id d)
        ≡ counts_naive campaign_id (execute (Statement.update_calls p f) d)
  unfolding counts_naive on_call_update
  counts-calls_updated p f h =
      Counters-ext _ _ (stays (λ k. k.agents_available) (λ x y k. refl))
        (stays (λ k. k.agents_reserved) (λ x y k. refl))
        (stays (λ k. k.agents_dialing) (λ x y k. refl))
        (stays (λ k. k.agents_connected) (λ x y k. refl))
        (stays (λ k. k.agents_wrapup) (λ x y k. refl))
        (moves (λ k. k.calls_ringing) is_ringing (λ x y k. refl) refl)
        (moves (λ k. k.calls_connected) is_talking (λ x y k. refl) refl)
    where
      moves :
          (field : Counters → ℕ) (is : CallState → Bool)
          → ((x y : Call) (k : Counters)
              → field (on_call_update x y k) ≡ moved is x.state y.state (field k))
          → field (counts_naive campaign_id d)
            ≡ in_state (call_in campaign_id) (λ a. a.state) is d.calls
          → field (
              fire_updates
                (call_in campaign_id)
                on_call_update
                p
                f
                d.calls
                (counts_naive campaign_id d))
            ≡ in_state (call_in campaign_id) (λ a. a.state) is (update_where p f d.calls)
      moves field is m q =
          let k =
            counted (call_in campaign_id) (λ a. a.state) on_call_update p f field is m d.calls h
              (counts_naive campaign_id d) 0 (omega (arith, q)) in
          omega (arith, k)

      stays :
          (field : Counters → ℕ)
          → ((x y : Call) (k : Counters) → field (on_call_update x y k) ≡ field k)
          → field (
              fire_updates
                (call_in campaign_id)
                on_call_update
                p
                f
                d.calls
                (counts_naive campaign_id d))
            ≡ field (counts_naive campaign_id d)
      stays field m =
          untouched (call_in campaign_id) (λ (a : Call). a.state) on_call_update p f field m d.calls
            _
