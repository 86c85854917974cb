-- ===== src/Tests/CallTests.antt =====
-- The theorems about histories and the call life cycle, at the samples.
use smart_dialer.Common.{◌≡◌, refl, ◌↔◌, ◌⊎◌, ◌≤◌, true, false, none, some}
use smart_dialer.Domain.Enums.{AgentState, CallState}
use smart_dialer.Domain.Transitions.{Anomaly, can_apply, rank}
use smart_dialer.Domain.Transitions.Order.{Edge, End, Widened, documented, can_apply_iff}
use smart_dialer.Store.{Call}
use smart_dialer.Store.Evolution.{Evolves}
use smart_dialer.Store.Validity.{IsValid}
use smart_dialer.Repo.Agents
use smart_dialer.Repo.Borrowers
use smart_dialer.Repo.Calls
use smart_dialer.Worker.Reaper.{reap}
use smart_dialer.System.{Step, Reach}
use smart_dialer.System.Histories.{
  Reach-Keeps, ended_stays, reservation_exclusive, reservation_unchanged,
}
use smart_dialer.Tests.Samples.{
  sample, sample-IsValid, ended, ended-IsValid, ended_call, free_agent,
}

can_apply_iff_example :
    ((can_apply CallState.ringing CallState.completed ≡ (true, none))
      ↔ Edge CallState.ringing CallState.completed)
    × ((can_apply CallState.ringing CallState.completed ≡ (false, some Anomaly.out_of_order))
        ↔ (End CallState.ringing ⊎ (rank CallState.completed ≤ rank CallState.ringing)))
    × ((can_apply CallState.ringing CallState.completed ≡ (true, none)) ↔ (
        (documented CallState.ringing CallState.completed ≡ true)
        ⊎ Widened CallState.ringing CallState.completed))
    × (((can_apply CallState.ringing CallState.completed ≡ (true, none))
          × (documented CallState.ringing CallState.completed ≡ false))
        ↔ Widened CallState.ringing CallState.completed)
can_apply_iff_example = can_apply_iff CallState.ringing CallState.completed

Reach-Keeps_example :
    IsValid (reap none 60_000 60_000 sample).0 × Evolves sample (reap none 60_000 60_000 sample).0
Reach-Keeps_example =
    Reach-Keeps (Reach.next Reach.here (Step.sweep none 60_000 60_000)) sample-IsValid

ended_stays_example :
    (c : Call) × (Calls.get 1 (reap none 60_000 60_000 ended).0 ≡ some c)
    × (c.state ≡ CallState.completed)
    × (c.terminal_at ≡ some 9_000)
unfolding Calls.get
ended_stays_example =
    ended_stays 1 ended_call ended-IsValid refl End.completed
      (Reach.next Reach.here (Step.sweep none 60_000 60_000))

reservation_exclusive_example :
    let e = (Agents.reserve 2 5 "w1" 31_000 1_000 sample).0 in
    Agents.reserve 2 5 "w2" 32_000 2_000 e ≡ (e, false)
unfolding Agents.reserve
reservation_exclusive_example =
    reservation_exclusive 2 5 "w1" "w2" 31_000 32_000 1_000 2_000 sample-IsValid refl Reach.here

reservation_unchanged_example :
    (Agents.get 2 (reap none 60_000 60_000 sample).0 ≡ some free_agent)
    × (AgentState.available ≡ AgentState.available)
unfolding Agents.get Agents.reserve reap Borrowers.reclaim_expired_locks
reservation_unchanged_example =
    reservation_unchanged 2 "w1" 91_000 61_000 free_agent sample-IsValid refl
      (Reach.next Reach.here (Step.sweep none 60_000 60_000)) refl
