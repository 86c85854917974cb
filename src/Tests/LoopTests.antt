-- ===== src/Tests/LoopTests.antt =====
-- The theorem about the simulator's columns at the samples, and the turns of a loop.
use smart_dialer.Common.{refl, ◌≡◌, map, Bool, some, none, true, false, [], ◌∷◌}
use smart_dialer.Domain.Enums.{PacingMode, CallState}
use smart_dialer.Store.{Db}
use smart_dialer.Safety.{Outside}
use smart_dialer.Repo.Agents
use smart_dialer.Repo.Events
use smart_dialer.Repo.Borrowers
use smart_dialer.Repo.Calls
use smart_dialer.Allocator.{allocate_one}
use smart_dialer.Safety.Rules.{rules}
use smart_dialer.Worker.EventApplier.{apply_one}
use smart_dialer.Providers.EventMap.{map_provider_event, to_call_state}
use smart_dialer.Repo.Counters.{no_counts}
use smart_dialer.Sim.Wiring.{Surroundings, wired}
use smart_dialer.Tests.WorkerTests.{registry, cfg, calm_world}
use smart_dialer.Repo.Decisions
use smart_dialer.Sim.Runner.{SimState, Turn, sim_turn, sim_loop}
use smart_dialer.Sim.Runner.Columns.{Rising, sim_loop-Rising}
use smart_dialer.System.{Step, Reach}
use smart_dialer.Store.Validity.{IsValid}
use smart_dialer.Tests.Fixed.{fixed}
use smart_dialer.Tests.Samples.{sample, ended, ended-IsValid}
use smart_dialer.Tests.SafetyTests.{calm}

abbrev pub idle_outside : Outside Db
idle_outside = record {
  record_decision = λ r db. Decisions.record_decision r db;
  allocate_batch = λ c n db. (db, 0);
  cancel_excess_ringing = λ c n db. (db, 0);
}

abbrev pub quiet : Turn fixed (λ digits x. x)
quiet = record {
  meanwhile = λ db. db;
  clock_now = 60_000;
  now = 60_000;
  sim_time = 250;
  is_active = some true;
  counters = none;
  health = ("mock_a", 980) ∷ [];
  locked = λ i. false;
}

abbrev pub at_start : SimState fixed (λ digits x. x)
at_start = record { db = sample; ctx = calm; tick_i = 0; reaps = 0; rows = [] }

-- A turn with agent 2 free, in which the provider says at once that the new call rings; and one with
-- that call ringing and no agent for it.
abbrev placing : Turn fixed (λ digits x. x)
placing = record quiet {
  meanwhile = λ db. (Events.ingest "mock_a" "e-2" (some "P-2") "ringing" 1_900 1_950 db).0;
  clock_now = 2_000;
  now = 2_000;
  counters = some (record no_counts { agents_available = 1 });
}

abbrev crowded : Turn fixed (λ digits x. x)
crowded = record placing {
  meanwhile = λ db. db;
  clock_now = 2_250;
  now = 2_250;
  counters = some (record no_counts { calls_ringing = 1 });
}

-- Batches whose allocations take turns; while a pull-back goes on, agent 2 asks for a pause.
abbrev around : Surroundings Bool
around = record {
  state = λ c n db. true;
  worlds = λ c n db. calm_world;
  schedule = λ c n db. 0 ∷ 1 ∷ 0 ∷ 1 ∷ [];
  meanwhile = λ c n db i e. (Agents.pause 2 2_200 e).0;
  deadlocks = λ c n db i k. false;
  now = λ c n db. 2_250;
}

abbrev simulated : SimState fixed (λ digits x. x)
simulated =
    sim_loop fixed (λ digits x. x) (wired registry cfg "w1" around) PacingMode.progressive 1 15_000
      2 (placing ∷ crowded ∷ []) (record at_start { db = ended })

-- The second call is placed in the first turn, rings, and is pulled back in the second turn.
simulated_calls :
    map (λ c. c.state) simulated.db.calls ≡ CallState.completed ∷ CallState.cancelled ∷ []
unfolding sim_turn sim_loop wired rules allocate_one Agents.pick_candidates Agents.reserve
    Agents.release Agents.pause Borrowers.claim_one Borrowers.on_call_terminal
    Borrowers.reclaim_expired_locks Calls.create Calls.cancel Calls.cancel_if_not_answered
    Calls.get_by_provider_ref Calls.list_ringing_oldest Events.ingest Events.fetch_unapplied
    Events.mark Events.give_up_unknown Decisions.record_decision apply_one map_provider_event
    to_call_state
simulated_calls = refl

sim_loop-Rising_example : Rising simulated.rows × IsValid simulated.db
sim_loop-Rising_example =
    sim_loop-Rising fixed (λ digits x. x) registry cfg "w1" around PacingMode.progressive 1 15_000 2
      (placing ∷ crowded ∷ []) (record at_start { db = ended })
      (λ c n d i e. Reach.next Reach.here (Step.pause 2 2_200))
      (
        (λ d.
            Reach.next Reach.here (Step.ingest "mock_a" "e-2" (some "P-2") "ringing" 1_900 1_950)),
        ((λ d. Reach.here), tt),
      )
      ended-IsValid refl
