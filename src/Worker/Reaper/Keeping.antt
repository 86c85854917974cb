-- ===== src/Worker/Reaper/Keeping.antt =====
-- The sweep (src/smartdialer/worker/reaper.py) keeps the tables valid.
use smart_dialer.Common.{ℕ, refl, String, Bool, Option, none, some, List, [], ◌∷◌, arith}
use smart_dialer.Store.{Call, Db, seconds}
use smart_dialer.Store.Keeping.{Keeps, Keeps-refl, Keeps-trans, update_agents, update_calls}
use smart_dialer.Repo.Agents
use smart_dialer.Repo.Agents.Keeping.{release-Keeps}
use smart_dialer.Repo.Borrowers.Keeping.{reschedule-Keeps, reclaim_expired_locks-Keeps}
use smart_dialer.Worker.EventApplier.{truthy}
use smart_dialer.Worker.Reaper.{
  reclaim_agents, lease_expired, reclaimed, fail_orphan_calls, orphaned, orphan_failed,
  release_wrapup, wrapped_up, wrap_up_released, settle_orphan, settle_orphans, reap,
}

pub reclaim_agents-Keeps : (clock_now now : ℕ) (d : Db) → Keeps d (reclaim_agents clock_now now d).0
unfolding reclaim_agents
reclaim_agents-Keeps clock_now now =
    update_agents (lease_expired clock_now) (reclaimed now) (λ a v e. (ground arith, ground arith))
      (λ a. refl)

pub fail_orphan_calls-Keeps :
    (clock_now now : ℕ) (d : Db) → Keeps d (fail_orphan_calls clock_now now d).0
unfolding fail_orphan_calls
fail_orphan_calls-Keeps clock_now now =
    update_calls (orphaned clock_now) (orphan_failed now) (λ c v e. (ground arith, ground arith))
      (λ c. refl)

pub release_wrapup-Keeps : (clock_now now : ℕ) (d : Db) → Keeps d (release_wrapup clock_now now d).0
unfolding release_wrapup
release_wrapup-Keeps clock_now now =
    update_agents (wrapped_up clock_now) (wrap_up_released now)
      (λ a v e. (ground arith, ground arith)) (λ a. refl)

free_agent-Keeps :
    (agent_id : Option ℕ) (now : ℕ) (d : Db)
    → Keeps d (elim agent_id [ none ↦ d | some i ↦ (Agents.release i now d).0 ])
free_agent-Keeps none now d = Keeps-refl d
free_agent-Keeps (some i) now d = release-Keeps i now d

settle_orphan-Keeps : (now : ℕ) (o : Call) (d : Db) → Keeps d (settle_orphan now o d)
unfolding settle_orphan
settle_orphan-Keeps now o d =
    Keeps-trans d _ _ (free_agent-Keeps (truthy o.agent_id) now d)
      (reschedule-Keeps o.borrower_id (seconds 120) now _)

pub settle_orphans-Keeps :
    (now : ℕ) (orphans : List Call) (d : Db) → Keeps d (settle_orphans now orphans d)
unfolding settle_orphans
settle_orphans-Keeps now [] d = Keeps-refl d
settle_orphans-Keeps now (o ∷ orphans) d =
    Keeps-trans d _ _ (settle_orphan-Keeps now o d) (settle_orphans-Keeps now orphans _)

pub reap-Keeps :
    (registry : Option (String → Bool)) (clock_now now : ℕ) (d : Db)
    → Keeps d (reap registry clock_now now d).0
unfolding reap
reap-Keeps registry clock_now now d = Keeps-trans d _ _ (fail_orphan_calls-Keeps clock_now now d) (
    Keeps-trans _ _ _ (settle_orphans-Keeps now (fail_orphan_calls clock_now now d).1 _) (
      Keeps-trans _ _ _ (reclaim_agents-Keeps clock_now now _) (
        Keeps-trans _ _ _ (release_wrapup-Keeps clock_now now _)
          (reclaim_expired_locks-Keeps now _))))
