-- ===== src/Worker/Reaper/Sweep.antt =====
-- What a sweep of src/smartdialer/worker/reaper.py leaves behind.
use smart_dialer.Common.{
  ℕ, ◌≡◌, refl, ◌∙◌, String, Bool, true, false, Option, none, some, List, [], ◌∷◌, arith, All,
  update_where, Bool-cases, inl, inr, subst, sym,
}
use smart_dialer.Store.{Call, Db, seconds}
use smart_dialer.Repo.Agents
use smart_dialer.Repo.Borrowers
use smart_dialer.Worker.EventApplier.{truthy}
use smart_dialer.Worker.Reaper.{
  reclaim_agents, lease_expired, reclaimed, fail_orphan_calls, orphaned, orphan_failed,
  release_wrapup, wrapped_up, wrap_up_released, settle_orphan, settle_orphans, reap,
}

-- No row that the sweep looks for is left.
pub record Swept (clock_now now : ℕ) (d : Db) : Type 0 where
  pub calls : All (λ c. orphaned clock_now c ≡ false) d.calls
  pub leases : All (λ a. lease_expired clock_now a ≡ false) d.agents
  pub wraps : All (λ a. wrapped_up clock_now a ≡ false) d.agents
  pub locks : All (λ b. Borrowers.lock_expired now b ≡ false) d.borrowers

module _ {A : Type 0} (p : A → Bool) (f : A → A) where
  -- An UPDATE whose result no longer meets its condition leaves no row that does.
  none_left :
      ((x : A) → p x ≡ true → p (f x) ≡ false)
      → (xs : List A) → All (λ x. p x ≡ false) (update_where p f xs)
  none_left h [] = tt
  none_left h (x ∷ xs) = elim (Bool-cases (p x)) [
    | inl e ↦ rw (e, update_where) (h x e, none_left h xs)
    | inr e ↦ rw (e, update_where) (e, none_left h xs)
  ]

  -- One that keeps rows from meeting another condition keeps them so.
  still_none :
      (q : A → Bool)
      → ((x : A) → p x ≡ true → q (f x) ≡ false)
      → (xs : List A) → All (λ x. q x ≡ false) xs
      → All (λ x. q x ≡ false) (update_where p f xs)
  still_none q h [] k = tt
  still_none q h (x ∷ xs) k = elim (Bool-cases (p x)) [
    | inl e ↦ rw (e, update_where) (h x e, still_none q h xs k.1)
    | inr e ↦ rw (e, update_where) (k.0, still_none q h xs k.1)
  ]

calls-settle_orphans :
    (now : ℕ) (orphans : List Call) (d : Db) → (settle_orphans now orphans d).calls ≡ d.calls
unfolding settle_orphans settle_orphan Borrowers.reschedule Agents.release Agents.force_state
calls-settle_orphans now [] d = refl
calls-settle_orphans now (o ∷ orphans) d =
    calls-settle_orphans now orphans (settle_orphan now o d) ∙ settled (truthy o.agent_id)
  where
    settled :
        (i : Option ℕ)
        → (Borrowers.reschedule o.borrower_id
            (seconds 120)
            now
            (elim i [ none ↦ d | some i ↦ (Agents.release i now d).0 ])).calls
          ≡ d.calls
    settled none = refl
    settled (some i) = refl

-- After a sweep no call is left that has no outcome, a past lease and was never rung; no agent with
-- a past lease is left reserved, dialling or wrapping up; and no borrower is left locked beyond its
-- time.
pub sweep_complete :
    (registry : Option (String → Bool)) (clock_now now : ℕ) (d : Db)
    → Swept clock_now now (reap registry clock_now now d).0
unfolding reap fail_orphan_calls reclaim_agents release_wrapup Borrowers.reclaim_expired_locks
sweep_complete registry clock_now now d =
    let (failed, orphans) = fail_orphan_calls clock_now now d in
    let settled = settle_orphans now orphans failed in
    record {
      calls =
          subst (λ cs. All (λ c. orphaned clock_now c ≡ false) cs)
            (sym (calls-settle_orphans now orphans failed))
            (none_left (orphaned clock_now) (orphan_failed now) (λ c e. ground arith) d.calls);
      leases =
          still_none (wrapped_up clock_now) (wrap_up_released now) (lease_expired clock_now)
            (λ a e. ground arith) _
            (none_left (lease_expired clock_now) (reclaimed now) (λ a e. ground arith)
              settled.agents);
      wraps = none_left (wrapped_up clock_now) (wrap_up_released now) (λ a e. ground arith) _;
      locks =
          none_left (Borrowers.lock_expired now) Borrowers.unlocked (λ b e. ground arith)
            settled.borrowers;
    }
