-- ===== src/Repo/Triggers/Inserts.antt =====
-- The INSERT branches of the triggers keep a campaign's counters at the counts of its rows.
use smart_dialer.Common.{
  ℕ, ◌+◌, ◌≡◌, refl, Bool, true, false, ◌&&◌, List, [], ◌∷◌, ◌++◌, arith, All,
}
use smart_dialer.Domain.Enums.{AgentState, is_available, is_reserved, is_dialing, is_wrap_up}
use smart_dialer.Store.{Agent, Call, Db}
use smart_dialer.Store.Statements.{Statement, execute}
use smart_dialer.Repo.Counters.{
  no_counts, is_connected, is_ringing, is_talking, on_agent_insert, on_call_insert, one_if,
  in_state,
}
use smart_dialer.Repo.Counters.Agreement.{count-snoc}
use smart_dialer.Repo.Metrics.{agent_in, call_in, counts_naive}
use smart_dialer.Repo.Triggers.Updates.{Counters-ext}

module _ {A S : Type 0} (mine : A → Bool) (state : A → S) (is : S → Bool) (xs : List A) where
  grown :
      (x : A)
      → mine x ≡ true
      → in_state mine state is xs + one_if (is (state x)) ≡ in_state mine state is (xs ++ x ∷ [])
  grown x m = ground (arith, count-snoc (λ y. mine y && is (state y)) xs x)

  same :
      (x : A) → mine x ≡ false → in_state mine state is xs ≡ in_state mine state is (xs ++ x ∷ [])
  same x m = ground (arith, count-snoc (λ y. mine y && is (state y)) xs x)

empty_count :
    {A S : Type 0} (mine : A → Bool) (state : A → S) (is : S → Bool) (xs : List A)
    → All (λ x. mine x ≡ false) xs
    → 0 ≡ in_state mine state is xs
empty_count mine state is [] h = refl
empty_count mine state is (x ∷ xs) h = ground (arith, empty_count mine state is xs h.1)

module _ (c : ℕ) (d : Db) where
  pub counts-insert_agent :
      (a : Agent)
      → agent_in c a ≡ true
      → on_agent_insert a (counts_naive c d) ≡ counts_naive c (execute (Statement.insert_agent a) d)
  unfolding counts_naive on_agent_insert
  counts-insert_agent a m =
      Counters-ext _ _ (grows is_available) (grows is_reserved) (grows is_dialing)
        (grows is_connected) (grows is_wrap_up) refl refl
    where
      grows :
          (is : AgentState → Bool)
          → in_state (agent_in c) (λ a. a.state) is d.agents + one_if (is a.state)
            ≡ in_state (agent_in c) (λ a. a.state) is (d.agents ++ a ∷ [])
      grows is = grown (agent_in c) (λ a. a.state) is d.agents a m

  pub counts-other_agent :
      (a : Agent)
      → agent_in c a ≡ false
      → counts_naive c d ≡ counts_naive c (execute (Statement.insert_agent a) d)
  unfolding counts_naive
  counts-other_agent a m =
      Counters-ext _ _ (stays is_available) (stays is_reserved) (stays is_dialing)
        (stays is_connected) (stays is_wrap_up) refl refl
    where
      stays :
          (is : AgentState → Bool)
          → in_state (agent_in c) (λ a. a.state) is d.agents
            ≡ in_state (agent_in c) (λ a. a.state) is (d.agents ++ a ∷ [])
      stays is = same (agent_in c) (λ a. a.state) is d.agents a m

  pub counts-insert_call :
      (x : Call)
      → call_in c x ≡ true
      → on_call_insert x (counts_naive c d) ≡ counts_naive c (execute (Statement.insert_call x) d)
  unfolding counts_naive on_call_insert
  counts-insert_call x m =
      Counters-ext _ _ refl refl refl refl refl
        (grown (call_in c) (λ y. y.state) is_ringing d.calls x m)
        (grown (call_in c) (λ y. y.state) is_talking d.calls x m)

  pub counts-other_call :
      (x : Call)
      → call_in c x ≡ false
      → counts_naive c d ≡ counts_naive c (execute (Statement.insert_call x) d)
  unfolding counts_naive
  counts-other_call x m =
      Counters-ext _ _ refl refl refl refl refl
        (same (call_in c) (λ y. y.state) is_ringing d.calls x m)
        (same (call_in c) (λ y. y.state) is_talking d.calls x m)

  -- A campaign without rows counts nothing.
  pub no_counts-empty :
      All (λ a. agent_in c a ≡ false) d.agents
      → All (λ x. call_in c x ≡ false) d.calls
      → no_counts ≡ counts_naive c d
  unfolding counts_naive
  no_counts-empty h k =
      Counters-ext _ _ (agents is_available) (agents is_reserved) (agents is_dialing)
        (agents is_connected) (agents is_wrap_up)
        (empty_count (call_in c) (λ y. y.state) is_ringing d.calls k)
        (empty_count (call_in c) (λ y. y.state) is_talking d.calls k)
    where
      agents : (is : AgentState → Bool) → 0 ≡ in_state (agent_in c) (λ a. a.state) is d.agents
      agents is = empty_count (agent_in c) (λ a. a.state) is d.agents h
