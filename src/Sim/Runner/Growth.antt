-- ===== src/Sim/Runner/Growth.antt =====
-- The cumulative columns of src/smartdialer/sim/runner.py along every history of the system.
use smart_dialer.Common.{
  ℕ, ◌≤◌, ◌≡◌, refl, Bool, true, ◌&&◌, List, [], ◌∷◌, arith, All, count, Extends, is_some,
}
use smart_dialer.Domain.Enums.{CallState, same_call_state}
use smart_dialer.Domain.Transitions.{rank}
use smart_dialer.Domain.Transitions.Order.{rank-le}
use smart_dialer.Store.{Call, Db}
use smart_dialer.Store.Evolution.{CallEvolves}
use smart_dialer.Store.Validity.{CallIsValid, IsValid}
use smart_dialer.Repo.Metrics.{call_in}
use smart_dialer.System.{Reach}
use smart_dialer.System.Histories.{Reach-Keeps}
use smart_dialer.Sim.Runner.{cumulative}

-- What a call keeps is counted no less later.
count_grows :
    (p : Call → Bool)
    → ((x y : Call) → CallIsValid x → CallIsValid y → CallEvolves x y → p x ≡ true → p y ≡ true)
    → (xs ys : List Call) → All CallIsValid xs
    → All CallIsValid ys
    → Extends CallEvolves xs ys
    → count p xs ≤ count p ys
count_grows p k [] ys v w h = omega arith
count_grows p k (x ∷ xs) [] v w h = absurd h
count_grows p k (x ∷ xs) (y ∷ ys) v w h =
    ground (arith, k x y v.0 w.0 h.0, count_grows p k xs ys v.1 w.1 h.1)

initiated_stays :
    (c : ℕ) (x y : Call)
    → CallEvolves x y
    → call_in c x && is_some x.initiated_at ≡ true
    → call_in c y && is_some y.initiated_at ≡ true
initiated_stays c x y h e = ground (arith, h.same_campaign, h.initiated_kept)

ended_stays_so :
    (c : ℕ) (s : CallState) (x y : Call)
    → ((t : CallState) → same_call_state t s ≡ true → rank t ≡ 6)
    → CallIsValid x
    → CallIsValid y
    → CallEvolves x y
    → call_in c x && same_call_state x.state s ≡ true
    → call_in c y && same_call_state y.state s ≡ true
ended_stays_so c s x y t v w h e =
    let m : call_in c x ≡ true = ground arith in
    let q : same_call_state x.state s ≡ true = ground arith in
    let same = h.state_follows (omega (arith, v.ranked, w.ranked, t x.state q, rank-le y.state)) in
    let place : call_in c y ≡ true = rw h.same_campaign m in rw (place, same, q) refl

completed_rank : (t : CallState) → same_call_state t CallState.completed ≡ true → rank t ≡ 6
completed_rank CallState.completed h = refl
completed_rank _ h = ground arith

abandoned_rank : (t : CallState) → same_call_state t CallState.abandoned ≡ true → rank t ≡ 6
abandoned_rank CallState.abandoned h = refl
abandoned_rank _ h = ground arith

-- From valid tables, along every history, the three cumulative columns of a campaign never fall:
-- the calls initiated, those completed and those abandoned.
pub cumulative_grows :
    {d e : Db} (c : ℕ)
    → IsValid d
    → Reach d e
    → ((cumulative c d).initiated_cum ≤ (cumulative c e).initiated_cum)
      × ((cumulative c d).connected_cum ≤ (cumulative c e).connected_cum)
      × ((cumulative c d).abandoned_cum ≤ (cumulative c e).abandoned_cum)
unfolding cumulative
cumulative_grows {d} {e} c v r =
    let (w, g) = Reach-Keeps r v in
    (
      count_grows _ (λ x y a b h q. initiated_stays c x y h q) d.calls e.calls v.calls w.calls
          g.calls,
      count_grows _ (λ x y. ended_stays_so c CallState.completed x y completed_rank) d.calls e.calls
          v.calls w.calls g.calls,
      count_grows _ (λ x y. ended_stays_so c CallState.abandoned x y abandoned_rank) d.calls e.calls
          v.calls w.calls g.calls,
    )
