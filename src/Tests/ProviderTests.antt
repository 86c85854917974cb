-- ===== src/Tests/ProviderTests.antt =====
-- The theorems about circuit breakers and routing, at a registry of two providers.
use smart_dialer.Common.{ℕ, ◌≡◌, ◌<◌, ◌+◌, ◌↔◌, refl, arith, true, false, List, [], ◌∷◌}
use smart_dialer.Providers.Breaker.{Breaker, Circuit, allow, record_outcome}
use smart_dialer.Providers.Breaker.Recovery.{Use, run, refused_iff, recovers, successes}
use smart_dialer.Providers.Registry.{Provider, pick, candidates, polled, health}
use smart_dialer.Providers.Registry.Routing.{Offers}
use smart_dialer.Providers.Registry.Best.{IsBest, pick-IsBest}
use smart_dialer.Tests.Fixed.{fixed, fixed-Irreflexive, fixed-Transitive}

abbrev closed_breaker : Breaker ℕ
closed_breaker = record {
  window = 10_000;
  threshold = 250;
  min_calls = 10;
  cooldown = 15_000;
  half_open_probes = 3;
  state = Circuit.closed;
  opened_at = 0;
  probes = 0;
  outcomes = [];
}

abbrev open_breaker : Breaker ℕ
open_breaker = record closed_breaker { state = Circuit.opened; opened_at = 5_000 }

abbrev half_open_breaker : Breaker ℕ
half_open_breaker = record open_breaker { state = Circuit.half_open }

abbrev providers : List (Provider ℕ)
providers =
    record { name = "mock_a"; p95_setup_s = 400; breaker = open_breaker }
    ∷ record { name = "mock_b"; p95_setup_s = 2_500; breaker = closed_breaker }
    ∷ []

refused_iff_example :
    let c = run fixed (Use.asks 21_000 ∷ Use.records 22_000 true ∷ []) open_breaker in
    ((allow 23_000 c).1 ≡ false)
    ↔ ((c.state ≡ Circuit.opened) × (23_000 < c.opened_at + c.cooldown))
refused_iff_example =
    refused_iff fixed (Use.asks 21_000 ∷ Use.records 22_000 true ∷ []) open_breaker 23_000
      (ground arith)

recovers_example :
    let c =
      record_outcome fixed 23_000 true
        (run fixed (successes fixed (21_000 ∷ 22_000 ∷ [])) half_open_breaker) in
    (c.state ≡ Circuit.closed) × (c.outcomes ≡ [])
recovers_example = recovers fixed (21_000 ∷ 22_000 ∷ []) 23_000 half_open_breaker refl refl refl

abbrev rivals : List (Provider ℕ)
rivals =
    record {
      name = "mock_a";
      p95_setup_s = 400;
      breaker = record closed_breaker { outcomes = (9_000, true) ∷ (9_500, false) ∷ [] };
    }
    ∷ providers

pick-IsBest_example :
    Offers fixed 10_000 "mock_b" rivals
    × IsBest fixed 10_000 "mock_b" (candidates fixed 10_000 rivals).1
unfolding pick candidates polled health allow
pick-IsBest_example =
    pick-IsBest fixed 10_000 fixed-Irreflexive fixed-Transitive rivals "mock_b" refl
