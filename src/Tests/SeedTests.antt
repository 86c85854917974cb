-- ===== src/Tests/SeedTests.antt =====
-- The theorem about setting up campaigns, at the samples.
use smart_dialer.Common.{◌≡◌, ◌+◌, ◌*◌, max, refl}
use smart_dialer.Sim.World.{setup_campaign, seed}
use smart_dialer.Sim.World.Setup.{callable, idle_agents, campaigns_prepared}
use smart_dialer.Tests.Samples.{sample, sample-IsValid}

campaigns_prepared_example :
    let e = setup_campaign 2 3 (λ i. 5_550_000 + i) 1_000 sample in
    let f = seed 2 3 5 1_000 sample in
    (idle_agents 2 e ≡ 3)
    × (callable 2 1_000 e ≡ max (3 * 80) 2000)
    × (idle_agents 2 f ≡ 3)
    × (callable 2 1_000 f ≡ 5)
campaigns_prepared_example =
    campaigns_prepared 2 3 5 1_000 (λ i. 5_550_000 + i) sample sample-IsValid
      ((refl, (refl, tt)), (refl, (refl, tt)))
