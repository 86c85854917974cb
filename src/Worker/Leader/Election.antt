-- ===== src/Worker/Leader/Election.antt =====
-- Who leads among workers that run the pacing loop of src/smartdialer/worker/pacing_loop.py.
use smart_dialer.Common.{
  ℕ, ◌≡◌, ◌≢◌, ◌↔◌, sym, ap, ◌∙◌, true, false, ◌&&◌, arith, ◌==◌, subst, Bool-cases, inl, inr,
}
use smart_dialer.Worker.Leader.{
  Locks, AreDocumented, Fleet, IsFresh, Step, Reach, iterate, after_move, lose,
}
use smart_dialer.Worker.Leader.Invariant.{holds, Inv, Inv-fresh}
use smart_dialer.Worker.Leader.Moves.{
  put_self, put_other, iterate-IsSound, polls, Step-Inv, Reach-Inv,
}

module _ (l : Locks) (doc : AreDocumented l) where
  -- Of the workers that have started with their loops, two that are in `tick` for one campaign over
  -- live connections are the same, however they interleave, leave, crash and lose connections.
  pub one_leader :
      {f g : Fleet l}
      → IsFresh l f
      → Reach l f g
      → (i j : ℕ) → (g.pacer i).campaign ≡ (g.pacer j).campaign
      → (g.pacer i).ticking && (g.pacer i).linked ≡ true
      → (g.pacer j).ticking && (g.pacer j).linked ≡ true
      → i ≡ j
  one_leader {g} h r i j c a b =
      let v = Reach-Inv l doc r (Inv-fresh l h) in
      v.sole i j c (ground (arith, v.leads i)) (ground (arith, v.leads j))

  -- A worker that polls over a live connection begins to tick exactly when no other worker leads its
  -- campaign over a live connection: a leader that leaves or crashes is replaced at the next poll.
  pub poll_wins_iff :
      {f g : Fleet l}
      → IsFresh l f
      → Reach l f g
      → (i : ℕ) → (g.pacer i).leader ≡ false
      → (g.pacer i).linked ≡ true
      → ((iterate l i (g.pacer i) g.server).1.ticking ≡ true) ↔ (
          (j : ℕ) → j ≢ i → (g.pacer j).campaign ≡ (g.pacer i).campaign → holds (g.pacer j) ≡ false)
  poll_wins_iff {g} h r i e q =
      let v = Reach-Inv l doc r (Inv-fresh l h) in
      subst
        (λ x. (x.1.ticking ≡ true) ↔ (
          (j : ℕ)
          → j ≢ i
          → (g.pacer j).campaign ≡ (g.pacer i).campaign
          → holds (g.pacer j) ≡ false))
        (polls l doc i (g.pacer i) g.server e q)
        (
          (λ t j n c. ground (
            arith,
            doc.granted i (g.pacer i).campaign g.server t j n,
            v.exact j (g.pacer i).campaign,
          )),
          (λ k.
              doc.grants i (g.pacer i).campaign g.server
                (λ j n. ground (arith, v.exact j (g.pacer i).campaign, k j n))),
        )

  -- After the loss of its connection, nobody holds the lock of the campaign that `i` led.
  cut_holder :
      (i j : ℕ) (g : Fleet l)
      → Inv l g
      → j ≢ i
      → (g.pacer j).campaign ≡ (g.pacer i).campaign
      → (g.pacer i).ticking ≡ true
      → (g.pacer i).linked ≡ true
      → (k : ℕ) → ((after_move l i (lose l) g).pacer k).campaign ≡ (g.pacer j).campaign
      → holds ((after_move l i (lose l) g).pacer k) ≡ false
  cut_holder i j g v n c t q k d = elim (Bool-cases (k == i)) [
    | inl e ↦ rw e (ground arith)
    | inr e ↦ rw e (ground (arith, v.sole k i, v.leads i))
  ]

  -- A worker in `tick` over a live connection goes on when the server ends that connection, and
  -- the next poll of another worker succeeds: both are then in `tick` for one campaign.
  pub two_leaders :
      {f g : Fleet l}
      → IsFresh l f
      → Reach l f g
      → (i j : ℕ) → j ≢ i
      → (g.pacer j).campaign ≡ (g.pacer i).campaign
      → ((g.pacer i).running ≡ true) × ((g.pacer i).ticking ≡ true) × ((g.pacer i).linked ≡ true)
      → ((g.pacer j).running ≡ true)
        × ((g.pacer j).ticking ≡ false)
        × ((g.pacer j).leader ≡ false)
        × ((g.pacer j).linked ≡ true)
      → (h : Fleet l) × Reach l f h
        × ((h.pacer i).ticking ≡ true)
        × ((h.pacer j).ticking ≡ true)
        × ((h.pacer j).campaign ≡ (h.pacer i).campaign)
  two_leaders {f} {g} fresh r i j n c a b =
      let v = Reach-Inv l doc r (Inv-fresh l fresh) in
      let cut = after_move l i (lose l) g in
      let cut_off : Reach l f cut = Reach.next r (Step.loses i a.0) in
      let same : cut.pacer j ≡ g.pacer j = put_other l doc i _ g.pacer j n in
      let lost : cut.pacer i ≡ _ =
        put_self l doc i (record (g.pacer i) { linked = false }) g.pacer in
      let leads = ap (λ w. w.leader) same ∙ b.2 in
      let linked = ap (λ w. w.linked) same ∙ b.3 in
      let won =
        (poll_wins_iff fresh cut_off j leads linked).1
          (λ k m d. cut_holder i j g v n c a.1 a.2 k (d ∙ ap (λ w. w.campaign) same)) in
      (
        after_move l j (iterate l) cut,
        Reach.next cut_off
            (Step.iterates j (ap (λ w. w.running) same ∙ b.0) (ap (λ w. w.ticking) same ∙ b.1)),
        ap (λ w. w.ticking) (put_other l doc j _ cut.pacer i (λ e. n (sym e)) ∙ lost) ∙ a.1,
        ap (λ w. w.ticking) (put_self l doc j (iterate l j (cut.pacer j) cut.server).1 cut.pacer)
            ∙ won,
        ap (λ w. w.campaign) (put_self l doc j (iterate l j (cut.pacer j) cut.server).1 cut.pacer)
            ∙ (iterate-IsSound l doc j cut (Step-Inv l doc (Step.loses i a.0) v)).same
            ∙ ap (λ w. w.campaign) same
            ∙ c
            ∙ sym (ap (λ w. w.campaign) (put_other l doc j _ cut.pacer i (λ e. n (sym e)) ∙ lost)),
      )
