-- ===== src/Worker/Leader/Invariant.antt =====
-- A worker that leads over a live connection is the only session with its campaign's lock.
use smart_dialer.Common.{
  ℕ, ◌≡◌, ◌≢◌, Bool, true, ◌&&◌, arith, if◌then◌else◌, ◌==◌, Bool-cases, inl, inr, ◌⊎◌, ◌∙◌,
}
use smart_dialer.Repo.Counters.{one_if}
use smart_dialer.Worker.Leader.{Locks, Pacer, Fleet, IsFresh, put}

abbrev pub holds : Pacer → Bool
holds w = w.leader && w.linked

module _ (l : Locks) where
  pub record Inv (f : Fleet l) : Type 0 where
    pub exact :
        (i k : ℕ) → l.depth f.server i k ≡ one_if (holds (f.pacer i) && k == (f.pacer i).campaign)
    pub sole :
        (i j : ℕ)
        → (f.pacer i).campaign ≡ (f.pacer j).campaign
        → holds (f.pacer i) ≡ true
        → holds (f.pacer j) ≡ true
        → i ≡ j
    pub leads : (i : ℕ) → (f.pacer i).ticking ≡ true → (f.pacer i).leader ≡ true

  pub Inv-fresh : {f : Fleet l} → IsFresh l f → Inv f
  Inv-fresh {f} h = record {
    exact = λ i k. ground (arith, h.free i k, h.follows i);
    sole = λ i j c a b. ground (arith, h.follows i);
    leads = λ i e. ground (arith, h.waits i);
  }

  -- What a move of worker `i` must come to, from the worker `w` and the locks `s`.
  pub record IsSound (i : ℕ) (w : Pacer) (s : l.Server) (r : l.Server × Pacer) : Type 0 where
    pub depths :
        (j m : ℕ)
        → l.depth r.0 j m
          ≡ (if j == i then one_if (holds r.1 && m == r.1.campaign) else l.depth s j m)
    pub same : r.1.campaign ≡ w.campaign
    pub earned :
        holds r.1 ≡ true → (holds w ≡ true) ⊎ ((j : ℕ) → j ≢ i → l.depth s j w.campaign ≡ 0)
    pub led : r.1.ticking ≡ true → r.1.leader ≡ true

  -- The one that has after_move holds alone.
  alone :
      (i : ℕ) (f : Fleet l) (r : l.Server × Pacer)
      → Inv f
      → IsSound i (f.pacer i) f.server r
      → (j : ℕ) → j ≢ i
      → (f.pacer j).campaign ≡ r.1.campaign
      → holds (f.pacer j) ≡ true
      → holds r.1 ≡ true
      → ⊥
  alone i f r v h j n c a b = elim (h.earned b) [
    | inl e ↦ n (v.sole j i (c ∙ h.same) a e)
    | inr z ↦ ground (arith, z j n, v.exact j (f.pacer i).campaign, c, h.same, a)
  ]

  pub after-Inv :
      (i : ℕ) (f : Fleet l) (r : l.Server × Pacer)
      → Inv f
      → IsSound i (f.pacer i) f.server r
      → Inv (record { server = r.0; pacer = put l i r.1 f.pacer })
  after-Inv i f r v h = record {
    exact = λ j k. ground (arith, h.depths j k, v.exact j k);
    sole = λ j m c a b. elim (Bool-cases (j == i)) [
      | inl e ↦ elim (Bool-cases (m == i)) [
        | inl q ↦ ground arith
        | inr q ↦
            absurd (alone i f r v h m (ground arith) (ground arith) (ground arith) (ground arith))
      ]
      | inr e ↦ elim (Bool-cases (m == i)) [
        | inl q ↦
            absurd (alone i f r v h j (ground arith) (ground arith) (ground arith) (ground arith))
        | inr q ↦ v.sole j m (ground arith) (ground arith) (ground arith)
      ]
    ];
    leads = λ j e. ground (arith, v.leads j, h.led);
  }
