-- ===== src/Worker/Leader/Moves.antt =====
-- Every move of a worker of src/smartdialer/worker/pacing_loop.py keeps the lock with its leader.
use smart_dialer.Common.{ℕ, ◌≡◌, ◌≢◌, refl, true, false, arith, subst, Bool-cases, inl, inr}
use smart_dialer.Worker.Leader.{
  Locks, AreDocumented, Pacer, Fleet, Step, Reach, leave, iterate, put, crash, lose, rest,
  try_leader,
}
use smart_dialer.Worker.Leader.Invariant.{Inv, IsSound, after-Inv}

module _ (l : Locks) (doc : AreDocumented l) where
  pub put_self : (i : ℕ) (w : Pacer) (ws : ℕ → Pacer) → put l i w ws i ≡ w
  put_self i w ws = ground arith

  pub put_other : (i : ℕ) (w : Pacer) (ws : ℕ → Pacer) (j : ℕ) → j ≢ i → put l i w ws j ≡ ws j
  put_other i w ws j n = ground arith

  leave-IsSound :
      (i : ℕ) (f : Fleet l)
      → Inv l f
      → IsSound l i (f.pacer i) f.server (leave l i (f.pacer i) f.server)
  unfolding leave
  leave-IsSound i f v = record {
    depths =
        λ j m. ground (arith, doc.unlock_depth i (f.pacer i).campaign f.server j m, v.exact j m);
    same = refl;
    earned = λ e. ground arith;
    led = λ e. ground arith;
  }

  -- The three ways of a round: a leader's, a poll's, and that of a lost connection.
  leads_on :
      (i : ℕ) (w : Pacer) (s : l.Server)
      → w.leader ≡ true
      → (s, record w { ticking = true }) ≡ iterate l i w s
  unfolding iterate
  leads_on i w s e = ground arith

  pub polls :
      (i : ℕ) (w : Pacer) (s : l.Server)
      → w.leader ≡ false
      → w.linked ≡ true
      → let (s', won) = try_leader l i w.campaign s in
        (s', record w { leader = won; ticking = won }) ≡ iterate l i w s
  unfolding iterate
  polls i w s e q = ground arith

  gives_up :
      (i : ℕ) (w : Pacer) (s : l.Server)
      → w.leader ≡ false
      → w.linked ≡ false
      → leave l i w s ≡ iterate l i w s
  unfolding iterate
  gives_up i w s e q = ground arith

  pub iterate-IsSound :
      (i : ℕ) (f : Fleet l)
      → Inv l f
      → IsSound l i (f.pacer i) f.server (iterate l i (f.pacer i) f.server)
  iterate-IsSound i f v = elim (Bool-cases (f.pacer i).leader) [
    | inl e ↦ subst (IsSound l i (f.pacer i) f.server) (leads_on i (f.pacer i) f.server e) (record {
      depths = λ j m. ground (arith, v.exact j m);
      same = refl;
      earned = λ h. inl h;
      led = λ h. e;
    })
    | inr e ↦ elim (Bool-cases (f.pacer i).linked) [
      | inl q ↦
          subst (IsSound l i (f.pacer i) f.server) (polls i (f.pacer i) f.server e q) (record {
            depths = λ j m.
                ground (arith, doc.try_depth i (f.pacer i).campaign f.server j m, v.exact j m);
            same = refl;
            earned = λ h. inr (doc.granted i (f.pacer i).campaign f.server (ground arith));
            led = λ h. h;
          })
      | inr q ↦
          subst (IsSound l i (f.pacer i) f.server) (gives_up i (f.pacer i) f.server e q)
            (leave-IsSound i f v)
    ]
  ]

  crash-IsSound :
      (i : ℕ) (f : Fleet l)
      → Inv l f
      → IsSound l i (f.pacer i) f.server (crash l i (f.pacer i) f.server)
  crash-IsSound i f v = record {
    depths = λ j m. ground (arith, doc.disconnect_depth i f.server j m, v.exact j m);
    same = refl;
    earned = λ e. ground arith;
    led = λ e. ground arith;
  }

  lose-IsSound :
      (i : ℕ) (f : Fleet l)
      → Inv l f
      → IsSound l i (f.pacer i) f.server (lose l i (f.pacer i) f.server)
  lose-IsSound i f v = record {
    depths = λ j m. ground (arith, doc.disconnect_depth i f.server j m, v.exact j m);
    same = refl;
    earned = λ e. ground arith;
    led = v.leads i;
  }

  rest-IsSound :
      (i : ℕ) (f : Fleet l)
      → Inv l f
      → IsSound l i (f.pacer i) f.server (rest l i (f.pacer i) f.server)
  rest-IsSound i f v = record {
    depths = λ j m. ground (arith, v.exact j m);
    same = refl;
    earned = λ e. inl e;
    led = λ e. ground arith;
  }

  pub Step-Inv : {f g : Fleet l} → Step l f g → Inv l f → Inv l g
  Step-Inv {f} (Step.iterates i a b) v = after-Inv l i f _ v (iterate-IsSound i f v)
  Step-Inv {f} (Step.rests i a) v = after-Inv l i f _ v (rest-IsSound i f v)
  Step-Inv {f} (Step.leaves i a) v = after-Inv l i f _ v (leave-IsSound i f v)
  Step-Inv {f} (Step.crashes i a) v = after-Inv l i f _ v (crash-IsSound i f v)
  Step-Inv {f} (Step.loses i a) v = after-Inv l i f _ v (lose-IsSound i f v)

  pub Reach-Inv : {f g : Fleet l} → Reach l f g → Inv l f → Inv l g
  Reach-Inv Reach.here v = v
  Reach-Inv (Reach.next r s) v = Step-Inv s (Reach-Inv r v)
