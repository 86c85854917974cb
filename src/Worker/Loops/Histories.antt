-- ===== src/Worker/Loops/Histories.antt =====
-- A worker's loops (src/smartdialer/worker/runner.py, reaper.py) as histories of the system.
use smart_dialer.Common.{
  ℕ, ◌≡◌, refl, subst, sym, Bool, false, String, Option, List, [], ◌∷◌, ◌++◌, All, Bool-cases, inl,
  inr,
}
use smart_dialer.Store.{Db}
use smart_dialer.Store.Validity.{IsValid}
use smart_dialer.Store.Evolution.{Evolves}
use smart_dialer.System.{Step, Reach}
use smart_dialer.System.Histories.{Reach-trans, Reach-Keeps}
use smart_dialer.Worker.Reaper.Sweep.{Swept, sweep_complete}
use smart_dialer.Worker.Loops.{Turn, apply_turn, event_applier_loop, reap_turn, reap_forever}

-- What others did while the loop slept is a history.
abbrev pub IsHistory : Turn → Type 1
IsHistory t = (d : Db) → Reach d (t.meanwhile d)

Reach-apply_turn :
    (wrapup_s : ℕ) (t : Turn) (d : Db) → IsHistory t → Reach d (apply_turn wrapup_s t d)
unfolding apply_turn
Reach-apply_turn wrapup_s t d h = elim (Bool-cases t.raises) [
  | inl e ↦ rw e (h d)
  | inr e ↦ rw e (Reach.next (h d) (Step.apply_events t.locked 200 t.clock_now wrapup_s t.now))
]

Reach-reap_turn :
    (registry : Option (String → Bool)) (t : Turn) (d : Db)
    → IsHistory t
    → Reach d (reap_turn registry t d)
unfolding reap_turn
Reach-reap_turn registry t d h = elim (Bool-cases t.raises) [
  | inl e ↦ rw e (h d)
  | inr e ↦ rw e (Reach.next (h d) (Step.sweep registry t.clock_now t.now))
]

-- The loop of the event applier is a history, whatever the others do and whichever turns raise.
Reach-event_applier_loop :
    (wrapup_s : ℕ) (turns : List Turn) (d : Db)
    → All IsHistory turns
    → Reach d (event_applier_loop wrapup_s turns d)
unfolding event_applier_loop
Reach-event_applier_loop wrapup_s [] d h = Reach.here
Reach-event_applier_loop wrapup_s (t ∷ turns) d h =
    Reach-trans (Reach-apply_turn wrapup_s t d h.0) (Reach-event_applier_loop wrapup_s turns _ h.1)

Reach-reap_forever :
    (registry : Option (String → Bool)) (turns : List Turn) (d : Db)
    → All IsHistory turns
    → Reach d (reap_forever registry turns d)
unfolding reap_forever
Reach-reap_forever registry [] d h = Reach.here
Reach-reap_forever registry (t ∷ turns) d h =
    Reach-trans (Reach-reap_turn registry t d h.0) (Reach-reap_forever registry turns _ h.1)

reap_forever-snoc :
    (registry : Option (String → Bool)) (turns : List Turn) (t : Turn) (d : Db)
    → reap_forever registry (turns ++ t ∷ []) d
      ≡ reap_turn registry t (reap_forever registry turns d)
unfolding reap_forever
reap_forever-snoc registry [] t d = refl
reap_forever-snoc registry (x ∷ turns) t d =
    reap_forever-snoc registry turns t (reap_turn registry x d)

reap_turn-Swept :
    (registry : Option (String → Bool)) (t : Turn) (d : Db)
    → t.raises ≡ false
    → Swept t.clock_now t.now (reap_turn registry t d)
unfolding reap_turn
reap_turn-Swept registry t d e = rw e (sweep_complete registry t.clock_now t.now (t.meanwhile d))

All-append :
    (turns : List Turn) (t : Turn)
    → All IsHistory turns
    → IsHistory t
    → All IsHistory (turns ++ t ∷ [])
All-append [] t h k = (k, tt)
All-append (x ∷ turns) t h k = (h.0, All-append turns t h.1 k)

-- From valid tables, whatever other workers do or leave undone between the turns, and whichever turns
-- before raise: after a turn of a reaper's loop that does not raise, no call is left that has no
-- outcome, a past lease and was never rung, no agent with a past lease is left reserved, dialling or
-- wrapping up, and no borrower is left locked beyond its time; the tables are valid, and their rows
-- followed their evolution.
pub reap_forever-Swept :
    (registry : Option (String → Bool)) (turns : List Turn) (t : Turn) (d : Db)
    → All IsHistory turns
    → IsHistory t
    → t.raises ≡ false
    → IsValid d
    → let e = reap_forever registry (turns ++ t ∷ []) d in
      Swept t.clock_now t.now e × IsValid e × Evolves d e
reap_forever-Swept registry turns t d h k quiet v =
    let kept =
      Reach-Keeps (Reach-reap_forever registry (turns ++ t ∷ []) d (All-append turns t h k)) v in
    (
      subst (Swept t.clock_now t.now) (sym (reap_forever-snoc registry turns t d))
          (reap_turn-Swept registry t (reap_forever registry turns d) quiet),
      kept.0,
      kept.1,
    )
