-- ===== src/Allocator/Pullback.antt =====
-- The pull-back of src/smartdialer/allocator/allocator.py (cancel_excess_ringing) and a call that is
-- answered first.
use smart_dialer.Common.{
  ℕ, ◌≡◌, refl, ap, false, none, some, arith, inl, inr, Option-cases, find, find-holds,
  returning-find, update_where_miss, some_inj, sym, subst, returning, ◌∙◌,
}
use mathlib.Core.Option
use smart_dialer.Store.{Call, Db}
use smart_dialer.Store.Validity.{IsValid, find-key}
use smart_dialer.Repo.Calls
use smart_dialer.Allocator.{pull_back_tx}

-- In valid tables, to pull back a call that is neither INITIATED nor RINGING any more changes
-- nothing and counts for nothing.
pub answered_kept :
    (i now : ℕ) (d : Db) (c : Call)
    → IsValid d
    → Calls.get i d ≡ some c
    → Calls.not_answered c.state ≡ false
    → pull_back_tx i now d ≡ (d, false)
unfolding pull_back_tx Calls.cancel_if_not_answered Calls.get
answered_kept i now d c v h q = elim (Option-cases (find (Calls.cancellable i) d.calls)) [
  | inl e ↦
      let u =
        update_where_miss (Calls.cancellable i) (Calls.cancelled_for "SAFETY_PULLBACK" now) d.calls
          e in
      let r : returning (Calls.cancellable i) (Calls.cancelled_for "SAFETY_PULLBACK" now) d.calls
          ≡ none =
        returning-find (Calls.cancellable i) (Calls.cancelled_for "SAFETY_PULLBACK" now) d.calls
        ∙ ap (Option.map (Calls.cancelled_for "SAFETY_PULLBACK" now)) e in
      rw (r, u, pull_back_tx) refl
  | inr (x, e) ↦
      let t = find-holds (Calls.cancellable i) d.calls x e in
      let same : x.id ≡ i = ground arith in
      let k = find-key (λ c. c.id) (Calls.cancellable i) 1 d.next_call d.calls x v.call_ids e in
      let same_row : c ≡ x =
        some_inj (sym h ∙ subst (λ j. find (Calls.has_id j) d.calls ≡ some x) same k) in
      let w = subst (λ y. Calls.not_answered y.state ≡ false) same_row q in absurd (ground arith)
]
