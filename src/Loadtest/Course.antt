-- ===== src/Loadtest/Course.antt =====
-- Each attempt of loadtest/run_load.py keeps its agent to itself, whatever the others do.
use mathlib.Core.Option
use smart_dialer.Common.{
  subst, ℕ, String, Option-cases, ◌-◌, ◌≡◌, refl, sym, ◌∙◌, Bool, true, false, Option, none, some,
  List, [], ◌∷◌, arith, if◌then◌else◌, ◌==◌, ==_iff, count, find, is_some, find-update_where,
  find-holds, Bool-cases, inl, inr,
}
use smart_dialer.Domain.Enums.{is_available}
use smart_dialer.Store.{Agent, Db}
use smart_dialer.Repo.Agents
use smart_dialer.Repo.Counters.{one_if}
use smart_dialer.Loadtest.{Phase, attempt, gather}

-- How many statements an attempt has left.
abbrev pub left : Phase → ℕ
left Phase.starting = 2
left (Phase.has_read v) = 1
left _ = 0

-- The agent of an attempt that has not reserved yet is free, and its version is the one that was read.
abbrev pub OnCourse : ℕ → Phase → Db → Type 0
OnCourse i Phase.starting d =
    (a : Agent) × (Agents.get i d ≡ some a) × (is_available a.state ≡ true)
OnCourse i (Phase.has_read v) d =
    (a : Agent) × (Agents.get i d ≡ some a) × (is_available a.state ≡ true) × (a.version ≡ v)
OnCourse i (Phase.ended ok) d = ok ≡ true
OnCourse i Phase.failed d = true ≡ false

-- A reservation of another agent leaves the row as it is.
get-reserve :
    (i j version : ℕ) (worker : String) (lease_until now : ℕ) (d : Db)
    → (j == i) ≡ false
    → Agents.get j (Agents.reserve i version worker lease_until now d).0 ≡ Agents.get j d
unfolding Agents.get Agents.reserve
get-reserve i j version worker lease_until now d h =
    find-update_where (Agents.reservable i version) (Agents.has_id j)
      (Agents.reserved_by worker lease_until now) (λ x. refl) d.agents
    ∙ untouched (find (Agents.has_id j) d.agents) (find-holds (Agents.has_id j) d.agents)
  where
    untouched :
        (r : Option Agent)
        → ((x : Agent) → r ≡ some x → Agents.has_id j x ≡ true)
        → Option.map
            (λ x.
              if Agents.reservable i version x
              then Agents.reserved_by worker lease_until now x
              else x)
            r
          ≡ r
    untouched none k = refl
    untouched (some x) k =
        let q : Agents.has_id j x ≡ true = k x refl in
        let miss : Agents.reservable i version x ≡ false = ground arith in rw miss refl

get-attempt :
    (lease_until now i j : ℕ) (p : Phase) (d : Db)
    → (j == i) ≡ false
    → Agents.get j (attempt lease_until now i p d).1 ≡ Agents.get j d
unfolding attempt
get-attempt lease_until now i j Phase.starting d h = elim (Option-cases (Agents.get i d)) [
  | inl e ↦ rw (e, attempt) refl
  | inr (a, e) ↦ rw (e, attempt) refl
]
get-attempt lease_until now i j (Phase.has_read v) d h =
    get-reserve i j v "loadtest" lease_until now d h
get-attempt lease_until now i j (Phase.ended ok) d h = refl
get-attempt lease_until now i j Phase.failed d h = refl

OnCourse-get :
    (i : ℕ) (p : Phase) (d e : Db)
    → Agents.get i e ≡ Agents.get i d
    → OnCourse i p d
    → OnCourse i p e
OnCourse-get i Phase.starting d e q h = (h.0, q ∙ h.1, h.2)
OnCourse-get i (Phase.has_read v) d e q h = (h.0, q ∙ h.1, h.2, h.3)
OnCourse-get i (Phase.ended ok) d e q h = h
OnCourse-get i Phase.failed d e q h = h

find-other :
    {A : Type 0} (p q : A → Bool) (xs : List A) (x : A)
    → find q xs ≡ some x
    → p x ≡ true
    → is_some (find p xs) ≡ true
find-other p q [] x e h = absurd (ground arith)
find-other p q (y ∷ ys) x e h = ground (arith, find-other p q ys x, e, h)

attempt-OnCourse :
    (lease_until now i : ℕ) (p : Phase) (d : Db)
    → OnCourse i p d
    → let (q, e) = attempt lease_until now i p d in OnCourse i q e × (left q ≡ left p - 1)
unfolding attempt Agents.get Agents.reserve
attempt-OnCourse lease_until now i Phase.starting d h =
    rw (h.1, attempt) ((h.0, h.1, h.2, refl), refl)
attempt-OnCourse lease_until now i (Phase.has_read v) d h =
    let free : Agents.reservable i v h.0 ≡ true =
      ground (arith, find-holds (Agents.has_id i) d.agents h.0 h.1) in
    (find-other (Agents.reservable i v) (Agents.has_id i) d.agents h.0 h.1 free, refl)
attempt-OnCourse lease_until now i (Phase.ended ok) d h = (h, refl)
attempt-OnCourse lease_until now i Phase.failed d h = (h, refl)

-- The next statement of one attempt, as another sees it or as its own.
turn-OnCourse :
    (lease_until now i j : ℕ) (phases : ℕ → Phase) (d : Db)
    → OnCourse j (phases j) d
    → let (p, e) = attempt lease_until now i (phases i) d in
      let q = if j == i then p else phases j in
      OnCourse j q e × (left q ≡ left (phases j) - one_if (i == j))
turn-OnCourse lease_until now i j phases d h = elim (Bool-cases (j == i)) [
  | inl e ↦
      let same : j ≡ i = (==_iff j i).0 e in
      let back : (i == j) ≡ true = (==_iff i j).1 (sym same) in
      rw (e, back)
        (subst
          (λ k.
            OnCourse j (attempt lease_until now k (phases k) d).0
              (attempt lease_until now k (phases k) d).1
            × (left (attempt lease_until now k (phases k) d).0 ≡ left (phases j) - 1))
          same (attempt-OnCourse lease_until now j (phases j) d h))
  | inr e ↦
      let back : (i == j) ≡ false = ground arith in
      rw (e, back)
        (
          OnCourse-get j (phases j) d _ (get-attempt lease_until now i j (phases i) d e) h,
          omega arith,
        )
]

pub gather-OnCourse :
    (lease_until now j : ℕ) (order : List ℕ) (phases : ℕ → Phase) (d : Db)
    → OnCourse j (phases j) d
    → let (after, e) = gather lease_until now order phases d in
      OnCourse j (after j) e × (left (after j) ≡ left (phases j) - count (λ i. i == j) order)
unfolding gather
gather-OnCourse lease_until now j [] phases d h = (h, omega arith)
gather-OnCourse lease_until now j (i ∷ order) phases d h =
    let (p, e) = attempt lease_until now i (phases i) d in
    let next = turn-OnCourse lease_until now i j phases d h in
    let rest =
      gather-OnCourse lease_until now j order (λ k. if k == i then p else phases k) e next.0 in
    (rest.0, ground (arith, rest.1, next.1))
