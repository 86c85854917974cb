-- ===== src/Repo/Agents/Reserve.antt =====
-- Reserving an agent by compare-and-set (RESERVE_CAS of src/smartdialer/repo/agents.py).
use smart_dialer.Common.{
  ℕ, suc, ◌<◌, ◌≡◌, refl, inl, inr, String, Bool, true, false, ◌&&◌, Option-cases, ap, sym, ◌∙◌,
  Option, none, some, List, [], ◌∷◌, arith, ◌==◌, is_some, find, find-Extends, find-holds,
  find-update_where, update_where_miss,
}
use smart_dialer.Domain.Enums.{AgentState, is_available}
use smart_dialer.Store.{Agent, Db}
use smart_dialer.Store.Evolution.{AgentEvolves, Evolves}
use smart_dialer.Store.Validity.{IsValid, Serial}
use smart_dialer.Repo.Agents.{reserve, reservable, reserved_by, has_id, get}

-- The test that the compare-and-set comes to, at the row with the number.
abbrev fresh : ℕ → Option Agent → Bool
fresh version none = false
fresh version (some a) = is_available a.state && a.version == version

find-reservable_below :
    (i version lo hi : ℕ) (rows : List Agent)
    → i < lo
    → Serial (λ a. a.id) lo hi rows
    → find (reservable i version) rows ≡ none
find-reservable_below i version lo hi [] h s = refl
find-reservable_below i version lo hi (a ∷ rows) h s =
    ground (arith, find-reservable_below i version (suc a.id) hi rows)

-- The compare-and-set looks at the one row with the number.
find-reservable :
    (i version lo hi : ℕ) (rows : List Agent)
    → Serial (λ a. a.id) lo hi rows
    → is_some (find (reservable i version) rows) ≡ fresh version (find (has_id i) rows)
find-reservable i version lo hi [] s = refl
find-reservable i version lo hi (a ∷ rows) s = ground (
  arith,
  find-reservable i version (suc a.id) hi rows,
  find-reservable_below i version (suc a.id) hi rows,
)

agent_stays :
    (i : ℕ) (d e : Db) (a : Agent)
    → Evolves d e
    → get i d ≡ some a
    → (b : Agent) × (get i e ≡ some b) × AgentEvolves a b
unfolding get
agent_stays i d e a g h =
    find-Extends AgentEvolves (has_id i) (λ x y r. ap (λ k. k == i) r.same_id) d.agents e.agents a
      g.agents h

reserve-fresh :
    (i version : ℕ) (worker : String) (lease_until now : ℕ) (d : Db)
    → IsValid d
    → (reserve i version worker lease_until now d).1 ≡ fresh version (get i d)
unfolding reserve get
reserve-fresh i version worker lease_until now d v =
    find-reservable i version 1 d.next_agent d.agents v.agent_ids

-- A reservation that succeeds leaves the row with the next version.
get-reserve :
    (i version : ℕ) (worker : String) (lease_until now : ℕ) (d : Db) (a : Agent)
    → get i d ≡ some a
    → fresh version (some a) ≡ true
    → get i (reserve i version worker lease_until now d).0
      ≡ some (reserved_by worker lease_until now a)
unfolding get reserve
get-reserve i version worker lease_until now d a h won = ground (
  arith,
  find-holds (has_id i) d.agents a h,
  find-update_where (reservable i version) (has_id i) (reserved_by worker lease_until now)
      (λ x. refl) d.agents,
)

-- A reservation that fails changes nothing.
reserve_lost :
    (i version : ℕ) (worker : String) (lease_until now : ℕ) (d : Db)
    → (reserve i version worker lease_until now d).1 ≡ false
    → reserve i version worker lease_until now d ≡ (d, false)
unfolding reserve
reserve_lost i version worker lease_until now d h =
    ground (
      arith,
      update_where_miss (reservable i version) (reserved_by worker lease_until now) d.agents,
    )

-- A worker that reads an agent's row and later reserves the agent with the version it read gets it
-- only if the row is still the one that was read, whatever ran in between; so the agent was free.
pub reserve_unchanged :
    (i : ℕ) (worker : String) (lease_until now : ℕ) (d e : Db) (a : Agent)
    → get i d ≡ some a
    → Evolves d e
    → IsValid e
    → (reserve i a.version worker lease_until now e).1 ≡ true
    → (get i e ≡ some a) × (a.state ≡ AgentState.available)
reserve_unchanged i worker lease_until now d e a read g v h =
    let (b, found, r) = agent_stays i d e a g read in
    let won : fresh a.version (some b) ≡ true =
      ap (fresh a.version) (sym found)
      ∙ sym (reserve-fresh i a.version worker lease_until now e v)
      ∙ h in
    let same : a ≡ b = r.version_counts (ground arith) in (rw (same) found, ground arith)

-- Once a worker has reserved an agent at a version, every later reservation at that version is
-- refused and changes nothing, whichever worker makes it and whatever ran in between.
pub reserve_exclusive :
    (i version : ℕ) (worker other : String) (lease_until later_lease now later : ℕ) (d e : Db)
    → IsValid d
    → (reserve i version worker lease_until now d).1 ≡ true
    → Evolves (reserve i version worker lease_until now d).0 e
    → IsValid e
    → reserve i version other later_lease later e ≡ (e, false)
reserve_exclusive i version worker other lease_until later_lease now later d e v h g w =
    elim (Option-cases (get i d)) [
      | inl q ↦ absurd (ground (arith, reserve-fresh i version worker lease_until now d v))
      | inr (a, q) ↦
          let won : fresh version (some a) ≡ true =
            ap (fresh version) (sym q)
            ∙ sym (reserve-fresh i version worker lease_until now d v)
            ∙ h in
          let (b, found, r) =
            agent_stays i _ e _ g (get-reserve i version worker lease_until now d a q won) in
          reserve_lost i version other later_lease later e (
            reserve-fresh i version other later_lease later e w
            ∙ ap (fresh version) found
            ∙ ground arith)
    ]
