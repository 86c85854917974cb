-- ===== src/Sim/World/Setup.antt =====
-- What src/smartdialer/sim/world.py and the `seed` command of src/smartdialer/cli.py set up.
use text.Mathlib.Text.{◌==◌ as str_eq}
use smart_dialer.Common.{
  ℕ, String, joined, numeral, zero, suc, ◌+◌, ◌*◌, ◌≤◌, ◌<◌, ◌≡◌, refl, ap, ◌∙◌, false, true, Bool,
  List, [], ◌∷◌, ◌++◌, none, ◌==◌, ==_iff, max, count, find, update_where, All, arith, Bool-cases,
  inl, inr,
}
use smart_dialer.Store.{Agent, Borrower, Db}
use smart_dialer.Store.Validity.{IsValid, Serial, Serial-le}
use smart_dialer.Repo.Agents
use smart_dialer.Repo.Agents.Keeping.{create-Keeps, login-Keeps}
use smart_dialer.Repo.Borrowers
use smart_dialer.Sim.World.{staff, phones_from, sim_phone, demo_phone, setup_campaign, seed}
use smart_dialer.Sim.World.Phones.{Distinct, sim_phone-Distinct, demo_phone-Distinct}

-- The last of numbered rows is the one that an update of the next number meets.
count_updated :
    {A : Type 0} (key : A → ℕ) (p : A → Bool) (f : A → A) (lo hi : ℕ) (xs : List A) (x : A)
    → Serial key lo hi xs
    → key x ≡ hi
    → p (f x) ≡ true
    → count p (update_where (λ y. key y == hi) f (xs ++ x ∷ [])) ≡ count p xs + 1
count_updated key p f lo hi [] x h e q = rw ((==_iff (key x) hi).1 e) (rw q (omega arith))
count_updated key p f lo hi (y ∷ ys) x h e q =
    let below : key y < hi = omega (arith, Serial-le key (suc (key y)) hi ys h.1) in
    let other : (key y == hi) ≡ false = ground arith in
    let rest = count_updated key p f (suc (key y)) hi ys x h.1 e q in
    rw other (ground (arith, rest))

-- The agents of a campaign that nobody holds and that can be reserved.
abbrev pub idle_agents : ℕ → Db → ℕ
idle_agents c d = count (Agents.free (λ i. false) c) d.agents

-- The borrowers of a campaign that can be called at a time.
abbrev pub callable : ℕ → ℕ → Db → ℕ
callable c now d = count (Borrowers.dialable (λ i. false) c now) d.borrowers

hired_idle :
    (c now : ℕ) (ref : String) (d : Db)
    → IsValid d
    → let (e, i) = Agents.create c ref now d in
      idle_agents c (Agents.login i now e).0 ≡ idle_agents c d + 1
unfolding Agents.create Agents.login Agents.force_state
hired_idle c now ref d v =
    count_updated (λ a. a.id) (Agents.free (λ i. false) c) (Agents.forced _ none none none now) 1
      d.next_agent d.agents _ v.agent_ids refl (ground arith)

staff_idle :
    (c now i n : ℕ) (d : Db) → IsValid d → idle_agents c (staff c now i n d) ≡ idle_agents c d + n
unfolding staff
staff_idle c now i zero d v = omega arith
staff_idle c now i (suc n) d v =
    let (e, a) = Agents.create c (joined "agent-" (numeral i "")) now d in
    let w = (create-Keeps c (joined "agent-" (numeral i "")) now d v).0 in
    let u = (login-Keeps a now e w).0 in
    omega (
      arith,
      staff_idle c now (i + 1) n (Agents.login a now e).0 u,
      hired_idle c now (joined "agent-" (numeral i "")) d v,
    )

staff-borrowers : (c now i n : ℕ) (d : Db) → (staff c now i n d).borrowers ≡ d.borrowers
unfolding staff Agents.create Agents.login Agents.force_state
staff-borrowers c now i zero d = refl
staff-borrowers c now i (suc n) d = staff-borrowers c now (i + 1) n _

count-snoc :
    {A : Type 0} (p : A → Bool) (xs : List A) (x : A)
    → p x ≡ true
    → count p (xs ++ x ∷ []) ≡ count p xs + 1
count-snoc p [] x h = rw h (omega arith)
count-snoc p (y ∷ ys) x h = ground (arith, count-snoc p ys x h)

find-snoc :
    {A : Type 0} (p : A → Bool) (xs : List A) (x : A)
    → find p xs ≡ none
    → p x ≡ false
    → find p (xs ++ x ∷ []) ≡ none
find-snoc p [] x h k = rw k refl
find-snoc p (y ∷ ys) x h k = ground (arith, find-snoc p ys x, h, k)

-- No borrower has the phones from a number on.
abbrev Unheld : ℕ → (ℕ → String) → ℕ → List Borrower → Type 0
Unheld c phone i bs = (k : ℕ) → i ≤ k → find (Borrowers.same_phone c (phone k)) bs ≡ none

module _ (phone : ℕ → String) (distinct : Distinct phone) where
  other_phone :
      (c i k b now : ℕ)
      → i < k
      → Borrowers.same_phone c (phone k) (Borrowers.new_borrower b c (phone i) now) ≡ false
  other_phone c i k b now h = elim (Bool-cases (str_eq (phone i) (phone k))) [
    | inl e ↦ absurd (omega (arith, distinct i k e))
    | inr e ↦ ground arith
  ]

  seeded :
      (c now i n : ℕ) (d : Db)
      → Unheld c phone i d.borrowers
      → let e = Borrowers.seed_many c (phones_from phone i n) now d in
        (callable c now e ≡ callable c now d + n) × (e.agents ≡ d.agents)
  unfolding Borrowers.seed_many Borrowers.seed_one
  seeded c now i zero d h = (omega arith, refl)
  seeded c now i (suc n) d h =
      let b = Borrowers.new_borrower d.next_borrower c (phone i) now in
      let e : Db = record d {
        borrowers = d.borrowers ++ b ∷ [];
        next_borrower = d.next_borrower + 1;
      } in
      let next : Unheld c phone (i + 1) e.borrowers = λ k l.
        find-snoc (Borrowers.same_phone c (phone k)) d.borrowers b (h k (omega (arith, l)))
          (other_phone c i k d.next_borrower now (omega (arith, l))) in
      let rest = seeded c now (i + 1) n e next in
      let more = count-snoc (Borrowers.dialable (λ j. false) c now) d.borrowers b (ground arith) in
      rw (h i (omega arith), Borrowers.seed_many, Borrowers.seed_one)
        (omega (arith, rest.0, more), rest.1)

-- No agent and no borrower is of the campaign yet.
abbrev pub IsUnused : ℕ → Db → Type 0
IsUnused c d =
    All (λ a. (a.campaign_id == c) ≡ false) d.agents
    × All (λ b. (b.campaign_id == c) ≡ false) d.borrowers

no_agents :
    (c : ℕ) (xs : List Agent)
    → All (λ a. (a.campaign_id == c) ≡ false) xs
    → count (Agents.free (λ i. false) c) xs ≡ 0
no_agents c [] h = refl
no_agents c (a ∷ xs) h = ground (arith, no_agents c xs h.1, h.0)

no_borrowers :
    (c now : ℕ) (xs : List Borrower)
    → All (λ b. (b.campaign_id == c) ≡ false) xs
    → (count (Borrowers.dialable (λ i. false) c now) xs ≡ 0)
      × ((ph : String) → find (Borrowers.same_phone c ph) xs ≡ none)
no_borrowers c now [] h = (refl, λ ph. refl)
no_borrowers c now (b ∷ xs) h =
    let k = no_borrowers c now xs h.1 in
    (ground (arith, k.0, h.0), λ ph. ground (arith, k.1 ph, h.0))

-- A campaign that is staffed and then seeded.
prepared :
    (phone : ℕ → String) (c agents borrowers now : ℕ) (d : Db)
    → Distinct phone
    → IsValid d
    → IsUnused c d
    → let e = Borrowers.seed_many c (phones_from phone 0 borrowers) now (staff c now 0 agents d) in
      (idle_agents c e ≡ agents) × (callable c now e ≡ borrowers)
prepared phone c agents borrowers now d distinct v u =
    let s = staff c now 0 agents d in
    let same = staff-borrowers c now 0 agents d in
    let none_yet = no_borrowers c now d.borrowers u.1 in
    let k =
      seeded phone distinct c now 0 borrowers s
        (λ j l. ap (find (Borrowers.same_phone c (phone j))) same ∙ none_yet.1 (phone j)) in
    (
      ap (count (Agents.free (λ i. false) c)) k.1
          ∙ omega (arith, staff_idle c now 0 agents d v, no_agents c d.agents u.0),
      omega (arith, k.0, ap (count (Borrowers.dialable (λ i. false) c now)) same, none_yet.0),
    )

-- In valid tables without rows of the campaign, the simulator's set-up and the `seed` command leave
-- as many agents that can be reserved as they were asked for, and as many borrowers that can be
-- called: no phone is the same as another, whatever the random numbers.
pub campaigns_prepared :
    (c agents borrowers now : ℕ) (draw : ℕ → ℕ) (d : Db)
    → IsValid d
    → IsUnused c d
    → let e = setup_campaign c agents draw now d in
      let f = seed c agents borrowers now d in
      (idle_agents c e ≡ agents)
      × (callable c now e ≡ max (agents * 80) 2000)
      × (idle_agents c f ≡ agents)
      × (callable c now f ≡ borrowers)
unfolding setup_campaign seed
campaigns_prepared c agents borrowers now draw d v u =
    let k =
      prepared (sim_phone draw) c agents (max (agents * 80) 2000) now d (sim_phone-Distinct draw) v
        u in
    let l = prepared demo_phone c agents borrowers now d demo_phone-Distinct v u in
    (k.0, k.1, l.0, l.1)
