-- ===== src/System/Uniqueness.antt =====
-- What is done at most once: an event of the ledger, a call per idempotency key.
use text.Mathlib.TextPositions.{eq_refl}
use smart_dialer.Common.{
  ℕ, ◌≡◌, refl, ap, String, Bool, true, Option, none, some, List, [], ◌∷◌, ◌++◌, arith, subst,
  some_inj, inl, inr, Option-cases, Bool-cases, find, find-Extends,
}
use smart_dialer.Store.{Call, Event, Db, IdempotencyKey}
use smart_dialer.Store.Evolution.{Evolves, CallEvolves, EventEvolves}
use smart_dialer.Store.Validity.{IsValid}
use smart_dialer.Repo.Calls
use smart_dialer.Repo.Calls.Keeping.{create-Keeps}
use smart_dialer.Repo.Events
use smart_dialer.Repo.Events.Keeping.{ingest-Keeps}
use smart_dialer.System.{Reach}
use smart_dialer.System.Histories.{Reach-Keeps}

-- A condition that the last row meets finds a row.
find-snoc :
    {A : Type 0} (p : A → Bool) (xs : List A) (x : A)
    → p x ≡ true
    → (y : A) × (find p (xs ++ x ∷ []) ≡ some y)
find-snoc p [] x h = (x, rw h refl)
find-snoc p (z ∷ zs) x h = elim (Bool-cases (p z)) [
  | inl e ↦ (z, rw e refl)
  | inr e ↦ rw e (find-snoc p zs x h)
]

-- A call whose key is there keeps it there, and a second call with the key is refused.
key_stays :
    (k : IdempotencyKey) (d e : Db) (c : Call)
    → Evolves d e
    → find (Calls.has_key k) d.calls ≡ some c
    → (c' : Call) × (find (Calls.has_key k) e.calls ≡ some c') × CallEvolves c c'
key_stays k d e c g h =
    find-Extends CallEvolves (Calls.has_key k) (λ x y r. ap (λ l. Calls.same_key l k) r.same_key)
      d.calls e.calls c g.calls h

created_key :
    (campaign_id agent_id borrower_id : ℕ) (provider : String) (attempt_no : ℕ)
    (key : IdempotencyKey) (worker : String) (lease_until i : ℕ) (d d' : Db)
    → Calls.create campaign_id agent_id borrower_id provider attempt_no key worker lease_until d
      ≡ some (d', i)
    → (c : Call) × (find (Calls.has_key key) d'.calls ≡ some c)
unfolding Calls.create
created_key campaign_id agent_id borrower_id provider attempt_no key worker lease_until i d d' h =
    elim (Option-cases (find (Calls.has_key key) d.calls)) [
      | inl q ↦
          subst (λ z. (c : Call) × (find (Calls.has_key key) z.0.calls ≡ some c))
            (some_inj (rw (q, Calls.create) at h))
            (find-snoc (Calls.has_key key) d.calls _ (ground arith))
      | inr q ↦ absurd (ground arith)
    ]

-- From valid tables: once a call with an idempotency key was created, every later attempt to create
-- one with that key fails, whatever happened in between and whatever else it is created with.
pub key_once :
    {d d' e : Db} (campaign_id agent_id borrower_id attempt_no lease_until i : ℕ)
    (provider worker : String) (key : IdempotencyKey)
    (campaign_later agent_later borrower_later attempt_later lease_later : ℕ)
    (provider_later worker_later : String)
    → IsValid d
    → Calls.create campaign_id agent_id borrower_id provider attempt_no key worker lease_until d
      ≡ some (d', i)
    → Reach d' e
    → Calls.create campaign_later agent_later borrower_later provider_later attempt_later key
        worker_later lease_later e
      ≡ none
unfolding Calls.create
key_once {d} {d'} {e} campaign_id agent_id borrower_id attempt_no lease_until i provider worker key
      campaign_later agent_later borrower_later attempt_later lease_later provider_later
      worker_later v h r =
    let w =
      create-Keeps campaign_id agent_id borrower_id provider attempt_no key worker lease_until d h
        v in
    let (c, found) =
      created_key campaign_id agent_id borrower_id provider attempt_no key worker lease_until i d d'
        h in
    let (c', later, g) = key_stays key d' e c (Reach-Keeps r w.0).1 found in
    rw (later, Calls.create) refl

-- From valid tables: once an event was ingested, every later delivery under its identifier is dropped
-- and changes nothing, whatever it says and whatever happened in between.
pub event_once :
    {d e : Db} (provider event_id etype etype_later : String) (ref ref_later : Option String)
    (ts now ts_later now_later : ℕ)
    → IsValid d
    → Reach (Events.ingest provider event_id ref etype ts now d).0 e
    → Events.ingest provider event_id ref_later etype_later ts_later now_later e ≡ (e, none)
unfolding Events.ingest
event_once {d} {e} provider event_id etype etype_later ref ref_later ts now ts_later now_later v r =
    let w = ingest-Keeps provider event_id ref etype ts now d v in
    let (x, found) = ingested in
    let (y, later, g) =
      find-Extends EventEvolves (Events.same_event provider event_id)
        (λ x y g. rw (g.same_provider, g.same_event) refl) _ e.events x (Reach-Keeps r w.0).1.events
        found in
    rw (later, Events.ingest) refl
  where
    ingested :
        (x : Event) × (find
            (Events.same_event provider event_id)
            (Events.ingest provider event_id ref etype ts now d).0.events
          ≡ some x)
    ingested = elim (Option-cases (find (Events.same_event provider event_id) d.events)) [
      | inl q ↦
          rw (q, Events.ingest)
            (find-snoc (Events.same_event provider event_id) d.events _
              (rw (eq_refl provider, eq_refl event_id) refl))
      | inr (x, q) ↦ rw (q, Events.ingest) (x, q)
    ]
