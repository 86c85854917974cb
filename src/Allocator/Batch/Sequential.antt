-- ===== src/Allocator/Batch/Sequential.antt =====
-- allocate_batch of src/smartdialer/allocator/allocator.py against the same allocations awaited one
-- after the other, without `asyncio.gather`.
use smart_dialer.Common.{
  ℕ, zero, suc, String, Bool, Option, none, some, List, [], ◌∷◌, map, if◌then◌else◌,
}
use smart_dialer.Store.{Db}
use smart_dialer.Allocator.{Config, Registry, World, allocate_one}
use smart_dialer.Allocator.Batch.{Task, turn, interleave, gathered}

-- The schedule of a batch in which each allocation runs to its end before the next one starts.
abbrev pub in_turn : ℕ → List ℕ
in_turn zero = []
in_turn (suc n) = 0 ∷ 0 ∷ map suc (in_turn n)

-- The world of an allocation that nobody meets.
abbrev pub alone : World → World
alone w = record w { meanwhile = λ d. d }

-- What a batch returns to a caller, if nothing raised.
abbrev pub returned : {R : Type 0} → R × Db × Option ℕ → Option (R × Db × ℕ)
returned (r, d, none) = none
returned (r, d, some k) = some (r, d, k)

abbrev counted : {R : Type 0} → Bool → Option (R × Db × ℕ) → Option (R × Db × ℕ)
counted ok none = none
counted ok (some (r, d, k)) = some (r, d, if ok then suc k else k)

-- One allocation, and the rest behind it unless it raised.
abbrev and_then :
    {R : Type 0} → Option (R × Db × Bool) → (R → Db → Option (R × Db × ℕ)) → Option (R × Db × ℕ)
and_then none rest = none
and_then (some (r, d, ok)) rest = counted ok (rest r d)

module _ {R : Type 0} (registry : Registry R) (cfg : Config) (worker : String)
    (campaign_id : ℕ) where
  -- `[await self._allocate_one(campaign_id) for _ in range(n)]`, and how many of them succeeded.
  abbrev pub one_by_one : ℕ → (ℕ → World) → R → Db → Option (R × Db × ℕ)
  one_by_one zero worlds r d = some (r, d, 0)
  one_by_one (suc n) worlds r d =
      and_then (allocate_one registry cfg worker campaign_id (alone (worlds n)) r d)
        (λ r' d'. one_by_one n worlds r' d')

  -- A batch's last database and its result, with one more task in front.
  abbrev joined : Task → R × Db × List Task → Option (R × Db × ℕ)
  joined t (r, d, ts) = returned (r, d, gathered registry cfg worker campaign_id (t ∷ ts))

  abbrev ended : R × Db × List Task → Option (R × Db × ℕ)
  ended (r, d, ts) = returned (r, d, gathered registry cfg worker campaign_id ts)

  -- What the rest of a batch is, from where one of its allocations left off.
  abbrev rest_of : List ℕ → List Task → R × Db × Task → Option (R × Db × ℕ)
  rest_of schedule ts (r, d, t) =
      joined t (interleave registry cfg worker campaign_id schedule ts r d)

  abbrev second_turn : R × Db × Task → R × Db × Task
  second_turn (r, d, t) = turn registry cfg worker campaign_id t r d
