-- ===== src/Ids.antt =====
-- src/smartdialer/ids.py: the text of an idempotency key, in code points. The host name, the
-- process number and the random part of worker_id are arguments.
pub mod RoundTrip
use smart_dialer.Common.{ℕ, String, List, [], ◌∷◌, ◌++◌, codes, decimal}
use smart_dialer.Store.{IdempotencyKey}

-- worker_id: `f"{hostname}-{pid}-{hex}"`
unfoldable pub worker_id : String → ℕ → String → List ℕ
unfolding decimal
worker_id hostname pid hex = codes hostname ++ b'-' ∷ (decimal pid ++ b'-' ∷ codes hex)

-- idempotency_key: `f"{campaign_id}:{borrower_id}:{attempt_no}"`
unfoldable pub idempotency_key : ℕ → ℕ → ℕ → List ℕ
unfolding decimal
idempotency_key campaign_id borrower_id attempt_no =
    decimal campaign_id ++ b':' ∷ (decimal borrower_id ++ b':' ∷ (decimal attempt_no ++ []))
