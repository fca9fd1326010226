-- ===== src/Client/Retries.antt =====
-- How `call_service` of libs/common/http_client.py ends.
use mini_stock_exchange_plat.Base.{ℕ, ◌+◌, ◌<◌, ◌≤◌, ◌≡◌, Bool, true, false, ◌⊎◌}
use mini_stock_exchange_plat.Client.{
  Reply, transport_error, responds, Answer, service_call_error, is_retryable, response_answer,
}

-- The specification, of one reply alone.
unfoldable pub is_transient : {Body Detail : Type 0} → Reply Body Detail → Bool
is_transient (transport_error detail) = true
is_transient (responds r) = is_retryable r.status_code

unfoldable pub verdict : {Body Detail : Type 0} → Reply Body Detail → Answer Body Detail
verdict (transport_error detail) = service_call_error 503 detail
verdict (responds r) = response_answer r

-- The call is settled by attempt k, and those before it failed in a way worth another attempt.
pub record SettledBy {Body Detail : Type 0} (callee : ℕ → Reply Body Detail) (retries k : ℕ)
    (r : Answer Body Detail × ℕ) : Type 0 where
  pub in_range : k ≤ retries
  pub last_or_final : (k ≡ retries) ⊎ (is_transient (callee k) ≡ false)
  pub earlier : (j : ℕ) → j < k → is_transient (callee j) ≡ true
  pub answer_is : r.0 ≡ verdict (callee k)
  pub requests_are : r.1 ≡ k + 1

module _ {Body Detail : Type 0} (callee : ℕ → Reply Body Detail) (retries : ℕ) where
  Settled : Answer Body Detail × ℕ → Type 0
  Settled r = (k : ℕ) × SettledBy callee retries k r

  abbrev AllTransient : ℕ → Type 0
  AllTransient n = (j : ℕ) → j < n → is_transient (callee j) ≡ true
