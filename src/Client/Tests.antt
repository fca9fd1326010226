-- ===== src/Client/Tests.antt =====
-- Runs of `call_service` of libs/common/http_client.py, and witnesses.
use mini_stock_exchange_plat.Base.{ℕ, ◌≡◌, refl, some, ◌==◌, if◌then◌else◌}
use mini_stock_exchange_plat.Client.{
  Reply, transport_error, responds, answer, service_call_error, call_service, attempts,
  is_retryable, response_answer, content_answer, error_detail,
}

abbrev reply : ℕ → Reply ℕ ℕ
reply status =
    responds (record { status_code = status; content = some 7; text = 1; json_detail = some 2 })

-- A dropped connection, a 503, and then a success.
abbrev recovers : ℕ → Reply ℕ ℕ
recovers attempt =
    if attempt == 0 then transport_error 9 else if attempt == 1 then reply 503 else reply 200

recovers_run : call_service recovers 0 2 ≡ (answer 7, 3)
unfolding call_service attempts is_retryable response_answer content_answer error_detail
recovers_run = refl

always_503 : call_service (λ _. reply 503) 0 2 ≡ (service_call_error 503 2, 3)
unfolding call_service attempts is_retryable response_answer content_answer error_detail
always_503 = refl

refused : call_service (λ _. reply 409) 0 2 ≡ (service_call_error 409 2, 1)
unfolding call_service attempts is_retryable response_answer content_answer error_detail
refused = refl
