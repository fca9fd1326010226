-- ===== src/Client.antt =====
-- Calls between services: `call_service` of libs/common/http_client.py. The callee answers attempt
-- number n with `callee n`; of a response the source reads the status, the content, the text, and
-- the detail of a JSON body; the content of a success is taken to be JSON. The pauses between the
-- attempts carry no state.
pub mod Retries
mod Tests
use mini_stock_exchange_plat.Base.{
  ℕ, zero, suc, ◌+◌, Bool, true, ◌||◌, ◌&&◌, Option, none, some, leb, ltb, ◌==◌, if◌then◌else◌,
}

pub record Response (Body Detail : Type 0) : Type 0 where
  pub status_code : ℕ
  pub content : Option Body
  pub text : Detail
  pub json_detail : Option Detail

pub data Reply (Body Detail : Type 0) : Type 0 where
  transport_error : Detail → Reply Body Detail
  responds : Response Body Detail → Reply Body Detail

-- What a call returns or raises; an empty response is `{}`.
pub data Answer (Body Detail : Type 0) : Type 0 where
  empty_answer : Answer Body Detail
  answer : Body → Answer Body Detail
  service_call_error : ℕ → Detail → Answer Body Detail

-- `RETRYABLE_STATUS`
unfoldable pub is_retryable : ℕ → Bool
is_retryable status = status == 502 || status == 503 || status == 504

module _ {Body Detail : Type 0} where
  unfoldable pub error_detail : Response Body Detail → Option Detail → Detail
  error_detail r none = r.text
  error_detail r (some detail) = detail

  unfoldable pub content_answer : Option Body → Answer Body Detail
  content_answer none = empty_answer
  content_answer (some body) = answer body

  -- The tests that follow the one on retries.
  unfoldable pub response_answer : Response Body Detail → Answer Body Detail
  response_answer r =
      if leb 400 r.status_code
      then service_call_error r.status_code (error_detail r r.json_detail)
      else content_answer r.content

  -- The loop, with so many attempts left; the answer and the number of requests sent in all.
  unfoldable pub attempts :
      (ℕ → Reply Body Detail) → ℕ → ℕ → ℕ → ℕ → Detail → Answer Body Detail × ℕ
  attempts callee retries zero attempt last_status last_detail =
      (service_call_error last_status last_detail, attempt)
  attempts callee retries (suc left) attempt last_status last_detail = elim (callee attempt) [
    | transport_error detail ↦ attempts callee retries left (attempt + 1) 503 detail
    | responds r ↦
        let again = attempts callee retries left (attempt + 1) r.status_code r.text in
        if is_retryable r.status_code && ltb attempt retries
        then again
        else (response_answer r, attempt + 1)
  ]

  unfoldable pub call_service : (ℕ → Reply Body Detail) → Detail → ℕ → Answer Body Detail × ℕ
  call_service callee unreachable retries = attempts callee retries (retries + 1) 0 503 unreachable
