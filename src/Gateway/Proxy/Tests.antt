-- ===== src/Gateway/Proxy/Tests.antt =====
-- A placed order on its way through services/gateway, and witnesses.
use mini_stock_exchange_plat.Base.{ℕ, ◌≤◌, ◌≡◌, refl, true, false, none, some, List, [], ◌∷◌, min}
use mini_stock_exchange_plat.Base.Text.{Text, text}
use mini_stock_exchange_plat.Security.{Claims, decoded, Jwt, check_type, decode_token}
use mini_stock_exchange_plat.Gateway.Breaker.{circuit_open, record_failure}
use mini_stock_exchange_plat.Gateway.Routing.{
  order_service, public_routes, ResolvesTo, sort_routes, insert_route, resolve, resolve_in,
  resolve_in-sort,
}
use mini_stock_exchange_plat.Gateway.Auth.{
  is_not_internal, is_public, partition_space, bearer_token, authenticate, authenticate_with,
}
use mini_stock_exchange_plat.Gateway.RateLimit.{RateKey, reachable, limit_for, bucket_for, enforce}
use mini_stock_exchange_plat.Gateway.RateLimit.Windows.{Attempt, asked, admitted, admitted-min}
use mini_stock_exchange_plat.Gateway.Proxy.{
  set_header, collect_header, collect, from_client, from_upstream, update, get_header, Request,
  Outgoing, arrived, after_sent, Environment, dial, forward, Gate, identity_of, request_id_of,
  extra_headers, send_on, route_on, proxy_as, proxy,
}
use mini_stock_exchange_plat.Gateway.Proxy.Guards.{IsGuarded, proxy-IsGuarded}
use mini_stock_exchange_plat.Gateway.Proxy.Bulkhead.{
  Lane, fresh_lane, max_inflight_per_upstream, asks, begins, enters, quiet, event_then,
  bulkhead_bounds,
}

abbrev claims : Claims
claims = record {
  sub = text "u1";
  exp = 100;
  iat = 0;
  email = none;
  username = none;
  token_type = some (text "access");
}

abbrev library : Jwt Text
library = record { encode = λ c. text "t"; decode = λ now t. decoded claims }

-- The client claims to be another user and a service of the platform.
abbrev request : Request ℕ
request = record {
  method = text "POST";
  path = text "/api/orders";
  query = [];
  headers =
      (text "authorization", text "Bearer t")
      ∷ (text "x-user-id", text "u2")
      ∷ (text "x-internal-key", text "k")
      ∷ [];
  client_host = none;
  body = 5;
}

abbrev env : Environment ℕ
env = record {
  started = 3000;
  ended = 3100;
  entered = true;
  sent = arrived 201 [] 6;
  redis = reachable;
  fresh_id = text "r";
}

abbrev gate : Gate
gate = record { counters = λ k. none; breakers = λ u. record { failures = 0; open_until = none } }

abbrev outgoing : Outgoing ℕ
outgoing = record {
  upstream = order_service;
  method = text "POST";
  path = text "/orders";
  query = [];
  headers =
      (text "authorization", text "Bearer t")
      ∷ (text "X-Request-Id", text "r")
      ∷ (text "X-User-Id", text "u1")
      ∷ [];
  body = 5;
}

sent_on : (proxy library env request gate).outgoing ≡ some outgoing
unfolding proxy is_not_internal proxy_as authenticate authenticate_with is_public bearer_token
    partition_space get_header decode_token check_type route_on resolve resolve_in sort_routes
    insert_route send_on enforce circuit_open record_failure after_sent collect collect_header dial
    extra_headers forward from_client from_upstream identity_of request_id_of set_header update
    bucket_for limit_for
sent_on = refl

proxy-IsGuarded_example : IsGuarded library env request gate outgoing
proxy-IsGuarded_example = proxy-IsGuarded library env request gate outgoing sent_on

abbrev hidden : Text
hidden = text "/api/market/internal/replication-status"

hidden_path : (is_public hidden ≡ true) × (is_not_internal hidden ≡ false)
unfolding is_public is_not_internal
hidden_path = (refl, refl)

resolve_in-sort_example :
    ResolvesTo public_routes
      (text "/api/market/quote/A")
      (resolve_in (sort_routes public_routes) (text "/api/market/quote/A"))
resolve_in-sort_example = resolve_in-sort public_routes (text "/api/market/quote/A")

abbrev attempt : ℕ → Attempt
attempt now = record { now = now; identity = text "u1"; limit = 1; bucket = text "orders" }

abbrev key : RateKey
key = record { identity = text "u1"; bucket = text "orders"; window = 0 }

abbrev attempts : List Attempt
attempts = attempt 3 ∷ attempt 9 ∷ attempt 70 ∷ []

admitted-min_example : admitted key attempts (λ k. none) ≡ min (asked key attempts) 1
admitted-min_example =
    admitted-min key 1 attempts (λ k. none) ((λ _. refl), ((λ _. refl), ((λ _. refl), tt))) refl

abbrev calling_lane : Lane
calling_lane = record fresh_lane { permits = 7; calling = 1 }

asked_lane : asks 5 fresh_lane ≡ record fresh_lane { waiting = 1 }
unfolding asks circuit_open
asked_lane = refl

bulkhead_bounds_example :
    (calling_lane.calling ≤ max_inflight_per_upstream)
    × (calling_lane.calling ≡ 0 → calling_lane.permits ≡ max_inflight_per_upstream)
unfolding asks circuit_open
bulkhead_bounds_example =
    bulkhead_bounds {Body = ℕ} calling_lane
      (event_then (begins 5 fresh_lane) (event_then (enters 0 7 fresh_lane) (quiet _)))
