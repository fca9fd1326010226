-- ===== src/Gateway/Proxy.antt =====
-- The proxy: services/gateway/app/proxy.py and `proxy` of services/gateway/app/main.py. How the
-- HTTP client ends, whether the bulkhead is entered in time and a fresh request id are the
-- environment's. Headers are a dictionary in insertion order.
pub mod Identity
pub mod Guards
pub mod Bulkhead
mod Tests
use mini_stock_exchange_plat.Base.{
  ℕ, ◌/◌, ◌≡◌, refl, Bool, true, false, not, ◌||◌, ◌&&◌, Option, none, some, List, [], ◌∷◌, ◌++◌,
  if◌then◌else◌,
}
use mini_stock_exchange_plat.Base.Text.{Text, text, eq_text, lower, one_of}
use mini_stock_exchange_plat.Security.{Claims, Jwt, AuthError}
use mini_stock_exchange_plat.Gateway.Breaker.{Breaker, circuit_open, record_failure, record_success}
use mini_stock_exchange_plat.Gateway.Routing.{Upstream, eq_upstream, resolve}
use mini_stock_exchange_plat.Gateway.Auth.{
  is_not_internal, Caller, anonymous, known, unauthorized, authenticate,
}
use mini_stock_exchange_plat.Gateway.RateLimit.{limit_for, bucket_for, Counters, RedisUp, enforce}

abbrev pub Headers : Type 0
Headers = List (Text × Text)

abbrev pub hop_by_hop : List Text
hop_by_hop =
    text "host"
    ∷ text "connection"
    ∷ text "keep-alive"
    ∷ text "proxy-authenticate"
    ∷ text "proxy-authorization"
    ∷ text "te"
    ∷ text "trailers"
    ∷ text "transfer-encoding"
    ∷ text "upgrade"
    ∷ text "content-length"
    ∷ []

abbrev pub client_forbidden : List Text
client_forbidden = text "x-internal-key" ∷ text "x-user-id" ∷ []

abbrev pub upstream_forbidden : List Text
upstream_forbidden = text "content-encoding" ∷ []

-- `headers[key] = value`
unfoldable pub set_header : Text → Text → Headers → Headers
set_header key value [] = (key, value) ∷ []
set_header key value (h ∷ hs) =
    let rest = set_header key value hs in if eq_text key h.0 then (key, value) ∷ hs else h ∷ rest

-- The comprehension of `_from_client` and `_from_upstream`, from what is collected so far.
unfoldable pub collect_header : List Text → Headers → Text × Text → Headers
collect_header forbidden found h =
    if one_of (lower h.0) hop_by_hop || one_of (lower h.0) forbidden
    then found
    else set_header h.0 h.1 found

unfoldable pub collect : List Text → Headers → Headers → Headers
collect forbidden found [] = found
collect forbidden found (h ∷ hs) = collect forbidden (collect_header forbidden found h) hs

unfoldable pub from_client : Headers → Headers
from_client headers = collect client_forbidden [] headers

unfoldable pub from_upstream : Headers → Headers
from_upstream headers = collect upstream_forbidden [] headers

-- `headers.update(extra)`
unfoldable pub update : Headers → Headers → Headers
update headers [] = headers
update headers (e ∷ extra) = update (set_header e.0 e.1 headers) extra

-- `headers.get(name)`, whose case is ignored.
unfoldable pub get_header : Text → Headers → Option Text
get_header name [] = none
get_header name (h ∷ hs) =
    let rest = get_header name hs in if eq_text (lower h.0) name then some h.1 else rest

pub record Request (Body : Type 0) : Type 0 where
  pub method : Text
  pub path : Text
  pub query : Text
  pub headers : Headers
  pub client_host : Option Text
  pub body : Body

-- What the HTTP client is asked to send.
pub record Outgoing (Body : Type 0) : Type 0 where
  pub upstream : Upstream
  pub method : Text
  pub path : Text
  pub query : Text
  pub headers : Headers
  pub body : Body

pub data Content (Body : Type 0) : Type 0 where
  nothing : Content Body
  no_route rate_limited unavailable busy timed_out : Content Body
  auth_error : AuthError → Content Body
  upstream_content : Body → Content Body

pub record Response (Body : Type 0) : Type 0 where
  pub status_code : ℕ
  pub headers : Headers
  pub content : Content Body

abbrev pub respond : {Body : Type 0} → ℕ → Content Body → Response Body
respond status content = record { status_code = status; headers = []; content = content }

-- How `client.request` ends; an error that `forward` does not catch is `broken`.
pub data Sent (Body : Type 0) : Type 0 where
  connect_error connect_timeout timeout broken : Sent Body
  arrived : ℕ → Headers → Body → Sent Body

-- The breaker and the answer after the call.
unfoldable pub after_sent : {Body : Type 0} → ℕ → Breaker → Sent Body → Breaker × Response Body
after_sent now b connect_error = (record_failure now true b, respond 503 unavailable)
after_sent now b connect_timeout = (record_failure now false b, respond 503 unavailable)
after_sent now b timeout = (record_failure now false b, respond 504 timed_out)
after_sent now b broken = (b, respond 500 nothing)
after_sent now b (arrived status headers body) = (
  record_success b,
  record { status_code = status; headers = from_upstream headers; content = upstream_content body },
)

-- What the environment does while a request is handled; times in milliseconds, of one clock for
-- the tokens, the windows and the breaker.
pub record Environment (Body : Type 0) : Type 0 where
  pub started : ℕ
  pub ended : ℕ
  pub entered : Bool
  pub sent : Sent Body
  pub redis : RedisUp
  pub fresh_id : Text

-- The response, the request sent if any, and the breaker.
pub record Forwarded (Body : Type 0) : Type 0 where
  pub response : Response Body
  pub outgoing : Option (Outgoing Body)
  pub breaker : Breaker

module _ {Body : Type 0} (env : Environment Body) where
  unfoldable pub dial : Outgoing Body → Breaker → Forwarded Body
  dial out b =
      let (b', response) = after_sent env.ended b env.sent in
      record { response = response; outgoing = some out; breaker = b' }

  -- `forward`
  unfoldable pub forward : Request Body → Upstream → Text → Headers → Breaker → Forwarded Body
  forward request upstream path extra b =
      let out : Outgoing Body = record {
        upstream = upstream;
        method = request.method;
        path = path;
        query = request.query;
        headers = update (from_client request.headers) extra;
        body = request.body;
      } in
      let (b', is_open) = circuit_open env.started b in
      if is_open
      then record { response = respond 503 unavailable; outgoing = none; breaker = b' }
      else if not env.entered
      then record { response = respond 503 busy; outgoing = none; breaker = b' }
      else dial out b'

-- The gateway's state: the keys of Redis, and a breaker for each upstream.
pub record Gate : Type 0 where
  pub counters : Counters
  pub breakers : Upstream → Breaker

abbrev pub set_breaker : Upstream → Breaker → (Upstream → Breaker) → Upstream → Breaker
set_breaker u b breakers v = if eq_upstream u v then b else breakers v

-- The response, the request sent if any, and the state.
pub record Proxied (Body : Type 0) : Type 0 where
  pub response : Response Body
  pub outgoing : Option (Outgoing Body)
  pub gate : Gate

-- `claims.get("sub") if claims else (request.client.host if request.client else "anonymous")`
unfoldable pub identity_of : Option Claims → Option Text → Text
identity_of (some claims) host = claims.sub
identity_of none (some host) = host
identity_of none none = text "anonymous"

-- `request.headers.get("x-request-id") or str(uuid.uuid4())`
unfoldable pub request_id_of : Option Text → Text → Text
request_id_of none fresh = fresh
request_id_of (some t) fresh = if eq_text t [] then fresh else t

unfoldable pub extra_headers : Text → Option Claims → Headers
extra_headers id none = (text "X-Request-Id", id) ∷ []
extra_headers id (some claims) = (text "X-Request-Id", id) ∷ (text "X-User-Id", claims.sub) ∷ []

abbrev pub authorization : Headers → Text
authorization headers = elim (get_header (text "authorization") headers) [ none ↦ [] | some t ↦ t ]

module _ {Body : Type 0} (jwt : Jwt Text) (env : Environment Body) where
  abbrev pub stop : ℕ → Content Body → Gate → Proxied Body
  stop status content gate = record {
    response = respond status content;
    outgoing = none;
    gate = gate;
  }

  -- A routed request of a known or an anonymous caller: the rate limit, and what follows it.
  unfoldable pub send_on : Request Body → Option Claims → Upstream × Text → Gate → Proxied Body
  send_on request claims (upstream, path) gate =
      let (counters, let_through) =
        enforce env.redis (env.started / 1000) (identity_of claims request.client_host)
          (limit_for request.method request.path claims) (bucket_for request.method request.path)
          gate.counters in
      let limited = record gate { counters = counters } in
      let id = request_id_of (get_header (text "x-request-id") request.headers) env.fresh_id in
      let done =
        forward env request upstream path (extra_headers id claims) (gate.breakers upstream) in
      let response = done.response in
      if not let_through then stop 429 rate_limited limited else record {
        response = record response {
          headers = set_header (text "x-request-id") id response.headers;
        };
        outgoing = done.outgoing;
        gate = record limited { breakers = set_breaker upstream done.breaker gate.breakers };
      }

  unfoldable pub route_on :
      Request Body → Option Claims → Option (Upstream × Text) → Gate → Proxied Body
  route_on request claims none gate = stop 404 no_route gate
  route_on request claims (some route) gate = send_on request claims route gate

  unfoldable pub proxy_as : Request Body → Caller → Gate → Proxied Body
  proxy_as request (unauthorized e) gate = stop 401 (auth_error e) gate
  proxy_as request anonymous gate = route_on request none (resolve request.path) gate
  proxy_as request (known claims) gate = route_on request (some claims) (resolve request.path) gate

  -- `proxy`
  unfoldable pub proxy : Request Body → Gate → Proxied Body
  proxy request gate =
      let caller =
        authenticate jwt (env.started / 1000) request.path (authorization request.headers) in
      if not (is_not_internal request.path)
      then stop 404 no_route gate
      else if eq_text request.method (text "OPTIONS")
      then stop 200 nothing gate
      else proxy_as request caller gate
