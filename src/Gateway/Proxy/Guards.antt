-- ===== src/Gateway/Proxy/Guards.antt =====
-- Which requests services/gateway/app/main.py sends on to an upstream.
use mini_stock_exchange_plat.Base.{
  ℕ, ◌/◌, ◌≡◌, refl, sym, subst, Bool, true, false, not, ◌||◌, Option, none, some, if◌then◌else◌,
  arith, All,
}
use mini_stock_exchange_plat.Base.Text.{
  Text, text, eq_text, contains, ends_with, drop, contains-drop, ends_with-drop,
}
use mini_stock_exchange_plat.Security.{Claims, Jwt, Checked, accepted, refused, decode_token}
use mini_stock_exchange_plat.Gateway.Breaker.{Breaker, circuit_open}
use mini_stock_exchange_plat.Gateway.Routing.{Upstream, resolve, routes, resolve_in-drop}
use mini_stock_exchange_plat.Gateway.Auth.{
  is_not_internal, is_public, bearer_token, Caller, anonymous, known, unauthorized, authenticate,
  authenticate_with, or_anonymous, or_unauthorized,
}
use mini_stock_exchange_plat.Gateway.RateLimit.{limit_for, bucket_for, enforce}
use mini_stock_exchange_plat.Gateway.Proxy.{
  Headers, from_client, update, Request, Outgoing, Environment, Forwarded, dial, forward, Gate,
  Proxied, identity_of, request_id_of, extra_headers, authorization, get_header, send_on, route_on,
  proxy_as, proxy,
}
use mini_stock_exchange_plat.Gateway.Proxy.Identity.{
  IsTrusted, Names, sent_headers-IsTrusted, sent_headers-Names,
}

-- Where the caller of a request comes from: nobody on a public path, or the claims of its token.
abbrev pub IsCaller : {Body : Type 0} → Jwt Text → ℕ → Request Body → Option Claims → Type 0
IsCaller jwt now request none = is_public request.path ≡ true
IsCaller jwt now request (some claims) =
    (token : Text) × (bearer_token (authorization request.headers) ≡ some token)
    × (decode_token jwt now token ≡ accepted claims)

-- What holds of a request that is sent on.
pub record IsGuarded {Body : Type 0} (jwt : Jwt Text) (env : Environment Body)
    (request : Request Body) (gate : Gate) (out : Outgoing Body) : Type 0 where
  pub claims : Option Claims
  pub caller : IsCaller jwt (env.started / 1000) request claims
  pub path_in : is_not_internal request.path ≡ true
  pub path_out : is_not_internal out.path ≡ true
  pub no_preflight : eq_text request.method (text "OPTIONS") ≡ false
  pub resolved : resolve request.path ≡ some (out.upstream, out.path)
  pub let_through :
      (enforce env.redis
        (env.started / 1000)
        (identity_of claims request.client_host)
        (limit_for request.method request.path claims)
        (bucket_for request.method request.path)
        gate.counters).1
      ≡ true
  pub circuit_closed : (circuit_open env.started (gate.breakers out.upstream)).1 ≡ false
  pub trusted : All (IsTrusted claims) out.headers
  pub named : Names claims out.headers

module _ {Body : Type 0} (env : Environment Body) where
  forward-outgoing :
      (request : Request Body) (u : Upstream) (path : Text) (extra : Headers) (b : Breaker)
      (out : Outgoing Body)
      → (forward env request u path extra b).outgoing ≡ some out
      → (out.upstream ≡ u)
        × (out.path ≡ path)
        × (out.headers ≡ update (from_client request.headers) extra)
        × ((circuit_open env.started b).1 ≡ false)
  unfolding forward dial
  forward-outgoing request u path extra b out h = ground arith

not_internal-drop :
    (part suffix : Text) (n : ℕ) (s : Text)
    → not (contains part s || ends_with suffix s) ≡ true
    → not (contains part (drop n s) || ends_with suffix (drop n s)) ≡ true
not_internal-drop part suffix n s h =
    ground (arith, contains-drop part n s, ends_with-drop suffix n s)

resolve-not_internal :
    (path rest : Text) (u : Upstream)
    → resolve path ≡ some (u, rest)
    → is_not_internal path ≡ true
    → is_not_internal rest ≡ true
unfolding resolve is_not_internal
resolve-not_internal path rest u h g =
    subst (λ p. is_not_internal p ≡ true) (sym (resolve_in-drop routes path (u, rest) h))
      (not_internal-drop (text "/internal/") (text "/internal") 4 path g)

-- Where nothing was sent on one branch, the other was taken.
module _ {Body : Type 0} (out : Outgoing Body) where
  not_stopped :
      (b : Bool) (x y : Proxied Body)
      → x.outgoing ≡ none
      → (if not b then x else y).outgoing ≡ some out
      → (b ≡ true) × (y.outgoing ≡ some out)
  not_stopped true x y e h = (refl, h)
  not_stopped false x y e h = absurd (ground arith)

  not_stopped_if :
      (b : Bool) (x y : Proxied Body)
      → x.outgoing ≡ none
      → (if b then x else y).outgoing ≡ some out
      → (b ≡ false) × (y.outgoing ≡ some out)
  not_stopped_if false x y e h = (refl, h)
  not_stopped_if true x y e h = absurd (ground arith)

module _ {Body : Type 0} (jwt : Jwt Text) (env : Environment Body) (request : Request Body)
    (gate : Gate) where
  abbrev lets_through : Option Claims → Bool
  lets_through claims =
      (enforce env.redis (env.started / 1000) (identity_of claims request.client_host)
        (limit_for request.method request.path claims) (bucket_for request.method request.path)
        gate.counters).1

  abbrev forwarded : Option Claims → Upstream × Text → Forwarded Body
  forwarded claims route =
      forward env request route.0 route.1
        (extra_headers
          (request_id_of (get_header (text "x-request-id") request.headers) env.fresh_id) claims)
        (gate.breakers route.0)

  -- What `authenticate` has found out.
  abbrev IsFrom : Caller → Type 0
  IsFrom anonymous = IsCaller jwt (env.started / 1000) request none
  IsFrom (known claims) = IsCaller jwt (env.started / 1000) request (some claims)
  IsFrom (unauthorized e) = Unit

  checked-IsFrom :
      (is_open : Bool) (token : Text) (c : Checked Claims)
      → is_public request.path ≡ is_open
      → bearer_token (authorization request.headers) ≡ some token
      → decode_token jwt (env.started / 1000) token ≡ c
      → IsFrom (if is_open then or_anonymous c else or_unauthorized c)
  checked-IsFrom true token (accepted claims) p t e = (token, t, e)
  checked-IsFrom true token (refused r) p t e = p
  checked-IsFrom false token (accepted claims) p t e = (token, t, e)
  checked-IsFrom false token (refused r) p t e = tt

  authenticate_with-IsFrom :
      (is_open : Bool) (token : Option Text)
      → is_public request.path ≡ is_open
      → bearer_token (authorization request.headers) ≡ token
      → IsFrom (authenticate_with jwt (env.started / 1000) is_open token)
  unfolding authenticate_with
  authenticate_with-IsFrom true none p t = p
  authenticate_with-IsFrom true (some token) p t = checked-IsFrom true token _ p t refl
  authenticate_with-IsFrom false none p t = tt
  authenticate_with-IsFrom false (some token) p t = checked-IsFrom false token _ p t refl

  send_on-outgoing :
      (claims : Option Claims) (route : Upstream × Text) (out : Outgoing Body)
      → (send_on jwt env request claims route gate).outgoing ≡ some out
      → (lets_through claims ≡ true) × ((forwarded claims route).outgoing ≡ some out)
  unfolding send_on
  send_on-outgoing claims route out h = not_stopped out (lets_through claims) _ _ refl h

  send_on-IsGuarded :
      (claims : Option Claims) (route : Upstream × Text) (out : Outgoing Body)
      → IsCaller jwt (env.started / 1000) request claims
      → is_not_internal request.path ≡ true
      → eq_text request.method (text "OPTIONS") ≡ false
      → resolve request.path ≡ some route
      → (send_on jwt env request claims route gate).outgoing ≡ some out
      → IsGuarded jwt env request gate out
  send_on-IsGuarded claims (u, rest) out from path_in no_preflight resolved h =
      let sent = send_on-outgoing claims (u, rest) out h in
      let (same_upstream, same_path, same_headers, closed) =
        forward-outgoing env request u rest _ _ out sent.1 in
      record {
        claims = claims;
        caller = from;
        path_in = path_in;
        path_out = rw same_path (resolve-not_internal request.path rest u resolved path_in);
        no_preflight = no_preflight;
        resolved = rw (same_upstream, same_path) resolved;
        let_through = sent.0;
        circuit_closed = rw same_upstream closed;
        trusted = rw same_headers (sent_headers-IsTrusted claims _ request.headers);
        named = rw same_headers (sent_headers-Names claims _ request.headers);
      }

  route_on-IsGuarded :
      (claims : Option Claims) (out : Outgoing Body) (route : Option (Upstream × Text))
      → IsCaller jwt (env.started / 1000) request claims
      → is_not_internal request.path ≡ true
      → eq_text request.method (text "OPTIONS") ≡ false
      → resolve request.path ≡ route
      → (route_on jwt env request claims route gate).outgoing ≡ some out
      → IsGuarded jwt env request gate out
  unfolding route_on
  route_on-IsGuarded claims out none from path_in no_preflight resolved h = absurd (ground arith)
  route_on-IsGuarded claims out (some route) from path_in no_preflight resolved h =
      send_on-IsGuarded claims route out from path_in no_preflight resolved h

  proxy_as-IsGuarded :
      (out : Outgoing Body) (caller : Caller)
      → IsFrom caller
      → is_not_internal request.path ≡ true
      → eq_text request.method (text "OPTIONS") ≡ false
      → (proxy_as jwt env request caller gate).outgoing ≡ some out
      → IsGuarded jwt env request gate out
  unfolding proxy_as
  proxy_as-IsGuarded out (unauthorized e) from path_in no_preflight h = absurd (ground arith)
  proxy_as-IsGuarded out anonymous from path_in no_preflight h =
      route_on-IsGuarded none out (resolve request.path) from path_in no_preflight refl h
  proxy_as-IsGuarded out (known claims) from path_in no_preflight h =
      route_on-IsGuarded (some claims) out (resolve request.path) from path_in no_preflight refl h

  authenticate-IsFrom :
      IsFrom (authenticate jwt (env.started / 1000) request.path (authorization request.headers))
  unfolding authenticate
  authenticate-IsFrom =
      authenticate_with-IsFrom (is_public request.path)
        (bearer_token (authorization request.headers)) refl refl

  -- A request that the gateway sends to an upstream comes from nobody and has a public path, or
  -- bears a token whose claims are accepted; it is no preflight, neither its path nor the
  -- forwarded one is internal, the route is the one of its path, the rate limit lets it through
  -- and the circuit is closed; the forwarded headers carry no X-Internal-Key, and an X-User-Id
  -- exactly where the caller is known, with the subject of the token.
  pub proxy-IsGuarded :
      (out : Outgoing Body)
      → (proxy jwt env request gate).outgoing ≡ some out
      → IsGuarded jwt env request gate out
  unfolding proxy
  proxy-IsGuarded out h =
      let not_internal = not_stopped out (is_not_internal request.path) _ _ refl h in
      let no_options =
        not_stopped_if out (eq_text request.method (text "OPTIONS")) _ _ refl not_internal.1 in
      proxy_as-IsGuarded out _ authenticate-IsFrom not_internal.0 no_options.0 no_options.1
