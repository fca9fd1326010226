-- ===== src/Gateway/Auth.antt =====
-- Authentication at the gateway: services/gateway/app/auth.py.
use mini_stock_exchange_plat.Base.{
  ℕ, Bool, true, false, not, ◌||◌, ◌==◌, Option, none, some, List, [], ◌∷◌, if◌then◌else◌,
}
use mini_stock_exchange_plat.Base.Text.{
  Text, text, eq_text, starts_with, contains, ends_with, lower, one_of,
}
use mini_stock_exchange_plat.Security.{
  Claims, Jwt, AuthError, not_authenticated, Checked, accepted, refused, decode_token,
}

abbrev pub public_prefixes : List Text
public_prefixes = text "/api/auth/" ∷ text "/api/market/" ∷ text "/api/book/" ∷ []

abbrev pub public_exact : List Text
public_exact =
    text "/health"
    ∷ text "/ready"
    ∷ text "/docs"
    ∷ text "/openapi.json"
    ∷ text "/redoc"
    ∷ text "/ws/market"
    ∷ text "/"
    ∷ []

abbrev pub starts_with_any : Text → List Text → Bool
starts_with_any path [] = false
starts_with_any path (prefix ∷ ps) = starts_with prefix path || starts_with_any path ps

unfoldable pub is_public : Text → Bool
is_public path = one_of path public_exact || starts_with_any path public_prefixes

-- `assert_not_internal` lets these paths through.
unfoldable pub is_not_internal : Text → Bool
is_not_internal path = not (contains (text "/internal/") path || ends_with (text "/internal") path)

-- `header.partition(" ")`: what stands before the first space, and after it.
unfoldable pub partition_space : Text → Text × Text
partition_space [] = ([], [])
partition_space (c ∷ s) =
    let rest = partition_space s in if c == 32 then ([], s) else (c ∷ rest.0, rest.1)

-- `bearer_token`, of the authorization header, which is empty where it is missing.
unfoldable pub bearer_token : Text → Option Text
bearer_token header =
    let parts = partition_space header in
    if not (eq_text (lower parts.0) (text "bearer")) || eq_text parts.1 []
    then none
    else some parts.1

-- What `authenticate` returns or raises.
pub data Caller : Type 0 where
  anonymous : Caller
  known : Claims → Caller
  unauthorized : AuthError → Caller

-- A bad token on a public path is ignored.
abbrev pub or_anonymous : Checked Claims → Caller
or_anonymous (accepted claims) = known claims
or_anonymous (refused e) = anonymous

abbrev pub or_unauthorized : Checked Claims → Caller
or_unauthorized (accepted claims) = known claims
or_unauthorized (refused e) = unauthorized e

module _ (jwt : Jwt Text) where
  unfoldable pub authenticate_with : ℕ → Bool → Option Text → Caller
  authenticate_with now true none = anonymous
  authenticate_with now true (some token) = or_anonymous (decode_token jwt now token)
  authenticate_with now false none = unauthorized not_authenticated
  authenticate_with now false (some token) = or_unauthorized (decode_token jwt now token)

  unfoldable pub authenticate : ℕ → Text → Text → Caller
  authenticate now path header = authenticate_with now (is_public path) (bearer_token header)
