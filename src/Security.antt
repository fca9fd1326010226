-- ===== src/Security.antt =====
-- Access tokens: libs/common/security.py. The JWT library is a parameter, with the one secret and
-- algorithm of the settings, as are the printing and the parsing of UUIDs. Times are seconds.
pub mod Tokens
mod Tests
use mini_stock_exchange_plat.Base.{
  ℕ, ◌+◌, ◌*◌, ◌<◌, ◌≤◌, ◌≡◌, refl, Bool, false, Option, none, some, List, [], ◌∷◌, ltb,
  if◌then◌else◌,
}
use mini_stock_exchange_plat.Base.Text.{Text, text, eq_text}

-- The claims of a token; `exp` and `sub` are required.
pub record Claims : Type 0 where
  pub sub : Text
  pub exp : ℕ
  pub iat : ℕ
  pub email : Option Text
  pub username : Option Text
  pub token_type : Option Text

-- What the library makes of a token.
pub data Decoded : Type 0 where
  decoded : Claims → Decoded
  expired invalid : Decoded

pub record Jwt (Token : Type 0) : Type 0 where
  pub encode : Claims → Token
  pub decode : ℕ → Token → Decoded

-- The details of the answers with status 401.
pub data AuthError : Type 0 where
  not_authenticated token_expired invalid_token wrong_token_type malformed_subject : AuthError

pub data Checked (A : Type 0) : Type 0 where
  accepted : A → Checked A
  refused : AuthError → Checked A

pub record CurrentUser : Type 0 where
  pub id : ℕ
  pub email : Text
  pub username : Text

abbrev pub get_or_empty : Option Text → Text
get_or_empty none = []
get_or_empty (some t) = t

abbrev pub is_text : Text → Option Text → Bool
is_text t none = false
is_text t (some s) = eq_text s t

abbrev pub payload_for : (ℕ → Text) → ℕ → ℕ → ℕ → Text → Text → Claims
payload_for show_uuid expire_minutes now user_id email username = record {
  sub = show_uuid user_id;
  exp = now + expire_minutes * 60;
  iat = now;
  email = some email;
  username = some username;
  token_type = some (text "access");
}

module _ {Token : Type 0} (jwt : Jwt Token) where
  unfoldable pub create_access_token : (ℕ → Text) → ℕ → ℕ → ℕ → Text → Text → Token
  create_access_token show_uuid expire_minutes now user_id email username =
      jwt.encode (payload_for show_uuid expire_minutes now user_id email username)

  unfoldable pub check_type : Decoded → Checked Claims
  check_type expired = refused token_expired
  check_type invalid = refused invalid_token
  check_type (decoded claims) =
      if is_text (text "access") claims.token_type
      then accepted claims
      else refused wrong_token_type

  unfoldable pub decode_token : ℕ → Token → Checked Claims
  decode_token now token = check_type (jwt.decode now token)

  unfoldable pub user_of : Claims → Option ℕ → Checked CurrentUser
  user_of claims none = refused malformed_subject
  user_of claims (some id) = accepted (record {
    id = id;
    email = get_or_empty claims.email;
    username = get_or_empty claims.username;
  })

  unfoldable pub get_current_user : (Text → Option ℕ) → ℕ → Option Token → Checked CurrentUser
  get_current_user parse_uuid now none = refused not_authenticated
  get_current_user parse_uuid now (some token) = elim (decode_token now token) [
    | refused e ↦ refused e
    | accepted claims ↦ user_of claims (parse_uuid claims.sub)
  ]

-- `require_internal_key` lets a request through.
unfoldable pub require_internal_key : Text → Option Text → Bool
require_internal_key internal_api_key header = is_text internal_api_key header
