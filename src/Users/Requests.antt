-- ===== src/Users/Requests.antt =====
-- The requests that change the table of services/user-service, with their bodies' validation.
use mini_stock_exchange_plat.Base.{ℕ, Bool, Option, none, some, List, [], ◌∷◌}
use mini_stock_exchange_plat.Base.Text.{Text}
use mini_stock_exchange_plat.Security.{Jwt, CurrentUser}
use mini_stock_exchange_plat.Users.Passwords.{Bcrypt}
use mini_stock_exchange_plat.Users.Schemas.{
  UserCreate, UserUpdate, ChangePasswordRequest, user_create, user_update, change_password_request,
}
use mini_stock_exchange_plat.Users.{
  Table, Answer, refused, invalid_body, UserResponse, Token, update_me,
}
use mini_stock_exchange_plat.Users.Auth.{register, change_password}

-- The libraries and the settings.
pub record Env (Hash Access : Type 0) : Type 0 where
  pub bcrypt : Bcrypt Hash
  pub jwt : Jwt Access
  pub show_uuid : ℕ → Text
  pub parse_uuid : Text → Option ℕ
  pub valid_email : Text → Option Text
  pub is_decimal : ℕ → Bool
  pub expire_minutes : ℕ
  pub dummy_hash : Hash

pub record RegisterBody : Type 0 where
  pub email : Text
  pub username : Text
  pub full_name : Option Text
  pub password : Text

-- A registration comes with the time and the random choices of the new id and of the salt.
pub data Request : Type 0 where
  registers : RegisterBody → ℕ → ℕ → ℕ → Request
  updates : CurrentUser → Option Text → Option Text → Request
  changes : CurrentUser → ℕ → Text → Text → Request

module _ {Hash : Type 0} where
  abbrev pub update_checked :
      CurrentUser → Table Hash → Option UserUpdate → Answer UserResponse × Table Hash
  update_checked current table none = (refused invalid_body, table)
  update_checked current table (some body) = update_me body current table

  unfoldable pub patch_me :
      CurrentUser → Option Text → Option Text → Table Hash → Answer UserResponse × Table Hash
  patch_me current full_name username table =
      update_checked current table (user_update full_name username)

module _ {Hash Access : Type 0} (env : Env Hash Access) where
  abbrev pub register_checked :
      ℕ → ℕ → ℕ → Table Hash → Option UserCreate → Answer (Token Access) × Table Hash
  register_checked now id salt table none = (refused invalid_body, table)
  register_checked now id salt table (some user_in) =
      register env.jwt env.show_uuid env.expire_minutes env.bcrypt user_in now id salt table

  unfoldable pub post_register :
      RegisterBody → ℕ → ℕ → ℕ → Table Hash → Answer (Token Access) × Table Hash
  post_register body now id salt table = register_checked now id salt table (
      user_create env.valid_email env.is_decimal body.email body.username body.full_name
        body.password)

  abbrev pub change_checked :
      CurrentUser → ℕ → Table Hash → Option ChangePasswordRequest → Answer UserResponse × Table Hash
  change_checked current salt table none = (refused invalid_body, table)
  change_checked current salt table (some body) = change_password env.bcrypt body salt current table

  unfoldable pub post_change_password :
      CurrentUser → ℕ → Text → Text → Table Hash → Answer UserResponse × Table Hash
  post_change_password current salt old new table =
      change_checked current salt table (change_password_request env.is_decimal old new)

  unfoldable pub apply : Request → Table Hash → Table Hash
  apply (registers body now id salt) table = (post_register body now id salt table).1
  apply (updates current full_name username) table = (patch_me current full_name username table).1
  apply (changes current salt old new) table = (post_change_password current salt old new table).1

  unfoldable pub run : List Request → Table Hash → Table Hash
  run [] table = table
  run (request ∷ requests) table = run requests (apply request table)
