-- ===== src/Users/SignIn.antt =====
-- From a registration to a sign-in and the profile, through services/user-service and
-- libs/common/security.py.
use mini_stock_exchange_plat.Base.{ℕ, ◌+◌, ◌*◌, ◌≤◌, ◌≡◌, true, some, ltb, if◌then◌else◌}
use mini_stock_exchange_plat.Base.Dict.{lookup}
use mini_stock_exchange_plat.Base.Text.{Text}
use mini_stock_exchange_plat.Security
use mini_stock_exchange_plat.Security.{CurrentUser, accepted, token_expired, get_current_user}
use mini_stock_exchange_plat.Users.Passwords.{hash_password}
use mini_stock_exchange_plat.Users.{UserResponse, User, Table, Token, response_of}
use mini_stock_exchange_plat.Users.Requests.{Env, RegisterBody}
use mini_stock_exchange_plat.Users.Verified.{current_of}

module _ {Hash Access : Type 0} (env : Env Hash Access) where
  -- The table after a registration that is answered with a token has the row that it is of.
  record Registered (body : RegisterBody) (id salt : ℕ) (token : Token Access) (table : Table Hash)
      : Type 0 where
    u : User Hash
    here : lookup id table ≡ some u
    hashed : hash_password env.bcrypt salt body.password ≡ some u.password_hash
    active : u.is_active ≡ true
    shown : token.user ≡ response_of id u

  -- A token for a user: it shows the user, and is read as the user until it expires.
  pub record IsTokenFor (user : UserResponse) (now : ℕ) (token : Token Access) : Type 0 where
    pub shows : token.user ≡ user
    pub stands :
        (later : ℕ)
        → now ≤ later
        → get_current_user env.jwt env.parse_uuid later (some token.access_token) ≡ (
            if ltb later (now + env.expire_minutes * 60)
            then accepted (current_of user)
            else Security.refused token_expired)
