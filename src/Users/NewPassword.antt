-- ===== src/Users/NewPassword.antt =====
-- From a change of the password to a sign-in: services/user-service/app/routes_auth.py.
use mini_stock_exchange_plat.Base.{ℕ, ◌≡◌, true, some}
use mini_stock_exchange_plat.Base.Dict.{lookup}
use mini_stock_exchange_plat.Base.Text.{Text}
use mini_stock_exchange_plat.Users.Passwords.{hash_password}
use mini_stock_exchange_plat.Users.{UserResponse, User, Table, response_of}
use mini_stock_exchange_plat.Users.Requests.{Env}

module _ {Hash Access : Type 0} (env : Env Hash Access) where
  -- The table after a change that is answered has the row of the answer, with the new hash.
  record Changed (id salt : ℕ) (new : Text) (response : UserResponse) (table : Table Hash)
      : Type 0 where
    u : User Hash
    here : lookup id table ≡ some u
    hashed : hash_password env.bcrypt salt new ≡ some u.password_hash
    active : u.is_active ≡ true
    shown : response ≡ response_of id u
