-- ===== src/Users/Auth.antt =====
-- Registration, sign-in and the change of a password: services/user-service/app/routes_auth.py.
use mini_stock_exchange_plat.Base.{ℕ, ◌*◌, Bool, not, Option, none, some, if◌then◌else◌}
use mini_stock_exchange_plat.Base.Dict.{lookup, insert}
use mini_stock_exchange_plat.Base.Text.{Text}
use mini_stock_exchange_plat.Security.{Jwt, CurrentUser, create_access_token}
use mini_stock_exchange_plat.Users.Passwords.{
  Bcrypt, hash_password, verify_password, burn_verify_time,
}
use mini_stock_exchange_plat.Users.Schemas.{UserCreate, ChangePasswordRequest}
use mini_stock_exchange_plat.Users.{
  User, Table, Answer, done, refused, generic_login_error, account_disabled, already_registered,
  not_authenticated, current_password_incorrect, password_too_long, UserResponse, Token, commit_new,
  find_by_identifier, response_of, active_row, new_user,
}

module _ {Hash : Type 0} (bcrypt : Bcrypt Hash) where
  abbrev pub check_active : ℕ → User Hash → Bool × ℕ → Answer (ℕ × User Hash) × ℕ
  check_active id u (verified, compared) =
      if not verified
      then (refused generic_login_error, compared)
      else if not u.is_active
      then (refused account_disabled, compared)
      else (done (id, u), compared)

  unfoldable pub check_found : Hash → Text → ℕ → Option (ℕ × User Hash) → Answer (ℕ × User Hash) × ℕ
  check_found dummy_hash password compared none =
      (refused generic_login_error, burn_verify_time bcrypt dummy_hash compared)
  check_found dummy_hash password compared (some (id, u)) =
      check_active id u (verify_password bcrypt password u.password_hash compared)

  -- With the number of comparisons before, and after.
  unfoldable pub authenticate : Hash → Text → Text → Table Hash → ℕ → Answer (ℕ × User Hash) × ℕ
  authenticate dummy_hash identifier password table compared =
      check_found dummy_hash password compared (find_by_identifier identifier table)

  unfoldable pub change_hash :
      ℕ → Table Hash → User Hash → Option Hash → Answer UserResponse × Table Hash
  change_hash id table u none = (refused password_too_long, table)
  change_hash id table u (some password_hash) =
      (done (response_of id u), insert id (record u { password_hash = password_hash }) table)

  unfoldable pub change_row :
      ChangePasswordRequest
      → ℕ
      → ℕ
      → Table Hash
      → Option (User Hash)
      → Answer UserResponse × Table Hash
  change_row body salt id table none = (refused not_authenticated, table)
  change_row body salt id table (some u) =
      if not (verify_password bcrypt body.current_password u.password_hash 0).0
      then (refused current_password_incorrect, table)
      else change_hash id table u (hash_password bcrypt salt body.new_password)

  unfoldable pub change_password :
      ChangePasswordRequest → ℕ → CurrentUser → Table Hash → Answer UserResponse × Table Hash
  change_password body salt current table =
      change_row body salt current.id table (active_row (lookup current.id table))

module _ {Hash Access : Type 0} (jwt : Jwt Access) (show_uuid : ℕ → Text) (expire_minutes : ℕ) where
  unfoldable pub issue_token : ℕ → ℕ → User Hash → Token Access
  issue_token now id u = record {
    access_token = create_access_token jwt show_uuid expire_minutes now id u.email u.username;
    expires_in = expire_minutes * 60;
    user = response_of id u;
  }

  abbrev pub answer_new :
      ℕ → ℕ → User Hash → Table Hash → Option (Table Hash) → Answer (Token Access) × Table Hash
  answer_new now id u table none = (refused already_registered, table)
  answer_new now id u table (some committed) = (done (issue_token now id u), committed)

  abbrev pub register_hashed :
      UserCreate → ℕ → ℕ → Table Hash → Option Hash → Answer (Token Access) × Table Hash
  register_hashed user_in now id table none = (refused password_too_long, table)
  register_hashed user_in now id table (some password_hash) =
      let u = new_user user_in password_hash in answer_new now id u table (commit_new id u table)

  abbrev pub token_for : ℕ → Answer (ℕ × User Hash) → Answer (Token Access)
  token_for now (refused refusal) = refused refusal
  token_for now (done (id, u)) = done (issue_token now id u)

  module _ (bcrypt : Bcrypt Hash) where
    -- The id and the salt are the random choices.
    unfoldable pub register :
        UserCreate → ℕ → ℕ → ℕ → Table Hash → Answer (Token Access) × Table Hash
    register user_in now id salt table =
        register_hashed user_in now id table (hash_password bcrypt salt user_in.password)

    -- `login`, and `login_json`, which differ in the fields' names.
    unfoldable pub login : Hash → Text → Text → ℕ → Table Hash → Answer (Token Access)
    login dummy_hash identifier password now table =
        token_for now (authenticate bcrypt dummy_hash identifier password table 0).0
