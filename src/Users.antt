-- ===== src/Users.antt =====
-- Accounts of people: the table of services/user-service/app/models.py, whose key is the
-- id, and the routes of routes_users.py; Auth has those of routes_auth.py. A commit is refused where a unique index of the migration is
-- violated; the time stamps are left out. The JWT library, bcrypt, the email validator and the
-- texts of UUIDs are parameters.
pub mod Passwords
pub mod Schemas
pub mod Auth
pub mod Requests
pub mod Names
pub mod Unique
pub mod Effects
pub mod Kept
pub mod Lookup
pub mod Verified
pub mod SignIn
pub mod NewPassword
mod Tests
pub mod Others
use mini_stock_exchange_plat.Base.{
  ℕ, ◌+◌, ◌*◌, Bool, true, false, not, ◌&&◌, ◌||◌, Option, none, some, List, [], ◌∷◌, ◌++◌, ◌==◌,
  ltb, if◌then◌else◌, length,
}
use mini_stock_exchange_plat.Base.Dict.{Dict, lookup, insert}
use mini_stock_exchange_plat.Base.Maybe.{is_some}
use mini_stock_exchange_plat.Base.Text.{split_from, stripped, Text, eq_text, lower, strip, is_empty}
use mini_stock_exchange_plat.Security.{Jwt, CurrentUser, create_access_token}
use mini_stock_exchange_plat.Users.Passwords.{
  Bcrypt, hash_password, verify_password, burn_verify_time,
}
use mini_stock_exchange_plat.Users.Schemas.{
  UserCreate, UserUpdate, ChangePasswordRequest, user_create, user_update, change_password_request,
}

pub record User (Hash : Type 0) : Type 0 where
  pub email : Text
  pub username : Text
  pub full_name : Option Text
  pub password_hash : Hash
  pub is_active : Bool

-- The details of the answers that refuse; `invalid_body` has status 422, and
-- `password_too_long` is the ValueError of hash_password.
pub data Refusal : Type 0 where
  generic_login_error account_disabled already_registered not_authenticated : Refusal
  current_password_incorrect user_not_found username_taken too_many_ids : Refusal
  invalid_body password_too_long : Refusal

pub data Answer (A : Type 0) : Type 0 where
  done : A → Answer A
  refused : Refusal → Answer A

pub record UserResponse : Type 0 where
  pub id : ℕ
  pub email : Text
  pub username : Text
  pub full_name : Option Text
  pub is_active : Bool

pub record Token (Access : Type 0) : Type 0 where
  pub access_token : Access
  pub expires_in : ℕ
  pub user : UserResponse

abbrev pub max_batch_ids : ℕ
max_batch_ids = 100

abbrev pub Table : Type 0 → Type 0
Table Hash = Dict (User Hash)

abbrev pub given_or {ℓ} : {A : Type ℓ} → Option A → A → A
given_or none old = old
given_or (some new) old = new

abbrev pub some_or {ℓ} : {A : Type ℓ} → Option A → Option A → Option A
some_or none old = old
some_or (some new) old = some new

abbrev pub raw_ids : Text → List Text
raw_ids ids = stripped (split_from [] ids)

-- A malformed id is skipped.
abbrev pub uuids_of : (Text → Option ℕ) → List Text → List ℕ
uuids_of parse_uuid [] = []
uuids_of parse_uuid (raw ∷ rest) = elim (parse_uuid raw) [
  | none ↦ uuids_of parse_uuid rest
  | some id ↦ id ∷ uuids_of parse_uuid rest
]

abbrev pub has_id : ℕ → List ℕ → Bool
has_id id [] = false
has_id id (other ∷ ids) = id == other || has_id id ids

module _ {Hash : Type 0} where
  -- The unique indexes: on the email, and on the username in lower case.
  abbrev pub clashes : User Hash → User Hash → Bool
  clashes u v = eq_text u.email v.email || eq_text (lower u.username) (lower v.username)

  -- Some other row has the email or the username.
  unfoldable pub is_taken : ℕ → User Hash → Table Hash → Bool
  is_taken id u [] = false
  is_taken id u ((other, v) ∷ table) = (not (id == other) && clashes u v) || is_taken id u table

  -- The row is written, unless a unique index refuses the commit.
  unfoldable pub commit_row : ℕ → User Hash → Table Hash → Option (Table Hash)
  commit_row id u table = if is_taken id u table then none else some (insert id u table)

  -- `session.add` of a row with a new id; a primary key that is there refuses the commit too.
  unfoldable pub commit_new : ℕ → User Hash → Table Hash → Option (Table Hash)
  commit_new id u table = if is_some (lookup id table) then none else commit_row id u table

  abbrev pub is_named : Text → User Hash → Bool
  is_named ident u = eq_text (lower u.username) ident || eq_text u.email ident

  abbrev pub first_named : Text → Table Hash → Option (ℕ × User Hash)
  first_named ident [] = none
  first_named ident ((id, u) ∷ table) =
      if is_named ident u then some (id, u) else first_named ident table

  unfoldable pub find_by_identifier : Text → Table Hash → Option (ℕ × User Hash)
  find_by_identifier identifier table = first_named (lower (strip identifier)) table

  abbrev pub response_of : ℕ → User Hash → UserResponse
  response_of id u = record {
    id = id;
    email = u.email;
    username = u.username;
    full_name = u.full_name;
    is_active = u.is_active;
  }

  unfoldable pub get_me : CurrentUser → Table Hash → Answer UserResponse
  get_me current table = elim (lookup current.id table) [
    | none ↦ refused user_not_found
    | some row ↦ done (response_of current.id row)
  ]

  -- `row is None or not row.is_active`
  abbrev pub active_row : Option (User Hash) → Option (User Hash)
  active_row none = none
  active_row (some u) = if u.is_active then some u else none

  abbrev pub renamed : UserUpdate → User Hash → User Hash
  renamed body row = record row {
    full_name = some_or body.full_name row.full_name;
    username = given_or body.username row.username;
  }

  -- What the commit of a changed row answers; a rollback leaves the table.
  abbrev pub answer_commit :
      Refusal → UserResponse → Table Hash → Option (Table Hash) → Answer UserResponse × Table Hash
  answer_commit refusal response table none = (refused refusal, table)
  answer_commit refusal response table (some committed) = (done response, committed)

  unfoldable pub update_row :
      UserUpdate → ℕ → Table Hash → Option (User Hash) → Answer UserResponse × Table Hash
  update_row body id table none = (refused not_authenticated, table)
  update_row body id table (some row) =
      answer_commit username_taken (response_of id (renamed body row)) table
        (commit_row id (renamed body row) table)

  unfoldable pub update_me :
      UserUpdate → CurrentUser → Table Hash → Answer UserResponse × Table Hash
  update_me body current table =
      update_row body current.id table (active_row (lookup current.id table))

  unfoldable pub internal_get_user : (Text → Option ℕ) → Text → Table Hash → Answer UserResponse
  internal_get_user parse_uuid user_id table = elim (parse_uuid user_id) [
    | none ↦ refused user_not_found
    | some id ↦ elim (lookup id table) [
      | none ↦ refused user_not_found
      | some row ↦ done (response_of id row)
    ]
  ]

  abbrev pub rows_in : List ℕ → Table Hash → List UserResponse
  rows_in ids [] = []
  rows_in ids ((id, u) ∷ table) =
      if has_id id ids then response_of id u ∷ rows_in ids table else rows_in ids table

  unfoldable pub internal_get_users_batch :
      (Text → Option ℕ) → Text → Table Hash → Answer (List UserResponse)
  internal_get_users_batch parse_uuid ids table =
      if ltb max_batch_ids (length (raw_ids ids))
      then refused too_many_ids
      else done (rows_in (uuids_of parse_uuid (raw_ids ids)) table)

  -- The row that register adds.
  abbrev pub new_user : UserCreate → Hash → User Hash
  new_user user_in password_hash = record {
    email = lower user_in.email;
    username = user_in.username;
    full_name = user_in.full_name;
    password_hash = password_hash;
    is_active = true;
  }
