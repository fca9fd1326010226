-- ===== src/Users/Effects.antt =====
-- What each request to services/user-service may do to the table: nothing, or one write.
use mini_stock_exchange_plat.Base.{
  ℕ, ◌≡◌, ◌⊎◌, true, Option, none, some, if◌then◌else◌, arith, Bool-cases, Option-cases, inl, inr,
}
use mini_stock_exchange_plat.Base.Dict.{lookup, insert}
use mini_stock_exchange_plat.Base.Text.{Text}
use mini_stock_exchange_plat.Security.{CurrentUser}
use mini_stock_exchange_plat.Users.Passwords.{hash_password, verify_password}
use mini_stock_exchange_plat.Users.Schemas.{
  UserCreate, UserUpdate, ChangePasswordRequest, user_create, user_update, change_password_request,
}
use mini_stock_exchange_plat.Users.{
  UserResponse, not_authenticated, current_password_incorrect, response_of, Answer, Token, Refusal,
  refused, done, invalid_body, password_too_long, already_registered, User, Table, commit_row,
  commit_new, active_row, renamed, update_row, update_me, new_user,
}
use mini_stock_exchange_plat.Users.Auth.{
  issue_token, register, change_password, change_row, change_hash,
}
use mini_stock_exchange_plat.Users.Requests.{
  Env, RegisterBody, post_register, patch_me, post_change_password,
}

pub refused_not_done : {A : Type 0} {refusal : Refusal} {a : A} → refused refusal ≡ done a → ⊥
refused_not_done e = cc

pub done_injective : {A : Type 0} {a b : A} → done a ≡ done b → a ≡ b
done_injective e = cc

-- An active row is a row.
pub active_row-some :
    {Hash : Type 0} (o : Option (User Hash)) (u : User Hash)
    → active_row o ≡ some u
    → (o ≡ some u) × (u.is_active ≡ true)
active_row-some none u h = cc
active_row-some (some w) u h = ground arith

module _ {Hash : Type 0} (P : Table Hash → Type 0) (table : Table Hash) (unchanged : P table) where
  pub patch_me-effect :
      (current : CurrentUser) (full_name username : Option Text)
      → ((body : UserUpdate) (u : User Hash) (written : Table Hash)
          → user_update full_name username ≡ some body
          → lookup current.id table ≡ some u
          → commit_row current.id (renamed body u) table ≡ some written
          → P written)
      → P (patch_me current full_name username table).1
  unfolding patch_me update_me update_row
  patch_me-effect current full_name username writes =
      elim (Option-cases (user_update full_name username)) [
        | inl e ↦ rw e unchanged
        | inr (body, e) ↦
            rw e (changed body e (Option-cases (active_row (lookup current.id table))))
      ]
    where
      changed :
          (body : UserUpdate)
          → user_update full_name username ≡ some body
          → (active_row (lookup current.id table) ≡ none)
            ⊎ ((u : User Hash) × (active_row (lookup current.id table) ≡ some u))
          → P (update_me body current table).1
      changed body e (inl gone) = rw (update_me, gone, update_row) unchanged
      changed body e (inr (u, found)) =
          let row = active_row-some (lookup current.id table) u found in
          elim (Option-cases (commit_row current.id (renamed body u) table)) [
            | inl taken ↦ rw (update_me, found, update_row, taken) unchanged
            | inr (written, e') ↦
                rw (update_me, found, update_row, e') (writes body u written e row.0 e')
          ]

-- A change of a password answers with the user whose hash it writes, or refuses and writes none.
module _ {Hash Access : Type 0} (env : Env Hash Access)
    (P : Answer UserResponse × Table Hash → Type 0) (table : Table Hash)
    (refuses : (refusal : Refusal) → P (refused refusal, table)) where
  pub post_change_password-effect :
      (current : CurrentUser) (salt : ℕ) (old new : Text)
      → ((body : ChangePasswordRequest) (u : User Hash) (h : Hash)
          → change_password_request env.is_decimal old new ≡ some body
          → lookup current.id table ≡ some u
          → u.is_active ≡ true
          → hash_password env.bcrypt salt body.new_password ≡ some h
          → P (
            done (response_of current.id u),
            insert current.id (record u { password_hash = h }) table,
          ))
      → P (post_change_password env current salt old new table)
  unfolding post_change_password change_password change_row change_hash
  post_change_password-effect current salt old new writes =
      elim (Option-cases (change_password_request env.is_decimal old new)) [
        | inl e ↦ rw e (refuses invalid_body)
        | inr (body, e) ↦
            rw e (changed body e (Option-cases (active_row (lookup current.id table))))
      ]
    where
      changed :
          (body : ChangePasswordRequest)
          → change_password_request env.is_decimal old new ≡ some body
          → (active_row (lookup current.id table) ≡ none)
            ⊎ ((u : User Hash) × (active_row (lookup current.id table) ≡ some u))
          → P (change_password env.bcrypt body salt current table)
      changed body valid (inl gone) =
          rw (change_password, gone, change_row) (refuses not_authenticated)
      changed body valid (inr (u, found)) =
          let row = active_row-some (lookup current.id table) u found in
          elim (Bool-cases (verify_password env.bcrypt body.current_password u.password_hash 0).0) [
            | inr wrong ↦
                rw (change_password, found, change_row, wrong, if◌then◌else◌)
                  (refuses current_password_incorrect)
            | inl right ↦ elim (Option-cases (hash_password env.bcrypt salt body.new_password)) [
              | inl long ↦
                  rw (change_password, found, change_row, right, if◌then◌else◌, change_hash, long)
                    (refuses password_too_long)
              | inr (h, hashed) ↦
                  rw (change_password, found, change_row, right, if◌then◌else◌, change_hash, hashed)
                    (writes body u h valid row.0 row.1 hashed)
            ]
          ]

-- A registration answers with a token for the row that it adds, or refuses and adds none.
module _ {Hash Access : Type 0} (env : Env Hash Access)
    (P : Answer (Token Access) × Table Hash → Type 0) (table : Table Hash)
    (refuses : (refusal : Refusal) → P (refused refusal, table)) where
  pub post_register-effect :
      (body : RegisterBody) (now id salt : ℕ)
      → ((user_in : UserCreate) (h : Hash) (written : Table Hash)
          → user_create env.valid_email env.is_decimal body.email body.username body.full_name
              body.password
            ≡ some user_in
          → hash_password env.bcrypt salt user_in.password ≡ some h
          → commit_new id (new_user user_in h) table ≡ some written
          → P (
            done (issue_token env.jwt env.show_uuid env.expire_minutes now id (new_user user_in h)),
            written,
          ))
      → P (post_register env body now id salt table)
  unfolding post_register register
  post_register-effect body now id salt writes =
      elim (Option-cases (
        user_create env.valid_email env.is_decimal body.email body.username body.full_name
          body.password)) [
            | inl e ↦ rw e (refuses invalid_body)
            | inr (user_in, e) ↦ rw e (
                registered user_in e
                  (Option-cases (hash_password env.bcrypt salt user_in.password)))
          ]
    where
      registered :
          (user_in : UserCreate)
          → user_create env.valid_email env.is_decimal body.email body.username body.full_name
              body.password
            ≡ some user_in
          → (hash_password env.bcrypt salt user_in.password ≡ none)
            ⊎ ((h : Hash) × (hash_password env.bcrypt salt user_in.password ≡ some h))
          → P (
              register env.jwt env.show_uuid env.expire_minutes env.bcrypt user_in now id salt
                table)
      registered user_in valid (inl long) = rw (register, long) (refuses password_too_long)
      registered user_in valid (inr (h, hashed)) =
          elim (Option-cases (commit_new id (new_user user_in h) table)) [
            | inl e ↦ rw (register, hashed, e) (refuses already_registered)
            | inr (written, e) ↦ rw (register, hashed, e) (writes user_in h written valid hashed e)
          ]
