-- ===== src/Users/Kept.antt =====
-- Every request to services/user-service keeps the invariant of the table.
use mini_stock_exchange_plat.Base.{
  ℕ, ◌≡◌, refl, ◌∙◌, true, false, Option, none, some, List, [], ◌∷◌,
}
use mini_stock_exchange_plat.Base.Text.{Text}
use mini_stock_exchange_plat.Security.{CurrentUser}
use mini_stock_exchange_plat.Users.{Table, given_or, renamed, new_user}
use mini_stock_exchange_plat.Users.Requests.{
  Env, RegisterBody, Request, registers, updates, changes, post_register, post_change_password,
  apply, run,
}
use mini_stock_exchange_plat.Users.Names.{
  has_at, has_at-lower, user_create-IsNamed, user_update-IsNamed,
}
use mini_stock_exchange_plat.Users.Unique.{
  IsUnambiguous, insert-IsUnambiguous, others_differ, commit_row-IsUnambiguous,
  commit_new-IsUnambiguous,
}
use mini_stock_exchange_plat.Users.Effects.{
  patch_me-effect, post_change_password-effect, post_register-effect,
}

-- What the email validator says of the addresses it lets through.
abbrev pub GivesAddresses : (Text → Option Text) → Type 0
GivesAddresses valid_email =
    (email valid : Text) → valid_email email ≡ some valid → has_at valid ≡ true

given_or-no_at :
    (new : Option Text) (old : Text)
    → ((u : Text) → new ≡ some u → has_at u ≡ false)
    → has_at old ≡ false
    → has_at (given_or new old) ≡ false
given_or-no_at none old f h = h
given_or-no_at (some u) old f h = f u refl

pub post_change_password-IsUnambiguous :
    {Hash Access : Type 0} (env : Env Hash Access) (current : CurrentUser) (salt : ℕ)
    (old new : Text) (table : Table Hash)
    → IsUnambiguous table
    → IsUnambiguous (post_change_password env current salt old new table).1
post_change_password-IsUnambiguous env current salt old new table sound =
    post_change_password-effect env (λ r. IsUnambiguous r.1) table (λ refusal. sound) current salt
      old new
      λ body u h valid row active hashed.
        insert-IsUnambiguous current.id (record u { password_hash = h }) table sound
          (sound.formed current.id u row)
          λ b v e ne. others_differ table current.id b u v sound row e ne

module _ {Hash Access : Type 0} (env : Env Hash Access)
    (addresses : GivesAddresses env.valid_email) where
  pub post_register-IsUnambiguous :
      (body : RegisterBody) (now id salt : ℕ) (table : Table Hash)
      → IsUnambiguous table
      → IsUnambiguous (post_register env body now id salt table).1
  post_register-IsUnambiguous body now id salt table sound =
      post_register-effect env (λ r. IsUnambiguous r.1) table (λ refusal. sound) body now id salt
        λ user_in h written valid hashed e.
          let named =
            user_create-IsNamed env.valid_email env.is_decimal body.email body.username
              body.full_name body.password user_in valid in
          commit_new-IsUnambiguous id (new_user user_in h) table written sound
            (has_at-lower user_in.email ∙ addresses body.email user_in.email named.0, named.1) e

  apply-IsUnambiguous :
      (request : Request) (table : Table Hash)
      → IsUnambiguous table
      → IsUnambiguous (apply env request table)
  unfolding apply
  apply-IsUnambiguous (registers body now id salt) table sound =
      post_register-IsUnambiguous body now id salt table sound
  apply-IsUnambiguous (updates current full_name username) table sound =
      patch_me-effect IsUnambiguous table sound current full_name username
        λ body u written valid row e.
          let formed = sound.formed current.id u row in
          commit_row-IsUnambiguous current.id (renamed body u) table written sound
            (
              formed.0,
              given_or-no_at body.username u.username
                  (user_update-IsNamed full_name username body valid) formed.1,
            )
            e
  apply-IsUnambiguous (changes current salt old new) table sound =
      post_change_password-IsUnambiguous env current salt old new table sound

  -- Whatever requests to register, to change a profile and to change a password are made, by
  -- anybody, in any order and number: no two users share an email, or a username in any case, and
  -- every email has an "@" and no username has one, if that is so before and no id stands twice,
  -- and if every address that the email validator lets through has an "@".
  pub run-IsUnambiguous :
      (requests : List Request) (table : Table Hash)
      → IsUnambiguous table
      → IsUnambiguous (run env requests table)
  unfolding run
  run-IsUnambiguous [] table sound = sound
  run-IsUnambiguous (request ∷ requests) table sound =
      run-IsUnambiguous requests (apply env request table) (apply-IsUnambiguous request table sound)
