-- ===== src/Users/Verified.antt =====
-- Who signs in, by the comparison of the password with the hash: _authenticate of
-- services/user-service/app/routes_auth.py.
use mini_stock_exchange_plat.Base.{
  ℕ, zero, suc, ◌+◌, ◌≤◌, ◌≡◌, ◌⊎◌, subst, refl, sym, ap, ◌∙◌, Bool, true, false, some, List, [],
  ◌∷◌, ltb, if◌then◌else◌, arith, some_injective, Bool-cases, Option-cases, inl, inr, length, take,
}
use mini_stock_exchange_plat.Base.Dict.{lookup}
use mini_stock_exchange_plat.Base.Maybe.{none_not_some}
use mini_stock_exchange_plat.Base.Text.{Text, eq_text, eq_text_refl, lower, strip}
use mini_stock_exchange_plat.Security.{CurrentUser}
use mini_stock_exchange_plat.Users.Passwords.{
  Bcrypt, ChecksOwn, max_password_bytes, encode, hash_password, verify_password, is_verified,
  burn_verify_time,
}
use mini_stock_exchange_plat.Users.{
  UserResponse, User, Table, done, refused, generic_login_error, is_named, response_of,
  find_by_identifier,
}
use mini_stock_exchange_plat.Users.Auth.{check_found, authenticate}
use mini_stock_exchange_plat.Users.Requests.{Env}
use mini_stock_exchange_plat.Users.Unique.{IsUnambiguous}
use mini_stock_exchange_plat.Users.Lookup.{or_left, or_right, eq_text_of, find_by_identifier-named}

take_all : {A : Type 0} (n : ℕ) (xs : List A) → length xs ≤ n → take n xs ≡ xs
take_all zero [] h = refl
take_all (suc n) [] h = refl
take_all zero (x ∷ xs) h = absurd (omega arith)
take_all (suc n) (x ∷ xs) h = ap (λ t. x ∷ t) (take_all n xs (omega arith))

module _ {Hash : Type 0} (bcrypt : Bcrypt Hash) (own : ChecksOwn bcrypt) where
  -- A hash compares the first 72 bytes of what is given with the password it is of.
  pub verify_password-hash_password :
      (password given : Text) (salt compared : ℕ) (h : Hash)
      → hash_password bcrypt salt password ≡ some h
      → verify_password bcrypt given h compared
        ≡ (eq_text (take max_password_bytes (encode given)) (encode password), compared + 1)
  unfolding hash_password verify_password
  verify_password-hash_password password given salt compared h hashed =
      elim (Bool-cases (ltb max_password_bytes (length (encode password)))) [
        | inl long ↦ absurd (none_not_some (rw (long, if◌then◌else◌) at hashed))
        | inr fits ↦
            let e = some_injective (rw (fits, if◌then◌else◌) at hashed) in
            let checked =
              own (take max_password_bytes (encode given)) (encode password) salt (ground arith) in
            ap (λ r. (is_verified bcrypt r, compared + 1))
              (sym (ap (bcrypt.checkpw (take max_password_bytes (encode given))) e) ∙ checked)
      ]

  pub verify_password-own :
      (password : Text) (salt compared : ℕ) (h : Hash)
      → hash_password bcrypt salt password ≡ some h
      → verify_password bcrypt password h compared ≡ (true, compared + 1)
  unfolding hash_password
  verify_password-own password salt compared h hashed =
      elim (Bool-cases (ltb max_password_bytes (length (encode password)))) [
        | inl long ↦ absurd (none_not_some (rw (long, if◌then◌else◌) at hashed))
        | inr fits ↦
            let whole = take_all max_password_bytes (encode password) (ground arith) in
            verify_password-hash_password password password salt compared h hashed
            ∙ ap (λ b. (b, compared + 1))
                (ap (λ t. eq_text t (encode password)) whole ∙ eq_text_refl (encode password))
      ]

-- A text that stands for a user: the email, or the username in any case, with space around it.
abbrev pub StandsFor : Text → UserResponse → Type 0
StandsFor identifier user =
    (lower (strip identifier) ≡ lower user.username) ⊎ (lower (strip identifier) ≡ user.email)

abbrev pub current_of : UserResponse → CurrentUser
current_of user = record { id = user.id; email = user.email; username = user.username }

pub named_of :
    {Hash : Type 0} (u : User Hash) (identifier : Text) {id : ℕ} (user : UserResponse)
    → user ≡ response_of id u
    → StandsFor identifier user
    → is_named (lower (strip identifier)) u ≡ true
named_of u identifier {id} user shown stands = elim (subst (StandsFor identifier) shown stands) [
  | inl name ↦ or_left _ _ (eq_text_of (sym name))
  | inr address ↦ or_right _ _ (eq_text_of (sym address))
]

module _ {Hash Access : Type 0} (env : Env Hash Access) where
  -- The sign-in of an active user who is named, by what the comparison with the hash says.
  pub authenticate-named :
      (identifier password : Text) (table : Table Hash) (k compared : ℕ) (u : User Hash)
      (same : Bool)
      → IsUnambiguous table
      → lookup k table ≡ some u
      → is_named (lower (strip identifier)) u ≡ true
      → u.is_active ≡ true
      → verify_password env.bcrypt password u.password_hash compared ≡ (same, compared + 1)
      → authenticate env.bcrypt env.dummy_hash identifier password table compared
        ≡ (if same then done (k, u) else refused generic_login_error, compared + 1)
  unfolding authenticate check_found
  authenticate-named identifier password table k compared u same sound here named active checked =
      let found = find_by_identifier-named identifier table k u sound here named in
      rw (authenticate, found, check_found, checked)
        (rw active (elim (Bool-cases same) [ inl e ↦ rw e refl | inr e ↦ rw e refl ]))

  -- A sign-in under a name that no user has, or with a password that does not match, gets the same
  -- refusal, after exactly one comparison by bcrypt, whether or not the account exists or is
  -- disabled.
  pub authenticate-hides :
      (identifier password : Text) (table : Table Hash) (compared : ℕ)
      → ((k : ℕ) (u : User Hash)
          → find_by_identifier identifier table ≡ some (k, u)
          → (verify_password env.bcrypt password u.password_hash compared).0 ≡ false)
      → authenticate env.bcrypt env.dummy_hash identifier password table compared
        ≡ (refused generic_login_error, compared + 1)
  unfolding authenticate check_found burn_verify_time verify_password
  authenticate-hides identifier password table compared wrong =
      elim (Option-cases (find_by_identifier identifier table)) [
        | inl e ↦ rw (authenticate, e, check_found) refl
        | inr ((k, u), e) ↦
            let no = wrong k u e in rw (authenticate, e, check_found, no, if◌then◌else◌) refl
      ]
