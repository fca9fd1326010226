-- ===== src/Users/Names.antt =====
-- Why no text is one user's name and another's email: what the schemas of
-- services/user-service/app/schemas.py let through.
use mini_stock_exchange_plat.Base.{
  ℕ, ◌≡◌, subst, refl, ◌∙◌, ap, Bool, true, false, ◌||◌, Option, none, some, [], ◌∷◌, ◌==◌, arith,
  some_injective,
}
use mini_stock_exchange_plat.Base.Text.{Text, lower}
use mini_stock_exchange_plat.Base.Maybe.{none_not_some, bind_some}
use mini_stock_exchange_plat.Users.Schemas.{
  is_word_char, all_of, before_end, matches_username, check_username, UserCreate, user_create,
  UserUpdate, user_update, check_full_name, check_password, check_new_username,
}

-- `"@" in s`
abbrev pub has_at : Text → Bool
has_at [] = false
has_at (c ∷ s) = c == 64 || has_at s

pub has_at-lower : (s : Text) → has_at (lower s) ≡ has_at s
has_at-lower [] = refl
has_at-lower (c ∷ s) = ground (arith, has_at-lower s)

has_at-before_end : (s : Text) → all_of is_word_char (before_end s) ≡ true → has_at s ≡ false
has_at-before_end [] h = refl
has_at-before_end (c ∷ []) h = ground arith
has_at-before_end (c ∷ d ∷ s) h = ground (arith, has_at-before_end (d ∷ s))

pub check_username-no_at : (v u : Text) → check_username v ≡ some u → has_at u ≡ false
unfolding matches_username
check_username-no_at v u h = ground (arith, has_at-before_end v)

pub check_password-same :
    (is_decimal : ℕ → Bool) (v p : Text) → check_password is_decimal v ≡ some p → p ≡ v
unfolding check_password
check_password-same is_decimal v p h = ground (arith, some_injective {x = v} {y = p})

pub user_create-IsNamed :
    (valid_email : Text → Option Text) (is_decimal : ℕ → Bool) (email username : Text)
    (full_name : Option Text) (password : Text) (user_in : UserCreate)
    → user_create valid_email is_decimal email username full_name password ≡ some user_in
    → (valid_email email ≡ some user_in.email)
      × (has_at user_in.username ≡ false)
      × (check_password is_decimal password ≡ some user_in.password)
unfolding user_create
user_create-IsNamed valid_email is_decimal email username full_name password user_in h =
    let (e, e_eq, h1) = bind_some (valid_email email) _ user_in h in
    let (u, u_eq, h2) = bind_some (check_username username) _ user_in h1 in
    let (n, n_eq, h3) = bind_some (check_full_name full_name) _ user_in h2 in
    let (p, p_eq, h4) = bind_some (check_password is_decimal password) _ user_in h3 in
    let made = some_injective h4 in
    (
      subst (λ r. valid_email email ≡ some r.email) made e_eq,
      subst (λ r. has_at r.username ≡ false) made (check_username-no_at username u u_eq),
      subst (λ r. check_password is_decimal password ≡ some r.password) made p_eq,
    )

pub user_update-IsNamed :
    (full_name username : Option Text) (body : UserUpdate)
    → user_update full_name username ≡ some body
    → (u : Text) → body.username ≡ some u
    → has_at u ≡ false
unfolding user_update
user_update-IsNamed full_name username body h u e =
    let (n, n_eq, h1) = bind_some (check_full_name full_name) _ body h in
    let (new, new_eq, h2) = bind_some (check_new_username username) _ body h1 in
    go username new new_eq (ap (λ b. b.username) (some_injective h2) ∙ e)
  where
    go :
        (asked new : Option Text)
        → check_new_username asked ≡ some new
        → new ≡ some u
        → has_at u ≡ false
    go none new made e = absurd (none_not_some (some_injective made ∙ e))
    go (some v) new made e =
        let (w, w_eq, h) = bind_some (check_username v) _ new made in
        check_username-no_at v u (w_eq ∙ (some_injective h ∙ e))
