-- ===== src/Users/Schemas.antt =====
-- What a request's body must be: services/user-service/app/schemas.py. `none` is a body that is
-- refused with status 422. The email validator and the decimal digits of Unicode are parameters.
use mini_stock_exchange_plat.Base.{
  ℕ, Bool, true, false, not, ◌&&◌, ◌||◌, Option, none, some, [], ◌∷◌, ◌==◌, ltb, leb, if◌then◌else◌,
  length,
}
use mini_stock_exchange_plat.Base.Text.{Text, in_range, strip, is_empty}
use mini_stock_exchange_plat.Base.Maybe.{◌>>=◌}
use mini_stock_exchange_plat.Users.Passwords.{max_password_bytes, encode}

abbrev pub max_full_name_len : ℕ
max_full_name_len = 120

abbrev pub is_letter : ℕ → Bool
is_letter c = in_range 65 90 c || in_range 97 122 c

-- `[a-zA-Z0-9_]`
abbrev pub is_word_char : ℕ → Bool
is_word_char c = is_letter c || (in_range 48 57 c || c == 95)

abbrev pub all_of : (ℕ → Bool) → Text → Bool
all_of test [] = true
all_of test (c ∷ s) = test c && all_of test s

abbrev pub any_of : (ℕ → Bool) → Text → Bool
any_of test [] = false
any_of test (c ∷ s) = test c || any_of test s

-- What stands before a `$`: the text, or the text less a newline at its end.
abbrev pub before_end : Text → Text
before_end [] = []
before_end (c ∷ []) = if c == 10 then [] else c ∷ []
before_end (c ∷ d ∷ s) = c ∷ before_end (d ∷ s)

-- `USERNAME_RE.match(v)`, of `^[a-zA-Z0-9_]{3,30}$`
unfoldable pub matches_username : Text → Bool
matches_username v =
    all_of is_word_char (before_end v)
    && (leb 3 (length (before_end v)) && leb (length (before_end v)) 30)

abbrev pub check_username : Text → Option Text
check_username v = if matches_username v then some v else none

unfoldable pub check_full_name : Option Text → Option (Option Text)
check_full_name none = some none
check_full_name (some v) =
    if is_empty (strip v)
    then some none
    else if ltb max_full_name_len (length (strip v))
    then none
    else some (some (strip v))

unfoldable pub check_password : (ℕ → Bool) → Text → Option Text
check_password is_decimal v =
    if ltb (length v) 8
    then none
    else if ltb max_password_bytes (length (encode v))
    then none
    else if not (any_of is_letter v) || not (any_of is_decimal v)
    then none
    else some v

pub record UserCreate : Type 0 where
  pub email : Text
  pub username : Text
  pub full_name : Option Text
  pub password : Text

unfoldable pub user_create :
    (Text → Option Text) → (ℕ → Bool) → Text → Text → Option Text → Text → Option UserCreate
user_create valid_email is_decimal email username full_name password = do
  e ← valid_email email
  u ← check_username username
  n ← check_full_name full_name
  p ← check_password is_decimal password
  some (record { email = e; username = u; full_name = n; password = p })

pub record UserUpdate : Type 0 where
  pub full_name : Option Text
  pub username : Option Text

abbrev pub check_new_username : Option Text → Option (Option Text)
check_new_username none = some none
check_new_username (some v) = do u ← check_username v; some (some u)

unfoldable pub user_update : Option Text → Option Text → Option UserUpdate
user_update full_name username = do
  n ← check_full_name full_name
  u ← check_new_username username
  some (record { full_name = n; username = u })

pub record ChangePasswordRequest : Type 0 where
  pub current_password : Text
  pub new_password : Text

unfoldable pub change_password_request : (ℕ → Bool) → Text → Text → Option ChangePasswordRequest
change_password_request is_decimal current new = do
  p ← check_password is_decimal new
  some (record { current_password = current; new_password = p })
