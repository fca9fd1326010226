-- ===== src/Users/Tests.antt =====
-- Runs of services/user-service, and witnesses.
use mini_stock_exchange_plat.Base.{
  ℕ, ◌≡◌, refl, true, false, none, some, List, [], ◌∷◌, ◌++◌, subst, some_injective, ltb,
  if◌then◌else◌, arith,
}
use mini_stock_exchange_plat.Base.Text.{text, eq_text, in_range}
use mini_stock_exchange_plat.Security.{Claims, decoded, expired, payload_for}
use mini_stock_exchange_plat.Users.Passwords.{encode, hash_password, verify_password}
use mini_stock_exchange_plat.Users.Schemas.{
  matches_username, check_full_name, check_password, user_create, user_update,
}
use mini_stock_exchange_plat.Users.{
  User, Table, refused, generic_login_error, username_taken, UserResponse, Token, is_taken,
  commit_row, commit_new, find_by_identifier, update_row, update_me,
}
use mini_stock_exchange_plat.Users.Auth.{authenticate, register}
use mini_stock_exchange_plat.Users.Requests.{
  Env, RegisterBody, Request, registers, updates, post_register, patch_me, apply, run,
}
use mini_stock_exchange_plat.Users.Names.{has_at}
use mini_stock_exchange_plat.Users.Unique.{IsUnambiguous}
use mini_stock_exchange_plat.Users.Kept.{GivesAddresses, run-IsUnambiguous}
use mini_stock_exchange_plat.Users.Verified.{authenticate-hides}

-- Hashes that are the passwords' bytes, tokens that are the claims.
abbrev plain : Env (List ℕ) Claims
plain = record {
  bcrypt = record { hashpw = λ kept salt. kept; checkpw = λ given kept. some (eq_text given kept) };
  jwt = record {
    encode = λ claims. claims;
    decode = λ now claims. if ltb now claims.exp then decoded claims else expired;
  };
  show_uuid = λ id. id ∷ [];
  parse_uuid = λ t. elim t [ [] ↦ none | id ∷ rest ↦ some id ];
  valid_email = λ email. if has_at email then some email else none;
  is_decimal = in_range 48 57;
  expire_minutes = 60;
  dummy_hash = [];
}

plain-GivesAddresses : GivesAddresses plain.valid_email
plain-GivesAddresses email valid h = ground arith

empty-IsUnambiguous : IsUnambiguous {Hash = List ℕ} []
empty-IsUnambiguous = record {
  keyed = tt;
  formed = λ id u h. absurd (absent h);
  unique = λ a b u v hu hv clash. absurd (absent hu);
}
  where
    absent : {u : User (List ℕ)} → none ≡ some u → ⊥
    absent e = cc

abbrev ada : RegisterBody
ada = record {
  email = text "Ada@mse.local";
  username = text "Ada_1";
  full_name = none;
  password = text "analytical1";
}

abbrev bob : RegisterBody
bob = record {
  email = text "bob@mse.local";
  username = text "bob";
  full_name = some (text " Bob ");
  password = text "hunter22";
}

abbrev ada_user : UserResponse
ada_user = record {
  id = 7;
  email = text "ada@mse.local";
  username = text "Ada_1";
  full_name = none;
  is_active = true;
}

abbrev ada_token : Token Claims
ada_token = record {
  access_token = payload_for plain.show_uuid 60 5 7 (text "ada@mse.local") (text "Ada_1");
  expires_in = 3600;
  user = ada_user;
}

abbrev with_ada : Table (List ℕ)
with_ada = (post_register plain ada 5 7 1 []).1

-- Someone registers, tries to take the name in another case, and renames herself.
abbrev by_bob : List Request
by_bob =
    registers bob 6 8 2
    ∷ updates (record { id = 8; email = text "bob@mse.local"; username = text "bob" }) none
        (some (text "ADA_1"))
    ∷ []

taken :
    (patch_me
      (record { id = 8; email = text "bob@mse.local"; username = text "bob" })
      none
      (some (text "ADA_1"))
      (run plain (registers bob 6 8 2 ∷ []) with_ada)).0
    ≡ refused username_taken
unfolding patch_me user_update matches_username check_full_name update_me update_row commit_row
    is_taken run apply post_register user_create check_password encode register hash_password
    commit_new
taken = refl

run-IsUnambiguous_example : IsUnambiguous (run plain (registers ada 5 7 1 ∷ by_bob) [])
run-IsUnambiguous_example =
    run-IsUnambiguous plain plain-GivesAddresses (registers ada 5 7 1 ∷ by_bob) []
      empty-IsUnambiguous

wrong_password :
    (k : ℕ) (u : User (List ℕ))
    → find_by_identifier (text "ada_1") with_ada ≡ some (k, u)
    → (verify_password plain.bcrypt (text "analytical2") u.password_hash 0).0 ≡ false
unfolding find_by_identifier verify_password post_register user_create matches_username
    check_full_name check_password encode register hash_password commit_new commit_row is_taken
wrong_password k u e =
    subst
      (λ (p : ℕ × User (List ℕ)).
        (verify_password plain.bcrypt (text "analytical2") p.1.password_hash 0).0 ≡ false)
      (some_injective e) refl

authenticate-hides_example :
    authenticate plain.bcrypt plain.dummy_hash (text "ada_1") (text "analytical2") with_ada 0
    ≡ (refused generic_login_error, 1)
authenticate-hides_example =
    authenticate-hides plain (text "ada_1") (text "analytical2") with_ada 0 wrong_password

-- A name may end in a newline, and is then not found by it.
newline_name : matches_username (text "ada_1" ++ 10 ∷ []) ≡ true
unfolding matches_username
newline_name = refl
