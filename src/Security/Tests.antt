-- ===== src/Security/Tests.antt =====
-- Runs of libs/common/security.py, and a witness.
use mini_stock_exchange_plat.Base.{
  ℕ, ◌≡◌, refl, Option, none, some, [], ◌∷◌, ltb, if◌then◌else◌, arith,
}
use mini_stock_exchange_plat.Base.Text.{Text, text}
use mini_stock_exchange_plat.Security.{
  Claims, decoded, expired, Jwt, accepted, refused, not_authenticated, create_access_token,
  get_current_user,
}
use mini_stock_exchange_plat.Security.Tokens.{
  DecodesOwn, ReadsOwn, get_current_user-create_access_token,
}

-- A library whose tokens are the claims.
abbrev plain : Jwt Claims
plain = record {
  encode = λ claims. claims;
  decode = λ now claims. if ltb now claims.exp then decoded claims else expired;
}

abbrev show_id : ℕ → Text
show_id n = n ∷ []

abbrev parse_id : Text → Option ℕ
parse_id [] = none
parse_id (n ∷ []) = some n
parse_id (_ ∷ _ ∷ _) = none

plain-DecodesOwn : DecodesOwn plain
plain-DecodesOwn now claims h = refl

id-ReadsOwn : ReadsOwn show_id parse_id
id-ReadsOwn id = refl

no_token : get_current_user plain parse_id 5 none ≡ refused not_authenticated
unfolding get_current_user
no_token = refl

get_current_user-create_access_token_example :
    get_current_user plain parse_id 500
      (some (create_access_token plain show_id 60 100 7 (text "a@b.c") (text "ann")))
    ≡ accepted (record { id = 7; email = text "a@b.c"; username = text "ann" })
get_current_user-create_access_token_example =
    get_current_user-create_access_token plain show_id parse_id plain-DecodesOwn id-ReadsOwn 60 100
      500 7 (text "a@b.c") (text "ann") (omega arith)
