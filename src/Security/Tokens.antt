-- ===== src/Security/Tokens.antt =====
-- From a token's issue to the user it stands for: libs/common/security.py.
use mini_stock_exchange_plat.Base.{
  ℕ, ◌+◌, ◌*◌, ◌≤◌, ◌≡◌, refl, Option, some, ltb, if◌then◌else◌, Bool-cases, inl, inr,
}
use mini_stock_exchange_plat.Base.Text.{Text}
use mini_stock_exchange_plat.Security.{
  Claims, decoded, expired, Jwt, token_expired, accepted, refused, payload_for, create_access_token,
  check_type, decode_token, user_of, get_current_user,
}

-- What the library does with a token that it has encoded and that was not issued in the future.
abbrev pub DecodesOwn : {Token : Type 0} → Jwt Token → Type 0
DecodesOwn jwt =
    (now : ℕ) (claims : Claims)
    → claims.iat ≤ now
    → jwt.decode now (jwt.encode claims) ≡ (if ltb now claims.exp then decoded claims else expired)

-- A UUID's text reads as the UUID.
abbrev pub ReadsOwn : (ℕ → Text) → (Text → Option ℕ) → Type 0
ReadsOwn show_uuid parse_uuid = (id : ℕ) → parse_uuid (show_uuid id) ≡ some id

-- A token that was issued for a user, email and username stands for just these until its minutes
-- are over, and is refused as expired from then on; the JWT library decodes what it has encoded
-- and not issued in the future, by its expiry, and the text of a UUID reads as the UUID.
pub get_current_user-create_access_token :
    {Token : Type 0} (jwt : Jwt Token) (show_uuid : ℕ → Text) (parse_uuid : Text → Option ℕ)
    → DecodesOwn jwt
    → ReadsOwn show_uuid parse_uuid
    → (minutes issued now id : ℕ) (email username : Text) → issued ≤ now
    → get_current_user jwt parse_uuid now
        (some (create_access_token jwt show_uuid minutes issued id email username))
      ≡ (if ltb now (issued + minutes * 60)
          then accepted (record { id = id; email = email; username = username })
          else refused token_expired)
unfolding create_access_token get_current_user decode_token check_type user_of
get_current_user-create_access_token jwt show_uuid parse_uuid decodes reads minutes issued now id
      email username h =
    let e = decodes now (payload_for show_uuid minutes issued id email username) h in
    elim (Bool-cases (ltb now (issued + minutes * 60))) [
      | inl valid ↦
          rw (get_current_user, create_access_token, decode_token, e, valid, if◌then◌else◌)
            (rw (reads id) refl)
      | inr late ↦
          rw (get_current_user, create_access_token, decode_token, e, late, if◌then◌else◌) refl
    ]
