-- ===== src/Users/Passwords.antt =====
-- Password hashing: services/user-service/app/passwords.py. The bcrypt library is a parameter; a
-- salt is the random choice of `gensalt`, and `checkpw` gives `none` where it raises ValueError.
use mini_stock_exchange_plat.Base.{
  ℕ, ◌+◌, ◌/◌, ◌%◌, ◌≤◌, ◌≡◌, Bool, false, Option, none, some, List, [], ◌∷◌, ◌++◌, ltb,
  if◌then◌else◌, length, take,
}
use mini_stock_exchange_plat.Base.Text.{Text, text, eq_text}

pub record Bcrypt (Hash : Type 0) : Type 0 where
  pub hashpw : List ℕ → ℕ → Hash
  pub checkpw : List ℕ → Hash → Option Bool

abbrev pub max_password_bytes : ℕ
max_password_bytes = 72

-- The UTF-8 bytes of a code point.
abbrev pub encode_char : ℕ → List ℕ
encode_char c =
    if ltb c 128
    then c ∷ []
    else if ltb c 2048
    then (192 + c / 64) ∷ (128 + c % 64) ∷ []
    else if ltb c 65536
    then (224 + c / 4096) ∷ (128 + c / 64 % 64) ∷ (128 + c % 64) ∷ []
    else (240 + c / 262144) ∷ (128 + c / 4096 % 64) ∷ (128 + c / 64 % 64) ∷ (128 + c % 64) ∷ []

-- `s.encode("utf-8")`
unfoldable pub encode : Text → List ℕ
encode [] = []
encode (c ∷ s) = encode_char c ++ encode s

module _ {Hash : Type 0} (bcrypt : Bcrypt Hash) where
  -- `none` is the ValueError.
  unfoldable pub hash_password : ℕ → Text → Option Hash
  hash_password salt password =
      if ltb max_password_bytes (length (encode password))
      then none
      else some (bcrypt.hashpw (encode password) salt)

  abbrev pub is_verified : Option Bool → Bool
  is_verified none = false
  is_verified (some same) = same

  -- With the number of comparisons by bcrypt so far, which is what a sign-in takes its time for.
  unfoldable pub verify_password : Text → Hash → ℕ → Bool × ℕ
  verify_password password password_hash compared = (
    is_verified (bcrypt.checkpw (take max_password_bytes (encode password)) password_hash),
    compared + 1,
  )

  -- The result is dropped; only the time counts.
  unfoldable pub burn_verify_time : Hash → ℕ → ℕ
  burn_verify_time dummy_hash compared = (verify_password (text "irrelevant") dummy_hash compared).1

-- What the library does with a hash that it has made of at most 72 bytes: it compares.
abbrev pub ChecksOwn : {Hash : Type 0} → Bcrypt Hash → Type 0
ChecksOwn bcrypt =
    (given kept : List ℕ) (salt : ℕ)
    → length kept ≤ max_password_bytes
    → bcrypt.checkpw given (bcrypt.hashpw kept salt) ≡ some (eq_text given kept)
