-- ===== src/Base/Text.antt =====
-- Texts as lists of code points, with Python's tests on them.
use Prim.Native.Nat.{ℕ, zero, suc, ◌+◌, ◌-◌}
use Prim.Native.Char.{code}
use Prim.Native.String.{String, [], ◌∷◌}
use mathlib.Core.Path.{◌≡◌, refl, sym, subst}
use mathlib.Core.Bool.{Bool, true, false, ◌&&◌, ◌||◌}
use mathlib.Core.List.{List, [], ◌∷◌, ◌++◌, map}
use native.Mathlib.Omega.{arith}
use mini_stock_exchange_plat.Base.Tests.{◌==◌, leb, if◌then◌else◌, Bool-cases}
use mini_stock_exchange_plat.Base.Lists.{All, length}
use mathlib.Core.Logic.{inl, inr}

abbrev pub Text : Type 0
Text = List ℕ

-- The text of a literal.
abbrev pub text : String → Text
text [] = []
text (c ∷ s) = code c ∷ text s

abbrev pub eq_text : Text → Text → Bool
eq_text [] [] = true
eq_text [] (_ ∷ _) = false
eq_text (_ ∷ _) [] = false
eq_text (a ∷ s) (b ∷ t) = a == b && eq_text s t

pub eq_text_refl : (s : Text) → eq_text s s ≡ true
eq_text_refl [] = refl
eq_text_refl (a ∷ s) = ground (arith, eq_text_refl s)

pub eq_text→eq : (s t : Text) → eq_text s t ≡ true → s ≡ t
eq_text→eq [] [] h = refl
eq_text→eq [] (b ∷ t) h = ground arith
eq_text→eq (a ∷ s) [] h = ground arith
eq_text→eq (a ∷ s) (b ∷ t) h = ground (arith, eq_text→eq s t)

-- `s.startswith(prefix)`
abbrev pub starts_with : Text → Text → Bool
starts_with [] s = true
starts_with (a ∷ prefix) [] = false
starts_with (a ∷ prefix) (b ∷ s) = a == b && starts_with prefix s

-- `part in s`
abbrev pub contains : Text → Text → Bool
contains part [] = starts_with part []
contains part (b ∷ s) = starts_with part (b ∷ s) || contains part s

-- `s.endswith(suffix)`
abbrev pub ends_with : Text → Text → Bool
ends_with suffix [] = eq_text suffix []
ends_with suffix (b ∷ s) = eq_text suffix (b ∷ s) || ends_with suffix s

-- `s[n:]`
abbrev pub drop : ℕ → Text → Text
drop zero s = s
drop (suc n) [] = []
drop (suc n) (a ∷ s) = drop n s

-- `s.lower()`, on ASCII letters.
abbrev pub lower : Text → Text
lower s = map (λ c. if leb 65 c && leb c 90 then c + 32 else c) s

abbrev pub one_of : Text → List Text → Bool
one_of s [] = false
one_of s (t ∷ ts) = eq_text s t || one_of s ts

pub contains-drop :
    (part : Text) (n : ℕ) (s : Text) → contains part (drop n s) ≡ true → contains part s ≡ true
contains-drop part zero s h = h
contains-drop part (suc n) [] h = h
contains-drop part (suc n) (a ∷ s) h = ground (arith, contains-drop part n s)

pub ends_with-drop :
    (part : Text) (n : ℕ) (s : Text) → ends_with part (drop n s) ≡ true → ends_with part s ≡ true
ends_with-drop part zero s h = h
ends_with-drop part (suc n) [] h = h
ends_with-drop part (suc n) (a ∷ s) h = ground (arith, ends_with-drop part n s)

abbrev pub in_range : ℕ → ℕ → ℕ → Bool
in_range low high c = leb low c && leb c high

-- Python's white space.
abbrev pub is_space : ℕ → Bool
is_space c =
    in_range 9 13 c
    || (in_range 28 32 c
        || (c == 133
            || (c == 160
                || (c == 5760
                    || (in_range 8192 8202 c
                        || (in_range 8232 8233 c || (c == 8239 || (c == 8287 || c == 12288))))))))

abbrev pub strip_left : Text → Text
strip_left [] = []
strip_left (c ∷ s) = if is_space c then strip_left s else c ∷ s

abbrev pub strip_right : Text → Text
strip_right [] = []
strip_right (c ∷ s) =
    let rest = strip_right s in if is_space c && length rest == 0 then [] else c ∷ rest

-- `s.strip()`
abbrev pub strip : Text → Text
strip s = strip_right (strip_left s)

abbrev pub is_empty : Text → Bool
is_empty [] = true
is_empty (_ ∷ _) = false

-- `s.upper()`, on ASCII letters.
abbrev pub upper : Text → Text
upper s = map (λ c. if in_range 97 122 c then c - 32 else c) s

-- What holds of every text of a list holds of one that is in it.
pub one_of-All {ℓ} :
    (P : Text → Type ℓ) (s : Text) (ts : List Text) → All P ts → one_of s ts ≡ true → P s
one_of-All P s [] h e = absurd (ground arith)
one_of-All P s (t ∷ ts) h e = elim (Bool-cases (eq_text s t)) [
  | inl same ↦ subst P (sym (eq_text→eq s t same)) h.0
  | inr other ↦ one_of-All P s ts h.1 (ground arith)
]

-- `s.split(",")`, from what is read of the part and the rest.
abbrev pub split_from : Text → Text → List Text
split_from part [] = part ∷ []
split_from part (c ∷ s) = if c == 44 then part ∷ split_from [] s else split_from (part ++ c ∷ []) s

-- The stripped parts that are not blank.
abbrev pub stripped : List Text → List Text
stripped [] = []
stripped (part ∷ parts) =
    if is_empty (strip part) then stripped parts else strip part ∷ stripped parts
