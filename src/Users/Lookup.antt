-- ===== src/Users/Lookup.antt =====
-- Who is found by an identifier: _find_by_identifier of services/user-service/app/routes_auth.py.
use mini_stock_exchange_plat.Base.{
  ℕ, ◌≡◌, ◌⊎◌, subst, refl, sym, ap, ◌∙◌, Bool, true, false, ◌||◌, none, some, [], ◌∷◌, ◌==◌,
  if◌then◌else◌, arith, some_injective, Bool-cases, inl, inr,
}
use mini_stock_exchange_plat.Base.Dict.{lookup, IsKeyed}
use mini_stock_exchange_plat.Base.Maybe.{none_not_some}
use mini_stock_exchange_plat.Base.Text.{Text, eq_text, eq_text→eq, eq_text_refl, lower, strip}
use mini_stock_exchange_plat.Users.{User, Table, clashes, is_named, first_named, find_by_identifier}
use mini_stock_exchange_plat.Users.Names.{has_at, has_at-lower}
use mini_stock_exchange_plat.Users.Unique.{IsUnambiguous}

false_not_true : false ≡ true → ⊥
false_not_true e = cc

or_split : (a b : Bool) → (a || b) ≡ true → (a ≡ true) ⊎ (b ≡ true)
or_split true b h = inl refl
or_split false b h = inr h

pub or_left : (a b : Bool) → a ≡ true → (a || b) ≡ true
or_left a b h = ground arith

pub or_right : (a b : Bool) → b ≡ true → (a || b) ≡ true
or_right true b h = refl
or_right false b h = h

pub eq_text_of : {s t : Text} → s ≡ t → eq_text s t ≡ true
eq_text_of {s} e = subst (λ r. eq_text s r ≡ true) e (eq_text_refl s)

module _ {Hash : Type 0} (ident : Text) where
  first_named-found :
      (table : Table Hash) (k : ℕ) (u : User Hash)
      → IsKeyed table
      → first_named ident table ≡ some (k, u)
      → (lookup k table ≡ some u) × (is_named ident u ≡ true)
  first_named-found [] k u keyed h = cc
  first_named-found ((id, v) ∷ table) k u keyed h = elim (Bool-cases (is_named ident v)) [
    | inl named ↦
        let e = some_injective (rw (named, if◌then◌else◌) at h) in
        subst (λ p. (lookup p.0 ((id, v) ∷ table) ≡ some p.1) × (is_named ident p.1 ≡ true)) e
          (ground arith, named)
    | inr other ↦
        let later = first_named-found table k u keyed.1 (rw (other, if◌then◌else◌) at h) in
        elim (Bool-cases (k == id)) [
          | inr ne ↦ (rw (ne, if◌then◌else◌) later.0, later.1)
          | inl same ↦
              let absent : lookup k table ≡ none =
                subst (λ i. lookup i table ≡ none) (ground arith) keyed.0 in
              absurd (none_not_some (sym absent ∙ later.0))
        ]
  ]

  first_named-finds :
      (table : Table Hash) (k : ℕ) (u : User Hash)
      → lookup k table ≡ some u
      → is_named ident u ≡ true
      → (j : ℕ) × (v : User Hash) × (first_named ident table ≡ some (j, v))
  first_named-finds [] k u h named = cc
  first_named-finds ((id, v) ∷ table) k u h named = elim (Bool-cases (is_named ident v)) [
    | inl first ↦ (id, v, rw (first, if◌then◌else◌) refl)
    | inr other ↦ elim (Bool-cases (k == id)) [
      | inl same ↦
          let e = some_injective (rw (same, if◌then◌else◌) at h) in
          absurd (false_not_true (sym other ∙ subst (λ w. is_named ident w ≡ true) (sym e) named))
      | inr ne ↦
          let (j, w, e) = first_named-finds table k u (rw (ne, if◌then◌else◌) at h) named in
          (j, w, rw (other, if◌then◌else◌) e)
    ]
  ]

  named_by :
      (u : User Hash) → is_named ident u ≡ true → (lower u.username ≡ ident) ⊎ (u.email ≡ ident)
  named_by u h = elim (or_split (eq_text (lower u.username) ident) (eq_text u.email ident) h) [
    | inl e ↦ inl (eq_text→eq (lower u.username) ident e)
    | inr e ↦ inr (eq_text→eq u.email ident e)
  ]

  -- No text is one user's name and another's email.
  apart :
      (u v : User Hash)
      → has_at u.username ≡ false
      → has_at v.email ≡ true
      → lower u.username ≡ ident
      → v.email ≡ ident
      → ⊥
  apart u v hu hv eu ev =
      false_not_true (sym (has_at-lower u.username ∙ hu) ∙ (ap has_at (eu ∙ sym ev) ∙ hv))

  -- Two rows that a text names share the email or the username.
  named-clashes :
      (u v : User Hash)
      → (has_at u.email ≡ true) × (has_at u.username ≡ false)
      → (has_at v.email ≡ true) × (has_at v.username ≡ false)
      → is_named ident u ≡ true
      → is_named ident v ≡ true
      → clashes u v ≡ true
  named-clashes u v fu fv nu nv =
      let emails = eq_text u.email v.email in
      let names = eq_text (lower u.username) (lower v.username) in
      elim (named_by u nu) [
        | inl un ↦ elim (named_by v nv) [
          | inl vn ↦ or_right emails names (eq_text_of (un ∙ sym vn))
          | inr ve ↦ absurd (apart u v fu.1 fv.0 un ve)
        ]
        | inr ue ↦ elim (named_by v nv) [
          | inl vn ↦ absurd (apart v u fv.1 fu.0 vn ue)
          | inr ve ↦ or_left emails names (eq_text_of (ue ∙ sym ve))
        ]
      ]

pub find_by_identifier-named :
    {Hash : Type 0} (identifier : Text) (table : Table Hash) (k : ℕ) (u : User Hash)
    → IsUnambiguous table
    → lookup k table ≡ some u
    → is_named (lower (strip identifier)) u ≡ true
    → find_by_identifier identifier table ≡ some (k, u)
unfolding find_by_identifier
find_by_identifier-named identifier table k u sound here named =
    let ident = lower (strip identifier) in
    let (j, v, found) = first_named-finds ident table k u here named in
    let (there, also) = first_named-found ident table j v sound.keyed found in
    let same =
      sound.unique j k v u there here
        (named-clashes ident v u (sound.formed j v there) (sound.formed k u here) also named) in
    let kept = some_injective (sym (subst (λ i. lookup i table ≡ some v) same there) ∙ here) in
    subst (λ i. first_named ident table ≡ some (i, u)) same
      (subst (λ w. first_named ident table ≡ some (j, w)) kept found)
