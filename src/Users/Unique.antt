-- ===== src/Users/Unique.antt =====
-- The invariant of the table of services/user-service: who a name or an email stands for.
use mini_stock_exchange_plat.Base.{
  ℕ, ◌≡◌, ◌⊎◌, subst, sym, ◌∙◌, true, false, some, [], ◌∷◌, ◌==◌, if◌then◌else◌, arith,
  some_injective, Bool-cases, inl, inr,
}
use mini_stock_exchange_plat.Base.Dict.{lookup, insert, lookup-insert, IsKeyed, insert-IsKeyed}
use mini_stock_exchange_plat.Base.Text.{Text, eq_text, eq_text→eq, eq_text_refl, lower}
use mini_stock_exchange_plat.Base.Maybe.{none_not_some, is_some}
use mini_stock_exchange_plat.Users.{User, Table, clashes, is_taken, commit_row, commit_new}
use mini_stock_exchange_plat.Users.Names.{has_at}

eq_text_sym : (s t : Text) → eq_text s t ≡ true → eq_text t s ≡ true
eq_text_sym s t h = subst (λ r. eq_text r s ≡ true) (eq_text→eq s t h) (eq_text_refl s)

clashes_sym : {Hash : Type 0} (u v : User Hash) → clashes u v ≡ true → clashes v u ≡ true
clashes_sym u v h =
    ground (arith, eq_text_sym u.email v.email, eq_text_sym (lower u.username) (lower v.username))

module _ {Hash : Type 0} where
  -- An email has an "@", a username has none; no two users share an email, or a username in any
  -- case.
  pub record IsUnambiguous (table : Table Hash) : Type 0 where
    pub keyed : IsKeyed table
    pub formed :
        (id : ℕ) (u : User Hash)
        → lookup id table ≡ some u
        → (has_at u.email ≡ true) × (has_at u.username ≡ false)
    pub unique :
        (a b : ℕ) (u v : User Hash)
        → lookup a table ≡ some u
        → lookup b table ≡ some v
        → clashes u v ≡ true
        → a ≡ b

  free_of :
      (id b : ℕ) (u v : User Hash) (table : Table Hash)
      → is_taken id u table ≡ false
      → lookup b table ≡ some v
      → (b == id) ≡ false
      → clashes u v ≡ false
  unfolding is_taken
  free_of id b u v [] free e ne = cc
  free_of id b u v ((other, w) ∷ table) free e ne = ground (arith, free_of id b u v table)

  -- A row of the table after a write is the written one or an old one.
  read :
      (asked id : ℕ) (u v : User Hash) (table : Table Hash)
      → lookup asked (insert id u table) ≡ some v
      → ((asked ≡ id) × (v ≡ u)) ⊎ (((asked == id) ≡ false) × (lookup asked table ≡ some v))
  read asked id u v table h =
      let e = sym (lookup-insert asked id u table) ∙ h in
      elim (Bool-cases (asked == id)) [
        | inl same ↦ inl (ground arith, sym (some_injective (rw (same, if◌then◌else◌) at e)))
        | inr other ↦ inr (other, rw (other, if◌then◌else◌) at e)
      ]

  -- A write keeps the invariant, where no other row has what it brings.
  pub insert-IsUnambiguous :
      (id : ℕ) (u : User Hash) (table : Table Hash)
      → IsUnambiguous table
      → (has_at u.email ≡ true) × (has_at u.username ≡ false)
      → ((b : ℕ) (v : User Hash)
          → lookup b table ≡ some v
          → (b == id) ≡ false
          → clashes u v ≡ false)
      → IsUnambiguous (insert id u table)
  insert-IsUnambiguous id u table sound formed free = record {
    keyed = insert-IsKeyed id u table sound.keyed;
    formed = λ b v h. elim (read b id u v table h) [
      | inl (_, e) ↦
          subst (λ w. (has_at w.email ≡ true) × (has_at w.username ≡ false)) (sym e) formed
      | inr (_, old) ↦ sound.formed b v old
    ];
    unique = λ a b v w hv hw clash. elim (read a id u v table hv) [
      | inl (ea, ev) ↦ elim (read b id u w table hw) [
        | inl (eb, ew) ↦ ea ∙ sym eb
        | inr (nb, old) ↦
            absurd
              (false_not_true (sym (free b w old nb) ∙ subst (λ x. clashes x w ≡ true) ev clash))
      ]
      | inr (na, old) ↦ elim (read b id u w table hw) [
        | inl (eb, ew) ↦ absurd (
            false_not_true
              (sym (free a v old na) ∙ clashes_sym v u (subst (λ x. clashes v x ≡ true) ew clash)))
        | inr (nb, old') ↦ sound.unique a b v w old old' clash
      ]
    ];
  }
    where
      false_not_true : false ≡ true → ⊥
      false_not_true e = cc

  pub others_differ :
      (table : Table Hash) (a b : ℕ) (u v : User Hash)
      → IsUnambiguous table
      → lookup a table ≡ some u
      → lookup b table ≡ some v
      → (b == a) ≡ false
      → clashes u v ≡ false
  others_differ table a b u v sound hu hv ne = elim (Bool-cases (clashes u v)) [
    | inr apart ↦ apart
    | inl clash ↦ let same = sound.unique a b u v hu hv clash in absurd (ground arith)
  ]

  pub lookup-commit_new :
      (id : ℕ) (u : User Hash) (table written : Table Hash)
      → commit_new id u table ≡ some written
      → lookup id written ≡ some u
  unfolding commit_new commit_row
  lookup-commit_new id u table written h =
      let read = lookup-insert id id u table in
      elim (Bool-cases (is_some (lookup id table))) [
        | inl there ↦ absurd (none_not_some (rw (there, if◌then◌else◌) at h))
        | inr new ↦ elim (Bool-cases (is_taken id u table)) [
          | inl taken ↦ absurd (none_not_some (rw (new, if◌then◌else◌, taken) at h))
          | inr free ↦
              subst (λ t. lookup id t ≡ some u)
                (some_injective (rw (new, if◌then◌else◌, free) at h)) (ground (arith, read))
        ]
      ]

  -- What a commit leaves, committed or refused.
  pub commit_row-IsUnambiguous :
      (id : ℕ) (u : User Hash) (table written : Table Hash)
      → IsUnambiguous table
      → (has_at u.email ≡ true) × (has_at u.username ≡ false)
      → commit_row id u table ≡ some written
      → IsUnambiguous written
  unfolding commit_row
  commit_row-IsUnambiguous id u table written sound formed h =
      elim (Bool-cases (is_taken id u table)) [
        | inl taken ↦ absurd (none_not_some (rw (taken, if◌then◌else◌) at h))
        | inr free ↦ subst IsUnambiguous (some_injective (rw (free, if◌then◌else◌) at h)) (
            insert-IsUnambiguous id u table sound formed
              (λ b v e ne. free_of id b u v table free e ne))
      ]

  pub commit_new-IsUnambiguous :
      (id : ℕ) (u : User Hash) (table written : Table Hash)
      → IsUnambiguous table
      → (has_at u.email ≡ true) × (has_at u.username ≡ false)
      → commit_new id u table ≡ some written
      → IsUnambiguous written
  unfolding commit_new
  commit_new-IsUnambiguous id u table written sound formed h =
      elim (Bool-cases (is_some (lookup id table))) [
        | inl there ↦ absurd (none_not_some (rw (there, if◌then◌else◌) at h))
        | inr new ↦
            commit_row-IsUnambiguous id u table written sound formed (rw (new, if◌then◌else◌) at h)
      ]
