-- ===== src/Users/Others.antt =====
-- What the requests of others to services/user-service leave of a user's row.
use mini_stock_exchange_plat.Base.{
  ℕ, ◌≡◌, ◌≢◌, subst, false, some, List, [], ◌∷◌, if◌then◌else◌, arith, some_injective, Bool-cases,
  inl, inr, All,
}
use mini_stock_exchange_plat.Base.Dict.{lookup, insert, lookup-insert}
use mini_stock_exchange_plat.Base.Maybe.{none_not_some, is_some}
use mini_stock_exchange_plat.Users.{
  User, Table, is_taken, commit_row, commit_new, renamed, new_user,
}
use mini_stock_exchange_plat.Users.Requests.{Env, Request, registers, updates, changes, apply, run}
use mini_stock_exchange_plat.Users.Effects.{
  patch_me-effect, post_change_password-effect, post_register-effect,
}

-- A request by somebody else; a registration is by nobody.
abbrev pub IsOfOther : ℕ → Request → Type 0
IsOfOther k (registers body now id salt) = Unit
IsOfOther k (updates current full_name username) = current.id ≢ k
IsOfOther k (changes current salt old new) = current.id ≢ k

module _ {Hash : Type 0} (k : ℕ) (u : User Hash) where
  Stands : Table Hash → Type 0
  Stands table = lookup k table ≡ some u

  insert-Stands :
      (table : Table Hash) (id : ℕ) (v : User Hash)
      → Stands table
      → id ≢ k
      → Stands (insert id v table)
  unfolding Stands
  insert-Stands table id v here ne = ground (arith, lookup-insert k id v table)

  commit_row-Stands :
      (table written : Table Hash) (id : ℕ) (v : User Hash)
      → Stands table
      → id ≢ k
      → commit_row id v table ≡ some written
      → Stands written
  unfolding commit_row
  commit_row-Stands table written id v here ne h = elim (Bool-cases (is_taken id v table)) [
    | inl taken ↦ absurd (none_not_some (rw (taken, if◌then◌else◌) at h))
    | inr free ↦
        subst Stands (some_injective (rw (free, if◌then◌else◌) at h))
          (insert-Stands table id v here ne)
  ]

  -- An id that is there is not given again.
  commit_new-Stands :
      (table written : Table Hash) (id : ℕ) (v : User Hash)
      → Stands table
      → commit_new id v table ≡ some written
      → Stands written
  unfolding Stands commit_new
  commit_new-Stands table written id v here h = elim (Bool-cases (is_some (lookup id table))) [
    | inl there ↦ absurd (none_not_some (rw (there, if◌then◌else◌) at h))
    | inr new ↦
        commit_row-Stands table written id v here
          (λ same. absurd (absent (subst (λ i. is_some (lookup i table) ≡ false) same new)))
          (rw (new, if◌then◌else◌) at h)
  ]
    where
      absent : is_some (lookup k table) ≡ false → ⊥
      absent e = cc

  module _ {Access : Type 0} (env : Env Hash Access) where
    apply-Stands :
        (request : Request) (table : Table Hash)
        → IsOfOther k request
        → Stands table
        → Stands (apply env request table)
    unfolding apply
    apply-Stands (registers body now id salt) table other here =
        post_register-effect env (λ r. Stands r.1) table (λ refusal. here) body now id salt
          λ user_in h written valid hashed e.
            commit_new-Stands table written id (new_user user_in h) here e
    apply-Stands (updates current full_name username) table other here =
        patch_me-effect Stands table here current full_name username λ body v written valid row e.
          commit_row-Stands table written current.id (renamed body v) here other e
    apply-Stands (changes current salt old new) table other here =
        post_change_password-effect env (λ r. Stands r.1) table (λ refusal. here) current salt old
          new
          λ body v h valid row active hashed.
            insert-Stands table current.id (record v { password_hash = h }) here other

    pub lookup-run :
        (requests : List Request) (table : Table Hash)
        → All (IsOfOther k) requests
        → lookup k table ≡ some u
        → lookup k (run env requests table) ≡ some u
    unfolding Stands run
    lookup-run [] table others here = here
    lookup-run (request ∷ requests) table others here =
        lookup-run requests (apply env request table) others.1
          (apply-Stands request table others.0 here)
