-- ===== src/Gateway/Proxy/Identity.antt =====
-- The headers that services/gateway/app/proxy.py sends on: who the caller is said to be.
use mini_stock_exchange_plat.Base.{
  ◌≡◌, refl, Bool, true, false, ◌||◌, ◌⊎◌, inl, inr, Option, none, some, [], ◌∷◌, if◌then◌else◌,
  All, Bool-cases, both_branches,
}
use mini_stock_exchange_plat.Base.Text.{Text, text, eq_text, lower, one_of}
use mini_stock_exchange_plat.Security.{Claims}
use mini_stock_exchange_plat.Gateway.Proxy.{
  Headers, hop_by_hop, client_forbidden, set_header, collect_header, collect, from_client, update,
  extra_headers,
}

-- A header that only the gateway may set stands for the caller of the token.
abbrev pub IsTrusted : Option Claims → Text × Text → Type 0
IsTrusted claims h =
    one_of (lower h.0) client_forbidden ≡ true
    → (c : Claims) × (claims ≡ some c) × (h ≡ (text "X-User-Id", c.sub))

abbrev pub HasHeader : Text × Text → Headers → Type 0
HasHeader h [] = ⊥
HasHeader h (g ∷ gs) = (g ≡ h) ⊎ HasHeader h gs

-- What the upstream is told of the caller.
abbrev pub Names : Option Claims → Headers → Type 0
Names none headers = Unit
Names (some c) headers = HasHeader (text "X-User-Id", c.sub) headers

module _ (P : Text × Text → Type 0) where
  All-set_header :
      (key value : Text) (hs : Headers)
      → P (key, value)
      → All P hs
      → All P (set_header key value hs)
  unfolding set_header
  All-set_header key value [] p all = (p, tt)
  All-set_header key value (h ∷ hs) p all =
      both_branches (All P) (eq_text key h.0) {x = (key, value) ∷ hs}
        {y = h ∷ set_header key value hs} (p, all.1) (all.0, All-set_header key value hs p all.1)

  All-update :
      (headers extra : Headers) → All P extra → All P headers → All P (update headers extra)
  unfolding update
  All-update headers [] h all = all
  All-update headers (e ∷ extra) h all =
      All-update (set_header e.0 e.1 headers) extra h.1 (All-set_header e.0 e.1 headers h.0 all)

HasHeader-set_header :
    (key value : Text) (hs : Headers) → HasHeader (key, value) (set_header key value hs)
unfolding set_header
HasHeader-set_header key value [] = inl refl
HasHeader-set_header key value (h ∷ hs) =
    both_branches (HasHeader (key, value)) (eq_text key h.0) {x = (key, value) ∷ hs}
      {y = h ∷ set_header key value hs} (inl refl) (inr (HasHeader-set_header key value hs))

no_true : false ≡ true → ⊥
no_true h = cc

extra_headers-IsTrusted :
    (claims : Option Claims) (id : Text) → All (IsTrusted claims) (extra_headers id claims)
unfolding extra_headers
extra_headers-IsTrusted none id = (λ f. absurd (no_true f), tt)
extra_headers-IsTrusted (some c) id = (λ f. absurd (no_true f), (λ f. (c, refl, refl), tt))

module _ (claims : Option Claims) where
  collect_one :
      (found : Headers) (h : Text × Text)
      → All (IsTrusted claims) found
      → All (IsTrusted claims) (collect_header client_forbidden found h)
  unfolding collect_header
  collect_one found h all =
      elim (Bool-cases (one_of (lower h.0) hop_by_hop || one_of (lower h.0) client_forbidden)) [
        | inl dropped ↦ rw (dropped, if◌then◌else◌) all
        | inr kept ↦
            rw (kept, if◌then◌else◌)
              (All-set_header (IsTrusted claims) h.0 h.1 found
                (λ f. absurd (either_false _ _ kept f)) all)
      ]
    where
      either_false : (a b : Bool) → (a || b) ≡ false → b ≡ true → ⊥
      either_false true b h g = cc
      either_false false b h g = cc

  collect-IsTrusted :
      (headers found : Headers)
      → All (IsTrusted claims) found
      → All (IsTrusted claims) (collect client_forbidden found headers)
  unfolding collect
  collect-IsTrusted [] found all = all
  collect-IsTrusted (h ∷ hs) found all =
      collect-IsTrusted hs (collect_header client_forbidden found h) (collect_one found h all)

  pub sent_headers-IsTrusted :
      (id : Text) (headers : Headers)
      → All (IsTrusted claims) (update (from_client headers) (extra_headers id claims))
  unfolding from_client
  sent_headers-IsTrusted id headers =
      All-update (IsTrusted claims) _ _ (extra_headers-IsTrusted claims id)
        (collect-IsTrusted headers [] tt)

pub sent_headers-Names :
    (claims : Option Claims) (id : Text) (headers : Headers)
    → Names claims (update (from_client headers) (extra_headers id claims))
unfolding extra_headers update
sent_headers-Names none id headers = tt
sent_headers-Names (some c) id headers = HasHeader-set_header (text "X-User-Id") c.sub _
