-- ===== src/Engine/Desk/Memory.antt =====
-- How long `seen_orders` of services/matching-engine/app/handlers.py remembers an order.
use mini_stock_exchange_plat.Base.{
  ℕ, suc, ◌+◌, ◌≤◌, ◌<◌, ◌≡◌, refl, true, false, List, [], ◌∷◌, ◌++◌, length, length-append, arith,
  Bool-cases, inl, inr, ◌==◌, if◌then◌else◌,
}
use mini_stock_exchange_plat.Events.Once.{member}
use mini_stock_exchange_plat.Engine.Desk.{trim, set_key, remember, seen_orders_max}

length-trim : (bound : ℕ) (ks : List ℕ) → length (trim bound ks) ≤ bound
unfolding trim
length-trim bound [] = omega arith
length-trim bound (k ∷ ks) = ground (arith, length-trim bound ks)

-- Where a key stands from the back, if it is there: the last place is 1.
abbrev pub keys_from : ℕ → List ℕ → ℕ
keys_from k [] = 0
keys_from k (j ∷ js) = if k == j then suc (length js) else keys_from k js

keys_from-trim :
    (bound k : ℕ) (ks : List ℕ)
    → 0 < keys_from k ks
    → keys_from k ks ≤ bound
    → keys_from k (trim bound ks) ≡ keys_from k ks
unfolding trim
keys_from-trim bound k [] h b = refl
keys_from-trim bound k (j ∷ js) h b = ground (arith, keys_from-trim bound k js)

keys_from-append :
    (k j : ℕ) (ks : List ℕ) → 0 < keys_from k ks → keys_from k (ks ++ j ∷ []) ≡ suc (keys_from k ks)
keys_from-append k j [] h = omega arith
keys_from-append k j (i ∷ ks) h = ground (arith, keys_from-append k j ks, length-append ks (j ∷ []))

keys_from-fresh : (k : ℕ) (ks : List ℕ) → member k ks ≡ false → keys_from k (ks ++ k ∷ []) ≡ 1
keys_from-fresh k [] h = ground arith
keys_from-fresh k (j ∷ ks) h = ground (arith, keys_from-fresh k ks)

member-keys_from : (k : ℕ) (ks : List ℕ) → 0 < keys_from k ks → member k ks ≡ true
member-keys_from k [] h = absurd (omega arith)
member-keys_from k (j ∷ ks) h = ground (arith, member-keys_from k ks)

-- `_remember` of several orders, one after the other.
abbrev pub remember_all : List ℕ → List ℕ → List ℕ
remember_all [] seen = seen
remember_all (k ∷ ks) seen = remember_all ks (remember k seen)

-- Remembering another key moves a key back by one place at most.
keys_from-remember :
    (k j : ℕ) (seen : List ℕ)
    → 0 < keys_from k seen
    → suc (keys_from k seen) ≤ seen_orders_max
    → (0 < keys_from k (remember j seen)) × (keys_from k (remember j seen) ≤ suc (keys_from k seen))
unfolding remember
keys_from-remember k j seen h b = elim (Bool-cases (member j seen)) [
  | inl old ↦ rw (old, if◌then◌else◌) (ground (arith, keys_from-trim seen_orders_max k seen))
  | inr new ↦
      rw (new, if◌then◌else◌)
        (ground
          (arith, keys_from-trim seen_orders_max k (seen ++ j ∷ []), keys_from-append k j seen h))
]

stays :
    (k : ℕ) (js seen : List ℕ)
    → 0 < keys_from k seen
    → keys_from k seen + length js ≤ seen_orders_max
    → member k (remember_all js seen) ≡ true
stays k [] seen h b = member-keys_from k seen h
stays k (j ∷ js) seen h b =
    let m = keys_from-remember k j seen h (omega arith) in
    stays k js (remember j seen) m.0 (omega arith)

-- An order that was not remembered is, once it is, and stays remembered while fewer than 10,000
-- more are; no more than 10,000 are kept.
pub remember_lasts :
    (k : ℕ) (js seen : List ℕ)
    → member k seen ≡ false
    → length js < seen_orders_max
    → (member k (remember_all js (remember k seen)) ≡ true)
      × (length (remember k seen) ≤ seen_orders_max)
unfolding remember
remember_lasts k js seen new few =
    let e = keys_from-fresh k seen new in
    let t =
      keys_from-trim seen_orders_max k (seen ++ k ∷ []) (omega (arith, e)) (omega (arith, e)) in
    (
      stays k js (remember k seen) (rw (remember, new, if◌then◌else◌, t) (omega (arith, e)))
          (rw (remember, new, if◌then◌else◌, t) (omega (arith, e))),
      length-trim seen_orders_max (set_key k seen),
    )
