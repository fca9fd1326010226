-- ===== src/Market/Feed/Sent.antt =====
-- Who gets a tick, and who is left: broadcast of services/market-data-service/app/ws.py.
use mini_stock_exchange_plat.Base.{
  ℕ, ◌≡◌, refl, sym, ap, ◌∙◌, Bool, true, false, not, ◌&&◌, ◌||◌, List, [], ◌∷◌, ◌==◌,
  if◌then◌else◌, arith, inl, inr, Bool-cases,
}
use mini_stock_exchange_plat.Base.Text.{Text, one_of}
use mini_stock_exchange_plat.Market.Feed.{Connection, remove, broadcast_to, broadcast}

module _ (works : ℕ → Bool) (symbol : Text) where
  -- The sockets of the subscribers whose send succeeds.
  abbrev pub reached : List Connection → List ℕ
  reached [] = []
  reached (conn ∷ conns) =
      if one_of symbol conn.subscribed && works conn.ws
      then conn.ws ∷ reached conns
      else reached conns

  -- A socket to which a send of the tick has failed.
  abbrev pub has_failed : ℕ → List Connection → Bool
  has_failed ws [] = false
  has_failed ws (conn ∷ conns) =
      (ws == conn.ws && (one_of symbol conn.subscribed && not (works conn.ws)))
      || has_failed ws conns

  abbrev pub left_of : List Connection → List Connection → List Connection
  left_of copy [] = []
  left_of copy (conn ∷ conns) =
      if has_failed conn.ws copy then left_of copy conns else conn ∷ left_of copy conns

  left_of-none : (active : List Connection) → left_of [] active ≡ active
  left_of-none [] = refl
  left_of-none (conn ∷ conns) = ap (λ cs. conn ∷ cs) (left_of-none conns)

  left_of-fine :
      (conn : Connection) (copy active : List Connection)
      → (one_of symbol conn.subscribed && not (works conn.ws)) ≡ false
      → left_of (conn ∷ copy) active ≡ left_of copy active
  left_of-fine conn copy [] h = refl
  left_of-fine conn copy (other ∷ active) h = ground (arith, left_of-fine conn copy active h)

  left_of-remove :
      (conn : Connection) (copy active : List Connection)
      → (one_of symbol conn.subscribed && not (works conn.ws)) ≡ true
      → left_of copy (remove conn.ws active) ≡ left_of (conn ∷ copy) active
  left_of-remove conn copy [] h = refl
  left_of-remove conn copy (other ∷ active) h = ground (arith, left_of-remove conn copy active h)

  broadcast_to-Sent :
      (copy active : List Connection)
      → broadcast_to works symbol copy active ≡ (reached copy, left_of copy active)
  unfolding broadcast_to
  broadcast_to-Sent [] active = ap (λ cs. ([], cs)) (sym (left_of-none active))
  broadcast_to-Sent (conn ∷ copy) active =
      let sent = broadcast_to-Sent copy active in
      let failed = broadcast_to-Sent copy (remove conn.ws active) in
      elim (Bool-cases (one_of symbol conn.subscribed)) [
        | inr not_asked ↦
            let fine = left_of-fine conn copy active (rw not_asked refl) in
            rw (not_asked, fine, if◌then◌else◌) sent
        | inl asked ↦ elim (Bool-cases (works conn.ws)) [
          | inl working ↦
              let fine = left_of-fine conn copy active (rw (asked, working) refl) in
              rw (asked, working, fine, if◌then◌else◌) (ap (λ r. (conn.ws ∷ r.0, r.1)) sent)
          | inr broken ↦
              let gone = left_of-remove conn copy active (rw (asked, broken) refl) in
              rw (asked, broken, if◌then◌else◌) (failed ∙ ap (λ cs. (reached copy, cs)) gone)
        ]
      ]

  pub broadcast-reached :
      (active : List Connection)
      → broadcast works symbol active ≡ (reached active, left_of active active)
  unfolding broadcast
  broadcast-reached active = broadcast_to-Sent active active
