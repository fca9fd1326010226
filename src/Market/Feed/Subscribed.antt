-- ===== src/Market/Feed/Subscribed.antt =====
-- What a client of services/market-data-service/app/main.py can be subscribed to, and who gets a
-- tick of it.
use mini_stock_exchange_plat.Base.{
  ◌≡◌, subst, Option, none, some, List, [], ◌∷◌, if◌then◌else◌, All, inl, inr, Bool-cases,
  Option-cases, some_injective, both_branches,
}
use mini_stock_exchange_plat.Base.Maybe.{none_not_some, bind_some}
use mini_stock_exchange_plat.Base.Text.{Text, eq_text, one_of, strip, is_empty, upper, split_from}
use mini_stock_exchange_plat.Symbols.{normalize_symbol}
use mini_stock_exchange_plat.Symbols.Known.{IsKnown, all-IsKnown, normalize_symbol-IsKnown}
use mini_stock_exchange_plat.Market.Feed.{
  add_symbol, discard, normalized, or_all, asked_symbols, ClientMessage, subscribe, unsubscribe,
  other_action, subscribe_each, unsubscribe_each, receive, session,
}

abbrev pub AllKnown : List Text → Type 0
AllKnown subscribed = All IsKnown subscribed

add_symbol-AllKnown :
    (s : Text) (subscribed : List Text)
    → IsKnown s
    → AllKnown subscribed
    → AllKnown (add_symbol s subscribed)
add_symbol-AllKnown s subscribed known h = both_branches AllKnown (one_of s subscribed) h (known, h)

discard-AllKnown :
    (s : Text) (subscribed : List Text) → AllKnown subscribed → AllKnown (discard s subscribed)
discard-AllKnown s [] h = tt
discard-AllKnown s (other ∷ subscribed) h =
    both_branches AllKnown (eq_text s other) (discard-AllKnown s subscribed h.1)
      (h.0, discard-AllKnown s subscribed h.1)

normalized-AllKnown : (parts set : List Text) → normalized parts ≡ some set → AllKnown set
normalized-AllKnown [] set h = subst AllKnown (some_injective h) tt
normalized-AllKnown (part ∷ parts) set h = elim (Bool-cases (is_empty (strip part))) [
  | inl blank ↦ normalized-AllKnown parts set (rw (blank, if◌then◌else◌) at h)
  | inr named ↦
      let (s, e, h1) =
        bind_some (normalize_symbol (some part)) _ set (rw (named, if◌then◌else◌) at h) in
      let (rest, e', made) = bind_some (normalized parts) _ set h1 in
      subst AllKnown (some_injective made) (
        add_symbol-AllKnown s rest (normalize_symbol-IsKnown (some part) s e)
          (normalized-AllKnown parts rest e'))
]

asked_symbols-AllKnown :
    (symbols_str : Text) (set : List Text) → asked_symbols symbols_str ≡ some set → AllKnown set
unfolding asked_symbols
asked_symbols-AllKnown symbols_str set h =
    let (some_set, e, made) = bind_some (normalized (split_from [] symbols_str)) _ set h in
    subst AllKnown (some_injective made)
      (go some_set (normalized-AllKnown (split_from [] symbols_str) some_set e))
  where
    go : (set : List Text) → AllKnown set → AllKnown (or_all set)
    go [] h = all-IsKnown
    go (s ∷ set) h = h

subscribe_each-AllKnown :
    (names : List (Option Text)) (subscribed : List Text)
    → AllKnown subscribed
    → AllKnown (subscribe_each names subscribed)
subscribe_each-AllKnown [] subscribed h = h
subscribe_each-AllKnown (name ∷ names) subscribed h = elim (Option-cases (normalize_symbol name)) [
  | inl e ↦ rw e (subscribe_each-AllKnown names subscribed h)
  | inr (s, e) ↦ rw e (
      subscribe_each-AllKnown names (add_symbol s subscribed)
        (add_symbol-AllKnown s subscribed (normalize_symbol-IsKnown name s e) h))
]

unsubscribe_each-AllKnown :
    (names : List (Option Text)) (subscribed now : List Text)
    → AllKnown subscribed
    → unsubscribe_each names subscribed ≡ some now
    → AllKnown now
unsubscribe_each-AllKnown [] subscribed now h e = subst AllKnown (some_injective e) h
unsubscribe_each-AllKnown (none ∷ names) subscribed now h e = absurd (none_not_some e)
unsubscribe_each-AllKnown (some name ∷ names) subscribed now h e =
    unsubscribe_each-AllKnown names (discard (upper name) subscribed) now
      (discard-AllKnown (upper name) subscribed h) e

receive-AllKnown :
    (message : ClientMessage) (subscribed now : List Text)
    → AllKnown subscribed
    → receive message subscribed ≡ some now
    → AllKnown now
unfolding receive
receive-AllKnown (subscribe names) subscribed now h e =
    subst AllKnown (some_injective e) (subscribe_each-AllKnown names subscribed h)
receive-AllKnown (unsubscribe names) subscribed now h e =
    unsubscribe_each-AllKnown names subscribed now h e
receive-AllKnown other_action subscribed now h e = subst AllKnown (some_injective e) h

session-AllKnown :
    (messages : List ClientMessage) (subscribed now : List Text)
    → AllKnown subscribed
    → session messages subscribed ≡ some now
    → AllKnown now
unfolding session
session-AllKnown [] subscribed now h e = subst AllKnown (some_injective e) h
session-AllKnown (message ∷ messages) subscribed now h e =
    let (then_, e1, e2) = bind_some (receive message subscribed) _ now e in
    session-AllKnown messages then_ now (receive-AllKnown message subscribed then_ h e1) e2

-- Whatever a client of the feed asks for when it connects and sends afterwards, as long as the
-- connection lasts, what it is subscribed to are symbols of SYMBOLS in their normal form, which
-- both checks accept and which have a seed price.
pub session-asked_symbols :
    (symbols_str : Text) (messages : List ClientMessage) (asked now : List Text)
    → asked_symbols symbols_str ≡ some asked
    → session messages asked ≡ some now
    → AllKnown now
session-asked_symbols symbols_str messages asked now h e =
    session-AllKnown messages asked now (asked_symbols-AllKnown symbols_str asked h) e
