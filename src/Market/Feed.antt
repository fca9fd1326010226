-- ===== src/Market/Feed.antt =====
-- The live feed: services/market-data-service/app/ws.py and ws_market of main.py. A socket is
-- known by a number; `works` says of which sockets a send succeeds. Sockets that connect or leave
-- while broadcast awaits a send, and the ticks that a new socket gets at once, are left out.
pub mod Subscribed
pub mod Sent
mod Tests
use mini_stock_exchange_plat.Base.{
  ℕ, Bool, true, false, not, Option, none, some, List, [], ◌∷◌, map, ◌==◌, if◌then◌else◌,
}
use mini_stock_exchange_plat.Base.Maybe.{◌>>=◌}
use mini_stock_exchange_plat.Base.Text.{
  Text, text, eq_text, one_of, strip, is_empty, upper, split_from,
}
use mini_stock_exchange_plat.Symbols.{symbols, keys, normalize_symbol}

-- A set of symbols is a list that has each once.
pub record Connection : Type 0 where
  pub ws : ℕ
  pub subscribed : List Text

abbrev pub add_symbol : Text → List Text → List Text
add_symbol s subscribed = if one_of s subscribed then subscribed else s ∷ subscribed

abbrev pub discard : Text → List Text → List Text
discard s [] = []
discard s (other ∷ subscribed) =
    if eq_text s other then discard s subscribed else other ∷ discard s subscribed

-- The set of the normalized parts; a ValueError ends the socket before it is added.
abbrev pub normalized : List Text → Option (List Text)
normalized [] = some []
normalized (part ∷ parts) =
    let rest = normalized parts in
    if is_empty (strip part)
    then rest
    else do s ← normalize_symbol (some part); set ← rest; some (add_symbol s set)

abbrev pub or_all : List Text → List Text
or_all [] = keys symbols
or_all (s ∷ set) = s ∷ set

unfoldable pub asked_symbols : Text → Option (List Text)
asked_symbols symbols_str = do set ← normalized (split_from [] symbols_str); some (or_all set)

-- What a client sends; a name that is no text is `none`.
pub data ClientMessage : Type 0 where
  subscribe unsubscribe : List (Option Text) → ClientMessage
  other_action : ClientMessage

-- A ValueError is passed over.
abbrev pub subscribe_each : List (Option Text) → List Text → List Text
subscribe_each [] subscribed = subscribed
subscribe_each (name ∷ names) subscribed =
    subscribe_each names
      (elim (normalize_symbol name) [ none ↦ subscribed | some s ↦ add_symbol s subscribed ])

-- `none` is the AttributeError of a name that has no `upper`, which ends the socket.
abbrev pub unsubscribe_each : List (Option Text) → List Text → Option (List Text)
unsubscribe_each [] subscribed = some subscribed
unsubscribe_each (none ∷ names) subscribed = none
unsubscribe_each (some name ∷ names) subscribed =
    unsubscribe_each names (discard (upper name) subscribed)

unfoldable pub receive : ClientMessage → List Text → Option (List Text)
receive (subscribe names) subscribed = some (subscribe_each names subscribed)
receive (unsubscribe names) subscribed = unsubscribe_each names subscribed
receive other_action subscribed = some subscribed

unfoldable pub session : List ClientMessage → List Text → Option (List Text)
session [] subscribed = some subscribed
session (message ∷ messages) subscribed = do now ← receive message subscribed; session messages now

-- `MANAGER.active_connections`, with `remove`.
abbrev pub remove : ℕ → List Connection → List Connection
remove ws [] = []
remove ws (conn ∷ conns) = if ws == conn.ws then remove ws conns else conn ∷ remove ws conns

-- `broadcast`, over a copy of the connections: the sockets that get the tick, and who is left.
unfoldable pub broadcast_to :
    (ℕ → Bool) → Text → List Connection → List Connection → List ℕ × List Connection
broadcast_to works symbol [] active = ([], active)
broadcast_to works symbol (conn ∷ copy) active =
    let sent = broadcast_to works symbol copy active in
    let failed = broadcast_to works symbol copy (remove conn.ws active) in
    if not (one_of symbol conn.subscribed)
    then sent
    else if works conn.ws
    then (conn.ws ∷ sent.0, sent.1)
    else failed

unfoldable pub broadcast : (ℕ → Bool) → Text → List Connection → List ℕ × List Connection
broadcast works symbol active = broadcast_to works symbol active active
