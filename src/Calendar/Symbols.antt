-- ===== src/Calendar/Symbols.antt =====
-- The currencies whose events move a symbol: src/econ_calendar/symbols.py.
use Prim.Native.String.{String}
use forex_ea.Prelude.{
  ℕ, ◌-◌, Bool, true, not, ◌&&◌, Option, none, some, List, [], ◌∷◌, if◌then◌else◌, nat_beq, ltb,
  leb, length, take, drop, select, map, is_empty,
}
use forex_ea.Text.{codes, upper, same_text, one_of, ends_with, is_alpha}

abbrev pub fx_currencies : List String
fx_currencies =
    "USD" ∷ "EUR" ∷ "GBP" ∷ "JPY" ∷ "CHF" ∷ "CAD" ∷ "AUD" ∷ "NZD" ∷ "CNY" ∷ "CNH" ∷ "SGD" ∷ "HKD"
    ∷ "NOK" ∷ "SEK" ∷ "MXN" ∷ "ZAR" ∷ "TRY" ∷ "PLN" ∷ "DKK" ∷ "CZK" ∷ "HUF" ∷ "RUB" ∷ []

abbrev usd : List String
usd = "USD" ∷ []

abbrev eur : List String
eur = "EUR" ∷ []

abbrev gbp : List String
gbp = "GBP" ∷ []

abbrev pub explicit_currencies : List (String × List String)
explicit_currencies =
    ("XAUUSD", usd)
    ∷ ("XAGUSD", usd)
    ∷ ("XPTUSD", usd)
    ∷ ("XPDUSD", usd)
    ∷ ("US30", usd)
    ∷ ("US500", usd)
    ∷ ("SPX500", usd)
    ∷ ("NAS100", usd)
    ∷ ("US100", usd)
    ∷ ("USTEC", usd)
    ∷ ("DE40", eur)
    ∷ ("DE30", eur)
    ∷ ("GER40", eur)
    ∷ ("UK100", gbp)
    ∷ ("FRA40", eur)
    ∷ ("EU50", eur)
    ∷ ("ESP35", eur)
    ∷ ("JP225", "JPY" ∷ [])
    ∷ ("HK50", "HKD" ∷ "CNY" ∷ [])
    ∷ ("AUS200", "AUD" ∷ [])
    ∷ ("USOIL", usd)
    ∷ ("UKOIL", "USD" ∷ "GBP" ∷ [])
    ∷ ("WTI", usd)
    ∷ ("BRENT", "USD" ∷ "GBP" ∷ [])
    ∷ ("BTCUSD", usd)
    ∷ ("ETHUSD", usd)
    ∷ ("XRPUSD", usd)
    ∷ ("LTCUSD", usd)
    ∷ []

-- `s.replace(c, "")`
abbrev without : ℕ → List ℕ → List ℕ
without c s = select (λ d. not (nat_beq d c)) s

-- `s[:-n]` and `s[-n:]`
abbrev drop_last : ℕ → List ℕ → List ℕ
drop_last n s = take (length s - n) s

abbrev take_last : ℕ → List ℕ → List ℕ
take_last n s = drop (length s - n) s

-- Cuts off the first of the suffixes that the ticker ends with.
unfoldable pub strip_suffix : List String → List ℕ → List ℕ
strip_suffix [] s = s
strip_suffix (x ∷ xs) s =
    let rest = strip_suffix xs s in
    if ends_with s (codes x) then drop_last (length (codes x)) s else rest

abbrev broker_suffixes : List String
broker_suffixes = ".M" ∷ ".PRO" ∷ ".ECN" ∷ ".RAW" ∷ ".I" ∷ ".C" ∷ []

abbrev all_alpha : List ℕ → Bool
all_alpha [] = true
all_alpha (c ∷ s) = is_alpha c && all_alpha s

-- A trailing letter behind a pair, such as "EURUSDm".
unfoldable pub strip_letter : List ℕ → List ℕ
strip_letter s =
    if ltb 6 (length s)
      && (all_alpha (take_last 1 s)
          && one_of (take_last 3 (drop_last 1 s)) (map codes fx_currencies))
    then drop_last 1 s
    else s

unfoldable pub find_explicit : List (String × List String) → List ℕ → Option (List String)
find_explicit [] s = none
find_explicit ((t, ccys) ∷ rest) s =
    if same_text (codes t) s then some ccys else find_explicit rest s

-- The currency whose code is the text.
unfoldable pub find_currency : List String → List ℕ → List String
find_currency [] s = []
find_currency (c ∷ cs) s = if same_text (codes c) s then c ∷ [] else find_currency cs s

-- `frozenset({base, quote})`
abbrev pair_of : List String → List String → List String
pair_of (b ∷ bs) (q ∷ qs) = if same_text (codes b) (codes q) then b ∷ [] else b ∷ q ∷ []
pair_of _ _ = []

abbrev or_pair : List ℕ → Option (List String) → List String
or_pair s (some ccys) = ccys
or_pair s none =
    if leb 6 (length s)
    then pair_of (find_currency fx_currencies (take 3 s))
        (find_currency fx_currencies (take 3 (drop 3 s)))
    else []

unfoldable pub currencies_for_symbol : String → List String
unfolding strip_suffix strip_letter find_explicit find_currency
currencies_for_symbol symbol =
    let plain = without b'-' (without b'_' (without b'/' (upper (codes symbol)))) in
    let s = strip_letter (strip_suffix broker_suffixes plain) in
    if is_empty (codes symbol) then [] else or_pair s (find_explicit explicit_currencies s)
