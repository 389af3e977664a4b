-- ===== src/Pages.antt =====
-- backend/app/api/pages.py: the pages. `str.strftime` of a date, `repr` of a text and `json.dumps`
-- are parameters.
pub mod Style
pub mod Landing
pub mod Connect
pub mod Invoice
use vpp_wl_mobile.Prelude.{
  ◌-◌, String, Bool, ◌&&◌, Option, none, some, List, [], ◌∷◌, ◌==◌, leb, eqb, if◌then◌else◌,
  str_len, take_text, drop_text, concat, is_empty, decimal,
}
use Prim.Native.Char.{Char, code}
use vpp_wl_mobile.Service.{Tariff}

-- `html.escape`, which replaces the quotes too.
abbrev pub escape_character : Char → String
escape_character c =
    if eqb (code c) 38
    then "&amp;"
    else if eqb (code c) 60
    then "&lt;"
    else if eqb (code c) 62
    then "&gt;"
    else if eqb (code c) 34
    then "&quot;"
    else if eqb (code c) 39
    then "&#x27;"
    else String.◌∷◌ c String.[]

unfoldable pub escape : String → String
unfolding concat
escape String.[] = String.[]
escape (String.◌∷◌ c s) = concat (escape_character c ∷ escape s ∷ [])

-- `separator.join(texts)`
unfoldable pub join : String → List String → String
unfolding concat
join separator [] = String.[]
join separator (s ∷ []) = s
join separator (s ∷ t ∷ rest) = concat (s ∷ separator ∷ join separator (t ∷ rest) ∷ [])

-- `raw[:-3]` of a text that ends with `suffix`, and another text as it is.
unfoldable pub without_suffix : String → String → String
unfolding str_len drop_text take_text
without_suffix suffix raw =
    let front = str_len raw - str_len suffix in
    if leb (str_len suffix) (str_len raw) && (drop_text front raw == suffix)
    then take_text front raw
    else raw

-- `_price`
unfoldable pub price : String → String
unfolding without_suffix concat
price raw = concat (without_suffix ".00" raw ∷ " ₽" ∷ [])

-- `badge` of `_tariff_card`
unfoldable pub badge_span : Option String → String
unfolding is_empty concat escape
badge_span none = ""
badge_span (some badge) =
    if is_empty badge then "" else concat ("<span class=\"badge\">" ∷ escape badge ∷ "</span>" ∷ [])

-- `_tariff_card`
unfoldable pub tariff_card : Bool → Tariff → String
unfolding concat escape price badge_span decimal
tariff_card compact tariff = concat (
    "\n"
    ∷ "      <form class=\""
    ∷ (if compact then "tariff compact" else "tariff")
    ∷ "\" method=\"post\" action=\"/checkout\">\n"
    ∷ "        "
    ∷ badge_span tariff.badge
    ∷ "\n"
    ∷ "        <input type=\"hidden\" name=\"tariff_id\" value=\""
    ∷ escape tariff.id
    ∷ "\">\n"
    ∷ "        <h2>"
    ∷ escape tariff.title
    ∷ "</h2>\n"
    ∷ "        <p class=\"price\">"
    ∷ escape (price tariff.price_rub)
    ∷ "</p>\n"
    ∷ "        <p>До "
    ∷ decimal tariff.max_devices
    ∷ " устройств. Ссылка после подтверждения оплаты.</p>\n"
    ∷ "        <button class=\"button primary\" type=\"submit\">Оплатить</button>\n"
    ∷ "      </form>\n"
    ∷ "    "
    ∷ [])
