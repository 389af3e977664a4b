-- ===== src/Pages/Invoice.antt =====
-- `invoice_page` of backend/app/api/pages.py.
use vpp_wl_mobile.Prelude.{ℕ, ◌+◌, String, List, [], ◌∷◌, map, ◌==◌, if◌then◌else◌, concat, decimal}
use vpp_wl_mobile.Json.{Json, array, object, str}
use vpp_wl_mobile.Service.{Tariff}
use vpp_wl_mobile.Pages.{escape, join, price}
use vpp_wl_mobile.Pages.Style.{page}

-- A dict of `_build_coin_options`.
pub record CoinOption : Type 0 where
  pub id : String
  pub label : String
  pub network_label : String
  pub amount : String
  pub address : String
  pub testnet : String

abbrev invoice_intro : List String
invoice_intro =
    "\n" ∷ "        <main class=\"shell pay\">\n" ∷ "          <section class=\"pay-card\">\n"
    ∷ "            <p class=\"eyebrow\">Оплата</p>\n" ∷ "            <h1 class=\"pay-title\">" ∷ []

abbrev coin_choice : List String
coin_choice =
    "</p>\n" ∷ "\n" ∷ "            <p class=\"pay-step\">Валюта и сеть</p>\n"
    ∷ "            <div class=\"coin-tabs\">\n" ∷ "              " ∷ []

abbrev pay_how : List String
pay_how =
    "\n" ∷ "\n" ∷ "            <ol class=\"pay-how\">\n"
    ∷ "              <li>Выберите валюту и сеть.</li>\n"
    ∷ "              <li>Переведите точную сумму на адрес.</li>\n"
    ∷ "              <li>Доступ откроется после подтверждения перевода.</li>\n"
    ∷ "            </ol>\n" ∷ "\n" ∷ "            <a class=\"button wide\" href=\"/connect/" ∷ []

abbrev status_link : List String
status_link =
    "\">Проверить статус</a>\n" ∷ "          </section>\n" ∷ "        </main>\n"
    ∷ "        <script>\n" ∷ "          " ∷ []

abbrev pay_script : List String
pay_script =
    "\n" ∷ "          function selectCoin(idx) {\n"
    ∷ "            document.querySelectorAll('.coin-panel').forEach((p, i) => p.hidden = i !== idx);\n"
    ∷ "            document.querySelectorAll('.coin-tab').forEach((b, i) => b.classList.toggle('active', i === idx));\n"
    ∷ "          }\n" ∷ "          async function copyAddr(idx) {\n"
    ∷ "            await navigator.clipboard.writeText(COINS[idx].address);\n"
    ∷ "            const hint = document.getElementById('copyHint' + idx);\n"
    ∷ "            if (hint) { hint.hidden = false; setTimeout(() => hint.hidden = true, 2500); }\n"
    ∷ "          }\n" ∷ "          function toggleQr(idx) {\n"
    ∷ "            const qr = document.getElementById('addrQr' + idx);\n"
    ∷ "            if (qr) qr.hidden = !qr.hidden;\n" ∷ "          }\n"
    ∷ "          selectCoin(0);\n" ∷ "        </script>\n" ∷ "        <style>\n"
    ∷ "          .pay { padding: 32px 0 56px; display: grid; place-items: start center; }\n"
    ∷ "          .pay-card { width: 100%; max-width: 520px; border: 1px solid var(--line); border-radius: 14px; background: var(--panel); padding: 28px; }\n"
    ∷ "          .pay-title { margin: 4px 0 0; font-size: 1.6rem; letter-spacing: 0; }\n"
    ∷ "          .pay-price { margin: 2px 0 22px; font-size: 2.6rem; font-weight: 900; }\n"
    ∷ "          .pay-step { margin: 0 0 10px; font-size: .76rem; font-weight: 700; letter-spacing: .1em; text-transform: uppercase; color: var(--muted); }\n"
    ∷ "          .coin-tabs { display: flex; flex-wrap: wrap; gap: 8px; }\n"
    ∷ "          .coin-tab { display: inline-flex; align-items: baseline; gap: 6px; padding: 9px 13px; border-radius: 10px; border: 1px solid var(--line); background: rgba(255,255,255,.03); font: inherit; font-size: .85rem; font-weight: 700; cursor: pointer; color: var(--text); transition: border-color .15s, background .15s; }\n"
    ∷ "          .coin-tab:hover { border-color: rgba(255,255,255,.32); }\n"
    ∷ "          .coin-tab .net { font-weight: 500; font-size: .76rem; color: var(--muted); }\n"
    ∷ "          .coin-tab.active { border-color: var(--cyan); background: rgba(54,231,255,.08); }\n"
    ∷ "          .coin-tab.active .net { color: var(--cyan); }\n"
    ∷ "          .coin-panel { margin-top: 18px; border: 1px solid var(--line); border-radius: 12px; padding: 20px; background: rgba(0,0,0,.2); }\n"
    ∷ "          .crypto-net { margin: 0 0 2px; color: var(--muted); font-size: .82rem; }\n"
    ∷ "          .crypto-amount { font-size: 2rem; font-weight: 900; margin: 0 0 16px; letter-spacing: -.01em; }\n"
    ∷ "          .crypto-amount .unit { font-size: 1.1rem; font-weight: 700; color: var(--muted); margin-left: 6px; }\n"
    ∷ "          .crypto-label { margin: 0 0 6px; color: var(--muted); font-size: .74rem; text-transform: uppercase; letter-spacing: .1em; }\n"
    ∷ "          .crypto-addr { margin: 0 0 14px; font-family: ui-monospace, SFMono-Regular, Menlo, monospace; font-size: .9rem; word-break: break-all; line-height: 1.5; }\n"
    ∷ "          .testnet-badge { display: inline-block; margin-left: 8px; padding: 2px 7px; border-radius: 6px; background: rgba(255,176,32,.16); color: #ffb020; font-size: .66rem; font-weight: 800; letter-spacing: .04em; vertical-align: middle; }\n"
    ∷ "          .pay-how { margin: 22px 0 0; padding-left: 20px; color: var(--muted); line-height: 1.7; }\n"
    ∷ "          .button.wide { width: 100%; margin-top: 20px; }\n"
    ∷ "          .hint { color: var(--green); margin-top: 10px; font-size: .9rem; }\n"
    ∷ "        </style>\n" ∷ "        " ∷ []

-- The button of a number.
unfoldable pub coin_button : ℕ → CoinOption → String
unfolding concat escape decimal
coin_button i opt = concat (
    "<button class=\"coin-tab\" type=\"button\" onclick=\"selectCoin("
    ∷ decimal i
    ∷ ")\">"
    ∷ escape opt.label
    ∷ " <span class=\"net\">"
    ∷ escape opt.network_label
    ∷ "</span></button>"
    ∷ [])

-- `enumerate` from a number on.
unfoldable pub coin_buttons : ℕ → List CoinOption → List String
unfolding coin_button
coin_buttons i [] = []
coin_buttons i (opt ∷ options) = coin_button i opt ∷ coin_buttons (i + 1) options

-- `_coin_tab_buttons`
unfoldable pub coin_tab_buttons : List CoinOption → String
unfolding coin_buttons join
coin_tab_buttons coin_options = join "\n" (coin_buttons 0 coin_options)

unfoldable pub testnet_badge : String → String
testnet_badge testnet =
    if testnet == "1" then "<span class=\"testnet-badge\">TESTNET</span>" else ""

-- `_coin_block`
unfoldable pub coin_block : ℕ → CoinOption → String → String
unfolding concat escape decimal testnet_badge
coin_block idx opt token = concat (
    "\n"
    ∷ "      <div class=\"coin-panel\" id=\"coinPanel"
    ∷ decimal idx
    ∷ "\" hidden>\n"
    ∷ "        <p class=\"crypto-net\">"
    ∷ escape opt.network_label
    ∷ testnet_badge opt.testnet
    ∷ "</p>\n"
    ∷ "        <p class=\"crypto-amount\">"
    ∷ escape opt.amount
    ∷ "<span class=\"unit\">"
    ∷ escape opt.label
    ∷ "</span></p>\n"
    ∷ "        <p class=\"crypto-label\">Адрес</p>\n"
    ∷ "        <p class=\"crypto-addr\">"
    ∷ escape opt.address
    ∷ "</p>\n"
    ∷ "        <div class=\"actions\">\n"
    ∷ "          <button class=\"button primary\" type=\"button\" onclick=\"copyAddr("
    ∷ decimal idx
    ∷ ")\">Скопировать адрес</button>\n"
    ∷ "          <button class=\"button\" type=\"button\" onclick=\"toggleQr("
    ∷ decimal idx
    ∷ ")\">QR-код</button>\n"
    ∷ "        </div>\n"
    ∷ "        <div class=\"qr-wrap\" id=\"addrQr"
    ∷ decimal idx
    ∷ "\" hidden>\n"
    ∷ "          <img src=\"/invoice/"
    ∷ escape token
    ∷ "/qr/"
    ∷ escape opt.id
    ∷ "\" alt=\"QR "
    ∷ escape opt.label
    ∷ " "
    ∷ escape opt.network_label
    ∷ "\">\n"
    ∷ "        </div>\n"
    ∷ "        <p class=\"hint\" id=\"copyHint"
    ∷ decimal idx
    ∷ "\" hidden>Адрес скопирован.</p>\n"
    ∷ "      </div>\n"
    ∷ "    "
    ∷ [])

unfoldable pub coin_blocks : ℕ → List CoinOption → String → List String
unfolding coin_block
coin_blocks i [] token = []
coin_blocks i (opt ∷ options) token = coin_block i opt token ∷ coin_blocks (i + 1) options token

module _ (dumps : Json → String) where
  -- `_coins_js`
  unfoldable pub coins_js : List CoinOption → String
  unfolding concat
  coins_js coin_options =
      let items = map (λ opt. object (("address", str opt.address) ∷ [])) coin_options in
      concat ("const COINS = " ∷ dumps (array items) ∷ ";" ∷ [])

  -- The page of a subscription's token.
  unfoldable pub invoice_page : String → Tariff → List CoinOption → String
  unfolding page concat escape price join coin_tab_buttons coin_blocks coins_js
  invoice_page token tariff coin_options = page "Оплата" (
      concat (
        concat invoice_intro
        ∷ escape tariff.title
        ∷ "</h1>\n"
        ∷ "            <p class=\"pay-price\">"
        ∷ escape (price tariff.price_rub)
        ∷ concat coin_choice
        ∷ coin_tab_buttons coin_options
        ∷ "\n"
        ∷ "            </div>\n"
        ∷ "\n"
        ∷ "            "
        ∷ join "\n" (coin_blocks 0 coin_options token)
        ∷ concat pay_how
        ∷ escape token
        ∷ concat status_link
        ∷ coins_js coin_options
        ∷ concat pay_script
        ∷ []))
