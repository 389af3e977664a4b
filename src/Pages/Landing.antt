-- ===== src/Pages/Landing.antt =====
-- `landing_page` and `not_found_page` of backend/app/api/pages.py.
use vpp_wl_mobile.Prelude.{String, false, List, [], ◌∷◌, map, concat}
use vpp_wl_mobile.Service.{Tariff}
use vpp_wl_mobile.Pages.{join, tariff_card}
use vpp_wl_mobile.Pages.Style.{page}

abbrev landing_intro : List String
landing_intro =
    "\n" ∷ "        <main class=\"shell hero\">\n" ∷ "          <section class=\"hero-copy\">\n"
    ∷ "            <p class=\"eyebrow\">VPN Router</p>\n"
    ∷ "            <h1>Быстрый VPN-доступ</h1>\n"
    ∷ "            <p class=\"lead\">Работает с YouTube, Telegram, Instagram, ChatGPT и сайтами. Берёте готовый клиент, вставляете ссылку — подключение за 1 минуту.</p>\n"
    ∷ "            <a class=\"primary-link\" href=\"#pricing\">Выбрать тариф</a>\n"
    ∷ "          </section>\n"
    ∷ "          <section id=\"pricing\" class=\"pricing\" aria-label=\"Тарифы\">\n"
    ∷ "            " ∷ []

abbrev landing_steps : List String
landing_steps =
    "\n" ∷ "          </section>\n"
    ∷ "          <section class=\"steps\" aria-label=\"Как это работает\">\n"
    ∷ "            <div class=\"step\"><span class=\"step-num\">1</span><p>Оплатите тариф удобной криптовалютой</p></div>\n"
    ∷ "            <div class=\"step\"><span class=\"step-num\">2</span><p>Установите клиент: v2rayN (ПК), v2rayNG или Hiddify (телефон)</p></div>\n"
    ∷ "            <div class=\"step\"><span class=\"step-num\">3</span><p>После подтверждения оплаты получите ссылку и подключитесь</p></div>\n"
    ∷ "          </section>\n" ∷ "          <section class=\"notes\">\n"
    ∷ "            <span>До 3 устройств на одну подписку</span>\n"
    ∷ "            <span>Основной клиент — v2rayN</span>\n"
    ∷ "            <span>Без сложной настройки</span>\n" ∷ "          </section>\n"
    ∷ "        </main>\n" ∷ "        " ∷ []

-- The body of the page, around the cards of the tariffs.
unfoldable pub landing_body : String → String
unfolding concat
landing_body cards = concat (concat landing_intro ∷ cards ∷ concat landing_steps ∷ [])

unfoldable pub landing_page : List Tariff → String
unfolding page landing_body join tariff_card
landing_page tariffs =
    page "Быстрый VPN-доступ" (landing_body (join "\n" (map (tariff_card false) tariffs)))

unfoldable pub not_found_page : String
unfolding page concat
not_found_page = page "Ссылка не найдена" (
    concat (
      "\n" ∷ "        <main class=\"shell connect\">\n"
      ∷ "          <div class=\"status-card expired\">\n"
      ∷ "            <p class=\"eyebrow\">Ошибка</p>\n" ∷ "            <h1>Ссылка не найдена</h1>\n"
      ∷ "            <p class=\"lead compact\">Проверьте адрес или оформите новый доступ.</p>\n"
      ∷ "            <a class=\"primary-link\" href=\"/\">Выбрать тариф</a>\n"
      ∷ "          </div>\n" ∷ "        </main>\n" ∷ "        " ∷ []))
