-- ===== src/Pages/Connect.antt =====
-- `connect_page` of backend/app/api/pages.py. `date_text` is `strftime("%d.%m.%Y")`.
use vpp_wl_mobile.Prelude.{
  ℕ, String, true, Option, none, some, List, [], ◌∷◌, map, if◌then◌else◌, length, concat, decimal,
}
use vpp_wl_mobile.Models.{CommercialSubscription, is_paid}
use vpp_wl_mobile.Service.{Tariff, find_tariff}
use vpp_wl_mobile.Pages.{escape, join, tariff_card}
use vpp_wl_mobile.Pages.Style.{page}

-- A dict of `_public_configs`.
pub record PublicConfig : Type 0 where
  pub label : String
  pub kind : String
  pub transport : String

abbrev active_intro : List String
active_intro =
    "\n" ∷ "          <div class=\"status-card active\">\n"
    ∷ "            <p class=\"eyebrow\">Подписка</p>\n" ∷ "            <h1>Ваш VPN активен</h1>\n"
    ∷ "            <p class=\"lead compact\">Действует до " ∷ []

abbrev active_actions : List String
active_actions =
    " устройств — установите ссылку на каждом.</p>\n" ∷ "            <div class=\"actions\">\n"
    ∷ "              <button class=\"button primary\" type=\"button\" onclick=\"connectClient()\">Подключить</button>\n"
    ∷ "              <button class=\"button\" type=\"button\" onclick=\"copySub()\">Скопировать ссылку</button>\n"
    ∷ "              <button class=\"button\" type=\"button\" onclick=\"toggleQr()\">Показать QR</button>\n"
    ∷ "            </div>\n" ∷ "            <p class=\"sub-url\" id=\"subUrl\">" ∷ []

abbrev expired_card : List String
expired_card =
    "\n" ∷ "          <div class=\"status-card expired\">\n"
    ∷ "            <p class=\"eyebrow\">Подписка</p>\n"
    ∷ "            <h1>Подписка закончилась</h1>\n"
    ∷ "            <p class=\"lead compact\">Продлите доступ, и ссылка снова заработает автоматически.</p>\n"
    ∷ "            <a class=\"primary-link\" href=\"/\">Продлить</a>\n" ∷ "          </div>\n"
    ∷ "        " ∷ []

abbrev instructions : List String
instructions =
    "\n" ∷ "          <section class=\"instructions\">\n"
    ∷ "            <p class=\"instructions-title\">Инструкция по установке</p>\n"
    ∷ "            <details open>\n"
    ∷ "              <summary>Windows · v2rayN <span class=\"tag\">основной</span></summary>\n"
    ∷ "              <ol>\n" ∷ "                <li>Скачайте v2rayN и распакуйте архив.</li>\n"
    ∷ "                <li>Нажмите «Скопировать ссылку» выше.</li>\n"
    ∷ "                <li>В v2rayN: Subscriptions → Add subscription.</li>\n"
    ∷ "                <li>Вставьте ссылку, сохраните и нажмите Update subscription.</li>\n"
    ∷ "                <li>Выберите сервер и включите системный прокси.</li>\n"
    ∷ "              </ol>\n" ∷ "            </details>\n" ∷ "            <details>\n"
    ∷ "              <summary>Android · v2rayNG</summary>\n" ∷ "              <ol>\n"
    ∷ "                <li>Установите v2rayNG из Google Play.</li>\n"
    ∷ "                <li>Нажмите «Скопировать ссылку» выше.</li>\n"
    ∷ "                <li>«+» → Импорт из буфера обмена.</li>\n"
    ∷ "                <li>Обновите подписку, выберите сервер и подключитесь.</li>\n"
    ∷ "              </ol>\n" ∷ "            </details>\n" ∷ "            <details>\n"
    ∷ "              <summary>iPhone · Hiddify / Streisand</summary>\n" ∷ "              <ol>\n"
    ∷ "                <li>Установите Hiddify или Streisand из App Store.</li>\n"
    ∷ "                <li>Нажмите «Подключить» выше или отсканируйте QR.</li>\n"
    ∷ "                <li>Если не открылось — вставьте скопированную ссылку вручную.</li>\n"
    ∷ "              </ol>\n" ∷ "            </details>\n" ∷ "            <details>\n"
    ∷ "              <summary>Android · Hiddify</summary>\n" ∷ "              <ol>\n"
    ∷ "                <li>Установите Hiddify из Google Play.</li>\n"
    ∷ "                <li>Нажмите «Подключить» или вставьте ссылку подписки.</li>\n"
    ∷ "              </ol>\n" ∷ "            </details>\n" ∷ "          </section>\n"
    ∷ "          <section class=\"pricing compact-pricing\">\n"
    ∷ "            <h2>Продлить доступ</h2>\n" ∷ "            " ∷ []

abbrev renewal_end : List String
renewal_end =
    "\n" ∷ "          </section>\n" ∷ "        </main>\n" ∷ "        <script>\n"
    ∷ "          const subUrl = " ∷ []

abbrev connect_script : List String
connect_script =
    ";\n" ∷ "          async function copySub() {\n"
    ∷ "            await navigator.clipboard.writeText(subUrl);\n"
    ∷ "            const hint = document.getElementById('connectHint');\n"
    ∷ "            hint.hidden = false;\n"
    ∷ "            hint.textContent = 'Ссылка скопирована. Вставьте её в ваш VPN-клиент.';\n"
    ∷ "          }\n" ∷ "          function toggleQr() {\n"
    ∷ "            const wrap = document.getElementById('qrWrap');\n"
    ∷ "            wrap.hidden = !wrap.hidden;\n" ∷ "          }\n"
    ∷ "          function connectClient() {\n"
    ∷ "            const hint = document.getElementById('connectHint');\n"
    ∷ "            hint.hidden = false;\n"
    ∷ "            hint.textContent = 'Если клиент не открылся, скопируйте ссылку или отсканируйте QR.';\n"
    ∷ "            toggleQr();\n" ∷ "          }\n" ∷ "        </script>\n" ∷ "        " ∷ []

unfoldable pub config_row : PublicConfig → String
unfolding concat escape
config_row config = concat (
    "<li><span class=\"cfg-name\">"
    ∷ escape config.label
    ∷ "</span><span class=\"cfg-kind\">"
    ∷ escape config.kind
    ∷ "</span></li>"
    ∷ [])

-- `_configs_block`
unfoldable pub configs_block : List PublicConfig → String
unfolding concat config_row join decimal
configs_block [] = ""
configs_block (first ∷ rest) =
    let configs = first ∷ rest in
    concat (
      "\n"
      ∷ "      <div class=\"configs\">\n"
      ∷ "        <p class=\"configs-title\">Доступные варианты ("
      ∷ decimal (length configs)
      ∷ ")</p>\n"
      ∷ "        <ul class=\"configs-list\">"
      ∷ join "\n" (map config_row configs)
      ∷ "</ul>\n"
      ∷ "        <p class=\"configs-hint\">Все варианты добавятся одной ссылкой. Если один не работает — выберите другой в приложении.</p>\n"
      ∷ "      </div>\n"
      ∷ "    "
      ∷ [])

-- The card of a subscription that is active.
unfoldable pub active_card : String → ℕ → String → String → List PublicConfig → String
unfolding concat escape configs_block decimal
active_card expires max_devices subscription_url token configs = concat (
    concat active_intro
    ∷ escape expires
    ∷ ". До "
    ∷ decimal max_devices
    ∷ concat active_actions
    ∷ escape subscription_url
    ∷ "</p>\n"
    ∷ "            <p class=\"hint\" id=\"connectHint\" hidden>Если клиент не открылся, скопируйте ссылку или отсканируйте QR.</p>\n"
    ∷ "            <div class=\"qr-wrap\" id=\"qrWrap\" hidden><img src=\"/sub/"
    ∷ escape token
    ∷ "/qr\" alt=\"QR код подписки\"></div>\n"
    ∷ "            "
    ∷ configs_block configs
    ∷ "\n"
    ∷ "          </div>\n"
    ∷ "        "
    ∷ [])

-- `current_tariff.max_devices if current_tariff else 3`
unfoldable pub devices : Option Tariff → ℕ
devices none = 3
devices (some tariff) = tariff.max_devices

module _ (date_text : ℕ → String) (text_repr : String → String) where
  unfoldable pub expires_text : Option ℕ → String
  expires_text none = ""
  expires_text (some at) = date_text at

  -- The card above the instructions.
  unfoldable pub status_card :
      CommercialSubscription → String → List Tariff → List PublicConfig → ℕ → String
  unfolding is_paid find_tariff devices active_card expires_text concat
  status_card subscription subscription_url tariffs configs now =
      if is_paid subscription now
      then active_card (expires_text subscription.expires_at)
          (devices (find_tariff subscription.tariff_id tariffs)) subscription_url subscription.token
          configs
      else concat expired_card

  -- The page at a time.
  unfoldable pub connect_page :
      CommercialSubscription → String → List Tariff → List PublicConfig → ℕ → String
  unfolding status_card page concat tariff_card
  connect_page subscription subscription_url tariffs configs now =
      let status = status_card subscription subscription_url tariffs configs now in
      page "Подключение VPN" (
        concat (
          "\n"
          ∷ "        <main class=\"shell connect\">\n"
          ∷ "          "
          ∷ status
          ∷ concat instructions
          ∷ concat (map (tariff_card true) tariffs)
          ∷ concat renewal_end
          ∷ text_repr subscription_url
          ∷ concat connect_script
          ∷ []))
