-- ===== src/Pages/Style.antt =====
-- `_page` of backend/app/api/pages.py: the frame of every page, and its style.
use vpp_wl_mobile.Prelude.{String, List, [], ◌∷◌, concat}
use vpp_wl_mobile.Pages.{escape}

abbrev page_head : List String
page_head =
    "<!doctype html>\n" ∷ "<html lang=\"ru\">\n" ∷ "<head>\n" ∷ "  <meta charset=\"utf-8\">\n"
    ∷ "  <meta name=\"viewport\" content=\"width=device-width, initial-scale=1\">\n" ∷ "  <title>"
    ∷ []

abbrev page_style : List String
page_style =
    "</title>\n" ∷ "  <style>\n" ∷ "    :root {\n" ∷ "      color-scheme: dark;\n"
    ∷ "      --bg: #05070d;\n" ∷ "      --text: #f7fbff;\n" ∷ "      --muted: #a9b6c7;\n"
    ∷ "      --line: rgba(255,255,255,.14);\n" ∷ "      --panel: rgba(255,255,255,.08);\n"
    ∷ "      --panel-strong: rgba(255,255,255,.13);\n" ∷ "      --cyan: #36e7ff;\n"
    ∷ "      --green: #67f7a5;\n" ∷ "      --pink: #ff5fd7;\n" ∷ "    }\n"
    ∷ "    * { box-sizing: border-box; }\n" ∷ "    body {\n" ∷ "      margin: 0;\n"
    ∷ "      min-height: 100vh;\n"
    ∷ "      font-family: Inter, ui-sans-serif, system-ui, -apple-system, BlinkMacSystemFont, \"Segoe UI\", sans-serif;\n"
    ∷ "      background:\n"
    ∷ "        radial-gradient(circle at 18% 10%, rgba(54,231,255,.22), transparent 31rem),\n"
    ∷ "        radial-gradient(circle at 88% 18%, rgba(255,95,215,.20), transparent 28rem),\n"
    ∷ "        linear-gradient(145deg, #05070d 0%, #0d1322 54%, #060914 100%);\n"
    ∷ "      color: var(--text);\n" ∷ "    }\n" ∷ "    a { color: inherit; }\n"
    ∷ "    .shell { width: min(1120px, calc(100% - 32px)); margin: 0 auto; }\n"
    ∷ "    .hero { min-height: 100vh; display: grid; gap: 28px; align-content: center; padding: 42px 0; }\n"
    ∷ "    .connect { padding: 28px 0 56px; }\n" ∷ "    .hero-copy { max-width: 760px; }\n"
    ∷ "    .eyebrow { margin: 0 0 10px; color: var(--cyan); font-size: .78rem; font-weight: 800; letter-spacing: .14em; text-transform: uppercase; }\n"
    ∷ "    h1 { margin: 0; font-size: clamp(2.5rem, 8vw, 5.8rem); line-height: .95; letter-spacing: 0; }\n"
    ∷ "    h2 { margin: 0; font-size: 1.25rem; letter-spacing: 0; }\n"
    ∷ "    .lead { max-width: 720px; margin: 18px 0 0; color: var(--muted); font-size: clamp(1.08rem, 3vw, 1.35rem); line-height: 1.55; }\n"
    ∷ "    .lead.compact { font-size: 1rem; }\n" ∷ "    .primary-link, .button {\n"
    ∷ "      display: inline-flex; align-items: center; justify-content: center; min-height: 48px; border: 1px solid var(--line);\n"
    ∷ "      border-radius: 8px; padding: 0 18px; color: var(--text); background: var(--panel); text-decoration: none;\n"
    ∷ "      font: inherit; font-weight: 800; cursor: pointer;\n" ∷ "    }\n"
    ∷ "    .primary-link, .button.primary { border: 0; background: linear-gradient(135deg, var(--cyan), var(--green)); color: #061018; box-shadow: 0 12px 36px rgba(54,231,255,.24); }\n"
    ∷ "    .hero .primary-link { margin-top: 26px; }\n"
    ∷ "    .pricing { display: grid; grid-template-columns: repeat(3, minmax(0, 1fr)); gap: 14px; }\n"
    ∷ "    .tariff, .status-card, .instructions details {\n"
    ∷ "      position: relative; border: 1px solid var(--line); border-radius: 8px; background: var(--panel);\n"
    ∷ "      backdrop-filter: blur(18px); box-shadow: 0 16px 50px rgba(0,0,0,.24);\n" ∷ "    }\n"
    ∷ "    .tariff { padding: 20px; display: grid; gap: 12px; align-content: start; }\n"
    ∷ "    .tariff p { margin: 0; color: var(--muted); line-height: 1.45; }\n"
    ∷ "    .price { color: var(--text) !important; font-size: 2.05rem; font-weight: 900; }\n"
    ∷ "    .badge { position: absolute; top: 14px; right: 14px; color: #061018; background: var(--green); border-radius: 999px; padding: 5px 9px; font-size: .74rem; font-weight: 900; }\n"
    ∷ "    .steps { display: grid; grid-template-columns: repeat(3, minmax(0, 1fr)); gap: 14px; }\n"
    ∷ "    .step { display: flex; align-items: flex-start; gap: 12px; border: 1px solid var(--line); border-radius: 8px; padding: 16px; background: var(--panel); }\n"
    ∷ "    .step p { margin: 0; color: var(--muted); line-height: 1.45; }\n"
    ∷ "    .step-num { flex-shrink: 0; width: 28px; height: 28px; display: grid; place-items: center; border-radius: 50%; background: linear-gradient(135deg, var(--cyan), var(--green)); color: #061018; font-weight: 900; }\n"
    ∷ "    .notes { display: flex; flex-wrap: wrap; gap: 10px; color: var(--muted); }\n"
    ∷ "    .notes span { border: 1px solid var(--line); border-radius: 999px; padding: 9px 12px; background: rgba(255,255,255,.05); }\n"
    ∷ "    .configs { margin-top: 22px; border-top: 1px solid var(--line); padding-top: 18px; }\n"
    ∷ "    .configs-title { margin: 0 0 12px; font-size: .82rem; font-weight: 800; letter-spacing: .08em; text-transform: uppercase; color: var(--muted); }\n"
    ∷ "    .configs-list { list-style: none; margin: 0; padding: 0; display: grid; gap: 8px; }\n"
    ∷ "    .configs-list li { display: flex; align-items: center; justify-content: space-between; gap: 12px; border: 1px solid var(--line); border-radius: 8px; padding: 12px 14px; background: rgba(0,0,0,.18); }\n"
    ∷ "    .cfg-name { font-weight: 700; }\n"
    ∷ "    .cfg-kind { font-size: .74rem; font-weight: 800; letter-spacing: .04em; color: var(--cyan); background: rgba(54,231,255,.12); border-radius: 999px; padding: 4px 10px; }\n"
    ∷ "    .configs-hint { margin: 12px 0 0; color: var(--muted); font-size: .9rem; line-height: 1.5; }\n"
    ∷ "    .instructions-title { margin: 0; font-size: .82rem; font-weight: 800; letter-spacing: .08em; text-transform: uppercase; color: var(--muted); }\n"
    ∷ "    .tag { display: inline-block; margin-left: 8px; padding: 2px 8px; border-radius: 999px; background: rgba(54,231,255,.16); color: var(--cyan); font-size: .68rem; font-weight: 800; letter-spacing: .04em; vertical-align: middle; }\n"
    ∷ "    .status-card { margin-top: 22px; padding: 24px; overflow: hidden; }\n"
    ∷ "    .status-card.active { background: linear-gradient(145deg, rgba(54,231,255,.14), rgba(255,255,255,.08)); }\n"
    ∷ "    .status-card.expired { background: linear-gradient(145deg, rgba(255,95,95,.14), rgba(255,255,255,.08)); }\n"
    ∷ "    .actions { display: flex; flex-wrap: wrap; gap: 10px; margin-top: 22px; }\n"
    ∷ "    .sub-url { overflow-wrap: anywhere; color: var(--muted); border: 1px solid var(--line); border-radius: 8px; padding: 12px; background: rgba(0,0,0,.22); }\n"
    ∷ "    .hint { color: var(--green); }\n"
    ∷ "    .qr-wrap { width: min(320px, 100%); margin-top: 14px; padding: 12px; border-radius: 8px; background: #fff; }\n"
    ∷ "    .qr-wrap img { display: block; width: 100%; height: auto; }\n"
    ∷ "    .instructions { display: grid; gap: 10px; margin-top: 16px; }\n"
    ∷ "    summary { padding: 16px; cursor: pointer; font-weight: 850; }\n"
    ∷ "    ol { margin: 0; padding: 0 22px 18px 38px; color: var(--muted); line-height: 1.65; }\n"
    ∷ "    .compact-pricing { margin-top: 16px; grid-template-columns: repeat(3, minmax(0, 1fr)); }\n"
    ∷ "    .compact-pricing > h2 { grid-column: 1 / -1; margin-top: 12px; }\n"
    ∷ "    .tariff.compact .price { font-size: 1.45rem; }\n" ∷ "    @media (max-width: 760px) {\n"
    ∷ "      .shell { width: min(100% - 22px, 560px); }\n"
    ∷ "      .hero { min-height: auto; padding: 26px 0 38px; }\n"
    ∷ "      .pricing, .compact-pricing, .steps { grid-template-columns: 1fr; }\n"
    ∷ "      h1 { font-size: clamp(2.45rem, 15vw, 4rem); }\n"
    ∷ "      .status-card { padding: 18px; }\n"
    ∷ "      .actions { display: grid; grid-template-columns: 1fr; }\n"
    ∷ "      .button, .primary-link { width: 100%; }\n" ∷ "    }\n" ∷ "  </style>\n" ∷ "</head>\n"
    ∷ "<body>" ∷ []

-- `_page`
unfoldable pub page : String → String → String
unfolding concat escape
page title body =
    concat
      (concat page_head ∷ escape title ∷ concat page_style ∷ body ∷ "</body>\n" ∷ "</html>" ∷ [])
