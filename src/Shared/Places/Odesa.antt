-- ===== src/Shared/Places/Odesa.antt =====
-- core_shared/constants.py: ODESA_LOCS.
use alert_bot_project.Common.{codes, List, [], ◌∷◌}
use alert_bot_project.Shared.Places.{Place, place, presented}

unfoldable pub odesa_locs : List Place
odesa_locs =
    place (codes "city") (presented "🏙") (codes "Місто (Загально)")
      (codes "город" ∷ codes "міст" ∷ codes "одеськ" ∷ codes "одес" ∷ [])
    ∷ place (codes "center") (codes "⚡") (codes "Центр")
        (codes "центр" ∷ codes "гор сад" ∷ codes "горсад" ∷ codes "дерибасовск" ∷ [])
    ∷ place (codes "cheremushki") (codes "🏢") (codes "Черемушки")
        (codes "черемушк" ∷ codes "черьомушк" ∷ codes "черемух" ∷ [])
    ∷ place (codes "kyivskyi_dist") (codes "🏢") (codes "Київський район")
        (codes "киевск" ∷ codes "київськ" ∷ [])
    ∷ place (codes "port") (codes "⚓") (codes "Порт")
        (codes "port" ∷ codes "порт" ∷ codes "морвокзал" ∷ [])
    ∷ place (codes "moldovanka") (codes "🚏") (codes "Молдованка")
        (codes "молдаванк" ∷ codes "молдованк" ∷ codes "молдовк" ∷ codes "молдаванц" ∷ [])
    ∷ place (codes "bugaevka") (codes "🚂") (codes "Бугаєвка")
        (codes "бугаевк" ∷ codes "бугаївк" ∷ codes "бугаївц" ∷ codes "бугаєвк" ∷ [])
    ∷ place (codes "slobodka") (presented "🏘") (codes "Слобідка")
        (codes "слободк" ∷ codes "слобідк" ∷ codes "слобідц" ∷ codes "слабодк" ∷ [])
    ∷ place (codes "tairovo") (codes "🌆") (codes "Таїрове")
        (codes "таиров" ∷ codes "таїров" ∷ codes "таеров" ∷ [])
    ∷ place (codes "sovignon") (presented "🏖") (codes "Совіньйон")
        (codes "совиньон" ∷ codes "совіньйон" ∷ codes "савиньон" ∷ [])
    ∷ place (codes "lanzheron") (codes "🌊") (codes "Ланжерон")
        (codes "ланжерон" ∷ codes "лонжерон" ∷ [])
    ∷ place (codes "luzanovka") (presented "🏖") (codes "Лузанівка")
        (codes "лузановк" ∷ codes "лузанівк" ∷ [])
    ∷ place (codes "kotovskogo") (presented "🏚") (codes "Селище Котовського")
        (codes "поселок" ∷ codes "поскот" ∷ codes "котовск" ∷ codes "котовськ" ∷ [])
    ∷ place (codes "fontanka") (codes "⛲") (codes "Фонтанка")
        (codes "фонтанк" ∷ codes "фантан" ∷ codes "фонтан" ∷ codes "фонатнк" ∷ [])
    ∷ place (codes "peresyp") (codes "🌉") (codes "Пересип") (codes "пересып" ∷ codes "пересип" ∷ [])
    ∷ place (codes "arkadia") (codes "🌴") (codes "Аркадія")
        (codes "аркади" ∷ codes "аркаді" ∷ codes "оркади" ∷ [])
    ∷ place (codes "coast") (codes "🌊") (codes "Узбережжя")
        (codes "берег" ∷ codes "побереж" ∷ codes "узбереж" ∷ codes "море" ∷ codes "моря" ∷ [])
    ∷ []
