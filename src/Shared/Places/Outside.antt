-- ===== src/Shared/Places/Outside.antt =====
-- core_shared/constants.py: OUTSIDE_LOCS.
use alert_bot_project.Common.{codes, List, [], ◌∷◌}
use alert_bot_project.Shared.Places.{Place, place, presented}

unfoldable pub outside_locs : List Place
outside_locs =
    place (codes "usatovo") (codes "🌾") (codes "Усатове") (codes "усатов" ∷ [])
    ∷ place (codes "yuzhne") (codes "🌻") (codes "Южне")
        (codes "южн" ∷ codes "южно" ∷ codes "южний" ∷ codes "південн" ∷ [])
    ∷ place (codes "belyaevka") (codes "🌾") (codes "Біляївка")
        (codes "беляевк" ∷ codes "біляївк" ∷ codes "беляивк" ∷ [])
    ∷ place (codes "ovidiopol") (codes "🌅") (codes "Овідіополь")
        (codes "овидиопол" ∷ codes "овідіопол" ∷ codes "овидиополь" ∷ [])
    ∷ place (codes "chernomorsk") (codes "⚓") (codes "Чорноморськ") (
        codes "черноморс"
        ∷ codes "чорноморс"
        ∷ codes "ильичевск"
        ∷ codes "іллічівськ"
        ∷ codes "ильич"
        ∷ codes "ілліч"
        ∷ [])
    ∷ place (codes "chernomorka") (codes "🌊") (codes "Чорноморка")
        (codes "черноморк" ∷ codes "чорноморк" ∷ [])
    ∷ place (codes "novi_belyari") (codes "🌳") (codes "Нові Білярі")
        (codes "новые беляр" ∷ codes "нові біляр" ∷ codes "новие беляр" ∷ [])
    ∷ place (codes "opz") (codes "🏭") (codes "ОПЗ / Припортовий")
        (codes "припортов" ∷ codes "опз" ∷ [])
    ∷ place (codes "vyzyrka") (presented "🏘") (codes "Визирка")
        (codes "визирк" ∷ codes "візирк" ∷ [])
    ∷ place (codes "sychavka") (codes "🏡") (codes "Сичавка") (codes "сычавк" ∷ codes "сичавк" ∷ [])
    ∷ place (codes "reni") (presented "🛳") (codes "Рені") (codes "рен" ∷ [])
    ∷ place (codes "izmail") (codes "🚢") (codes "Ізмаїл")
        (codes "измаил" ∷ codes "ізмаїл" ∷ codes "измаїл" ∷ [])
    ∷ place (codes "tatarbunary") (presented "🏞") (codes "Татарбунари")
        (codes "татарбунар" ∷ codes "татарбун" ∷ [])
    ∷ place (codes "berezovka") (codes "🌳") (codes "Березівка")
        (codes "березовк" ∷ codes "березівк" ∷ codes "березевк" ∷ [])
    ∷ place (codes "vilkovo") (codes "🚤") (codes "Вилкове") (codes "вилков" ∷ codes "вілков" ∷ [])
    ∷ place (codes "avangard") (codes "🎯") (codes "Авангард") (codes "авангард" ∷ [])
    ∷ place (codes "limanka") (presented "🏞") (codes "Лиманка") (codes "лиманк" ∷ [])
    ∷ place (codes "zatoka") (presented "🏖") (codes "Затока") (codes "заток" ∷ codes "бугаз" ∷ [])
    ∷ place (codes "sanzheika") (codes "🌊") (codes "Санжійка")
        (codes "санжейк" ∷ codes "санжійк" ∷ [])
    ∷ place (codes "hrybivka") (presented "🏕") (codes "Грибівка")
        (codes "грибовк" ∷ codes "грибівк" ∷ [])
    ∷ place (codes "burlacha_balka") (codes "⚓") (codes "Бурлача Балка") (codes "бурлач" ∷ [])
    ∷ place (codes "belgorod") (codes "🏰") (codes "Білгород-Дністровський")
        (codes "белгород" ∷ codes "білгород" ∷ codes "аккерман" ∷ codes "бд" ∷ [])
    ∷ place (codes "teplodar") (codes "🔥") (codes "Теплодар") (codes "теплодар" ∷ [])
    ∷ place (codes "dobroslav") (codes "🌄") (codes "Доброслав") (codes "доброслав" ∷ [])
    ∷ place (codes "kurysove") (codes "🏡") (codes "Курісове")
        (codes "курисов" ∷ codes "курісов" ∷ [])
    ∷ place (codes "tuzly") (codes "🌊") (codes "Тузли") (codes "тузл" ∷ codes "тузлi" ∷ [])
    ∷ place (codes "kurortne") (presented "🏖") (codes "Курортне")
        (codes "курортн" ∷ codes "куротн" ∷ [])
    ∷ place (codes "shyroke") (codes "🌾") (codes "Широке") (codes "широк" ∷ [])
    ∷ place (codes "kulevcha") (presented "🏘") (codes "Кулевча")
        (codes "кулевч" ∷ codes "кулівч" ∷ [])
    ∷ place (codes "sarata") (presented "🛤") (codes "Сарата") (codes "сарат" ∷ [])
    ∷ place (codes "prymorske") (codes "🌊") (codes "Приморське")
        (codes "приморск" ∷ codes "приморськ" ∷ [])
    ∷ place (codes "serhiivka") (codes "🏥") (codes "Сергіївка")
        (codes "сергеевк" ∷ codes "сергіївк" ∷ codes "сиргеевк" ∷ [])
    ∷ place (codes "marazliivka") (codes "🏡") (codes "Маразліївка")
        (codes "маразлиевк" ∷ codes "маразліївк" ∷ codes "моразлиевк" ∷ [])
    ∷ place (codes "mizhlymannia") (presented "🏞") (codes "Міжлимання")
        (codes "межлиман" ∷ codes "міжлиман" ∷ [])
    ∷ place (codes "nati") (codes "🏭") (codes "НАТІ")
        (codes "нати" ∷ codes "наті" ∷ codes "нате" ∷ [])
    ∷ place (codes "kholodna_balka") (codes "🧊") (codes "Холодна Балка") (
        codes "холодная балк"
        ∷ codes "холодна балк"
        ∷ codes "холодную балк"
        ∷ codes "холодну балк"
        ∷ [])
    ∷ place (codes "velyka_balka") (presented "⛰") (codes "Велика Балка")
        (codes "велик балк" ∷ codes "великую балк" ∷ codes "велику балк" ∷ [])
    ∷ place (codes "dachne") (codes "🏡") (codes "Дачне") (codes "дачн" ∷ [])
    ∷ place (codes "nerubaiske") (codes "🪨") (codes "Нерубайське")
        (codes "неруб" ∷ codes "нерубайск" ∷ codes "нерубайськ" ∷ [])
    ∷ place (codes "bolshevik") (codes "🏭") (codes "Більшовик")
        (codes "большевик" ∷ codes "більшовик" ∷ [])
    ∷ place (codes "krasnosilka") (presented "🏘") (codes "Красносілка")
        (codes "красноселк" ∷ codes "красносілк" ∷ [])
    ∷ place (codes "avhustivka") (codes "🏡") (codes "Августівка")
        (codes "августовк" ∷ codes "августівк" ∷ [])
    ∷ place (codes "altestove") (codes "🌳") (codes "Алтестове") (codes "алтестов" ∷ [])
    ∷ place (codes "ilichanka") (codes "🏡") (codes "Іллічанка")
        (codes "ильичанк" ∷ codes "іллічанк" ∷ [])
    ∷ place (codes "kryzhanivka") (codes "🌊") (codes "Крижанівка")
        (codes "крыжановк" ∷ codes "крижанівк" ∷ [])
    ∷ place (codes "velykyi_dalnyk") (presented "🛣") (codes "Великий Дальник")
        (codes "дальник" ∷ [])
    ∷ place (codes "kobleve") (codes "🍷") (codes "Коблеве") (codes "коблев" ∷ [])
    ∷ place (codes "rybakivka") (codes "🐟") (codes "Рибаківка")
        (codes "рыбаковк" ∷ codes "рибаківк" ∷ [])
    ∷ place (codes "monashi") (codes "🌾") (codes "Монаші") (codes "монаш" ∷ [])
    ∷ place (codes "aleksandrovka") (presented "🏘") (codes "Олександрівка")
        (codes "александровк" ∷ codes "олександрівк" ∷ codes "александр" ∷ [])
    ∷ place (codes "rozdilna") (presented "🛤") (codes "Роздільна")
        (codes "раздельн" ∷ codes "роздільн" ∷ [])
    ∷ []
