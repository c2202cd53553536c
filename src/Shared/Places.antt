-- ===== src/Shared/Places.antt =====
-- core_shared/constants.py: the monitored places and the categories of threats, in the order of the
-- source. U+FE0F is written as a code point.
pub mod Odesa
pub mod Outside
use alert_bot_project.Common.{Text, codes, Bool, true, false, List, [], ◌∷◌, ◌++◌, ◌||◌, same}
use Prim.Native.String.{String}

-- An item of ODESA_LOCS or OUTSIDE_LOCS.
pub record Place : Type 0 where
  pub key : Text
  pub emoji : Text
  pub display : Text
  pub patterns : List Text

abbrev pub place : Text → Text → Text → List Text → Place
place k e d ps = record { key = k; emoji = e; display = d; patterns = ps }

-- A text in the presentation of an emoji.
abbrev pub presented : String → Text
presented s = codes s ++ 0xfe0f ∷ []

pub record Category : Type 0 where
  pub name : Text
  pub keywords : List Text

abbrev category : Text → List Text → Category
category n ks = record { name = n; keywords = ks }

unfoldable pub kr_potvory : List Category
kr_potvory =
    category (codes "Мопеди") (
      codes "мопед"
      ∷ codes "дрон"
      ∷ codes "шахед"
      ∷ codes "табун"
      ∷ codes "бпла"
      ∷ codes "літачок"
      ∷ codes "атака"
      ∷ codes "шахід"
      ∷ codes "шлюхед"
      ∷ codes "шлюх"
      ∷ codes "турбодизел"
      ∷ codes "турбодизельн"
      ∷ codes "реактивыч"
      ∷ codes "реактив"
      ∷ codes "reaktivn"
      ∷ codes "шмээ"
      ∷ codes "шмэээ"
      ∷ codes "нюх-нюх"
      ∷ codes "нюхнюх"
      ∷ codes "шехед"
      ∷ [])
    ∷ category (codes "Ракети") (
        codes "ракет"
        ∷ codes "балумба"
        ∷ codes "балістик"
        ∷ codes "балистик"
        ∷ codes "баллистик"
        ∷ codes "іскандер"
        ∷ codes "искандер"
        ∷ codes "касет"
        ∷ codes "кассет"
        ∷ codes "вихід"
        ∷ codes "выход"
        ∷ codes "пуск"
        ∷ codes "х101"
        ∷ codes "калібр"
        ∷ codes "калибр"
        ∷ codes "х22"
        ∷ codes "х-22"
        ∷ codes "циркон"
        ∷ codes "цыркон"
        ∷ codes "отрк"
        ∷ codes "ту-95"
        ∷ codes "ту95"
        ∷ codes "ту-22"
        ∷ codes "ту22"
        ∷ [])
    ∷ category (codes "Морські цілі") (
        codes "бэк"
        ∷ codes "мбэк"
        ∷ codes "катер"
        ∷ codes "морской дрон"
        ∷ codes "морський дрон"
        ∷ [])
    ∷ []

-- key in the dictionary
abbrev pub has_place : Text → List Place → Bool
has_place k [] = false
has_place k (p ∷ ps) = same k p.key || has_place k ps

abbrev pub has_category : Text → List Category → Bool
has_category c [] = false
has_category c (p ∷ ps) = same c p.name || has_category c ps
