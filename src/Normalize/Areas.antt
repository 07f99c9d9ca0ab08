-- ===== src/Normalize/Areas.antt =====
-- core/normalize.py, `split_areas_raw`, `AREA_LABEL_MAP` and `normalize_areas`.
use dsa_api.Base.{ℕ, Option, none, some, List, [], ◌∷◌, Dict, get, if◌then◌else◌}
use dsa_api.Enums.{AreaEnum, AreaEnum-discrete}
use dsa_api.Text.{Text, text, text_discrete, strip, is_empty}
use dsa_api.Normalize.Chars.{Unicode, split}

-- The parts that are not blank, stripped.
unfoldable pub nonblank : List Text → List Text
nonblank [] = []
nonblank (p ∷ ps) = let rest = nonblank ps in if is_empty (strip p) then rest else strip p ∷ rest

-- The code of the semicolon.
abbrev pub semicolon : ℕ
semicolon = 59

unfoldable pub split_areas_raw : Option Text → List Text
split_areas_raw none = []
split_areas_raw (some raw) = if is_empty raw then [] else nonblank (split semicolon raw)

abbrev pub area_label_map : Dict Text AreaEnum
area_label_map =
    (text "intellectual property infringements", AreaEnum.ip_infringement)
    ∷ (text "illegal speech", AreaEnum.illegal_speech)
    ∷ (text "terrorist content", AreaEnum.terrorist_content)
    ∷ (text "csam", AreaEnum.csam)
    ∷ (text "protection of minors violations", AreaEnum.protection_of_minors)
    ∷ (text "cyberviolence", AreaEnum.cyber_violence)
    ∷ (text "cyber violence against women", AreaEnum.gender_based_violence)
    ∷ (text "scams and fraud", AreaEnum.scams_fraud)
    ∷ (text "illegal products", AreaEnum.illegal_products)
    ∷ (text "consumer protection", AreaEnum.consumer_protection)
    ∷ (text "consumer information infringements", AreaEnum.consumer_protection)
    ∷ (text "disinformation", AreaEnum.disinformation)
    ∷ (text "data protection and privacy violations", AreaEnum.data_privacy)
    ∷ (text "risk for public security", AreaEnum.public_security)
    ∷ (text "violence", AreaEnum.violence)
    ∷ (text "incitement to self-harm", AreaEnum.self_harm)
    ∷ (text "animal welfare", AreaEnum.animal_welfare)
    ∷ (text "negative effects on civil discourse and elections", AreaEnum.civil_discourse)
    ∷ []

-- `d.setdefault(k, None)` on a dictionary that is only its keys.
unfoldable pub set_default : AreaEnum → List AreaEnum → List AreaEnum
set_default a [] = a ∷ []
set_default a (b ∷ seen) =
    let rest = set_default a seen in
    elim (AreaEnum-discrete b a) [ yes _ ↦ b ∷ seen | no _ ↦ b ∷ rest ]

module _ (unicode : Unicode) where
  -- `AREA_LABEL_MAP.get(label.strip().lower(), AreaEnum.other)`
  unfoldable pub area_of : Text → AreaEnum
  area_of label = elim (get text_discrete (unicode.lower (strip label)) area_label_map) [
    | none ↦ AreaEnum.other
    | some area ↦ area
  ]

  unfoldable pub add_areas : List AreaEnum → List Text → List AreaEnum
  add_areas seen [] = seen
  add_areas seen (label ∷ labels) = add_areas (set_default (area_of label) seen) labels

  unfoldable pub normalize_areas : List Text → List AreaEnum
  unfolding add_areas
  normalize_areas labels = add_areas [] labels
