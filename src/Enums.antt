-- ===== src/Enums.antt =====
-- core/enums.py: the four string enumerations, and the text that each member stands for.
use dsa_api.Text.{Text, text}

pub data AreaEnum : Type 0 where
  ip_infringement illegal_speech terrorist_content csam protection_of_minors : AreaEnum
  cyber_violence gender_based_violence scams_fraud illegal_products : AreaEnum
  consumer_protection disinformation data_privacy public_security violence : AreaEnum
  self_harm animal_welfare civil_discourse other : AreaEnum

unfoldable pub area_value : AreaEnum → Text
area_value ip_infringement = text "ip_infringement"
area_value illegal_speech = text "illegal_speech"
area_value terrorist_content = text "terrorist_content"
area_value csam = text "csam"
area_value protection_of_minors = text "protection_of_minors"
area_value cyber_violence = text "cyber_violence"
area_value gender_based_violence = text "gender_based_violence"
area_value scams_fraud = text "scams_fraud"
area_value illegal_products = text "illegal_products"
area_value consumer_protection = text "consumer_protection"
area_value disinformation = text "disinformation"
area_value data_privacy = text "data_privacy"
area_value public_security = text "public_security"
area_value violence = text "violence"
area_value self_harm = text "self_harm"
area_value animal_welfare = text "animal_welfare"
area_value civil_discourse = text "civil_discourse"
area_value other = text "other"

unfoldable pub AreaEnum-discrete : Discrete AreaEnum
AreaEnum-discrete = hlevel

pub data TfStatus : Type 0 where
  active suspended revoked removed : TfStatus

unfoldable pub status_value : TfStatus → Text
status_value active = text "active"
status_value suspended = text "suspended"
status_value revoked = text "revoked"
status_value removed = text "removed"

unfoldable pub TfStatus-discrete : Discrete TfStatus
TfStatus-discrete = hlevel

pub data EventType : Type 0 where
  created updated removed restored : EventType

unfoldable pub EventType-discrete : Discrete EventType
EventType-discrete = hlevel

pub data ScrapeRunStatus : Type 0 where
  running success failed partial : ScrapeRunStatus
