-- ===== src/Migration/Schema.antt =====
-- migrations/versions/edce10f23379_initial_schema.py with core/db.py: what an upgrade creates, and
-- that a downgrade takes it away again.
use dsa_api.Base.{◌≡◌, refl, sym, ap, ◌∙◌, Option, none, some, [], ◌∷◌, ◌++◌, All, get, length}
use dsa_api.Text.{text_discrete}
use dsa_api.Migration.Catalog.{Catalog, is_name, execute, execute_all}
use dsa_api.Migration.Statements.{upgrade, downgrade}
use dsa_api.Migration.Metadata.{metadata}
use dsa_api.Migration.Apart.{IsFree, IsApart, before, execute_all-before}

program : Unit {0}
unfolding text_discrete get is_name execute execute_all
program = tt

-- What the upgrade makes of an empty database.
schema_or : Option Catalog → Catalog
schema_or none = []
schema_or (some c) = c

unfoldable schema : Catalog
unfolding program schema_or
schema = schema_or (execute_all upgrade [])

upgraded : execute_all upgrade [] ≡ some schema
unfolding program schema_or schema
upgraded = refl

downgraded : execute_all downgrade schema ≡ some []
unfolding program schema_or schema
downgraded = refl

described :
    All (λ e. get text_discrete e.0 schema ≡ some e.1) metadata × (length schema ≡ length metadata)
unfolding program schema_or schema
described = ((refl, (refl, (refl, (refl, (refl, (refl, (refl, (refl, (refl, tt))))))))), refl)

-- No name of the metadata is taken.
abbrev pub IsUntaken : Catalog → Type 0
IsUntaken c = All (λ e. IsFree c e.0) metadata

upgrade-IsApart : (c : Catalog) → IsUntaken c → All (IsApart c) upgrade
upgrade-IsApart c
      (flaggers, (country, (domain, (status, (areas, (events, (tf, (time, (runs, _))))))))) =
    (
      runs,
      (
        events,
        (
          (tf, events),
          (
            (time, events),
            (
              flaggers,
              (
                (areas, flaggers),
                ((country, flaggers), ((domain, flaggers), ((status, flaggers), tt))),
              ),
            ),
          ),
        ),
      ),
    )

downgrade-IsApart : (c : Catalog) → IsUntaken c → All (IsApart c) downgrade
downgrade-IsApart c
      (flaggers, (country, (domain, (status, (areas, (events, (tf, (time, (runs, _))))))))) =
    (status, (domain, (country, (areas, (flaggers, (time, (tf, (events, (runs, tt)))))))))

append_nil : (c : Catalog) → c ++ [] ≡ c
append_nil [] = refl
append_nil (e ∷ c) = ap (λ z. e ∷ z) (append_nil c)

-- In a database that has none of the names, nor an index on them, the upgrade adds exactly the
-- tables and the indexes of the metadata, and the downgrade takes them away again.
pub upgrade-downgrade :
    (c : Catalog)
    → IsUntaken c
    → (s : Catalog) × (execute_all upgrade c ≡ some (c ++ s))
      × (execute_all downgrade (c ++ s) ≡ some c)
      × All (λ e. get text_discrete e.0 s ≡ some e.1) metadata
      × (length s ≡ length metadata)
upgrade-downgrade c h = (
  schema,
  ap (execute_all upgrade) (sym (append_nil c))
      ∙ execute_all-before upgrade c [] (upgrade-IsApart c h)
      ∙ ap (before c) upgraded,
  execute_all-before downgrade c schema (downgrade-IsApart c h)
      ∙ ap (before c) downgraded
      ∙ ap some (append_nil c),
  described.0,
  described.1,
)
