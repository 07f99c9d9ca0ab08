-- ===== src/Migration/Tests.antt =====
-- The migration beside another table.
use dsa_api.Base.{◌≡◌, refl, some, [], ◌∷◌, ◌++◌, All, get, length}
use dsa_api.Text.{text, text_discrete}
use dsa_api.Migration.Catalog.{any_text, table, Catalog, is_name, execute_all}
use dsa_api.Migration.Statements.{column, upgrade, downgrade}
use dsa_api.Migration.Metadata.{metadata}
use dsa_api.Migration.Schema.{IsUntaken, upgrade-downgrade}

abbrev catalog : Catalog
catalog =
    (text "alembic_version", table (column "version_num" any_text ∷ []) (text "version_num")) ∷ []

catalog-IsUntaken : IsUntaken catalog
unfolding is_name text_discrete
catalog-IsUntaken = (
  (refl, tt),
  (
    (refl, tt),
    (
      (refl, tt),
      ((refl, tt), ((refl, tt), ((refl, tt), ((refl, tt), ((refl, tt), ((refl, tt), tt)))))),
    ),
  ),
)

upgrade-downgrade_example :
    (s : Catalog) × (execute_all upgrade catalog ≡ some (catalog ++ s))
    × (execute_all downgrade (catalog ++ s) ≡ some catalog)
    × All (λ e. get text_discrete e.0 s ≡ some e.1) metadata
    × (length s ≡ length metadata)
upgrade-downgrade_example = upgrade-downgrade catalog catalog-IsUntaken
