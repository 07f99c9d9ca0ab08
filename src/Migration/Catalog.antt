-- ===== src/Migration/Catalog.antt =====
-- The relations of a database, and the statements on them that the migration issues.
use dsa_api.Base.{
  ℕ, Bool, true, false, not, ◌||◌, Option, none, some, List, [], ◌∷◌, ◌++◌, Dict, get, filter_by,
  ◌>>=◌,
}
use dsa_api.Text.{Text, text_discrete}

pub data ColumnType : Type 0 where
  uuid : ColumnType
  any_text : ColumnType
  char : ℕ → ColumnType
  integer : ColumnType
  big_integer : ColumnType
  jsonb : ColumnType
  calendar_date : ColumnType
  timestamp_tz : ColumnType

-- What fills a column that is not given.
pub data Filler : Type 0 where
  nothing : Filler
  sequence : Filler
  now : Filler

pub record Column : Type 0 where
  pub name : Text
  pub type : ColumnType
  pub nullable : Bool
  pub filler : Filler

pub data Method : Type 0 where
  btree : Method
  gin : Method

-- Tables and indexes share one space of names.
pub data Relation : Type 0 where
  table : List Column → (primary_key : Text) → Relation
  index : (on : Text) → List Text → Method → Relation

abbrev pub Catalog : Type 0
Catalog = Dict Text Relation

pub data Statement : Type 0 where
  create_table : Text → List Column → (primary_key : Text) → Statement
  create_index : Text → (on : Text) → List Text → Method → Statement
  drop_index : Text → Statement
  drop_table : Text → Statement

unfoldable pub is_name : Text → Text → Bool
is_name a b = elim (text_discrete a b) [ yes _ ↦ true | no _ ↦ false ]

abbrev pub is_index_on : Text → Relation → Bool
is_index_on name (table columns key) = false
is_index_on name (index on columns method) = is_name on name

-- A relation of that name, or an index on it.
abbrev pub touches : Text → Text × Relation → Bool
touches name (key, relation) = is_name key name || is_index_on name relation

-- The statements on what stands under the name that they are about.
abbrev pub created : Option Relation → Text × Relation → Catalog → Option Catalog
created none entry c = some (c ++ entry ∷ [])
created (some relation) entry c = none

abbrev pub created_on :
    Option Relation → Option Relation → Text × Relation → Catalog → Option Catalog
created_on (some (table columns key)) there entry c = created there entry c
created_on (some (index on columns method)) there entry c = none
created_on none there entry c = none

abbrev pub dropped_index : Option Relation → Text → Catalog → Option Catalog
dropped_index (some (index on columns method)) name c =
    some (filter_by (λ e. not (is_name e.0 name)) c)
dropped_index (some (table columns key)) name c = none
dropped_index none name c = none

abbrev pub dropped_table : Option Relation → Text → Catalog → Option Catalog
dropped_table (some (table columns key)) name c = some (filter_by (λ e. not (touches name e)) c)
dropped_table (some (index on columns method)) name c = none
dropped_table none name c = none

-- One statement, or its failure; a table takes its indexes with it.
unfoldable pub execute : Statement → Catalog → Option Catalog
execute (create_table name columns key) c =
    created (get text_discrete name c) (name, table columns key) c
execute (create_index name on columns method) c =
    created_on (get text_discrete on c) (get text_discrete name c) (name, index on columns method) c
execute (drop_index name) c = dropped_index (get text_discrete name c) name c
execute (drop_table name) c = dropped_table (get text_discrete name c) name c

unfoldable pub execute_all : List Statement → Catalog → Option Catalog
execute_all [] c = some c
execute_all (s ∷ ss) c = execute s c >>= execute_all ss
