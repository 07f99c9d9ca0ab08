-- ===== src/Migration/Apart.antt =====
-- Statements on names that a catalog does not have leave it alone.
use dsa_api.Base.{
  ◌≡◌, refl, ap, ◌∙◌, false, not, Option, none, some, List, [], ◌∷◌, ◌++◌, All, get, filter_by,
  filter_by-append, ◌>>=◌, arith,
}
use dsa_api.Text.{Text, text_discrete}
use dsa_api.Migration.Catalog.{
  Relation, table, index, Catalog, Statement, create_table, create_index, drop_index, drop_table,
  is_name, touches, created, created_on, dropped_index, dropped_table, execute, execute_all,
}

-- No relation has the name, and no index is on it.
abbrev pub IsFree : Catalog → Text → Type 0
IsFree c name = All (λ e. touches name e ≡ false) c

-- The names that a statement is about are free.
abbrev pub IsApart : Catalog → Statement → Type 0
IsApart c (create_table name columns key) = IsFree c name
IsApart c (create_index name on columns method) = IsFree c name × IsFree c on
IsApart c (drop_index name) = IsFree c name
IsApart c (drop_table name) = IsFree c name

-- Relations before others.
abbrev pub before : Catalog → Option Catalog → Option Catalog
before c none = none
before c (some d) = some (c ++ d)

get-free :
    (name : Text) (c d : Catalog)
    → IsFree c name
    → get text_discrete name (c ++ d) ≡ get text_discrete name d
unfolding get is_name
get-free name [] d h = refl
get-free name (e ∷ c) d h = ground (arith, get-free name c d h.1)

kept_index :
    (name : Text) (c : Catalog) → IsFree c name → filter_by (λ e. not (is_name e.0 name)) c ≡ c
unfolding is_name
kept_index name [] h = refl
kept_index name (e ∷ c) h = ground (arith, kept_index name c h.1)

kept_table :
    (name : Text) (c : Catalog) → IsFree c name → filter_by (λ e. not (touches name e)) c ≡ c
kept_table name [] h = refl
kept_table name (e ∷ c) h = rw (h.0, kept_table name c h.1) refl

append_assoc : (c d e : Catalog) → (c ++ d) ++ e ≡ c ++ (d ++ e)
append_assoc [] d e = refl
append_assoc (x ∷ c) d e = ap (λ z. x ∷ z) (append_assoc c d e)

before-created :
    (there : Option Relation) (entry : Text × Relation) (c d : Catalog)
    → created there entry (c ++ d) ≡ before c (created there entry d)
before-created none entry c d = ap some (append_assoc c d (entry ∷ []))
before-created (some r) entry c d = refl

before-created_on :
    (on there : Option Relation) (entry : Text × Relation) (c d : Catalog)
    → created_on on there entry (c ++ d) ≡ before c (created_on on there entry d)
before-created_on (some (table columns key)) there entry c d = before-created there entry c d
before-created_on (some (index on columns method)) there entry c d = refl
before-created_on none there entry c d = refl

before-dropped_index :
    (there : Option Relation) (name : Text) (c d : Catalog)
    → IsFree c name
    → dropped_index there name (c ++ d) ≡ before c (dropped_index there name d)
before-dropped_index (some (index on columns method)) name c d h = ap some (
    filter_by-append (λ e. not (is_name e.0 name)) c d
    ∙ ap (λ z. z ++ filter_by (λ e. not (is_name e.0 name)) d) (kept_index name c h))
before-dropped_index (some (table columns key)) name c d h = refl
before-dropped_index none name c d h = refl

before-dropped_table :
    (there : Option Relation) (name : Text) (c d : Catalog)
    → IsFree c name
    → dropped_table there name (c ++ d) ≡ before c (dropped_table there name d)
before-dropped_table (some (table columns key)) name c d h = ap some (
    filter_by-append (λ e. not (touches name e)) c d
    ∙ ap (λ z. z ++ filter_by (λ e. not (touches name e)) d) (kept_table name c h))
before-dropped_table (some (index on columns method)) name c d h = refl
before-dropped_table none name c d h = refl

execute-before :
    (s : Statement) (c d : Catalog) → IsApart c s → execute s (c ++ d) ≡ before c (execute s d)
unfolding execute
execute-before (create_table name columns key) c d h =
    rw (get-free name c d h) (before-created _ _ c d)
execute-before (create_index name on columns method) c d h =
    rw (get-free on c d h.1, get-free name c d h.0) (before-created_on _ _ _ c d)
execute-before (drop_index name) c d h =
    rw (get-free name c d h) (before-dropped_index _ name c d h)
execute-before (drop_table name) c d h =
    rw (get-free name c d h) (before-dropped_table _ name c d h)

bind-before :
    (o : Option Catalog) (f : Catalog → Option Catalog) (c : Catalog)
    → ((d : Catalog) → f (c ++ d) ≡ before c (f d))
    → (before c o >>= f) ≡ before c (o >>= f)
bind-before none f c h = refl
bind-before (some d) f c h = h d

pub execute_all-before :
    (ss : List Statement) (c d : Catalog)
    → All (IsApart c) ss
    → execute_all ss (c ++ d) ≡ before c (execute_all ss d)
unfolding execute_all
execute_all-before [] c d h = refl
execute_all-before (s ∷ ss) c d h =
    ap (λ o. o >>= execute_all ss) (execute-before s c d h.0)
    ∙ bind-before (execute s d) (execute_all ss) c (λ x. execute_all-before ss c x h.1)
