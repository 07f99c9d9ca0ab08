-- ===== src/Export/Files.antt =====
-- apps/scraper/export.py: `export_all` on the files under the export directory.
use dsa_api.Base.{Option, none, some, List, [], ◌++◌, map, Dict, put}
use dsa_api.Models.{TrustedFlaggerOrm, TrustedFlaggerEventOrm, Field, Snapshot}
use dsa_api.Text.{Text, text, text_discrete}
use dsa_api.Export.Dicts.{csv_columns, tf_to_dict, EventDict, event_to_dict, flatten_for_csv}

-- The files by their paths under the directory.
abbrev pub Files : Type 0
Files = Dict Text Text

-- The texts that `json.dumps` and the writer of `csv` make.
pub record Writers : Type 0 where
  pub dump_flaggers : List Snapshot → Text
  pub dump_events : List EventDict → Text
  pub csv_text : List Field → List (Dict Field Text) → Text

-- The snapshot of the page: its copy of the day, or an `OSError`.
pub data Copy : Type 0 where
  copied : (day content : Text) → Copy
  uncopied : Copy

-- The files, and the kinds that are returned with their paths.
abbrev pub Exported : Type 0
Exported = Files × Dict Text Text

abbrev pub write_file : Text → Text → Text → Exported → Exported
write_file kind path content (files, kinds) =
    (put text_discrete path content files, put text_discrete kind path kinds)

-- `_copy_source_snapshot`, whose failure is only logged; no snapshot or one that is not there is `none`.
abbrev pub with_copy : Option Copy → Exported → Exported
with_copy none e = e
with_copy (some uncopied) e = e
with_copy (some (copied day content)) e =
    write_file (text "source_snapshot") (text "data/source-snapshots/" ++ (day ++ text ".html"))
      content e

-- `by_name` and `by_time` are the database's ORDER BY.
module _ (writers : Writers) (by_name : List TrustedFlaggerOrm → List TrustedFlaggerOrm)
    (by_time : List TrustedFlaggerEventOrm → List TrustedFlaggerEventOrm) where
  unfoldable pub export_all :
      List TrustedFlaggerOrm → List TrustedFlaggerEventOrm → Option Copy → Files → Exported
  export_all flaggers events copy files =
      let tf_dicts = map tf_to_dict (by_name flaggers) in
      with_copy copy (
        write_file (text "changelog") (text "data/changelog.json")
          (writers.dump_events (map event_to_dict (by_time events)))
          (write_file (text "csv") (text "data/trusted-flaggers.csv")
            (writers.csv_text csv_columns (map flatten_for_csv tf_dicts))
            (write_file (text "json") (text "data/trusted-flaggers.json")
              (writers.dump_flaggers tf_dicts) (files, []))))
