-- ===== src/Routes/ServedTests.antt =====
-- A page of the list after two runs by the models of their sources, the second failing to commit.
use mathlib.Core.List.Perm
use dsa_api.Base.{◌≡◌, refl, some, List, [], ◌∷◌, map, filter_by, length, true}
use dsa_api.Text.{Text, text}
use dsa_api.Models.{TrustedFlaggerOrm}
use dsa_api.Normalize.Chars.{ascii}
use dsa_api.Run.Scrape.{Outside, raised}
use dsa_api.Run.Always.{run_all}
use dsa_api.Run.Sources.{Net}
use dsa_api.Run.Tests.{empty_world}
use dsa_api.Run.SourceTests.{net, outside}
use dsa_api.Routes.Tables.{Database, ok, data_updated_at}
use dsa_api.Routes.Listing.{no_filters, matches, list_trusted_flaggers}
use dsa_api.Routes.Serialize.{TrustedFlagger, serialize}
use dsa_api.Routes.Replies.{meta, list_reply}
use dsa_api.Routes.Served.{IsServed, sourced, page_rows, run_all-list_reply}

abbrev runs : List (Net × Outside)
runs = (net, outside) ∷ (net, record outside { commit = raised (text "OSError") }) ∷ []

abbrev tables : Database
tables = record {
  flaggers = (run_all (map sourced runs) empty_world).flaggers;
  events = [];
  runs = [];
}

empty-IsServed : IsServed empty_world
empty-IsServed = record { table = tt; shown = refl }

abbrev same_order : List TrustedFlaggerOrm → List TrustedFlaggerOrm
same_order rows = rows

abbrev source : Text
source = text "https://x.eu"

run_all-list_reply_example :
    (shown : List TrustedFlagger) × (list_reply
        (λ t. [])
        source
        (list_trusted_flaggers ascii (λ p s. true) same_order no_filters 50 0 tables)
      ≡ ok (
        shown,
        meta
            (λ t. [])
            source
            (length (filter_by (matches ascii (λ p s. true) no_filters) tables.flaggers))
            50
            0
            (data_updated_at tables.runs),
      ))
    × (map serialize (page_rows ascii (λ p s. true) same_order Perm.refl no_filters 50 0 tables)
        ≡ map some shown)
run_all-list_reply_example =
    run_all-list_reply ascii (λ p s. true) same_order Perm.refl (λ t. []) source runs empty_world
      tables empty-IsServed refl no_filters 50 0 refl
