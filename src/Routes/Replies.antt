-- ===== src/Routes/Replies.antt =====
-- apps/api/routers: the bodies that the routes of trusted_flaggers.py, changes.py and stats.py make
-- of what they find; a row that the model refuses is the framework's 500.
use mathlib.Core.Option
use dsa_api.Base.{ℕ, Option, none, some, List, [], ◌∷◌, map, ◌>>=◌}
use dsa_api.Enums.{EventType}
use dsa_api.Models.{
  Uuid, Time, TrustedFlaggerOrm, TrustedFlaggerEventOrm, Snapshot, Diff, uuid_text,
}
use dsa_api.Text.{Text, text}
use dsa_api.Routes.Tables.{Reply, ok, error, Paged}
use dsa_api.Routes.Lookup.{FoundRows}
use dsa_api.Routes.Changes.{ChangeRow, ChangePage}
use dsa_api.Routes.Stats.{StatsData}
use dsa_api.Routes.Serialize.{TrustedFlagger, serialize}

-- `[_serialize(row) for row in rows]`
unfoldable pub serialize_all : List TrustedFlaggerOrm → Option (List TrustedFlagger)
serialize_all [] = some []
serialize_all (row ∷ rows) =
    let rest = serialize_all rows in serialize row >>= λ shown. (rest >>= λ all. some (shown ∷ all))

-- `_meta`
pub record Meta : Type 0 where
  pub total : ℕ
  pub limit : ℕ
  pub offset : ℕ
  pub data_updated_at : Option Text
  pub source_url : Text

-- The meta of the routes that do not page.
pub record ShortMeta : Type 0 where
  pub total : Option ℕ
  pub scope : Option Text
  pub data_updated_at : Option Text
  pub source_url : Text

-- The dictionary of an event, of `_serialize_event` and of the changes, which name its flagger.
pub record EventBody : Type 0 where
  pub event_id : ℕ
  pub tf_id : Text
  pub flagger : Option (Text × Text)
  pub event_type : EventType
  pub diff : Option Diff
  pub snapshot : Option Snapshot
  pub scrape_run_id : Text
  pub occurred_at : Text

-- The meta of the routes on events: what they are about, and the numbers of their page.
pub record EventMeta : Type 0 where
  pub about : Text
  pub total : ℕ
  pub limit : ℕ
  pub offset : ℕ
  pub source_url : Text

abbrev pub or_500 {ℓ} : {A : Type ℓ} → Option A → Reply A
or_500 none = error 500
or_500 (some a) = ok a

abbrev pub then_reply {ℓ κ} : {A : Type ℓ} {B : Type κ} → Reply A → (A → Reply B) → Reply B
then_reply (error status) f = error status
then_reply (ok a) f = f a

-- `iso` is the ISO text of a time; a time of an event is never missing in the table.
module _ (iso : Time → Text) (source_url : Text) where
  unfoldable pub meta : (total limit offset : ℕ) → Option Time → Meta
  meta total limit offset updated = record {
    total = total;
    limit = limit;
    offset = offset;
    data_updated_at = Option.map iso updated;
    source_url = source_url;
  }

  -- The end of `list_trusted_flaggers`.
  unfoldable pub list_reply : Reply (Paged TrustedFlaggerOrm) → Reply (List TrustedFlagger × Meta)
  list_reply found = then_reply found λ page. or_500 (
      serialize_all page.items >>= λ shown.
      some (shown, meta page.total page.limit page.offset page.updated))

  -- The end of `lookup_trusted_flagger`.
  unfoldable pub lookup_reply : Reply FoundRows → Reply (List TrustedFlagger × ShortMeta)
  lookup_reply found = then_reply found λ rows. or_500 (
      serialize_all rows.rows >>= λ shown. some (
        shown,
        record {
          total = some rows.total;
          scope = none;
          data_updated_at = Option.map iso rows.updated;
          source_url = source_url;
        },
      ))

  -- The end of `get_trusted_flagger`.
  unfoldable pub flagger_reply :
      Reply (TrustedFlaggerOrm × Option Time) → Reply (TrustedFlagger × ShortMeta)
  flagger_reply found = then_reply found λ row. or_500 (
      serialize row.0 >>= λ shown. some (
        shown,
        record {
          total = none;
          scope = none;
          data_updated_at = Option.map iso row.1;
          source_url = source_url;
        },
      ))

  abbrev pub event_body : Option (Text × Text) → TrustedFlaggerEventOrm → EventBody
  event_body flagger ev = record {
    event_id = ev.event_id;
    tf_id = uuid_text ev.tf_id;
    flagger = flagger;
    event_type = ev.event_type;
    diff = ev.diff;
    snapshot = ev.snapshot;
    scrape_run_id = uuid_text ev.scrape_run_id;
    occurred_at = iso ev.occurred_at;
  }

  -- `_serialize_event`
  unfoldable pub serialize_event : TrustedFlaggerEventOrm → EventBody
  serialize_event ev = event_body none ev

  unfoldable pub change_body : ChangeRow → EventBody
  change_body r = event_body (some (r.tf_name, r.tf_country_code)) r.event

  abbrev pub event_meta {ℓ} : {A : Type ℓ} → Text → Paged A → EventMeta
  event_meta about page = record {
    about = about;
    total = page.total;
    limit = page.limit;
    offset = page.offset;
    source_url = source_url;
  }

  -- The end of `get_trusted_flagger_history`.
  unfoldable pub history_reply :
      Uuid → Reply (Paged TrustedFlaggerEventOrm) → Reply (List EventBody × EventMeta)
  history_reply tf_id found =
      then_reply found
        λ page. ok (map serialize_event page.items, event_meta (uuid_text tf_id) page)

  -- The end of `list_changes`.
  unfoldable pub changes_reply : Reply ChangePage → Reply (List EventBody × EventMeta)
  changes_reply found = then_reply found λ changes.
      ok (map change_body changes.page.items, event_meta (iso changes.since) changes.page)

  -- The end of `get_stats`.
  unfoldable pub stats_reply : StatsData → StatsData × ShortMeta
  stats_reply stats = (
    stats,
    record {
      total = none;
      scope = some (text "active");
      data_updated_at = Option.map iso stats.updated;
      source_url = source_url;
    },
  )
