-- ===== src/Migration/Metadata.antt =====
-- core/db.py: the metadata of the three tables.
use dsa_api.Base.{false, List, [], ◌∷◌}
use dsa_api.Text.{text}
use dsa_api.Migration.Catalog.{
  uuid, any_text, char, integer, big_integer, jsonb, calendar_date, timestamp_tz, sequence, now,
  Column, btree, gin, table, index, Catalog,
}
use dsa_api.Migration.Statements.{column, nullable_column}

abbrev flaggers_mapped : List Column
flaggers_mapped =
    column "id" uuid
    ∷ column "name" any_text
    ∷ nullable_column "legal_form" any_text
    ∷ nullable_column "website" any_text
    ∷ nullable_column "email" any_text
    ∷ nullable_column "email_domain" any_text
    ∷ nullable_column "address_raw" any_text
    ∷ column "country_code" (char 2)
    ∷ nullable_column "city" any_text
    ∷ nullable_column "postal_code" any_text
    ∷ nullable_column "dsc_name" any_text
    ∷ nullable_column "dsc_country_code" (char 2)
    ∷ column "areas_of_expertise_raw" jsonb
    ∷ column "areas_of_expertise" jsonb
    ∷ nullable_column "designation_date" calendar_date
    ∷ column "status" any_text
    ∷ column "first_seen_at" timestamp_tz
    ∷ column "last_seen_at" timestamp_tz
    ∷ column "source_hash" any_text
    ∷ nullable_column "source_snapshot_url" any_text
    ∷ []

abbrev events_mapped : List Column
events_mapped =
    record { name = text "event_id"; type = big_integer; nullable = false; filler = sequence }
    ∷ column "tf_id" uuid
    ∷ column "event_type" any_text
    ∷ nullable_column "diff" jsonb
    ∷ nullable_column "snapshot" jsonb
    ∷ column "scrape_run_id" uuid
    ∷ record { name = text "occurred_at"; type = timestamp_tz; nullable = false; filler = now }
    ∷ []

abbrev runs_mapped : List Column
runs_mapped =
    column "id" uuid
    ∷ column "started_at" timestamp_tz
    ∷ nullable_column "completed_at" timestamp_tz
    ∷ column "status" any_text
    ∷ column "source_url" any_text
    ∷ nullable_column "source_response_status" integer
    ∷ nullable_column "source_content_hash" any_text
    ∷ nullable_column "rows_seen" integer
    ∷ nullable_column "rows_created" integer
    ∷ nullable_column "rows_updated" integer
    ∷ nullable_column "rows_removed" integer
    ∷ nullable_column "error_message" any_text
    ∷ nullable_column "raw_html_snapshot_url" any_text
    ∷ []

-- `Base.metadata`
abbrev pub metadata : Catalog
metadata =
    (text "trusted_flaggers", table flaggers_mapped (text "id"))
    ∷ (text "idx_tf_country", index (text "trusted_flaggers") (text "country_code" ∷ []) btree)
    ∷ (text "idx_tf_email_domain", index (text "trusted_flaggers") (text "email_domain" ∷ []) btree)
    ∷ (text "idx_tf_status", index (text "trusted_flaggers") (text "status" ∷ []) btree)
    ∷ (
      text "idx_tf_areas_gin",
      index (text "trusted_flaggers") (text "areas_of_expertise" ∷ []) gin,
    )
    ∷ (text "trusted_flagger_events", table events_mapped (text "event_id"))
    ∷ (
      text "idx_tfe_tf",
      index (text "trusted_flagger_events") (text "tf_id" ∷ text "occurred_at" ∷ []) btree,
    )
    ∷ (text "idx_tfe_time", index (text "trusted_flagger_events") (text "occurred_at" ∷ []) btree)
    ∷ (text "scrape_runs", table runs_mapped (text "id"))
    ∷ []
