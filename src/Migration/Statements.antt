-- ===== src/Migration/Statements.antt =====
-- migrations/versions/edce10f23379_initial_schema.py: `upgrade` and `downgrade`.
use Prim.Native.String.{String}
use dsa_api.Base.{true, false, List, [], ◌∷◌}
use dsa_api.Text.{text}
use dsa_api.Migration.Catalog.{
  ColumnType, uuid, any_text, char, integer, big_integer, jsonb, calendar_date, timestamp_tz,
  nothing, sequence, now, Column, btree, gin, Statement, create_table, create_index, drop_index,
  drop_table,
}

-- `sa.Column(name, type, nullable=False)`
abbrev pub column : String → ColumnType → Column
column name type = record { name = text name; type = type; nullable = false; filler = nothing }

-- `sa.Column(name, type, nullable=True)`
abbrev pub nullable_column : String → ColumnType → Column
nullable_column name type = record {
  name = text name;
  type = type;
  nullable = true;
  filler = nothing;
}

abbrev scrape_runs_columns : List Column
scrape_runs_columns =
    column "id" uuid
    ∷ column "started_at" timestamp_tz
    ∷ nullable_column "completed_at" timestamp_tz
    ∷ column "status" any_text
    ∷ column "source_url" any_text
    ∷ nullable_column "source_response_status" integer
    ∷ nullable_column "source_content_hash" any_text
    ∷ nullable_column "rows_seen" integer
    ∷ nullable_column "rows_created" integer
    ∷ nullable_column "rows_updated" integer
    ∷ nullable_column "rows_removed" integer
    ∷ nullable_column "error_message" any_text
    ∷ nullable_column "raw_html_snapshot_url" any_text
    ∷ []

abbrev events_columns : List Column
events_columns =
    record { name = text "event_id"; type = big_integer; nullable = false; filler = sequence }
    ∷ column "tf_id" uuid
    ∷ column "event_type" any_text
    ∷ nullable_column "diff" jsonb
    ∷ nullable_column "snapshot" jsonb
    ∷ column "scrape_run_id" uuid
    ∷ record { name = text "occurred_at"; type = timestamp_tz; nullable = false; filler = now }
    ∷ []

abbrev flaggers_columns : List Column
flaggers_columns =
    column "id" uuid
    ∷ column "name" any_text
    ∷ nullable_column "legal_form" any_text
    ∷ nullable_column "website" any_text
    ∷ nullable_column "email" any_text
    ∷ nullable_column "email_domain" any_text
    ∷ nullable_column "address_raw" any_text
    ∷ column "country_code" (char 2)
    ∷ nullable_column "city" any_text
    ∷ nullable_column "postal_code" any_text
    ∷ nullable_column "dsc_name" any_text
    ∷ nullable_column "dsc_country_code" (char 2)
    ∷ column "areas_of_expertise_raw" jsonb
    ∷ column "areas_of_expertise" jsonb
    ∷ nullable_column "designation_date" calendar_date
    ∷ column "status" any_text
    ∷ column "first_seen_at" timestamp_tz
    ∷ column "last_seen_at" timestamp_tz
    ∷ column "source_hash" any_text
    ∷ nullable_column "source_snapshot_url" any_text
    ∷ []

abbrev pub upgrade : List Statement
upgrade =
    create_table (text "scrape_runs") scrape_runs_columns (text "id")
    ∷ create_table (text "trusted_flagger_events") events_columns (text "event_id")
    ∷ create_index (text "idx_tfe_tf") (text "trusted_flagger_events")
        (text "tf_id" ∷ text "occurred_at" ∷ []) btree
    ∷ create_index (text "idx_tfe_time") (text "trusted_flagger_events") (text "occurred_at" ∷ [])
        btree
    ∷ create_table (text "trusted_flaggers") flaggers_columns (text "id")
    ∷ create_index (text "idx_tf_areas_gin") (text "trusted_flaggers")
        (text "areas_of_expertise" ∷ []) gin
    ∷ create_index (text "idx_tf_country") (text "trusted_flaggers") (text "country_code" ∷ [])
        btree
    ∷ create_index (text "idx_tf_email_domain") (text "trusted_flaggers") (text "email_domain" ∷ [])
        btree
    ∷ create_index (text "idx_tf_status") (text "trusted_flaggers") (text "status" ∷ []) btree
    ∷ []

abbrev pub downgrade : List Statement
downgrade =
    drop_index (text "idx_tf_status")
    ∷ drop_index (text "idx_tf_email_domain")
    ∷ drop_index (text "idx_tf_country")
    ∷ drop_index (text "idx_tf_areas_gin")
    ∷ drop_table (text "trusted_flaggers")
    ∷ drop_index (text "idx_tfe_time")
    ∷ drop_index (text "idx_tfe_tf")
    ∷ drop_table (text "trusted_flagger_events")
    ∷ drop_table (text "scrape_runs")
    ∷ []
