-- ===== src/Api/Client.antt =====
-- apps/api/main.py, `_client_ip`.
use dsa_api.Base.{ℕ, Option, none, some, get, if◌then◌else◌}
use dsa_api.Text.{Text, text, text_discrete, strip, is_empty, break_at}
use dsa_api.Api.Http.{Request}

abbrev pub comma : ℕ
comma = 44

-- `request.client.host if request.client else "unknown"`
abbrev pub host_or_unknown : Option Text → Text
host_or_unknown none = text "unknown"
host_or_unknown (some host) = host

-- `xff.split(",", 1)[0].strip()`, where it is not blank.
unfoldable pub first_hop : Option Text → Option Text
first_hop none = none
first_hop (some xff) =
    if is_empty xff
    then none
    else (let first = strip (break_at comma xff).0 in if is_empty first then none else some first)

abbrev pub hop_or_host : Option Text → Option Text → Text
hop_or_host none client = host_or_unknown client
hop_or_host (some first) client = first

unfoldable pub client_ip : Request → Text
client_ip request =
    hop_or_host (first_hop (get text_discrete (text "x-forwarded-for") request.headers))
      request.client
