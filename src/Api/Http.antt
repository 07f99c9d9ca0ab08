-- ===== src/Api/Http.antt =====
-- What apps/api reads of a request and sets of a response.
use dsa_api.Base.{ℕ, Option, Dict}
use dsa_api.Text.{Text}

-- A header's names are in lower case, as the framework looks them up.
pub record Request : Type 0 where
  pub method : Text
  pub path : Text
  pub headers : Dict Text Text
  pub client : Option Text

-- A header value: a text, or the decimal digits of a number.
pub data HeaderValue : Type 0 where
  value : Text → HeaderValue
  digits : ℕ → HeaderValue

pub record Response (B : Type 0) : Type 0 where
  pub status : ℕ
  pub content : B
  pub headers : Dict Text HeaderValue
