-- ===== src/Shared/Api.antt =====
-- static/common.js: requests to the server, and the button of the theme.
use telegram_hls_streamer_v.Base.{List, [], ◌∷◌, Option, none, some, if◌then◌else◌}
use telegram_hls_streamer_v.Base.Decimal.{CodeUnits, codes}
use telegram_hls_streamer_v.Shared.Text.{same_text}

abbrev pub Headers : Type 0
Headers = List (CodeUnits × CodeUnits)

-- The headers that `api` sends: `...options` stands after the merged ones and replaces them.
unfoldable pub api_headers : Option Headers → Headers
api_headers none = (codes "content-type", codes "application/json") ∷ []
api_headers (some headers) = headers

-- The body of a refusal; an absent text is empty, a body that is no JSON is `none`.
pub record ErrorBody : Type 0 where
  pub message : CodeUnits
  pub error : CodeUnits

abbrev first_text : CodeUnits → CodeUnits → CodeUnits
first_text [] t = t
first_text (c ∷ cs) t = c ∷ cs

unfoldable pub api_error : CodeUnits → Option ErrorBody → CodeUnits
api_error status none = status
api_error status (some body) = first_text body.message (first_text body.error status)

-- What `api` gives: the reply, or the message of the error that it throws.
pub data ApiResult {ℓ} (A : Type ℓ) : Type ℓ where
  replied : A → ApiResult A
  threw : CodeUnits → ApiResult A

pub data Response {ℓ} (A : Type ℓ) : Type ℓ where
  ok_response : A → Response A
  error_response : CodeUnits → Option ErrorBody → Response A

unfoldable pub api {ℓ} : {A : Type ℓ} → Response A → ApiResult A
api (ok_response a) = replied a
api (error_response status body) = threw (api_error status body)

-- The button of the theme: what the page takes, and what is stored.
unfoldable pub next_theme : CodeUnits → CodeUnits
next_theme theme = if same_text theme (codes "dark") then codes "light" else codes "dark"
