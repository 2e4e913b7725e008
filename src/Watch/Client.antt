-- ===== src/Watch/Client.antt =====
-- static/watch.js and browse-home.js: the name under which a browser's progress is kept on the server.
pub mod Laws
use telegram_hls_streamer_v.Base.{
  Bool, not, [], ◌∷◌, Option, none, some, if◌then◌else◌, ◌==◌, filter,
}
use telegram_hls_streamer_v.Base.Decimal.{CodeUnits}

-- `'c' + crypto.randomUUID().replace(/-/g, '')`, of the identifier that the browser makes.
unfoldable pub new_client_id : CodeUnits → CodeUnits
new_client_id uuid = 99 ∷ filter (λ c. not (c == 45)) uuid

-- getClientId, from what localStorage holds: the name, and what it holds then. A write may fail.
unfoldable pub get_client_id : CodeUnits → Bool → Option CodeUnits → CodeUnits × Option CodeUnits
get_client_id uuid writable (some (c ∷ cs)) = (c ∷ cs, some (c ∷ cs))
get_client_id uuid writable (some []) =
    (new_client_id uuid, if writable then some (new_client_id uuid) else some [])
get_client_id uuid writable none =
    (new_client_id uuid, if writable then some (new_client_id uuid) else none)

-- The name that the home page asks the server's progress for; without one it does not ask.
unfoldable pub home_client_id : Option CodeUnits → Option CodeUnits
home_client_id none = none
home_client_id (some []) = none
home_client_id (some (c ∷ cs)) = some (c ∷ cs)

-- serverLoadProgress, by the reply: the progress it holds, if there is any.
pub data ProgressReply {ℓ} (A : Type ℓ) : Type ℓ where
  progress_reply : Option A → ProgressReply A
  progress_refused : ProgressReply A
  progress_failed : ProgressReply A

unfoldable pub server_load_progress {ℓ} : {A : Type ℓ} → ProgressReply A → Option A
server_load_progress (progress_reply p) = p
server_load_progress progress_refused = none
server_load_progress progress_failed = none
