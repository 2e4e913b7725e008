-- ===== src/Watch/Client/Laws.antt =====
-- static/watch.js and browse-home.js: a browser keeps its name.
use telegram_hls_streamer_v.Base.{Bool, true, [], ◌∷◌, Option, none, some, ◌≡◌, refl}
use telegram_hls_streamer_v.Base.Decimal.{CodeUnits}
use telegram_hls_streamer_v.Watch.Client.{new_client_id, get_client_id, home_client_id}

-- Once a name was made and stored, the page of every video uses it, whatever identifiers the browser would make and even
-- if no more can be written, and the home page asks for the progress under it.
pub get_client_id_again :
    (uuid other : CodeUnits) (writable : Bool) (stored : Option CodeUnits)
    → (get_client_id other writable (get_client_id uuid true stored).1
        ≡ ((get_client_id uuid true stored).0, (get_client_id uuid true stored).1))
      × (home_client_id (get_client_id uuid true stored).1
          ≡ some (get_client_id uuid true stored).0)
unfolding get_client_id new_client_id home_client_id
get_client_id_again uuid other writable none = (refl, refl)
get_client_id_again uuid other writable (some []) = (refl, refl)
get_client_id_again uuid other writable (some (c ∷ cs)) = (refl, refl)
