-- ===== src/Watch/Edit/Laws.antt =====
-- static/watch.js: what saving the dialog makes of the job.
use telegram_hls_streamer_v.Base.{
  true, [], ◌∷◌, if◌then◌else◌, Option, none, some, Numeric, ◌≡◌, refl,
}
use telegram_hls_streamer_v.Base.Decimal.{CodeUnits}
use telegram_hls_streamer_v.Shared.Text.{trim, parse_int}
use telegram_hls_streamer_v.Shared.Category.{
  Category, film, film_series, tv_series, anime_film, anime_tv, anime_tv_series, category_db,
}
use telegram_hls_streamer_v.Watch.Edit.{
  Job, Form, Groups, update_edit_modal_fields, get_category_from_job, category_of, payload_of,
  take_number, apply_payload, save_edit_modal,
}

category_of-category_db :
    (c : Category) → category_of (category_db c).media_type (category_db c).is_series ≡ c
unfolding category_of category_db
category_of-category_db film = refl
category_of-category_db film_series = refl
category_of-category_db tv_series = refl
category_of-category_db anime_film = refl
category_of-category_db anime_tv = refl
category_of-category_db anime_tv_series = refl

-- Saving and opening again shows the category that was chosen, for each of the six.
pub get_category-save_edit_modal :
    (form : Form) (job : Job)
    → get_category_from_job (save_edit_modal form true job) ≡ form.category
unfolding save_edit_modal apply_payload payload_of get_category_from_job
get_category-save_edit_modal form job = category_of-category_db form.category

-- What a number input stores.
abbrev pub stored : CodeUnits → Option Numeric
stored [] = none
stored (c ∷ cs) = some (parse_int (c ∷ cs))

-- The job has what the shown inputs say, and nothing in the fields whose inputs are hidden.
abbrev pub ShowsWhatItStores : Groups → Form → Job → Type 0
ShowsWhatItStores g form job =
    (job.series_name ≡ (if g.series_group then trim form.series else []))
    × (job.season_number ≡ (if g.season_group then stored form.season else none))
    × (job.episode_number ≡ (if g.episode_group then stored form.episode else none))
    × (job.part_number ≡ (if g.part_group then stored form.part else none))

take_number-stored :
    (text : CodeUnits) (old : Option Numeric) → take_number (some text) old ≡ stored text
take_number-stored [] old = refl
take_number-stored (c ∷ cs) old = refl

apply_payload-Shows :
    (c : Category) (form : Form) (job : Job)
    → form.category ≡ c
    → ShowsWhatItStores (update_edit_modal_fields c) form (apply_payload c (payload_of form) job)
unfolding apply_payload payload_of update_edit_modal_fields
apply_payload-Shows film form job e = (refl, refl, refl, refl)
apply_payload-Shows film_series form job e =
    rw e (refl, refl, refl, take_number-stored form.part job.part_number)
apply_payload-Shows tv_series form job e = rw e (
  refl,
  take_number-stored form.season job.season_number,
  take_number-stored form.episode job.episode_number,
  refl,
)
apply_payload-Shows anime_film form job e = (refl, refl, refl, refl)
apply_payload-Shows anime_tv form job e = rw e (
  refl,
  take_number-stored form.season job.season_number,
  take_number-stored form.episode job.episode_number,
  refl,
)
apply_payload-Shows anime_tv_series form job e = rw e (
  refl,
  take_number-stored form.season job.season_number,
  take_number-stored form.episode job.episode_number,
  refl,
)

-- After saving, the job's series, season, episode and part are those of the inputs that the
-- dialog shows for the chosen category; the fields whose inputs it hides are cleared.
pub save_edit_modal-Shows :
    (form : Form) (job : Job)
    → ShowsWhatItStores
        (update_edit_modal_fields form.category)
        form
        (save_edit_modal form true job)
unfolding save_edit_modal
save_edit_modal-Shows form job = apply_payload-Shows form.category form job refl
