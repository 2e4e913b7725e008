-- ===== src/Upload/Session/Batch.antt =====
-- static/upload.js, the handler of the start button (lines 349 to 394): the files one after another.
-- How the upload of each file ends is an input, and whether `isCancelled` is set before it.
use telegram_hls_streamer_v.Base.{
  ℕ, suc, ◌+◌, ◌≡◌, refl, Bool, true, false, List, [], ◌∷◌, ◌++◌, Option, none, some, String,
  length, replicate, get_elem?, All, if◌then◌else◌,
}
use telegram_hls_streamer_v.Upload.Session.{Failure, Result, done, failure, waiting}

-- The cells of the column "Status".
pub data RowStatus : Type 0 where
  untouched uploading complete error : RowStatus

pub record Attempt : Type 0 where
  pub cancelled_before : Bool
  pub result : Result String

-- How the loop ends; `stopped_at` names the file and the error that is shown.
pub data LoopEnd : Type 0 where
  stopped_at : ℕ → Failure → LoopEnd
  cancelled_at : ℕ → Option String → LoopEnd
  all_uploaded : Option String → LoopEnd
  running_at : ℕ → LoopEnd

pub record Batch : Type 0 where
  pub rows : List RowStatus
  pub end : LoopEnd

abbrev put_row : RowStatus → Batch → Batch
put_row s b = record b { rows = s ∷ b.rows }

abbrev rest_untouched : RowStatus → List Attempt → LoopEnd → Batch
rest_untouched s rest e = record { rows = s ∷ replicate (length rest) untouched; end = e }

-- The rounds of the `for` loop from index `i`; `last` is lastJobId.
upload_row :
    ℕ → Option String → Bool → Result String → List Attempt → (Option String → Batch) → Batch
upload_row i last true result rest next = rest_untouched untouched rest (cancelled_at i last)
upload_row i last false (done job) rest next = put_row complete (next (some job))
upload_row i last false (failure f) rest next = rest_untouched error rest (stopped_at i f)
upload_row i last false waiting rest next = rest_untouched uploading rest (running_at i)

upload_rows : ℕ → Option String → List Attempt → Batch
upload_rows i last [] = record { rows = []; end = all_uploaded last }
upload_rows i last (a ∷ rest) =
    upload_row i last a.cancelled_before a.result rest (λ l. upload_rows (suc i) l rest)

unfoldable pub upload_batch : List Attempt → Batch
unfolding upload_rows upload_row
upload_batch attempts = upload_rows 0 none attempts

-- Lines 375 to 393: the list of pending files afterwards, and the job whose result card is shown.
unfoldable pub files_left {ℓ} : {A : Type ℓ} → List A → LoopEnd → List A
files_left files (stopped_at i f) = files
files_left files (cancelled_at i last) = []
files_left files (all_uploaded last) = []
files_left files (running_at i) = files

unfoldable pub result_card : Bool → LoopEnd → Option String
result_card cancelled (all_uploaded last) = if cancelled then none else last
result_card cancelled _ = none

abbrev IsUploaded : Attempt → Type 0
IsUploaded a = (a.cancelled_before ≡ false) × ((job : String) × (a.result ≡ done job))

-- What the rows say: a number of files complete, then at most one that is not, the rest untouched.
abbrev pub Tells : List Attempt → List RowStatus → ℕ → LoopEnd → Type 0
Tells ps rows i (stopped_at k f) =
    (m : ℕ) × (n : ℕ) × (k ≡ i + m)
    × (m + suc n ≡ length ps)
    × (rows ≡ replicate m complete ++ (error ∷ replicate n untouched))
    × ((a : Attempt) × (get_elem? ps m ≡ some a) × (a.result ≡ failure f))
Tells ps rows i (cancelled_at k last) =
    (m : ℕ) × (n : ℕ) × (k ≡ i + m)
    × (m + n ≡ length ps)
    × (rows ≡ replicate m complete ++ replicate n untouched)
Tells ps rows i (all_uploaded last) = (rows ≡ replicate (length ps) complete) × All IsUploaded ps
Tells ps rows i (running_at k) =
    (m : ℕ) × (n : ℕ) × (k ≡ i + m)
    × (m + suc n ≡ length ps)
    × (rows ≡ replicate m complete ++ (uploading ∷ replicate n untouched))

abbrev pub Left : List Attempt → LoopEnd → List Attempt → Type 0
Left ps (stopped_at k f) left = left ≡ ps
Left ps (cancelled_at k last) left = left ≡ []
Left ps (all_uploaded last) left = left ≡ []
Left ps (running_at k) left = left ≡ ps

-- The card of the finished job: the job of the last file, unless the user has cancelled.
abbrev last_job : Option String → List Attempt → Option String
last_job last [] = last
last_job last (a ∷ ps) = elim a.result [
  | done job ↦ last_job (some job) ps
  | failure f ↦ last_job last ps
  | waiting ↦ last_job last ps
]

upload_rows_last :
    (ps : List Attempt) (i : ℕ) (last : Option String)
    → All IsUploaded ps
    → (upload_rows i last ps).end ≡ all_uploaded (last_job last ps)
unfolding upload_rows upload_row
upload_rows_last [] i last h = refl
upload_rows_last (a ∷ ps) i last ((b, (job, r)), h) =
    rw (b, r) (upload_rows_last ps (suc i) (some job) h)

-- If every file is uploaded and nobody cancels, the page shows the card of the last file's job, and
-- none if there is no file; after a cancellation it shows none.
pub result_card-upload_batch :
    (attempts : List Attempt)
    → All IsUploaded attempts
    → (result_card false (upload_batch attempts).end ≡ last_job none attempts)
      × (result_card true (upload_batch attempts).end ≡ none)
unfolding upload_batch result_card
result_card-upload_batch attempts h = rw (upload_rows_last attempts 0 none h) (refl, refl)
