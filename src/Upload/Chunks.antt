-- ===== src/Upload/Chunks.antt =====
-- static/upload.js: the arithmetic of chunks. A `Set` of indices is a list in insertion order.
-- The numbers of the source are doubles; sizes and counts are whole and far below 2^53.
pub mod Sums
pub mod Coverage
use telegram_hls_streamer_v.Base.{
  ℕ, zero, suc, ◌+◌, ◌-◌, ◌*◌, min, ◌&&◌, List, [], ◌∷◌, Option, none, some, if◌then◌else◌, ltb,
  has, set_of, Numeric, integer, negative, not_integer, or_default, round_percent,
}

-- The reply of /api/upload/status/<id>, as far as it is read: absent fields are `none`.
pub record UploadStatus : Type 0 where
  pub received_indices : Option (List Numeric)
  pub received_chunks : Option ℕ
  pub status_chunk_size : Option ℕ
  pub status_total_chunks : Option ℕ

-- `.map(Number).filter(i => Number.isInteger(i) && i >= 0 && i < totalChunks)`.
unfoldable pub valid_indices : ℕ → List Numeric → List ℕ
valid_indices total [] = []
valid_indices total (integer i ∷ is) =
    if ltb i total then i ∷ valid_indices total is else valid_indices total is
valid_indices total (negative n ∷ is) = valid_indices total is
valid_indices total (not_integer ∷ is) = valid_indices total is

-- `Array.from({length: n}, (_, i) => i)`, from `i` on.
unfoldable pub indices_from : ℕ → ℕ → List ℕ
indices_from i zero = []
indices_from i (suc n) = i ∷ indices_from (suc i) n

unfoldable pub received_set_from_status : UploadStatus → ℕ → ℕ → List ℕ
unfolding valid_indices indices_from set_of
received_set_from_status s total fallback_next_chunk = elim s.received_indices [
  | some is ↦ set_of [] (valid_indices total is)
  | none ↦ set_of [] (indices_from 0 (min (or_default s.received_chunks fallback_next_chunk) total))
]

-- The length of chunk `i`: `min(start + chunk_size, file_size) - start`.
abbrev pub chunk_end : ℕ → ℕ → ℕ → ℕ
chunk_end file_size chunk_size i = min (i * chunk_size + chunk_size) file_size

bytes_from : ℕ → ℕ → ℕ → ℕ → List ℕ → ℕ
bytes_from bytes file_size total chunk_size [] = bytes
bytes_from bytes file_size total chunk_size (i ∷ is) =
    bytes_from
      (if ltb i total && ltb (i * chunk_size) (chunk_end file_size chunk_size i)
        then bytes + (chunk_end file_size chunk_size i - i * chunk_size)
        else bytes)
      file_size total chunk_size is

unfoldable pub bytes_for_received_chunks : ℕ → ℕ → ℕ → List ℕ → ℕ
unfolding bytes_from
bytes_for_received_chunks file_size total chunk_size received =
    bytes_from 0 file_size total chunk_size received

-- `for (let i = 0; i < totalChunks; i++) if (!receivedIndices.has(i)) missingChunks.push(i)`.
unfoldable pub missing_from : ℕ → ℕ → List ℕ → List ℕ
missing_from i zero received = []
missing_from i (suc n) received =
    if has received i then missing_from (suc i) n received else i ∷ missing_from (suc i) n received

unfoldable pub missing_chunks : ℕ → List ℕ → List ℕ
unfolding missing_from
missing_chunks total received = missing_from 0 total received

-- The percentage of `updateUploadProgress`.
unfoldable pub upload_percent : ℕ → ℕ → ℕ
upload_percent uploaded_bytes file_size =
    if ltb 0 file_size then round_percent uploaded_bytes file_size else 100
