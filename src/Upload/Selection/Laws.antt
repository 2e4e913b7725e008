-- ===== src/Upload/Selection/Laws.antt =====
-- static/upload.js: which files are pending after a choice, and in which order.
use telegram_hls_streamer_v.Base.{
  subst, All, All-filter_of, ℕ, ◌*◌, ◌+◌, ◌<◌, Bool, true, false, List, [], ◌∷◌, ◌++◌, Option, none,
  some, ◌⊎◌, inl, inr, ltb, ltb→lt, Bool-cases, if◌then◌else◌, ◌≡◌, refl, arith, ap, map, filter,
}
use telegram_hls_streamer_v.Base.Decimal.{CodeUnits}
use telegram_hls_streamer_v.Base.Sorting.{
  All-sort_with, sort_with, IsOrdered, sort_with-IsOrdered, sort_with-Perm,
}
use telegram_hls_streamer_v.Base.Regex.{one, many, seq, match, exec, is_digit_unit, digits}
use telegram_hls_streamer_v.Base.Regex.Laws.{match-digits, match_run, exec-skip}
use telegram_hls_streamer_v.Shared.Category.{
  Category, film, film_series, tv_series, anime_film, anime_tv, anime_tv_series, is_single,
  is_episodic,
}
use telegram_hls_streamer_v.Upload.Form.{has_text, is_valid_row}
use telegram_hls_streamer_v.Upload.Names.{is_s, is_e}
use telegram_hls_streamer_v.Upload.Names.Laws.{
  marked, IsMarked, Written, written, read_from-written, written-IsDigit, written-ne-nil, e-stops,
  groups_of, match_episode, parse_series_episode-marked,
}
use telegram_hls_streamer_v.Upload.Names.Order.{
  season_mark, season_and_episode_mark, episode_num, num_before,
}
use telegram_hls_streamer_v.Upload.Selection.Video.{IsVideo, is_valid-IsVideo}
use telegram_hls_streamer_v.Upload.Selection.{
  PickedFile, is_valid_video_format, first_folder, parse_metadata, file_le, sort_by_episode,
  PendingFile, pending_file, handle_selected_files, Page, choose_files,
}
use mathlib.Core.List.{Perm}

exec-season_mark :
    (pre : CodeUnits) (s e : ℕ) (rest : CodeUnits) (m n : Written)
    → IsMarked pre s e rest
    → exec season_mark (marked pre s m e n rest) ≡ some (written m ∷ [])
unfolding match
exec-season_mark pre s e rest m n k =
    exec-skip is_s digits pre (s ∷ (written m ++ e ∷ (written n ++ rest))) (written m ∷ []) k.no_s
      λ b. rw (k.s_letter) (
        match-digits (some s) (written m) (e ∷ (written n ++ rest)) [] groups_of (written m ∷ [])
          (written-IsDigit m) (written-ne-nil m) (e-stops e k.e_letter) (λ b'. refl))

exec-season_and_episode_mark :
    (pre : CodeUnits) (s e : ℕ) (rest : CodeUnits) (m n : Written)
    → IsMarked pre s e rest
    → exec season_and_episode_mark (marked pre s m e n rest) ≡ some (written n ∷ [])
unfolding match
exec-season_and_episode_mark pre s e rest m n k =
    exec-skip is_s (seq (one is_digit_unit) (seq (many is_digit_unit) (seq (one is_e) digits))) pre
      (s ∷ (written m ++ e ∷ (written n ++ rest))) (written n ∷ []) k.no_s
      λ b. rw (k.s_letter) (
        match_run (some s) (written m) (e ∷ (written n ++ rest)) []
          (λ b t g. match (seq (one is_e) digits) b t g groups_of) (written n ∷ [])
          (written-IsDigit m) (written-ne-nil m) (e-stops e k.e_letter)
          λ b'. match_episode b' e n rest [] k.e_letter k.no_digit)

-- The number by which files are ordered is the episode times a thousand, plus the season.
pub episode_num-marked :
    (pre : CodeUnits) (s e : ℕ) (rest : CodeUnits) (m n : Written)
    → IsMarked pre s e rest
    → episode_num (marked pre s m e n rest) ≡ some (n.value * 1000 + m.value)
unfolding episode_num
episode_num-marked pre s e rest m n k =
    rw
      (
        exec-season_and_episode_mark pre s e rest m n k,
        exec-season_mark pre s e rest m n k,
        read_from-written m,
        read_from-written n,
      )
      refl

-- Files of several seasons are not ordered by season: a file with a smaller episode number stands
-- before one with a larger, whatever their seasons, where seasons are below 1000.
pub file_le-marked :
    (name_le : CodeUnits → CodeUnits → Bool) (a b : PickedFile) (pre pre' : CodeUnits)
    (s s' e e' : ℕ) (rest rest' : CodeUnits) (m m' n n' : Written)
    → IsMarked pre s e rest
    → IsMarked pre' s' e' rest'
    → a.name ≡ marked pre s m e n rest
    → b.name ≡ marked pre' s' m' e' n' rest'
    → m.value < 1000
    → n.value < n'.value
    → (file_le name_le a b ≡ true) × (file_le name_le b a ≡ false)
file_le-marked name_le a b pre pre' s s' e e' rest rest' m m' n n' k k' x y lo lt =
    rw (x, y, episode_num-marked pre s e rest m n k, episode_num-marked pre' s' e' rest' m' n' k')
      (ground arith)

-- A row that is made from a marked name in a folder with a name is complete for every category of episodes.
pub is_valid_row-parse_metadata :
    (cat : Category) (f : PickedFile) (pre : CodeUnits) (s e : ℕ) (rest : CodeUnits) (m n : Written)
    → is_episodic cat ≡ true
    → IsMarked pre s e rest
    → f.name ≡ marked pre s m e n rest
    → has_text (some (first_folder f.relative_path)) ≡ true
    → is_valid_row cat (parse_metadata cat f) ≡ true
unfolding is_valid_row parse_metadata
is_valid_row-parse_metadata film f pre s e rest m n ep k x h = absurd (cc ep)
is_valid_row-parse_metadata anime_film f pre s e rest m n ep k x h = absurd (cc ep)
is_valid_row-parse_metadata film_series f pre s e rest m n ep k x h = absurd (cc ep)
is_valid_row-parse_metadata tv_series f pre s e rest m n ep k x h =
    rw (x, parse_series_episode-marked pre s e rest (first_folder f.relative_path) m n k, h) refl
is_valid_row-parse_metadata anime_tv f pre s e rest m n ep k x h =
    rw (x, parse_series_episode-marked pre s e rest (first_folder f.relative_path) m n k, h) refl
is_valid_row-parse_metadata anime_tv_series f pre s e rest m n ep k x h =
    rw (x, parse_series_episode-marked pre s e rest (first_folder f.relative_path) m n k, h) refl

-- The comparison of names is total.
abbrev pub TotalNames : (CodeUnits → CodeUnits → Bool) → Type 0
TotalNames name_le = (a b : CodeUnits) → name_le a b ≡ false → name_le b a ≡ true

file_le_total :
    (name_le : CodeUnits → CodeUnits → Bool) (a b : PickedFile)
    → TotalNames name_le
    → file_le name_le a b ≡ false
    → file_le name_le b a ≡ true
file_le_total name_le a b total h = ground (arith, total a.name b.name)

files_of :
    (cat : Category) (fs : List PickedFile) → map PendingFile.file (map (pending_file cat) fs) ≡ fs
files_of cat [] = refl
files_of cat (f ∷ fs) = ap (λ gs. f ∷ gs) (files_of cat fs)

-- Where a file with the first number and name may stand: a file with a number before every file without one, the smaller
-- number first, and files with the same number, or none, by name.
abbrev pub Precedes :
    (CodeUnits → CodeUnits → Bool) → Option ℕ → CodeUnits → Option ℕ → CodeUnits → Type 0
Precedes name_le (some m) a none b = Unit
Precedes name_le (some m) a (some n) b = (m < n) ⊎ ((m ≡ n) × (name_le a b ≡ true))
Precedes name_le none a (some n) b = ⊥
Precedes name_le none a none b = name_le a b ≡ true

abbrev pub InOrder : (CodeUnits → CodeUnits → Bool) → List PickedFile → Type 0
InOrder name_le [] = Unit
InOrder name_le (f ∷ []) = Unit
InOrder name_le (f ∷ g ∷ gs) =
    Precedes name_le (episode_num f.name) f.name (episode_num g.name) g.name
    × InOrder name_le (g ∷ gs)

Precedes-of_le :
    (name_le : CodeUnits → CodeUnits → Bool) (m n : Option ℕ) (a b : CodeUnits)
    → (if num_before m n then true else if num_before n m then false else name_le a b) ≡ true
    → Precedes name_le m a n b
Precedes-of_le name_le (some m) none a b h = tt
Precedes-of_le name_le (some m) (some n) a b h = elim (Bool-cases (ltb m n)) [
  | inl t ↦ inl (ltb→lt m n t)
  | inr f ↦ inr (ground arith, ground arith)
]
Precedes-of_le name_le none (some n) a b h = absurd (cc h)
Precedes-of_le name_le none none a b h = h

InOrder-of_IsOrdered :
    (name_le : CodeUnits → CodeUnits → Bool) (fs : List PickedFile)
    → IsOrdered (file_le name_le) fs
    → InOrder name_le fs
InOrder-of_IsOrdered name_le [] h = tt
InOrder-of_IsOrdered name_le (f ∷ []) h = tt
InOrder-of_IsOrdered name_le (f ∷ g ∷ gs) (h, hs) = (
  Precedes-of_le name_le (episode_num f.name) (episode_num g.name) f.name g.name h,
  InOrder-of_IsOrdered name_le (g ∷ gs) hs,
)

-- If the category takes several files, one at least of the chosen files has a video format, and the
-- comparison of names is total, then the files that the choice leaves pending are all those with a
-- video format, each once: each has a type `video/` for the browser, or a name that ends in one of eight extensions after a dot, or is one. Those whose name has an episode number come first, by rising number, the others after them,
-- and files with the same number, or without one, by name.
pub choose_files-Perm :
    (name_le : CodeUnits → CodeUnits → Bool) (files : List PickedFile) (p : Page) (f : PickedFile)
    (fs : List PickedFile)
    → TotalNames name_le
    → is_single p.selected_category ≡ false
    → filter is_valid_video_format files ≡ f ∷ fs
    → Perm
        (map PendingFile.file (choose_files name_le files p).pending_files)
        (filter is_valid_video_format files)
      × All IsVideo (map PendingFile.file (choose_files name_le files p).pending_files)
      × InOrder name_le (map PendingFile.file (choose_files name_le files p).pending_files)
unfolding choose_files handle_selected_files sort_by_episode
choose_files-Perm name_le files p f fs total several chosen =
    rw
      (
        chosen,
        choose_files,
        several,
        files_of p.selected_category (sort_with (file_le name_le) (f ∷ fs)),
      )
      (
        sort_with-Perm (file_le name_le) (f ∷ fs),
        All-sort_with IsVideo (file_le name_le) (f ∷ fs) (
            subst (All IsVideo) chosen
              (All-filter_of IsVideo is_valid_video_format files is_valid-IsVideo)),
        InOrder-of_IsOrdered name_le (sort_with (file_le name_le) (f ∷ fs)) (
            sort_with-IsOrdered (file_le name_le) (f ∷ fs)
              (λ a b. file_le_total name_le a b total)),
      )
