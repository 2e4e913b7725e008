-- ===== src/Upload/Names/Laws.antt =====
-- static/upload.js: names of the common form S01E02 are read as they were written.
use telegram_hls_streamer_v.Base.{
  ℕ, zero, suc, true, false, List, [], ◌∷◌, ◌++◌, Option, some, integer, ◌≡◌, refl, arith, All, ◌≢◌,
}
use telegram_hls_streamer_v.Base.Decimal.{
  CodeUnits, show, read_from, read_from-show, show-IsDigit, show-ne-nil, IsDigit,
}
use telegram_hls_streamer_v.Base.Regex.{one, seq, match, exec, is_digit_unit, digits}
use telegram_hls_streamer_v.Base.Regex.Laws.{Stops, match-digits, exec-skip}
use telegram_hls_streamer_v.Upload.Names.{is_s, is_e, season_and_episode, parse_series_episode}

-- A number as a name writes it: with zeros in front.
pub record Written : Type 0 where
  pub zeros : ℕ
  pub value : ℕ

abbrev pub padded : ℕ → CodeUnits → CodeUnits
padded zero ds = ds
padded (suc k) ds = 48 ∷ padded k ds

abbrev pub written : Written → CodeUnits
written w = padded w.zeros (show w.value)

read_from-padded : (k n : ℕ) → read_from 0 (padded k (show n)) ≡ n
read_from-padded zero n = read_from-show n
read_from-padded (suc k) n = read_from-padded k n

pub read_from-written : (w : Written) → read_from 0 (written w) ≡ w.value
read_from-written w = read_from-padded w.zeros w.value

padded-IsDigit : (k n : ℕ) → All IsDigit (padded k (show n))
padded-IsDigit zero n = show-IsDigit n
padded-IsDigit (suc k) n = (ground arith, padded-IsDigit k n)

pub written-IsDigit : (w : Written) → All IsDigit (written w)
written-IsDigit w = padded-IsDigit w.zeros w.value

padded-ne-nil : (k n : ℕ) → padded k (show n) ≢ []
padded-ne-nil zero n h = show-ne-nil n h
padded-ne-nil (suc k) n h = cc h

pub written-ne-nil : (w : Written) → written w ≢ []
written-ne-nil w h = padded-ne-nil w.zeros w.value h

-- A name with a mark of a season and an episode: `pre`, a letter S, a number, a letter E, a number,
-- and the rest.
abbrev pub marked : CodeUnits → ℕ → Written → ℕ → Written → CodeUnits → CodeUnits
marked pre s m e n rest = pre ++ s ∷ (written m ++ e ∷ (written n ++ rest))

-- The mark is the first one: the letters are S and E in either case, no S stands before, and no digit
-- after.
pub record IsMarked (pre : CodeUnits) (s e : ℕ) (rest : CodeUnits) : Type 0 where
  pub no_s : All (λ c. is_s c ≡ false) pre
  pub s_letter : is_s s ≡ true
  pub e_letter : is_e e ≡ true
  pub no_digit : Stops is_digit_unit rest

pub e-stops : (e : ℕ) → is_e e ≡ true → is_digit_unit e ≡ false
e-stops e h = ground arith

abbrev pub groups_of : Option ℕ → CodeUnits → List CodeUnits → Option (List CodeUnits)
groups_of b t g = some g

-- The second half of a mark, after the groups `gs`.
pub match_episode :
    (before : Option ℕ) (e : ℕ) (n : Written) (rest : CodeUnits) (gs : List CodeUnits)
    → is_e e ≡ true
    → Stops is_digit_unit rest
    → match (seq (one is_e) digits) before (e ∷ (written n ++ rest)) gs groups_of
      ≡ some (gs ++ written n ∷ [])
unfolding match
match_episode before e n rest gs letter stop = rw letter (
    match-digits (some e) (written n) rest gs groups_of (gs ++ written n ∷ []) (written-IsDigit n)
      (written-ne-nil n) stop (λ b. refl))

match_mark :
    (before : Option ℕ) (s e : ℕ) (rest : CodeUnits) (m n : Written)
    → is_s s ≡ true
    → is_e e ≡ true
    → Stops is_digit_unit rest
    → match season_and_episode before (s ∷ (written m ++ e ∷ (written n ++ rest))) [] groups_of
      ≡ some (written m ∷ written n ∷ [])
unfolding match
match_mark before s e rest m n s_letter e_letter stop = rw s_letter (
    match-digits (some s) (written m) (e ∷ (written n ++ rest)) []
      (λ b t g. match (seq (one is_e) digits) b t g groups_of) (written m ∷ written n ∷ [])
      (written-IsDigit m) (written-ne-nil m) (e-stops e e_letter)
      λ b. match_episode b e n rest (written m ∷ []) e_letter stop)

exec-season_and_episode :
    (pre : CodeUnits) (s e : ℕ) (rest : CodeUnits) (m n : Written)
    → IsMarked pre s e rest
    → exec season_and_episode (marked pre s m e n rest) ≡ some (written m ∷ written n ∷ [])
exec-season_and_episode pre s e rest m n k =
    exec-skip is_s (seq digits (seq (one is_e) digits)) pre
      (s ∷ (written m ++ e ∷ (written n ++ rest))) (written m ∷ written n ∷ []) k.no_s
      λ b. match_mark b s e rest m n k.s_letter k.e_letter k.no_digit

-- If a file name has a mark like S01E02, of a letter S, a number, a letter E and a number, in either
-- case and with or without zeros in front, no S stands before it in either case, and no digit after
-- it, then parseSeriesEpisode reads the two numbers as season and episode; the series is the folder.
pub parse_series_episode-marked :
    (pre : CodeUnits) (s e : ℕ) (rest folder : CodeUnits) (m n : Written)
    → IsMarked pre s e rest
    → parse_series_episode (marked pre s m e n rest) folder ≡ record {
      series = folder;
      season = some (integer m.value);
      episode = some (integer n.value);
    }
unfolding parse_series_episode
parse_series_episode-marked pre s e rest folder m n k =
    rw (exec-season_and_episode pre s e rest m n k, read_from-written m, read_from-written n) refl
