-- ===== src/Shared/Names.antt =====
-- static/shared.js and browse-palette.js: titles made from file names, the colours made from a job's name,
-- and the escaping of both.
pub mod Laws
use telegram_hls_streamer_v.Base.{
  ℕ, zero, suc, ◌+◌, ◌-◌, ◌*◌, ◌%◌, ◌^◌, Bool, true, false, ◌||◌, ◌&&◌, [], ◌∷◌, ◌++◌,
  if◌then◌else◌, ltb, leb, ◌==◌, map, Option, none, some,
}
use telegram_hls_streamer_v.Base.Decimal.{CodeUnits, codes}
use telegram_hls_streamer_v.Shared.Text.{is_space, trim}
use mathlib.Core.List.{reverse}

-- `[0-9a-f]`, in either case.
abbrev pub is_hex : ℕ → Bool
is_hex c = (leb 48 c && leb c 57) || (leb 97 c && leb c 102) || (leb 65 c && leb c 70)

-- What follows `n` hexadecimal digits and a `_`, if the text starts with them.
unfoldable pub after_hex : ℕ → CodeUnits → Option CodeUnits
after_hex n [] = none
after_hex zero (c ∷ cs) = if c == 95 then some cs else none
after_hex (suc n) (c ∷ cs) = let rest = after_hex n cs in if is_hex c then rest else none

-- `replace(/^[0-9a-f]{16}_/i, '')`.
unfoldable pub drop_job_prefix : CodeUnits → CodeUnits
drop_job_prefix s = elim (after_hex 16 s) [ none ↦ s | some rest ↦ rest ]

-- What comes before the last dot: of a reversed text, what follows its first one. At least one
-- other character must stand after the dot.
unfoldable pub after_dot : CodeUnits → Option CodeUnits
after_dot [] = none
after_dot (c ∷ cs) = let rest = after_dot cs in if c == 46 then some cs else rest

unfoldable pub after_extension : CodeUnits → Option CodeUnits
after_extension [] = none
after_extension (c ∷ cs) = if c == 46 then none else after_dot cs

-- `replace(/\.[^.]+$/, '')`.
unfoldable pub drop_extension : CodeUnits → CodeUnits
drop_extension s = elim (after_extension (reverse s)) [ none ↦ s | some rest ↦ reverse rest ]

-- `replace(/[_.]/g, ' ')`.
abbrev pub to_space : ℕ → ℕ
to_space c = if (c == 95) || (c == 46) then 32 else c

-- `replace(/\s+/g, ' ')`; the flag says that a run is being replaced.
unfoldable pub single_spaces : Bool → CodeUnits → CodeUnits
single_spaces inside [] = []
single_spaces inside (c ∷ cs) =
    let after_run = single_spaces true cs in
    let after_other = single_spaces false cs in
    if is_space c then if inside then after_run else 32 ∷ after_run else c ∷ after_other

unfoldable pub clean_title : CodeUnits → CodeUnits
clean_title [] = codes "Untitled"
clean_title (c ∷ cs) =
    trim (single_spaces false (map to_space (drop_extension (drop_job_prefix (c ∷ cs)))))

-- `Math.imul(31, hash) + c | 0`, as the remainder modulo 2 ^ 32 of the signed number.
abbrev pub hash_step : ℕ → ℕ → ℕ
hash_step hash c = (31 * hash + c) % 2 ^ 32

unfoldable pub hash_from : ℕ → CodeUnits → ℕ
hash_from hash [] = hash
hash_from hash (c ∷ cs) = hash_from (hash_step hash c) cs

-- `Math.abs(hash)`, of a remainder that stands for a signed number.
abbrev pub abs32 : ℕ → ℕ
abs32 hash = if ltb hash (2 ^ 31) then hash else 2 ^ 32 - hash

-- The two hues of a gradient.
pub record Hues : Type 0 where
  pub first : ℕ
  pub second : ℕ

unfoldable pub job_id_to_gradient : CodeUnits → Hues
job_id_to_gradient id = record {
  first = abs32 (hash_from 0 id) % 360;
  second = (abs32 (hash_from 0 id) % 360 + 45) % 360;
}

-- The gradient of browse-palette.js: `(h * 31 + c) >>> 0` of the code units of a name within the
-- basic plane.
unfoldable pub palette_hash_from : ℕ → CodeUnits → ℕ
palette_hash_from hash [] = hash
palette_hash_from hash (c ∷ cs) = palette_hash_from ((hash * 31 + c) % 2 ^ 32) cs

unfoldable pub palette_gradient : CodeUnits → Hues
palette_gradient id = record {
  first = palette_hash_from 0 id % 360;
  second = (palette_hash_from 0 id % 360 + 60) % 360;
}

-- `replace` of every occurrence of one character.
unfoldable pub replace_all : ℕ → CodeUnits → CodeUnits → CodeUnits
replace_all c by [] = []
replace_all c by (d ∷ ds) =
    let rest = replace_all c by ds in if d == c then by ++ rest else d ∷ rest

unfoldable pub escape_attr : CodeUnits → CodeUnits
escape_attr s = replace_all 39 (codes "&#39;") (replace_all 34 (codes "&quot;") s)

-- `esc` of browse-palette.js.
unfoldable pub palette_esc : CodeUnits → CodeUnits
palette_esc s = replace_all 39 (codes "&#39;") (
    replace_all 34 (codes "&quot;") (
      replace_all 62 (codes "&gt;")
        (replace_all 60 (codes "&lt;") (replace_all 38 (codes "&amp;") s))))
