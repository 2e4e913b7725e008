-- ===== src/Upload/Selection/Video.antt =====
-- static/upload.js: which files isValidVideoFormat accepts.
use telegram_hls_streamer_v.Base.{
  ◌||◌, ◌==◌, sym, subst, Bool, true, false, List, [], ◌∷◌, ◌++◌, ◌⊎◌, inl, inr, Bool-cases,
  if◌then◌else◌, ◌≡◌, refl, arith, ap,
}
use telegram_hls_streamer_v.Base.Decimal.{CodeUnits, codes}
use telegram_hls_streamer_v.Shared.Text.{starts_with, same_text}
use telegram_hls_streamer_v.Shared.Text.Laws.{same_text-eq}
use telegram_hls_streamer_v.Shared.Slug.{to_lower_case}
use telegram_hls_streamer_v.Upload.Selection.{
  PickedFile, is_valid_video_format, is_one_of, allowed_extensions, last_part,
}

abbrev pub Among : List CodeUnits → CodeUnits → Type 0
Among [] s = ⊥
Among (t ∷ ts) s = (s ≡ t) ⊎ Among ts s

-- An extension of a video, in capitals or not.
abbrev pub IsExtension : CodeUnits → Type 0
IsExtension s =
    Among
      (codes "mp4"
        ∷ codes "mkv"
        ∷ codes "avi"
        ∷ codes "mov"
        ∷ codes "webm"
        ∷ codes "ts"
        ∷ codes "m4v"
        ∷ codes "flv"
        ∷ [])
      (to_lower_case s)

-- The browser says that it is a video, or the name ends in a dot and one of the extensions, or is one of them.
abbrev pub IsVideo : PickedFile → Type 0
IsVideo f =
    (starts_with (codes "video/") f.mime ≡ true)
    ⊎ ((base : CodeUnits) × (ext : CodeUnits) × (f.name ≡ base ++ 46 ∷ ext) × IsExtension ext)
    ⊎ IsExtension f.name

-- What follows the last dot, if there is one.
last_part-cases :
    (found s : CodeUnits)
    → ((base : CodeUnits) × (s ≡ base ++ 46 ∷ last_part found s)) ⊎ (last_part found s ≡ found)
unfolding last_part
last_part-cases found [] = inr refl
last_part-cases found (c ∷ cs) = elim (last_part-cases (if c == 46 then cs else found) cs) [
  | inl (base, e) ↦ inl (c ∷ base, ap (λ (t : CodeUnits). c ∷ t) e)
  | inr e ↦ elim (Bool-cases (c == 46)) [
    | inl dot ↦ inl ([], ground (arith, e, dot))
    | inr other ↦ inr (ground (arith, e, other))
  ]
]

or_cases : (a b : Bool) → (a || b) ≡ true → (a ≡ true) ⊎ (b ≡ true)
or_cases true b h = inl refl
or_cases false b h = inr h

Among-of_is_one_of : (ts : List CodeUnits) (s : CodeUnits) → is_one_of ts s ≡ true → Among ts s
Among-of_is_one_of [] s h = absurd (cc h)
Among-of_is_one_of (t ∷ ts) s h = elim (or_cases (same_text t s) (is_one_of ts s) h) [
  | inl e ↦ inl (sym (same_text-eq t s e))
  | inr e ↦ inr (Among-of_is_one_of ts s e)
]

pub is_valid-IsVideo : (f : PickedFile) → is_valid_video_format f ≡ true → IsVideo f
unfolding is_valid_video_format
is_valid-IsVideo f h = elim (or_cases (starts_with (codes "video/") f.mime) _ h) [
  | inl mime ↦ inl mime
  | inr e ↦
      let known : IsExtension (last_part f.name f.name) =
        Among-of_is_one_of allowed_extensions _ e in
      elim (last_part-cases f.name f.name) [
        | inl (base, split) ↦ inr (inl (base, last_part f.name f.name, split, known))
        | inr whole ↦ inr (inr (subst IsExtension whole known))
      ]
]
