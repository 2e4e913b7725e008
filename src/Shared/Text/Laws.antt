-- ===== src/Shared/Text/Laws.antt =====
-- Trimming, splitting and reading numbers: when they give back what was put together.
use telegram_hls_streamer_v.Base.{All-reverse}
use telegram_hls_streamer_v.Base.{
  ℕ, ◌+◌, ◌*◌, ◌-◌, true, false, List, [], ◌∷◌, ◌++◌, ◌==◌, ◌≡◌, refl, ◌≢◌, arith, All, ap, ◌∙◌,
  integer,
}
use telegram_hls_streamer_v.Base.Decimal.{
  CodeUnits, IsDigit, read_from, show, read_from-show, show-IsDigit, show-ne-nil,
}
use telegram_hls_streamer_v.Shared.Text.{
  is_space, trim_start, trim, is_digit, digits_from, unsigned, signed, parse_int, split_on,
  join_with, same_text,
}
use mathlib.Core.List.{reverse, reverse-reverse}

-- The first character is no white space.
abbrev pub IsFlush : CodeUnits → Type 0
IsFlush [] = Unit
IsFlush (c ∷ cs) = is_space c ≡ false

pub trim_start_flush : (s : CodeUnits) → IsFlush s → trim_start s ≡ s
unfolding trim_start
trim_start_flush [] h = refl
trim_start_flush (c ∷ cs) h = rw h refl

pub trim_flush : (s : CodeUnits) → IsFlush s → IsFlush (reverse s) → trim s ≡ s
unfolding trim
trim_flush s h k = rw (trim_start_flush s h, trim_start_flush (reverse s) k) (reverse-reverse s)

All-IsFlush : (s : CodeUnits) → All (λ c. is_space c ≡ false) s → IsFlush s
All-IsFlush [] h = tt
All-IsFlush (c ∷ cs) (h, hs) = h

-- A text without white space is its own trim.
pub trim_solid : (s : CodeUnits) → All (λ c. is_space c ≡ false) s → trim s ≡ s
trim_solid s h =
    trim_flush s (All-IsFlush s h)
      (All-IsFlush (reverse s) (All-reverse (λ c. is_space c ≡ false) s h))

digits_from-read_from :
    (n : ℕ) (ds : CodeUnits) → All IsDigit ds → digits_from n ds ≡ read_from n ds
unfolding digits_from
digits_from-read_from n [] h = refl
digits_from-read_from n (d ∷ ds) (h, hs) =
    let digit : is_digit d ≡ true = ground arith in
    rw digit (digits_from-read_from (n * 10 + (d - 48)) ds hs)

pub parse_int-digits :
    (ds : CodeUnits) → All IsDigit ds → ds ≢ [] → parse_int ds ≡ integer (read_from 0 ds)
unfolding parse_int unsigned signed digits_from trim_start
parse_int-digits [] h ne = absurd (ne refl)
parse_int-digits (d ∷ ds) (h, hs) ne =
    let flush : is_space d ≡ false = ground arith in
    let digit : is_digit d ≡ true = ground arith in
    let minus : (d == 45) ≡ false = ground arith in
    let plus : (d == 43) ≡ false = ground arith in
    rw (flush, minus, plus, digit) (ap integer (digits_from-read_from (0 * 10 + (d - 48)) ds hs))

-- `parseInt(String(n), 10)` is `n`.
pub parse_int-show : (n : ℕ) → parse_int (show n) ≡ integer n
parse_int-show n =
    parse_int-digits (show n) (show-IsDigit n) (show-ne-nil n) ∙ ap integer (read_from-show n)

abbrev pub Lacks : ℕ → CodeUnits → Type 0
Lacks sep s = All (λ c. (c == sep) ≡ false) s

split_on-Lacks : (sep : ℕ) (s : CodeUnits) → Lacks sep s → split_on sep s ≡ s ∷ []
unfolding split_on
split_on-Lacks sep [] h = refl
split_on-Lacks sep (c ∷ cs) (h, hs) = rw (h, split_on-Lacks sep cs hs) refl

pub split_on-append :
    (sep : ℕ) (s t : CodeUnits) → Lacks sep s → split_on sep (s ++ sep ∷ t) ≡ s ∷ split_on sep t
unfolding split_on
split_on-append sep [] t h = ground arith
split_on-append sep (c ∷ cs) t (h, hs) = rw (h, split_on-append sep cs t hs) refl

-- Splitting what was joined gives the parts, if none has the separator in it.
pub split_on-join_with :
    (sep : ℕ) (p : CodeUnits) (ps : List CodeUnits)
    → All (Lacks sep) (p ∷ ps)
    → split_on sep (join_with sep (p ∷ ps)) ≡ p ∷ ps
unfolding join_with
split_on-join_with sep p [] (h, hs) = split_on-Lacks sep p h
split_on-join_with sep p (q ∷ qs) (h, hs) =
    split_on-append sep p (join_with sep (q ∷ qs)) h
    ∙ ap (λ ts. p ∷ ts) (split_on-join_with sep q qs hs)

pub same_text_self : (s : CodeUnits) → same_text s s ≡ true
same_text_self [] = refl
same_text_self (c ∷ cs) = ground (arith, same_text_self cs)

pub same_text-eq : (s t : CodeUnits) → same_text s t ≡ true → s ≡ t
same_text-eq [] [] h = refl
same_text-eq [] (d ∷ ds) h = absurd (cc h)
same_text-eq (c ∷ cs) [] h = absurd (cc h)
same_text-eq (c ∷ cs) (d ∷ ds) h = ground (arith, same_text-eq cs ds)
