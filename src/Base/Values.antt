-- ===== src/Base/Values.antt =====
-- Values of the source's dynamic types, and the operators that treat 0 and absence alike.
use Prim.Native.Nat.{ℕ, zero, suc}
use mathlib.Core.Option.{Option, none, some}
use Prim.Native.String.{String}
use telegram_hls_streamer_v.Base.Tests.{if◌then◌else◌, str_eq}

-- What `Number(v)` gives: an integer, or anything else (a fraction, an infinity, NaN).
pub data Numeric : Type 0 where
  integer : ℕ → Numeric
  negative : ℕ → Numeric
  not_integer : Numeric

-- `a || b` where `a` is a number that may be absent.
abbrev pub or_default : Option ℕ → ℕ → ℕ
or_default none d = d
or_default (some zero) d = d
or_default (some (suc n)) d = suc n

-- `s || t` where `s` is a text that may be absent: the empty text counts as absent.
abbrev pub or_text : Option String → String → String
or_text none t = t
or_text (some s) t = if str_eq s "" then t else s
