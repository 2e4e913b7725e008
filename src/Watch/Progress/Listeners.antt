-- ===== src/Watch/Progress/Listeners.antt =====
-- static/watch.js: how often the listeners of a video save its progress.
use telegram_hls_streamer_v.Base.{ℕ, suc, ◌+◌, ◌≤◌, List, [], ◌∷◌, ◌≡◌, if◌then◌else◌}
use telegram_hls_streamer_v.Watch.Progress.{Save, Saves, VideoEvent, updated, ended}

-- Times, the newest first, of which each is at least `gap` after the one before.
abbrev pub IsSpaced : ℕ → List ℕ → Type 0
IsSpaced gap [] = Unit
IsSpaced gap (t ∷ []) = Unit
IsSpaced gap (t ∷ u ∷ us) = (u + gap ≤ t) × IsSpaced gap (u ∷ us)

-- The times of the saves that `timeupdate` made, and the number of the others.
abbrev pub timed_of : List Save → List ℕ
timed_of [] = []
timed_of (v ∷ vs) = if v.timed then v.saved_at ∷ timed_of vs else timed_of vs

abbrev pub untimed : List Save → ℕ
untimed [] = 0
untimed (v ∷ vs) = if v.timed then untimed vs else suc (untimed vs)

-- The times that a video ended, and that it ended, was paused or was moved.
abbrev pub ends : List VideoEvent → ℕ
ends [] = 0
ends (ended now ∷ es) = suc (ends es)
ends (_ ∷ es) = ends es

abbrev pub stops : List VideoEvent → ℕ
stops [] = 0
stops (updated now ∷ es) = stops es
stops (_ ∷ es) = suc (stops es)

abbrev IsLast : ℕ → List ℕ → Type 0
IsLast t [] = Unit
IsLast t (u ∷ us) = t ≡ u

abbrev IsThrottled : Saves → Type 0
IsThrottled s =
    IsSpaced 5000 (timed_of s.local_saves)
    × IsLast s.last_save (timed_of s.local_saves)
    × IsSpaced 30000 (timed_of s.server_saves)
    × IsLast s.server_last_save (timed_of s.server_saves)
