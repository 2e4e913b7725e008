-- ===== src/Upload/Notices/Laws.antt =====
-- static/upload.js: the log keeps the newest messages, and a second cancel does nothing more.
use telegram_hls_streamer_v.Base.{ℕ, zero, suc, List, [], ◌∷◌, ◌++◌, take, ◌≡◌, refl, ap, ◌∙◌, sym}
use telegram_hls_streamer_v.Base.Decimal.{CodeUnits}
use telegram_hls_streamer_v.Upload.Notices.{add_message, add_messages, CancelPage, cancel_upload}
use mathlib.Core.List.{append-nil, append_assoc, reverse, reverse-cons}

take-take : {A : Type 0} (n : ℕ) (xs : List A) → take n (take (suc n) xs) ≡ take n xs
take-take zero xs = refl
take-take (suc n) [] = refl
take-take (suc n) (x ∷ xs) = ap (λ ys. x ∷ ys) (take-take n xs)

add_messages-take :
    (ms log : List CodeUnits) → add_messages ms (take 8 log) ≡ take 8 (reverse ms ++ log)
unfolding add_messages add_message
add_messages-take [] log = refl
add_messages-take (m ∷ ms) log =
    ap (λ l. add_messages ms (m ∷ l)) (take-take 7 log)
    ∙ add_messages-take ms (m ∷ log)
    ∙ ap (take 8) (sym (append_assoc (reverse ms) (m ∷ []) log))
    ∙ ap (λ l. take 8 (l ++ log)) (sym (reverse-cons m ms))

-- The log, empty before, shows the last eight messages, the newest first.
pub add_messages-reverse : (ms : List CodeUnits) → add_messages ms [] ≡ take 8 (reverse ms)
add_messages-reverse ms = add_messages-take ms [] ∙ ap (take 8) (append-nil (reverse ms))

-- To cancel again changes nothing: nothing is aborted and no request is sent a second time.
pub cancel_upload_twice : (p : CancelPage) → cancel_upload (cancel_upload p) ≡ cancel_upload p
unfolding cancel_upload
cancel_upload_twice p =
    ap (λ requests. record (cancel_upload p) { cancel_requests = requests })
      (append-nil (cancel_upload p).cancel_requests)
