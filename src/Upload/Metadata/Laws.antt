-- ===== src/Upload/Metadata/Laws.antt =====
-- static/upload.js: what is linked was offered.
use telegram_hls_streamer_v.Base.{
  ℕ, List, [], ◌∷◌, Option, none, some, map, take, get_elem?, All, All-take, All-get, ◌≡◌, refl,
  if_elim,
}
use telegram_hls_streamer_v.Base.Decimal.{CodeUnits}
use telegram_hls_streamer_v.Shared.Text.{trim, is_empty}
use telegram_hls_streamer_v.Upload.Metadata.{
  MetaItem, ExternalId, Shown, buttons, MetaRow, rebuilt_row, search_upload_metadata, results_found,
  search_refused, button_label, listed_items, search_reply, item_at, external_of, select_item,
  select_upload_metadata, RowEvent, query_typed, provider_picked, search_pressed, reply_arrived,
  button_pressed, table_rebuilt, row_step, row_run,
}

-- Buttons are the labels of the results that a press chooses from.
abbrev pub Matches : Shown → Option (List MetaItem) → Type 0
Matches (buttons labels) none = ⊥
Matches (buttons labels) (some items) = labels ≡ map button_label items
Matches _ results = Unit

module _ (P : ExternalId → Type 0) where
  abbrev pub Offered : Option (List MetaItem) → Type 0
  Offered none = Unit
  Offered (some items) = All (λ i. P (external_of i)) items

  abbrev pub Chosen : Option ExternalId → Type 0
  Chosen none = Unit
  Chosen (some id) = P id

  -- Each result of a reply has the property.
  abbrev pub RepliesOffer : RowEvent → Type 0
  RepliesOffer (reply_arrived (results_found items)) = All (λ i. P (external_of i)) items
  RepliesOffer _ = Unit

  abbrev pub IsSound : MetaRow → Type 0
  IsSound r = Matches r.shown r.results × Offered r.results × Chosen r.external

  listed_items-IsSound :
      (items : List MetaItem) (r : MetaRow)
      → All (λ i. P (external_of i)) items
      → IsSound r
      → IsSound (listed_items items r)
  unfolding listed_items
  listed_items-IsSound [] r h (m, o, c) = (tt, o, c)
  listed_items-IsSound (i ∷ is) r h (m, o, c) = (refl, h, c)

  select_item-IsSound :
      (results : Option (List MetaItem)) (i : ℕ) (r : MetaRow)
      → Offered results
      → IsSound r
      → IsSound (select_item (item_at results i) r)
  unfolding select_item
  select_item-IsSound none i r o h = h
  select_item-IsSound (some items) i r o h = go (get_elem? items i) refl
    where
      go : (f : Option MetaItem) → get_elem? items i ≡ f → IsSound (select_item f r)
      go none e = h
      go (some item) e = (tt, h.1, All-get (λ j. P (external_of j)) items i item o e)

  row_step-IsSound :
      (r : MetaRow) (e : RowEvent) → RepliesOffer e → IsSound r → IsSound (row_step r e)
  unfolding row_step search_upload_metadata search_reply select_upload_metadata rebuilt_row
  row_step-IsSound r (query_typed q) k h = h
  row_step-IsSound r (provider_picked p) k h = h
  row_step-IsSound r search_pressed k (m, o, c) =
      if_elim (λ (x : MetaRow × Option (CodeUnits × CodeUnits)). IsSound x.0)
        (is_empty (trim r.query)) _ _ (λ t. (m, o, c)) (λ f. (tt, o, c))
  row_step-IsSound r (reply_arrived (results_found items)) k h =
      listed_items-IsSound (take 5 items) r (All-take (λ i. P (external_of i)) 5 items k) h
  row_step-IsSound r (reply_arrived (search_refused message)) k (m, o, c) = (tt, o, c)
  row_step-IsSound r (button_pressed i) k h = select_item-IsSound r.results i r h.1 h
  row_step-IsSound r (table_rebuilt cat md) k h = (tt, tt, tt)

  -- Whatever is typed, searched, answered and pressed in a row: what is linked was a result of one of the replies, or was
  -- linked before (it has each property that these have), and while buttons are shown they are the labels of the
  -- results that a press chooses from.
  pub row_run-IsSound :
      (es : List RowEvent) (r : MetaRow) → All RepliesOffer es → IsSound r → IsSound (row_run r es)
  unfolding row_run
  row_run-IsSound [] r k h = h
  row_run-IsSound (e ∷ es) r (k, ks) h =
      row_run-IsSound es (row_step r e) ks (row_step-IsSound r e k h)
