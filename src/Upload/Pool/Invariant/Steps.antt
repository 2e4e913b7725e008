-- ===== src/Upload/Pool/Invariant/Steps.antt =====
-- static/upload.js: the parts of a worker's step keep the state of an upload well formed.
use telegram_hls_streamer_v.Base.{
  ℕ, ◌<◌, ◌≡◌, ◌≢◌, refl, sym, ◌∙◌, subst, ◌⊎◌, inl, inr, true, false, List, none, some, arith, has,
  add, has-add, get_elem?, set, get_elem?-set_self, get_elem?-set_ne, ℕ-cases, Bool-cases, if_elim,
  Option-cases, IsSetList, add-IsSetList, All,
}
use telegram_hls_streamer_v.Upload.Chunks.{bytes_for_received_chunks}
use telegram_hls_streamer_v.Upload.Chunks.Sums.{All-add, bytes_for_received_chunks-add}
use telegram_hls_streamer_v.Upload.Pool.Accounting.{
  Accounted, arrived, held, stopped, Accounted-set, Accounted-fail,
}
use telegram_hls_streamer_v.Upload.Pool.{
  Worker, sending, finished, failed, Pool, receive, report, take_work,
}

pub record Inv (p : Pool) : Type 0 where
  pub is_set : IsSetList p.received
  pub bounded : All (λ i. i < p.total_chunks) p.received
  pub counted :
      p.uploaded_bytes
      ≡ bytes_for_received_chunks p.file_size p.total_chunks p.chunk_size p.received
  pub accounted :
      (j i : ℕ)
      → j < p.next_work
      → get_elem? p.missing j ≡ some i
      → Accounted p.received p.workers i
  pub listed :
      (i : ℕ)
      → i < p.total_chunks
      → has p.received i ≡ false
      → (j : ℕ) × (get_elem? p.missing j ≡ some i)
  pub missing_bounded : (j i : ℕ) → get_elem? p.missing j ≡ some i → i < p.total_chunks
  pub idle :
      (w : ℕ) → get_elem? p.workers w ≡ some finished → get_elem? p.missing p.next_work ≡ none
  pub in_range : (w i : ℕ) → get_elem? p.workers w ≡ some (sending i) → i < p.total_chunks

-- A worker's new state after `set`, read back at any place.
pub get_elem?-set_cases :
    (ws : List Worker) (w v : ℕ) (old new a : Worker)
    → get_elem? ws w ≡ some old
    → get_elem? (set ws w new) v ≡ some a
    → (new ≡ a) ⊎ (get_elem? ws v ≡ some a)
get_elem?-set_cases ws w v old new a at e = elim (ℕ-cases w v) [
  | inl same ↦ inl (ground (arith, get_elem?-set_self ws w new old at))
  | inr other ↦ inr (sym (get_elem?-set_ne ws w v new other) ∙ e)
]

pub fail-Inv :
    (p : Pool) (w : ℕ) (old : Worker)
    → get_elem? p.workers w ≡ some old
    → Inv p
    → Inv (record p { workers = set p.workers w failed })
fail-Inv p w old at v = record {
  is_set = v.is_set;
  bounded = v.bounded;
  counted = v.counted;
  accounted = λ j i lt e. Accounted-fail p.received p.workers w old i at (v.accounted j i lt e);
  listed = v.listed;
  missing_bounded = v.missing_bounded;
  idle = λ u e. elim (get_elem?-set_cases p.workers w u old failed finished at e) [
    | inl c ↦ absurd cc
    | inr k ↦ v.idle u k
  ];
  in_range = λ u i e. elim (get_elem?-set_cases p.workers w u old failed (sending i) at e) [
    | inl c ↦ absurd cc
    | inr k ↦ v.in_range u i k
  ];
}

pub workers-receive :
    (p : Pool) (i w : ℕ) → get_elem? (report (receive p i)).workers w ≡ get_elem? p.workers w
unfolding report receive
workers-receive p i w = ground arith

pub has-receive_self : (p : Pool) (i : ℕ) → has (receive p i).received i ≡ true
unfolding receive
has-receive_self p i = ground (arith, has-add p.received i i)

pub has-receive_mono :
    (p : Pool) (i k : ℕ) → has p.received k ≡ true → has (receive p i).received k ≡ true
unfolding receive
has-receive_mono p i k h = ground (arith, has-add p.received i k)

pub receive-Inv : (p : Pool) (i : ℕ) → i < p.total_chunks → Inv p → Inv (receive p i)
unfolding receive
receive-Inv p i lt v = elim (Bool-cases (has p.received i)) [
  | inl old ↦ rw old v
  | inr new ↦ rw new (record {
    is_set = add-IsSetList p.received i v.is_set;
    bounded = All-add p.total_chunks p.received i v.bounded lt;
    counted = omega (
      arith,
      v.counted,
      bytes_for_received_chunks-add p.file_size p.chunk_size p.total_chunks p.received i v.is_set
          v.bounded lt new,
    );
    accounted = λ j k jlt e. grow k (v.accounted j k jlt e);
    listed = λ k klt e. v.listed k klt (ground (arith, has-add p.received i k));
    missing_bounded = v.missing_bounded;
    idle = v.idle;
    in_range = v.in_range;
  })
]
  where
    grow : (k : ℕ) → Accounted p.received p.workers k → Accounted (add p.received i) p.workers k
    grow k (arrived h) = arrived (ground (arith, has-add p.received i k))
    grow k (held w e) = held w e
    grow k (stopped w e) = stopped w e

pub has-report : (p : Pool) (k : ℕ) → has (report p).received k ≡ has p.received k
unfolding report
has-report p k = refl

pub report-Inv : (p : Pool) → Inv p → Inv (report p)
unfolding report
report-Inv p v = record {
  is_set = v.is_set;
  bounded = v.bounded;
  counted = v.counted;
  accounted = v.accounted;
  listed = v.listed;
  missing_bounded = v.missing_bounded;
  idle = v.idle;
  in_range = v.in_range;
}

-- A worker whose chunk has arrived may go on.
pub take_work-Inv :
    (p : Pool) (w : ℕ) (old : Worker)
    → get_elem? p.workers w ≡ some old
    → ((k : ℕ) → old ≡ sending k → has p.received k ≡ true)
    → old ≢ failed
    → Inv p
    → Inv (take_work p w)
unfolding take_work
take_work-Inv p w old at good ok v = elim (Option-cases (get_elem? p.missing p.next_work)) [
  | inl e ↦
      rw (e, take_work)
        (record {
          is_set = v.is_set;
          bounded = v.bounded;
          counted = v.counted;
          accounted = λ j i lt k. keep finished i (v.accounted j i lt k);
          listed = v.listed;
          missing_bounded = v.missing_bounded;
          idle = λ _ _. e;
          in_range = λ u i k.
              elim (get_elem?-set_cases p.workers w u old finished (sending i) at k) [
                | inl c ↦ absurd cc
                | inr m ↦ v.in_range u i m
              ];
        })
  | inr (i, e) ↦
      rw (e, take_work)
        (if_elim Inv p.is_cancelled _ _ (λ _. fail-Inv p w old at v)
          (λ _. record {
            is_set = v.is_set;
            bounded = v.bounded;
            counted = v.counted;
            accounted = λ j k lt m. elim (ℕ-cases j p.next_work) [
              | inl last ↦
                  let same : i ≡ k = ground arith in
                  subst (Accounted p.received (set p.workers w (sending i))) same
                    (held w (get_elem?-set_self p.workers w (sending i) old at))
              | inr before ↦ keep (sending i) k (v.accounted j k (omega arith) m)
            ];
            listed = v.listed;
            missing_bounded = v.missing_bounded;
            idle = λ u k. elim (get_elem?-set_cases p.workers w u old (sending i) finished at k) [
              | inl c ↦ absurd cc
              | inr m ↦ absurd (cc (v.idle u m))
            ];
            in_range = λ u k m.
                elim (get_elem?-set_cases p.workers w u old (sending i) (sending k) at m) [
                  | inl same ↦ v.missing_bounded p.next_work k (ground arith)
                  | inr n ↦ v.in_range u k n
                ];
          }))
]
  where
    keep :
        (new : Worker) (i : ℕ)
        → Accounted p.received p.workers i
        → Accounted p.received (set p.workers w new) i
    keep new i = Accounted-set p.received p.received p.workers w old new i at good ok (λ _ h. h)
