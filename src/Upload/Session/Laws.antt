-- ===== src/Upload/Session/Laws.antt =====
-- What a finished upload has established.
mod Plans
use telegram_hls_streamer_v.Base.{
  ℕ, ◌*◌, ◌≤◌, ◌≡◌, refl, sym, ◌∙◌, ap, subst, inl, inr, true, false, List, [], ◌∷◌, Option, none,
  some, arith, String, All, all, Bool-cases,
}
use telegram_hls_streamer_v.Upload.Chunks.{missing_chunks}
use telegram_hls_streamer_v.Upload.Pool.{
  Plan, PendingUpload, Worker, ready, sending, finished, failed, Pool, Event, start, run,
}
use telegram_hls_streamer_v.Upload.Pool.Completion.{run-start_complete, start-run-Staffed}
use telegram_hls_streamer_v.Upload.Poll.{
  Outcome, resolved, rejected, StatusData, poll_status, verdict,
}
use telegram_hls_streamer_v.Upload.Metadata.{
  ExternalId, LinkReply, link_accepted, link_not_accepted, link_request_failed,
  link_uploaded_metadata,
}
use telegram_hls_streamer_v.Upload.Poll.Laws.{
  first_verdict, Settles, first_verdict-Settles, poll_status-first_verdict,
}
use telegram_hls_streamer_v.Upload.Session.Laws.Plans.{
  IsFor, resume_upload-IsFor, plan_upload-IsFor,
}
use telegram_hls_streamer_v.Upload.Session.{
  FinalizeReply, finalize_ok, finalize_refused, Result, done, failure, waiting, ◌>>=◌, Replies,
  File, resume_upload, plan_upload, is_finished, await_workers, finalize_upload, await_job,
  Uploaded, finish_upload, upload_video, upload_single_file,
}

>>=-eq-done {ℓ κ} :
    {A : Type ℓ} {B : Type κ} (m : Result A) (f : A → Result B) (b : B)
    → (m >>= f) ≡ done b
    → (a : A) × (m ≡ done a) × (f a ≡ done b)
>>=-eq-done (done a) f b h = (a, refl, h)
>>=-eq-done (failure e) f b h = absurd cc
>>=-eq-done waiting f b h = absurd cc

-- Every worker has returned and nobody has cancelled.
all_finished : (ws : List Worker) → all is_finished ws ≡ true → All (λ w. w ≡ finished) ws
all_finished [] h = tt
all_finished (finished ∷ ws) h = (refl, all_finished ws h)
all_finished (ready ∷ ws) h = absurd cc
all_finished (sending i ∷ ws) h = absurd cc
all_finished (failed ∷ ws) h = absurd cc

await_workers-eq-done :
    (p q : Pool)
    → await_workers p ≡ done q
    → (q ≡ p) × All (λ w. w ≡ finished) p.workers × (p.is_cancelled ≡ false)
unfolding await_workers
await_workers-eq-done p q h = (ground arith, all_finished p.workers (ground arith), ground arith)

await_job-eq-done :
    (job_id : String) (o : Option Outcome) (job : String)
    → await_job job_id o ≡ done job
    → o ≡ some (resolved job)
unfolding await_job
await_job-eq-done job_id none job h = absurd cc
await_job-eq-done job_id (some (resolved j)) job h = ground arith
await_job-eq-done job_id (some (rejected m)) job h = absurd cc

verdict_job :
    (job_id job : String) (ds : List StatusData)
    → first_verdict job_id ds ≡ some (resolved job)
    → job ≡ job_id
unfolding verdict
verdict_job job_id job [] h = absurd cc
verdict_job job_id job (d ∷ ds) h = ground (arith, verdict_job job_id job ds)

-- What holds of the pool when the request to finalize is made.
pub record IsComplete (file : File) (p : Pool) : Type 0 where
  pub every : missing_chunks p.total_chunks p.received ≡ []
  pub bytes : p.uploaded_bytes ≡ file.size
  pub percent : p.shown_percent ≡ 100
  pub running : p.is_cancelled ≡ false

run-IsComplete :
    (file : File) (plan : Plan) (left : Option PendingUpload) (es : List Event) (p : Pool)
    → IsFor file plan
    → plan.file_size ≤ plan.total_chunks * plan.chunk_size
    → await_workers (run (start plan left []) es) ≡ done p
    → IsComplete file p
run-IsComplete file plan left es p f room h =
    let (same, finished_all, going) = await_workers-eq-done (run (start plan left []) es) p h in
    let (every, bytes, percent) =
      run-start_complete plan left [] es f.is_set f.bounded room finished_all in
    let facts = start-run-Staffed plan left [] es in
    subst (IsComplete file) (sym same) (record {
      every = rw (ap (λ (q : Plan). q.total_chunks) facts.0) every;
      bytes = bytes ∙ f.size;
      percent = percent;
      running = going;
    })

finalize_upload-eq-done :
    (reply : FinalizeReply) (job_id : String)
    → finalize_upload reply ≡ done job_id
    → reply ≡ finalize_ok job_id
unfolding finalize_upload
finalize_upload-eq-done (finalize_ok j) job_id h = ground arith
finalize_upload-eq-done (finalize_refused m) job_id h = absurd cc

link_uploaded_metadata-request :
    (e : Option ExternalId) (reply : LinkReply) → (link_uploaded_metadata e reply).0 ≡ e
unfolding link_uploaded_metadata
link_uploaded_metadata-request none reply = refl
link_uploaded_metadata-request (some id) link_accepted = refl
link_uploaded_metadata-request (some id) link_not_accepted = refl
link_uploaded_metadata-request (some id) link_request_failed = refl

done-injective {ℓ} : {A : Type ℓ} {a b : A} → ◌≡◌ {A = Result A} (done a) (done b) → a ≡ b
done-injective h = cc h

finish_upload-eq-done :
    (file : File) (r : Replies) (p : Pool) (u : Uploaded)
    → finish_upload file r p ≡ done u
    → (u.pool ≡ p)
      × (r.finalize_reply ≡ finalize_ok u.job)
      × (first_verdict u.job r.poll_replies ≡ some (resolved u.job))
      × (u.pending_left ≡ none)
      × (u.linking.0 ≡ file.external)
unfolding finish_upload
finish_upload-eq-done file r p u h =
    let (job_id, a, g) = >>=-eq-done (finalize_upload r.finalize_reply) _ u h in
    let (job, b, e) =
      >>=-eq-done (await_job job_id (poll_status job_id r.poll_replies).outcome) _ u g in
    let ended =
      sym (poll_status-first_verdict job_id r.poll_replies) ∙ await_job-eq-done job_id _ job b in
    let same = verdict_job job_id job r.poll_replies ended in
    let u_job : u.job ≡ job_id = ground arith in
    (
      ground arith,
      finalize_upload-eq-done r.finalize_reply job_id a ∙ ap finalize_ok (sym u_job),
      rw u_job (ended ∙ ap (λ (j : String). some (resolved j)) same),
      ground arith,
      ap (λ (v : Uploaded). v.linking.0) (sym (done-injective e))
          ∙ link_uploaded_metadata-request file.external r.link_reply,
    )

upload_video_done :
    (file : File) (pending : Option PendingUpload) (chunk_size : ℕ) (r : Replies) (plan : Plan)
    (u : Uploaded)
    → plan_upload file (resume_upload file pending r.status_reply chunk_size).0 r.init_reply
      ≡ done plan
    → plan.file_size ≤ plan.total_chunks * plan.chunk_size
    → upload_video file pending chunk_size r ≡ done u
    → IsComplete file u.pool
      × (r.finalize_reply ≡ finalize_ok u.job)
      × (first_verdict u.job r.poll_replies ≡ some (resolved u.job))
      × (u.pending_left ≡ none)
      × (u.linking.0 ≡ file.external)
unfolding upload_video
upload_video_done file pending chunk_size r plan u planned room h =
    let found = resume_upload file pending r.status_reply chunk_size in
    let (plan', planned', g) = >>=-eq-done (plan_upload file found.0 r.init_reply) _ u h in
    let same_plan : plan' ≡ plan = ground arith in
    let (p, ran, e) = >>=-eq-done (await_workers (run (start plan' found.1 []) r.events)) _ u g in
    let (same, accepted, ended, cleared, linked) = finish_upload-eq-done file r p u e in
    let fits =
      plan_upload-IsFor file found.0 r.init_reply plan'
        (resume_upload-IsFor file pending r.status_reply chunk_size) planned' in
    (
      subst (IsComplete file) (sym same)
          (run-IsComplete file plan' found.1 r.events p fits (rw same_plan room) ran),
      accepted,
      ended,
      cleared,
      linked,
    )

-- If an upload ends with a job, and the chunks of the slot in use cover the file, then the file is a
-- video; when the request to finalize was made no chunk was missing on the server, the bytes of the
-- whole file were counted and 100 percent shown, and nobody had cancelled; the server accepted the
-- request with the job, and the first final status it reported was that this job is complete; no
-- record for resuming is left, and the metadata that was chosen for the file was asked to be linked.
pub upload_single_file_done :
    (file : File) (pending : Option PendingUpload) (chunk_size : ℕ) (r : Replies) (plan : Plan)
    (u : Uploaded)
    → plan_upload file (resume_upload file pending r.status_reply chunk_size).0 r.init_reply
      ≡ done plan
    → plan.file_size ≤ plan.total_chunks * plan.chunk_size
    → upload_single_file file pending chunk_size r ≡ done u
    → (file.is_video ≡ true)
      × IsComplete file u.pool
      × (r.finalize_reply ≡ finalize_ok u.job)
      × Settles u.job r.poll_replies (some (resolved u.job))
      × (u.pending_left ≡ none)
      × (u.linking.0 ≡ file.external)
unfolding upload_single_file
upload_single_file_done file pending chunk_size r plan u planned room h =
    elim (Bool-cases file.is_video) [
      | inr no_video ↦ absurd (ground arith)
      | inl video ↦
          let (complete, accepted, ended, cleared, linked) =
            upload_video_done file pending chunk_size r plan u planned room (ground arith) in
          (
            video,
            complete,
            accepted,
            subst (Settles u.job r.poll_replies) ended (first_verdict-Settles u.job r.poll_replies),
            cleared,
            linked,
          )
    ]
