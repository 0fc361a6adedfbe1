-- ===== src/Download/Again.antt =====
-- A download that is repeated.
use re_remote_dev.Dict.{Dict, get, get-put_self}
use re_remote_dev.Download.{
  Answers, Disk, Job, cached, checked, done_job, enqueue, failed_job, is_hit, migrate, new_job,
  open_if_requested, or_cached, prepare, publish, ready, reported, run, running, size_of, submit,
  transfer, with_stat,
}
use re_remote_dev.Json.{get_field}
use re_remote_dev.Prelude.{
  Bool, Option, String, arith, eq_iff, eqb, false, if◌then◌else◌, inl, inr, none, refl, some, subst,
  sym, true, ℕ, ◌≡◌, ◌⊎◌,
}
use re_remote_dev.Prelude.Text.{is_empty, len}
use re_remote_dev.Result.{Exc, Result, err, failed, ok}
use re_remote_dev.Transfer.{agrees, expected, metadata_matches, sidecar_path, sidecar_payload}

module _ (sha256 : String → String) (endpoint : String) (legacy_path : String → String) where
  -- The job failed, or the copy that it leaves is recognised.
  abbrev Recognised : Job → ℕ → ℕ → Job × Disk → Type 0
  Recognised job size mtime (j, d) =
      (j.state ≡ failed_job)
      ⊎ (is_hit sha256 endpoint legacy_path job.local_path job size mtime d ≡ true)

  payload-hit :
      (path : String) (size mtime : ℕ) (content local_sha256 : String)
      → is_empty local_sha256 ≡ false
      → len content ≡ size
      → metadata_matches
          (some content)
          (some (sidecar_payload endpoint path size mtime local_sha256))
          endpoint
          path
          size
          mtime
        ≡ true
  unfolding metadata_matches agrees sidecar_payload expected get_field
  payload-hit path size mtime content local_sha256 n h =
      ground (arith, eq_iff endpoint endpoint, eq_iff path path)

  publish-hit :
      (job : Job) (size mtime : ℕ) (content : String) (d : Disk)
      → is_empty (sha256 content) ≡ false
      → len content ≡ size
      → is_hit sha256 endpoint legacy_path job.local_path job size mtime
          (publish sha256 endpoint legacy_path job size mtime content d)
        ≡ true
  unfolding is_hit publish metadata_matches
  publish-hit job size mtime content d n h =
      rw
        (
          get-put_self job.local_path content d.files,
          get-put_self (sidecar_path job.local_path)
              (sidecar_payload endpoint job.remote_path size mtime (sha256 content)) d.sidecars,
        )
        (payload-hit job.remote_path size mtime content (sha256 content) n h)

  reported-err-failed : (job : Job) (exc : Exc) → (reported job (err exc)).state ≡ failed_job
  unfolding reported
  reported-err-failed job exc = refl

  checked-Recognised :
      (a : Answers) (job : Job) (size mtime : ℕ) (d : Disk) (partial : Option String)
      (r : Result (Unit {0}))
      → ((content : String) → is_empty (sha256 content) ≡ false)
      → Recognised job size mtime (checked sha256 endpoint legacy_path a job size mtime d partial r)
  unfolding checked
  checked-Recognised a job size mtime d partial (err exc) n = inl (reported-err-failed job exc)
  checked-Recognised a job size mtime d none (ok _) n =
      inl (reported-err-failed job (failed "下载文件不存在"))
  checked-Recognised a job size mtime d (some content) (ok _) n = go (eqb (len content) size) refl
    where
      go :
          (b : Bool)
          → eqb (len content) size ≡ b
          → Recognised job size mtime (
              if b
              then (let j = done_job sha256 endpoint legacy_path ready size job in
                  (
                    reported j (open_if_requested a.viewer j),
                    publish sha256 endpoint legacy_path job size mtime content d,
                  ))
              else (reported job (err (failed "下载大小不一致")), d))
      go true h = inr (publish-hit job size mtime content d (n content) (ground arith))
      go false h = inl (reported-err-failed job (failed "下载大小不一致"))

  or_cached-Recognised :
      (a : Answers) (job : Job) (size mtime : ℕ) (d : Disk) (p : Job × Disk)
      → Recognised job size mtime p
      → Recognised job size mtime (or_cached sha256 endpoint legacy_path a job size mtime d p)
  unfolding or_cached
  or_cached-Recognised a job size mtime d p h =
      go (is_hit sha256 endpoint legacy_path job.local_path job size mtime d) refl
    where
      go :
          (b : Bool)
          → is_hit sha256 endpoint legacy_path job.local_path job size mtime d ≡ b
          → Recognised job size mtime (
              let j = done_job sha256 endpoint legacy_path cached size job in
              if b then (reported j (open_if_requested a.viewer j), d) else p)
      go true k = inr k
      go false k = h

  transfer-Recognised :
      (a : Answers) (job : Job) (size mtime : ℕ) (d : Disk)
      → ((content : String) → is_empty (sha256 content) ≡ false)
      → Recognised job size mtime (transfer sha256 endpoint legacy_path a job size mtime d)
  unfolding transfer is_hit
  transfer-Recognised a job size mtime d n =
      checked-Recognised a
        (record job {
          bytes_done =
              size_of sha256 endpoint legacy_path (
                get job.local_path (prepare sha256 endpoint legacy_path job size mtime d).partials);
        })
        size mtime _ a.partial a.transferred n

  with_stat-Recognised :
      (a : Answers) (job : Job) (size mtime : ℕ) (d : Disk)
      → ((content : String) → is_empty (sha256 content) ≡ false)
      → Recognised job size mtime (with_stat sha256 endpoint legacy_path a job d (ok (size, mtime)))
  unfolding with_stat is_hit
  with_stat-Recognised a job size mtime d n = or_cached-Recognised a j size mtime d _ (
      or_cached-Recognised a j size mtime (migrate sha256 endpoint legacy_path j size mtime d) _
        (transfer-Recognised a j size mtime (migrate sha256 endpoint legacy_path j size mtime d) n))
    where
      j : Job
      j = record job { bytes_total = size }

  run-Recognised :
      (a : Answers) (job : Job) (size mtime : ℕ) (d : Disk)
      → ((content : String) → is_empty (sha256 content) ≡ false)
      → a.stat ≡ ok (size, mtime)
      → Recognised job size mtime (run sha256 endpoint legacy_path a job d)
  unfolding run is_hit
  run-Recognised a job size mtime d n q =
      subst
        (λ r.
          Recognised job size mtime
            (with_stat sha256 endpoint legacy_path a (record job { state = running }) d r))
        (sym q) (with_stat-Recognised a (record job { state = running }) size mtime d n)

  with_stat-hit :
      (b : Answers) (job : Job) (size mtime : ℕ) (d : Disk)
      → is_hit sha256 endpoint legacy_path job.local_path job size mtime d ≡ true
      → (with_stat sha256 endpoint legacy_path b job d (ok (size, mtime))).1 ≡ d
  unfolding with_stat or_cached is_hit
  with_stat-hit b job size mtime d h = rw (h) refl

  -- A hit for the paths of another job.
  is_hit-paths :
      (job later : Job) (size mtime : ℕ) (d : Disk)
      → later.local_path ≡ job.local_path
      → later.remote_path ≡ job.remote_path
      → is_hit sha256 endpoint legacy_path job.local_path job size mtime d ≡ true
      → is_hit sha256 endpoint legacy_path later.local_path later size mtime d ≡ true
  unfolding is_hit
  is_hit-paths job later size mtime d l p h = rw (l, p) h

  run-hit :
      (b : Answers) (later : Job) (size mtime : ℕ) (d : Disk)
      → b.stat ≡ ok (size, mtime)
      → is_hit sha256 endpoint legacy_path later.local_path later size mtime d ≡ true
      → (run sha256 endpoint legacy_path b later d).1 ≡ d
  unfolding run is_hit
  run-hit b later size mtime d q h =
      subst
        (λ r.
          (with_stat sha256 endpoint legacy_path b (record later { state = running }) d r).1 ≡ d)
        (sym q) (with_stat-hit b (record later { state = running }) size mtime d h)

  -- If digests are never empty, a job whose remote file could be read either ends as FAILED, or leaves
  -- the disk so that a later job for the same paths changes nothing there while the remote file has the
  -- same size and time, whatever its transfer would have done.
  pub run_again :
      (a b : Answers) (job later : Job) (size mtime : ℕ) (d : Disk)
      → ((content : String) → is_empty (sha256 content) ≡ false)
      → a.stat ≡ ok (size, mtime)
      → b.stat ≡ ok (size, mtime)
      → later.local_path ≡ job.local_path
      → later.remote_path ≡ job.remote_path
      → let out = run sha256 endpoint legacy_path a job d in
        (out.0.state ≡ failed_job) ⊎ ((run sha256 endpoint legacy_path b later out.1).1 ≡ out.1)
  run_again a b job later size mtime d n q r l p = go (run-Recognised a job size mtime d n q)
    where
      go :
          Recognised job size mtime (run sha256 endpoint legacy_path a job d)
          → ((run sha256 endpoint legacy_path a job d).0.state ≡ failed_job)
            ⊎ ((run sha256 endpoint legacy_path b later
                  (run sha256 endpoint legacy_path a job d).1).1
                ≡ (run sha256 endpoint legacy_path a job d).1)
      go (inl f) = inl f
      go (inr h) = inr (
          run-hit b later size mtime (run sha256 endpoint legacy_path a job d).1 r
            (is_hit-paths job later size mtime (run sha256 endpoint legacy_path a job d).1 l p h))

-- A request for a path that had no job until another request queued one gets that job, and the queue
-- stays as it is.
pub submit_again :
    (local_path : String → String) (r1 r2 path op1 op2 : String) (jobs : Dict Job)
    → get path jobs ≡ none
    → let first = submit local_path r1 path op1 jobs in
      submit local_path r2 path op2 first.1 ≡ first
unfolding submit enqueue new_job
submit_again local_path r1 r2 path op1 op2 jobs h =
    rw h (rw (get-put_self path (new_job r1 path (local_path path) op1) jobs) refl)
