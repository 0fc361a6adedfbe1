-- ===== src/Download.antt =====
-- download.py: the transfer queue of one endpoint. What the remote host, sftp and the viewer answer to a job
-- is an argument. Temporary files and their metadata are tables by the path of the final file; the local
-- disk itself does not fail.
pub mod Again
use re_remote_dev.Dict.{Dict, get, put, remove}
use re_remote_dev.Json.{Fields, end, obj, truthy}
use re_remote_dev.Prelude.{
  Bool, Option, String, [], eqb, false, if◌then◌else◌, ltb, none, not, some, true, ℕ, ◌==◌, ◌||◌,
  ◌∷◌,
}
use re_remote_dev.Prelude.Text.{len}
use re_remote_dev.Result.{Result, err, failed, ok}
use re_remote_dev.Server.{message}
use re_remote_dev.Transfer.{agrees, expected, metadata_matches, sidecar_path, sidecar_payload}

pub data JobState : Type 0 where
  queued running cached ready ready_with_warning failed_job : JobState

pub record Job : Type 0 where
  pub request_id : String
  pub remote_path : String
  pub local_path : String
  pub operation : String
  pub state : JobState
  pub error : Option String
  pub bytes_total : ℕ
  pub bytes_done : ℕ

-- Files by path, with their texts; a sidecar that is no JSON object is missing here.
pub record Disk : Type 0 where
  pub files : Dict String
  pub sidecars : Dict Fields
  pub partials : Dict String
  pub partial_sidecars : Dict Fields

-- open_local: the viewer starts, there is none (PreviewOpenError), or another exception
pub data Viewer : Type 0 where
  opened : Viewer
  no_viewer broken : String → Viewer

-- `stat` is the size and the time in nanoseconds of the remote file. The transfer leaves a partial file or
-- none, and may raise.
pub record Answers : Type 0 where
  pub stat : Result (ℕ × ℕ)
  pub partial : Option String
  pub transferred : Result (Unit {0})
  pub viewer : Viewer

abbrev pub set_or_clear : {V : Type 0} → String → Option V → Dict V → Dict V
set_or_clear k none d = remove k d
set_or_clear k (some v) d = put k v d

-- _open_if_requested; an `err` goes to the handler of `_run`
unfoldable pub open_if_requested : Viewer → Job → Result Job
open_if_requested viewer job =
    if job.operation == "open"
    then elim viewer [
      | opened ↦ ok job
      | no_viewer text ↦ ok (record job { error = some text; state = ready_with_warning })
      | broken text ↦ err (failed text)
    ]
    else ok job

-- `except Exception as exc` of `_run`
unfoldable pub reported : Job → Result Job → Job
reported job (ok j) = j
reported job (err exc) = record job { state = failed_job; error = some (message exc) }

module _ (sha256 : String → String) (endpoint : String) (legacy_path : String → String) where
  -- Whether the copy at `local` is what the remote file is now.
  unfoldable pub is_hit : String → Job → ℕ → ℕ → Disk → Bool
  is_hit local job size mtime d =
      metadata_matches (get local d.files) (get (sidecar_path local) d.sidecars) endpoint
        job.remote_path size mtime

  -- _migrate_legacy_cache
  unfoldable pub migrate : Job → ℕ → ℕ → Disk → Disk
  unfolding is_hit
  migrate job size mtime d =
      let legacy = legacy_path job.remote_path in
      elim (get job.local_path d.files) [
        | some content ↦ d
        | none ↦ elim (get legacy d.files) [
          | none ↦ d
          | some content ↦
              if is_hit legacy job size mtime d
              then record d {
                files = put job.local_path content (remove legacy d.files);
                sidecars = elim (get (sidecar_path legacy) d.sidecars) [
                  | none ↦ d.sidecars
                  | some sidecar ↦
                      put (sidecar_path job.local_path) sidecar
                        (remove (sidecar_path legacy) d.sidecars)
                ];
              }
              else d
        ]
      ]

  -- A partial file of another version of the remote file, or one that is too long, is not resumed.
  unfoldable pub is_stale : Job → ℕ → ℕ → Option Fields → String → Bool
  is_stale job size mtime none content = true
  is_stale job size mtime (some old) content =
      not (truthy (obj old))
      || not (agrees endpoint job.remote_path size mtime old)
      || ltb size (len content)

  unfoldable pub prepare : Job → ℕ → ℕ → Disk → Disk
  unfolding is_stale
  prepare job size mtime d =
      let kept : Disk = record d {
        partials = elim (get job.local_path d.partials) [
          | none ↦ d.partials
          | some content ↦
              if is_stale job size mtime (get job.local_path d.partial_sidecars) content
              then remove job.local_path d.partials
              else d.partials
        ];
      } in
      record kept {
        partial_sidecars =
            put job.local_path (expected endpoint job.remote_path size mtime end)
              d.partial_sidecars;
      }

  abbrev pub size_of : Option String → ℕ
  size_of none = 0
  size_of (some content) = len content

  -- The final file and its sidecar, once the transfer is complete.
  unfoldable pub publish : Job → ℕ → ℕ → String → Disk → Disk
  publish job size mtime content d = record d {
    files = put job.local_path content d.files;
    sidecars =
        put (sidecar_path job.local_path)
          (sidecar_payload endpoint job.remote_path size mtime (sha256 content)) d.sidecars;
    partials = remove job.local_path d.partials;
    partial_sidecars = remove job.local_path d.partial_sidecars;
  }

  abbrev pub done_job : JobState → ℕ → Job → Job
  done_job state size job = record job { state = state; bytes_done = size }

  unfoldable pub checked :
      Answers → Job → ℕ → ℕ → Disk → Option String → Result (Unit {0}) → Job × Disk
  unfolding publish open_if_requested reported
  checked a job size mtime d partial (err exc) = (reported job (err exc), d)
  checked a job size mtime d none (ok _) = (reported job (err (failed "下载文件不存在")), d)
  checked a job size mtime d (some content) (ok _) =
      if eqb (len content) size
      then (let j = done_job ready size job in
          (reported j (open_if_requested a.viewer j), publish job size mtime content d))
      else (reported job (err (failed "下载大小不一致")), d)

  -- The transfer, which leaves the partial file in any case.
  unfoldable pub transfer : Answers → Job → ℕ → ℕ → Disk → Job × Disk
  unfolding checked prepare
  transfer a job size mtime d =
      let d1 = prepare job size mtime d in
      let d2 : Disk = record d1 { partials = set_or_clear job.local_path a.partial d1.partials } in
      checked a (record job { bytes_done = size_of (get job.local_path d1.partials) }) size mtime d2
        a.partial a.transferred

  -- A hit ends the job.
  unfoldable pub or_cached : Answers → Job → ℕ → ℕ → Disk → Job × Disk → Job × Disk
  unfolding is_hit open_if_requested reported
  or_cached a job size mtime d otherwise =
      let j = done_job cached size job in
      if is_hit job.local_path job size mtime d
      then (reported j (open_if_requested a.viewer j), d)
      else otherwise

  unfoldable pub with_stat : Answers → Job → Disk → Result (ℕ × ℕ) → Job × Disk
  unfolding or_cached migrate transfer
  with_stat a job d (err exc) = (reported job (err exc), d)
  with_stat a job d (ok (size, mtime)) =
      let j : Job = record job { bytes_total = size } in
      let d1 = migrate j size mtime d in
      or_cached a j size mtime d (or_cached a j size mtime d1 (transfer a j size mtime d1))

  -- _run
  unfoldable pub run : Answers → Job → Disk → Job × Disk
  unfolding with_stat
  run a job d = with_stat a (record job { state = running }) d a.stat

-- existing.state in {"QUEUED", "RUNNING"}
abbrev pub is_pending : JobState → Bool
is_pending queued = true
is_pending running = true
is_pending state = false

unfoldable pub new_job : String → String → String → String → Job
new_job request_id remote_path local_path operation = record {
  request_id = request_id;
  remote_path = remote_path;
  local_path = local_path;
  operation = operation;
  state = queued;
  error = none;
  bytes_total = 0;
  bytes_done = 0;
}

-- The job of a path that is not queued yet, with the table that holds it.
unfoldable pub enqueue : Job → Dict Job → Option Job → Job × Dict Job
enqueue job jobs none = (job, put job.remote_path job jobs)
enqueue job jobs (some old) =
    if is_pending old.state then (old, jobs) else (job, put job.remote_path job jobs)

-- submit(request), where the request's path is canonical; the endpoint's digest is the same in all keys
unfoldable pub submit : (String → String) → String → String → String → Dict Job → Job × Dict Job
unfolding enqueue new_job
submit local_path request_id remote_path operation jobs =
    enqueue (new_job request_id remote_path (local_path remote_path) operation) jobs
      (get remote_path jobs)

-- status(request_id): the first job of that request
unfoldable pub status : String → Dict Job → Option Job
status request_id [] = none
status request_id ((path, job) ∷ jobs) =
    if job.request_id == request_id then some job else status request_id jobs
