-- ===== src/Lib.antt =====
-- A model of the tssh orchestrator (src/remote_dev), which shares one reverse tunnel and one OAuth forward
-- among the SSH sessions of a user, of the programs that are its clients, and of the downloads, uploads and
-- the installation beside it. A client's request reaches `serve`, which hands it to `handle`; `handle` starts
-- and stops endpoint tunnels and the OAuth forward, and keeps the table of leases.
--
-- src/remote_dev/orchestrator:
--   model.py             Model      keys, digests, status records
--   health.py            Health     retry delays and failure classes
--   protocol.py          Protocol   lifecycle events
--   oauth.py             Oauth      `OAuthManager.start` and `.finish`
--   server.py            Server     `Server F` is an `OrchestratorServer`, `handle` its method of that name.
--                                   Server/Parse reads a request; Joining, Acquire, Release and Lease are
--                                   the branches of `_handle_lease`; Sweep is expiry, reconciliation and
--                                   cleanup; Lifecycle is `handle_event`; Register and Preview are those
--                                   requests; Serve is `serve`, with what the sockets of its clients may do
--   client.py            Client     `request`
--   session.py           Managed    `SessionManager.start` and `.stop`, and Managed/Serve, one turn of the
--   forwarder.py                    loop of `serve` at a time
--   endpoint_forward.py  Tunnel     `EndpointForwardManager`, over Tunnel/Unit
--   proxy_persistent.py             and Tunnel/Orphans, `cleanup_orphans`
--   persistent.py        Persistent the unit of a managed session
-- src/remote_dev:
--   file_transfer.py     Transfer   names of remote files and of their copies, sidecars
--   download.py          Download   `DownloadManager.submit`, `._run` and `.status`
--   preview_bridge.py    Bridge     what the bridge passes on
--   lease_config.py      Settings   the timing settings
--   tssh.py              Tssh       destinations and ssh command lines; Tssh/Requests, the requests and the
--                                   heartbeat; Tssh/Main, `main` from its first request on
--   upload.py            Upload     quoting, the expansion of sources, `put_files`
--   proxy.py             Proxy      the temporary reverse tunnel of a playbook
--   cli.py               Cli        `_validate`, `apply`'s lookups, `_run`; Cli/Install, the installation
--   preview_open.py      Viewers    the choice of a viewer
-- scripts:
--   remote_preview_helper.py Helper rget and rdo
-- Json, Dict, Result and Prelude are shared. Server/Accounts, Sound, Remaining, Table, Refines and Faults,
-- Serve/Reading, Requests, Reached and Crashes, Managed/Children and Supervised, Tunnel/Removal,
-- Transfer/Names, Download/Again, Tssh/Payloads, Keeping and Ending, Upload/Quoting and Sources, Helper/Chunks, Proxy/Lifetime,
-- Client/Responses, Cli/Inventory and Installed hold proofs; Tests, Runs, Checks, Clients and Setups hold
-- the theorems at concrete data.
--
-- What is not in the repository is a parameter: the record `Host F` (hashlib, re, expanduser, the texts of
-- repr and json.dumps, and a forwarder with a state `F` that answers each start and stop with success or an
-- exception), posixpath, shlex, glob and pathlib (the records `Files` and `Pure`), float, and the readers and
-- printers of JSON text. What a process, a socket or the disk answers to an operation is
-- an argument of it (`Answers`, `StartAnswers`, `TunnelAnswers`, `Turn`), so that every theorem holds for
-- every answer. `children` is the list of processes that were launched and not stopped, `launched_urls` the
-- calls of `_open_browser`.
--
-- Times are natural numbers of milliseconds, a request reads the clock once, JSON numbers are integers,
-- `Path.expanduser` always succeeds, the local disk of a download does not fail, an error's text is kept
-- without the part that quotes the input, and a float of the timing settings is an exact number up to the
-- largest float. A master that `ssh` fails to start with a return code is taken not to run. Loops follow the lists that they run over. The printer of decimal
-- numbers has the number itself as fuel, and the helper's loop over the lines of its buffer the buffer's
-- length, which each turn shortens (Helper/Chunks, drain-scan).
--
-- Not modelled: the listeners of `run_server` and the threads of the preview bridge, the progress telemetry
-- of a download and of an upload, the ssh command lines other than those of tssh.py, proxy.py and the units,
-- master.py, the tables that tssh prints, `tssh persist`, the dialogues of cli.py, ssh_integration.py, the
-- SSH hook and the codex shim under roles: they build commands or do input and output.
pub mod Prelude
pub mod Cli
pub mod Client
pub mod Clients
pub mod Dict
pub mod Result
pub mod Helper
pub mod Json
pub mod Model
pub mod Health
pub mod Oauth
pub mod Managed
pub mod Tunnel
pub mod Upload
pub mod Viewers
pub mod Transfer
pub mod Tssh
pub mod Download
pub mod Settings
pub mod Setups
pub mod Bridge
pub mod Checks
pub mod Server
pub mod Protocol
pub mod Tests
pub mod Persistent
pub mod Proxy
pub mod Runs
