-- ===== src/Lib.antt =====
-- A model of kogia, a Docker-compatible daemon in Go, and the theorems that make its core correct.
--
-- The program's parts. internal/runtime drives the containers' processes and keeps their records in
-- internal/store, a bbolt database. internal/network allocates addresses for the endpoints of the
-- containers (ipam.go) over bitmaps in the same database, and serves their names (dns.go).
-- internal/volume keeps the volumes, internal/events fans events out to the clients of the API, and
-- internal/log keeps the output of the containers in files.
--
-- Which file models which part:
-- - Base: the shared names, Go strings and maps, bytes, the ways a call ends.
-- - Network/Ipam: internal/network/ipam.go. Bitmap has getBit, setBit, clearBit and findFirstUnset,
--   Address has subnetSize, offsetToIP and ipToOffset, Allocator has Allocate, AllocateSpecific,
--   Release, Count, ReleaseSubnet and loadOrCreateBitmap. View is the abstract state, a set of
--   reserved offsets; Refines and Sequences relate the code to it. Faults has inputs that break it.
-- - Network/Manager: internal/network/manager.go. State has the manager's fields and the parts it
--   calls, Connect and Disconnect the endpoints with their roll-back, Networks the creation and the
--   removal of networks and autoAssignSubnet, Init the start of the daemon, Hosts the text of
--   /etc/hosts. Rollback, Failure, Success, RoundTrip, Assign and Effects have the proofs.
-- - Network/Types: internal/network/types.go. Network/Dns: the records of internal/network/dns.go.
-- - Store: internal/store. Bolt is what the store relies on in bbolt, with Memory as an instance of
--   it; Db is db.go, Container, Filters and Prefix are container.go, Network is network.go, Volume
--   and VolumeRefs are volume.go. NetworkBackend is the database as the network manager's store.
--   Index, Reach and NetworkLaws have the proofs.
-- - Runtime: internal/runtime. State has the manager and the records, Exit and Restart have
--   HandleExit, handleRestartPolicy (container.go) and cleanupExecSessions (exec.go). Lifecycle has
--   Start, Stop, Kill, Remove, Restart, Pause, Unpause, RecoverOrphans and Wait of container.go.
--   Create is Create and buildContainerRecord of container.go: Record has the record and the spec's
--   options, Operation the steps with what they take back, Built, Discard, Undo and Made the proofs.
--   Spec is spec.go: Process has the arguments and the environment, User the users of
--   /etc/passwd, Capabilities, Resources and Generate the rest of the OCI spec. Exec is exec.go:
--   Sessions has ExecCreate, ExecStart, ExecInspect and ExecResize, Process the process that is
--   run, Others and Laws the proofs.
--   Reaper and ExitFile are wait.go (ExitFile with checkOOMKill of oom.go), Stdio is io.go with the
--   frames of internal/api/stream/stdcopy.go, MountTypes, Mounts, VolumesFrom and BindOptions are
--   mounts.go.
-- - Log: internal/log/driver.go and internal/log/jsonfile/jsonfile.go. Options has ParseOptions and
--   parseSize, Driver has New, Log, Close and the rotation, Reader has ReadLogs and the other readers.
--   Lines, History, Rotation, Steps, Kept, Sizes and Live have the proofs.
-- - Volume: internal/volume/manager.go. Events: internal/events/bus.go.
-- - The modules whose names end in Tests run the theorems at concrete inputs.
--
-- How state is modelled. An operation is a function from the state, with an outcome ok, err or panic
-- where it can fail; a transaction that fails leaves the database as it was. Each operation that
-- holds a lock is one step. HandleExit, Start and the volume manager's Prune, which locks only each
-- removal, are one step each here as well, so other calls between their parts are not covered, and a
-- volume that comes into use while Prune runs is not. Stop sends the
-- signal and then waits: whether the container ended in time is an answer it is given, and the
-- reaper's run is a step of its own. An address is its four bytes, a uint32 is a number modulo 2^32,
-- a text is a list of bytes.
--
-- Parameters and what is assumed of them: the bucket (a sorted map from keys to values), the JSON
-- codec of a type (what is written is read back), the file system and the random names of the volume
-- manager, the record store and the network manager that HandleExit calls. The network manager has
-- its kernel (bridges, nftables rules, links and DNS listeners), its store and the random IDs as
-- parameters. A bridge or a rule that is there already is not added again, so an undo of the kernel
-- takes back what the operation did only where it was not there, which the theorems on failures have as
-- conditions; the bitmap of the subnet at hand can be written. The life cycle has the services of the
-- runtime (the bundle, the network set-up, the deletion) and the answers of crun, of the storage and of
-- the files, and records the calls it makes in a list of effects. Create has the answers of the image
-- storage and of the files, filepath.Join and the store, and keeps the layers and the bundles as maps.
-- The spec has the contents of /etc/passwd and /etc/group. The log driver has the JSON of an entry, the
-- format of a time and the answers of package os; a file of a log is its number, 0 for the log itself.
-- While an exec runs, what others do to the sessions is a function. Mounts have filepath.Clean and the
-- look-up of a volume as parameters. A status that Wait polls is the next of a given sequence.
--
-- Bounds: findFirstUnset runs on fuel, one round more than the bitmap has bytes, and its theorem
-- shows that this is enough. A decimal number has 20 digits at most, as a uint64 has. The number of
-- an exit code file is read without a sign, as an exit status has none. Errors that the code only
-- logs are left out, and so is the text of State.Error. Clean-ups ignore a panic of Release, which an
-- address from Allocate never causes. Upper and lower case and white space are those of ASCII. A
-- write of the log that fails may have written the first bytes, and the removal and the renames of
-- rotated files may fail. The records of volumes and those of containers are two parts of the state of
-- Create, while the daemon keeps them in one database.
--
-- Not modelled: the API handlers and the routes; the images; the calls of netlink and nftables
-- (bridge.go, nat.go); crun, top.go and names.go; Attach, Resize and Shutdown of the runtime and its
-- network set-up; the wait for memory.events; Flush and Path of the log driver; resolv.conf,
-- ResolvePortMappings and FindAvailablePort; failures of a bbolt commit; the slices id[:12] of the
-- daemon's own IDs, which have 64 characters; the untyped Put, Get and Delete of db.go.
pub mod Base
pub mod Network
pub mod Store
pub mod Events
pub mod Log
pub mod Volume
pub mod Runtime
