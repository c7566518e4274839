-- ===== src/Lib.antt =====
-- ssh2incus: an SSH server that gives access to the instances of Incus. A login string names a host
-- user, an instance with its project and remote, and a user in the instance; it can also ask for an
-- instance to be created, explained or removed.
--
-- The parts and their files:
--
--   Base           strings as lists of bytes with the functions of `strings` and `strconv` that the
--                  program calls, maps, results and numbers.
--   LoginUser      server/user.go: ParseFrom and its helpers (LoginUser/Parse), String and the keys of
--                  caches (LoginUser/Print), IsValid with its two caches (LoginUser/Valid).
--   Auth           server/auth.go, the host side of server/user.go, and the choice of handlers in
--                  setupServer of server/server.go (Auth/Setup). Auth/Handlers has one function for each
--                  handler; a login's caches and the recorded key are passed along.
--   Shadow         pkg/util/shadow/shadow.go: the shadow database and, in Shadow/Password, VerifyPassword
--                  and the two password checks of server/user.go.
--   Buffer         pkg/util/buffer/bytes.go and, in Buffer/Output, pkg/util/buffer/output.go.
--   CreateConfig   server/create-config.go: the accessors, the merge of profiles, and loading with its
--                  includes (CreateConfig/Load). Maps are addresses of a store, since the merge writes to
--                  maps that configs share (CreateConfig/Merge).
--   Queue          pkg/queue/queue.go: a step relation of callers and one processor.
--   Shell          server/shell.go and server/term-mux.go: Shell/Handler dispatches a login,
--                  Shell/Session is the rest of shellHandler with checkTermMux, Shell/Remove and
--                  Shell/Explain are the handlers of commands. A handler gives the trace of what it does
--                  (Shell/Trace), which is done where the Go code returns.
--   Incus          pkg/incus/incus.go and pkg/incus/instance.go: the client's project and CreateInstance.
--                  A method maps the client's state to its result, its new state and the calls that
--                  change something in Incus. Incus/Exec is pkg/incus/exec.go, Incus/Users is
--                  pkg/incus/user.go, Incus/Files is pkg/incus/file.go, and Incus/OsInfo is
--                  pkg/incus/system-package.go.
--   Connect        server/incus.go: getIncusConnectParams, where the server finds Incus.
--   DeviceRegistry pkg/util/devicereg/devicereg.go: the devices to clean up at the end.
--   ProxyDevice    pkg/incus/proxy-device.go: devices that forward sockets and ports. A method is a
--                  function on the device, the server and the events so far, with an error as a value;
--                  ProxyDevice/Laws says what is asked of Incus. ProxyDevice/Leftover is
--                  server/device-registry.go with DeleteInstanceDevice of pkg/incus/instance.go.
--   Forward        server/port-forward.go (Forward/Direct: channels that a client opens) and
--                  server/ssh-request.go (Forward/Reverse: ports that an instance forwards to a client).
--   Web            server/web.go and server/web-api.go: Web/Credentials is basic authentication, Web/Action
--                  and Web/Create change instances, Web/Listing and Web/Addresses show them.
--   Options        init.go and server/config.go: the arguments, the methods and the groups of
--                  authentication, and what the server is started with (Options/Resolve).
--   App            pkg/app.go: formatDuration.
--
-- How they interact: a session's login is parsed by LoginUser, checked by Auth with the keys and
-- passwords of the host (Shadow) and of the instance (files in a Buffer), and served by Shell, which
-- creates an instance from CreateConfig. Questions to Incus run through a Queue. What Options gives is
-- the configuration that Auth chooses its handlers by. The web interface creates instances by the same
-- CreateInstance as a session, and a forwarding adds a ProxyDevice, which DeviceRegistry removes.
--
-- Parameters: Incus, the host's user database, files, the agent listener, the parser of keys, the hash
-- packages and fmt's %q are arguments of the definitions that use them. The package pkg/cache, a copy
-- of go-cache, is the interface LoginUser.Valid.KeyCache where keys expire, and a map in the caches of
-- users and files. Time is the order of the calls.
--
-- Fuel: ParseFrom calls itself on the target of `/explain/` and `/remove/`, which is shorter than the
-- login string, so that one more unit of fuel than the string has bytes is enough. The loop that waits
-- for a new user has the 20 turns of the source; the loop that waits for the removal of an instance runs
-- along the list of the answers that arrive before its timeout.
--
-- Strings are bytes; the loop of parseArgs over the runes of a string replaces the bytes that are no
-- UTF-8 (Options/Args). A bufio.Scanner hands out slices of its buffer of 4096 bytes. Of a text of at
-- most 2048 bytes, where it never moves that buffer, Buffer.scan gives the lines and nothing is left
-- unread; of a longer one, whose early lines may be overwritten and whose end may stay unread, what it
-- gives is a parameter, and the theorems that need more have the bound as a hypothesis. Entries of the
-- shadow file and lines of a command's output are copied by the code, and are lines of less than 64 KB.
-- What EnqueueWithParam hands to a caller of the queue of users is a parameter too, since it may be
-- another caller's result, and so is the project in which the client of a context stands when a
-- session runs its commands or a file is downloaded. The deferred calls of shellHandler are events of
-- its trace, and run after its body (Shell.Session.session_events). Messages that are printed to the
-- client are shortened, and logging is left out.
--
-- Not modelled: the rest of the Incus client, the copying of forwarded bytes, directTCPIPHandler, which
-- nothing registers, the routes, profiles, images and websockets of the web interface, SFTP, the
-- processes and listeners of the server, and the packages below pkg/ that are copies of other projects
-- (cache, cron, shlex, ssh, user, isatty, yescrypt, util/structs, util/goagain).
pub mod Base
pub mod LoginUser
pub mod CreateConfig
pub mod Queue
pub mod Shadow
pub mod Buffer
pub mod Auth
pub mod Shell
pub mod Incus
pub mod Connect
pub mod DeviceRegistry
pub mod Options
pub mod App
pub mod Web
pub mod ProxyDevice
pub mod Forward
