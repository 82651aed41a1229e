-- ===== src/Lib.antt =====
-- scdm, a display manager: a verification library for the parts of the daemon that keep displays
-- and log users in.
--
-- The program. The daemon (`daemon/`) starts display factories: one for local seats, and an
-- XDMCP server for remote hosts. A factory keeps its displays in a display store, prepares each
-- of them (an X authority file, a launch environment for the greeter), manages it, and drops it
-- when it has finished or failed. The XDMCP server reads datagrams and answers them: queries
-- with WILLING, also for hosts that a chooser or another manager stands between; a REQUEST with
-- a new display and ACCEPT, or with DECLINE; a MANAGE with a connection to the remote X server.
--
-- For each login the daemon runs a session worker, a process that talks to PAM. Over D-Bus the
-- session asks it to set up, authenticate, authorize, establish credentials, open the session
-- and start the program, one after another; each request queues the step to the next state and
-- is answered when the step is done. A step that fails ends PAM and goes back to the first
-- state.
--
-- Address models common/scdm-address.c, AccessFile daemon/scdm-display-access-file.c, Display
-- daemon/scdm-display.c, DisplayStore daemon/scdm-display-store.c, Xdmcp
-- daemon/scdm-xdmcp-display-factory.c with scdm-xdmcp-display.c, scdm-xdmcp-chooser-display.c
-- and the purge of daemon/scdm-display-factory.c, and LocalFactory
-- daemon/scdm-local-display-factory.c, with what scdm-legacy-display.c and scdm-local-display.c
-- set in a new display. In the program the manager makes one store for both factories; Xdmcp
-- takes a store that holds the server's displays alone, and LocalFactory one that may hold all.
-- Definitions keep the names of the C functions, less their `scdm_` prefixes. A C function that
-- branches on what it found is a definition with helpers for its branches. Xdmcp.Events puts the
-- callbacks of the server together: `happen` is one event, and `Reachable` the states that
-- sequences of events lead to.
--
-- Worker models daemon/scdm-session-worker.c with the macros of
-- pam-extensions/scdm-pam-extensions.h, and SessionSettings daemon/scdm-session-settings.c.
-- Worker.Requests has the D-Bus methods, Worker.Steps the idle source, Worker.Pam, Login and
-- Open what a step does, Worker.Conversation the conversation function, and Worker.Events its
-- histories. What PAM answers comes from a `WorkerHost`; a `PamRun` tells which messages a call
-- of PAM sends and what it returns for the replies. Worker.Protocol tells from the log of PAM
-- calls alone how far a login has come. Session models daemon/scdm-session.c, the other end of
-- the worker's D-Bus interface: Session.Names the session files and what is chosen where nothing
-- is selected, Session.Conversations the table of workers, Session.Queries what a worker asks
-- and tells, Session.Start the workers that register and are set up, Session.Setup the chain of
-- calls that log a user in, Session.Program the start of the user's program, and Session.Greeter
-- the requests of the login screen. Session.Order tells which call a worker in each state is
-- asked for next. The calls that a session sends are the methods of Worker.Requests, and their
-- results the worker's replies.
--
-- State. A GObject's private struct is a record; `GSList` and `GHashTable` are lists; a pointer
-- is a number that the factory counts. Packets that are sent and signals that are emitted are
-- logs, the newest first. What comes from outside (the clock, random numbers, the resolver,
-- tcp_wrappers, accountsservice, libXau and what libXdmcp reads) comes in as fields of `Host`,
-- `XauthHost`, `SetupHost` and the `...Read` records. `none` as the result of an operation means
-- that the process ends, by an assertion, a null pointer or `exit`. A guint or CARD16 that can
-- wrap keeps its modulus.
--
-- Bounds and fuel. Fuel is taken by four recursions. The loop over client ids in Display.Clients
-- takes one round for each id; 2050 rounds are one for each id of the widest mask that the X
-- protocol allows. `LocalFactory.create_display` is called again when the display that it made
-- fails, and a failure after the fifth makes none: the fuel is six. `make_room` recurses on the
-- length of the list, as its counter does. The random numbers of `get_next_session_serial` are a
-- list, and the result is `none` where all of it is 0. The digits of a number have one unit of
-- fuel for each unit of the number, and the repair of a text that is not UTF-8 one for each
-- byte.
--
-- Not modelled: debug output, reference counts and the disposal of buffers; sockets, multicast
-- and the parsing of libXdmcp; the transport of D-Bus. Of the worker are left out what its child
-- process does after `fork`, log files, env.d, scripts, the ioctls of terminals and the objects
-- of sessions that authenticate again; of the session its D-Bus servers, connections from
-- outside, the chooser's interface and reauthentication. Transient displays, displays that wait
-- to finish, virtual terminals, the manager, the X server process, the launch environment,
-- settings, the chooser and libscdm are not modelled. The state of
-- a display that has left the store is not followed; its events are there, with any state.
pub mod Prelude
pub mod Address
pub mod AccessFile
pub mod Display
pub mod DisplayStore
pub mod Xdmcp
pub mod LocalFactory
pub mod SessionSettings
pub mod Worker
pub mod Session
pub mod Examples
