-- ===== src/Lib.antt =====
-- SweetDawn drives an AML005 alarm clock over a Bluetooth RFCOMM link. This library models the
-- program from the bytes of the link up to its periodic task, its tree of commands, its
-- configuration and the local server through which it is asked:
--
--   Protocol: frames (src/aml/protocol.c). `build_request` is protocol_build_request; `parser_feed`
--     and `parser_next` work on the receive buffer, a list of bytes. Scan describes the search as
--     one pass, Extract the frames that come out, Stream and Reads how reads cut the bytes, Request
--     the frames that are built.
--   Os: the calls of the program into POSIX and BlueZ, an interface that the modules below take as
--     a parameter. A world is what lies outside the program.
--   Transport, Connect: the link (src/aml/transport.c), `aml_connect`, `aml_send`, `aml_receive`,
--     `aml_flush` and `aml_disconnect`.
--   State: the remembered settings (src/core/state.c).
--   Link, Exchange, Core: src/core/sweetdawn.c. Link has the record `SweetDawn`, the supervision
--     of the link (programmer_reconnexion, abandonner_liaison, traiter_echec_liaison) and
--     unsolicited messages; Exchange has envoyer_requete; Core has the reading of the settings,
--     sweetdawn_connect, sweetdawn_refresh and sweetdawn_tick; Refresh and Stored are about the
--     reading, Tick about the periodic task.
--   Control: the operations on settings, clock, lights, alarms, radio and speaker
--     (src/core/control.c).
--   Events: the events of src/app/handlers.c. `Evenements` is the static `evenements`, which is the
--     context of the event handler; Suivi has suivre_reveil and traiter_evenements, which read the
--     AML005 again.
--   Command: the tree of commands (src/command/command.c), an array whose positions are the addresses.
--     Validate has command_validate_value, Registry the search by path (src/command/registry.c) and
--     Aml the tree of the AML005 (src/command/aml_commands.c). Tree says what a tree is; Grow, Alias
--     and Built are about the operations that extend one, Paths about the search, Depth about chains of
--     parents.
--   Json: what the program asks of the library json-c, an interface; Built says what it gives back.
--   Ipc: the local server (src/ipc/ipc_server.c and src/ipc/ipc_protocol.c). Its head has a client,
--     the responses and the treatment of a line; Sockets reading and writing, over an interface of the
--     calls on sockets; Run the loop of the server and broadcasts; Listen the creation of its socket,
--     over an interface of the calls that it takes. Lines, Answers, Progress, Output, Broadcast, Sound,
--     Turns and Context are about what arrives, is answered, is sent and is kept.
--   Config: the configuration (src/core/config.c). Init: sweetdawn_init and sweetdawn_cleanup
--     (src/core/sweetdawn.c), which put configuration, commands and the state of the link together.
--   Handlers: the commands of src/app/handlers.c. Its head has the conversions, the table LIAISONS and
--     the checks of handlers_request, Write the handlers that write to the AML005, Clock those of the
--     clock with its maintenance, Json the objects of results and events, Read the handlers that read,
--     and Run puts them together: `appeler` is the call of a handler (command_execute of
--     src/command/command.c), `repondre` the whole of handlers_request, `handlers_tick` the periodic
--     task. Allowed is about what reaches a handler, Described about the command
--     "commands", Linked about the state of the link behind a handler.
--   Service: src/app/service.c, the server of Ipc with the handlers as its handler and the tasks of Core
--     and Handlers as its task. Its context is the program with the world of the link; the sockets
--     have a world of their own.
--   Ctl: the client of the service (src/app/ctl.c). Cli: the diagnosis program (src/app/cli.c).
--   Base: lists and Boolean tests over native numbers. Tests: runs of all of these over a system
--     (Tests/World) that answers each request.
--
-- The program's loops wait for the system, and run here on fuel: a definition that returns an
-- Option of a result with a world gives `none` when the fuel is used up. `parser_next` has enough
-- fuel by its own definition: each of its calls of itself has a shorter buffer. Transport/Ends says
-- how much is enough for `aml_receive` and `aml_send` on a system that the record `Finite`
-- describes: one where poll() waits as long as it is told and wakes up or is interrupted only so
-- many times. Ipc/Output says it for `write_client`. The loop of the server goes on until a signal
-- stops it: `run_loop` is given a number of turns, and what is said of its state holds whatever
-- number that is. The walk up the parents of a command has as many turns as there are commands.
--
-- Integers are natural numbers. The bytes that wrap are written out with `%`; the dates and delays,
-- which the program keeps in 64-bit and 32-bit integers, are not bounded. A negative timeout or
-- date, and a descriptor of -1, are `none`.
--
-- The calendar of the C library is a parameter (Handlers/Clock): time(), localtime_r(), mktime() and
-- strftime(). Times are integers, and the fields of `struct tm` natural numbers.
--
-- Not modelled: messages on stderr and stdout, null pointers, a lack of memory, the usage of the
-- service and of the diagnosis program, and the MQTT bridge, which is another program.
pub mod Base
pub mod Os
pub mod Protocol
pub mod State
pub mod Transport
pub mod Connect
pub mod Link
pub mod Exchange
pub mod Core
pub mod Control
pub mod Events
pub mod Json
pub mod Config
pub mod Init
pub mod Handlers
pub mod Service
pub mod Ctl
pub mod Cli
pub mod Ipc
pub mod Command
pub mod Tests
