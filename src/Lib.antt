-- ===== src/Lib.antt =====
-- Funtonic runs commands on remote machines: commanders send signed tasks to a task server, which
-- forwards them to the connected executors that a query selects and passes their reports back.
-- This library models its Rust code and proves what makes the parts correct.
--
-- The parts and their files (paths from the repository's root):
--
-- Query (query-parser/src/lib.rs): `Query` with the vectors of its clauses as `Queries`,
-- `MatchResult` with `!`, `&`, `|`, `^` (Query/MatchResult), and the `QueryMatcher`
-- implementations (Query/Matcher). A value that implements the trait is given by its method.
-- Query/Parser (query-parser/src/parser.rs, `parse` of lib.rs): each parser of the grammar, in
-- Query/Parser/Grammar, over the combinators of nom. These are parameters (`Nom` of
-- Query/Parser/Nom), and what nom documents of them is the record `IsNom`; `alt` takes two parsers,
-- and nests for more. The recursion of `expression` and `factor` is on fuel. `parse_raw` gives it two
-- units for each character and two more: a level of either function reads a character before it
-- comes back to itself. Query/Parser/Printer writes a query as a text; Query/Parser/Samples has
-- combinators to run the parser with.
-- ExecutorMeta (common/src/executor_meta.rs): tags, their matching, and their protobuf form
-- (ExecutorMeta/Proto). A panic of the source is `none`. The tags about the system are made of the
-- network interfaces (ExecutorMeta/Interfaces), by the kind of their IPv4 addresses
-- (ExecutorMeta/Addresses).
-- Crypto (common/src/crypto): `encode_and_sign` and the signed bytes (Crypto/SignedPayload), the trait
-- `KeyStoreBackend` with both backends (Crypto/KeyStore/Memory and File), `KeyStore`
-- (Crypto/KeyStore/Store). ring, data-encoding, prost and rustbreak are parameters
-- (Crypto/Library), their documented behaviour is what `IsSignature`, `IsMessage`, `Skips` and
-- `IsDatabase` say.
-- TaskServer (common/src/task_server.rs and common/src/task_server/): the state (State), the keys of
-- executors (Keys), the registry of executors and tasks (Registry), `get_tasks` and `task_execution`
-- (ExecutorService), `launch_task` (CommanderService) and `admin` (CommanderService/Admin), over the
-- messages of grpc-service/proto (Protocol). Channels, JSON, random task ids and nom
-- are the parameters of Env. TaskServer/Authority follows the keys through every handler,
-- TaskServer/Authority/Trusted says what an `admin` request can make trusted, and
-- TaskServer/Authority/Reach follows sequences of requests, from the start of the server (Start).
-- Exec (exec/src/lib.rs, exec/src/a_sync.rs): `exec_command`, and its three tasks as a state
-- (Exec/Process): `read_line` is a round of `read_output_stream`, `wait_for_exit` runs from one
-- suspension to the next. `run_turns` takes a list of turns, of a task, of the process that exits, or of
-- the caller that sends to `kill_sender` or drops it; every interleaving is such a list.
-- Executor (executor/src/lib.rs): the retry loop of `executor_main` (Executor/Connection),
-- `do_executor_main` (Executor/Dispatch) and the stream of reports of `do_execute_task`
-- (Executor/Reporting), over a client of the task server that is a parameter, as are the formatted
-- texts; the request by which an executor registers, of common/src/executor_meta.rs
-- (Executor/Registration). The commands handed to `tokio::spawn` are kept in a list. `executor_main`
-- and the rounds of the executor's `main` (executor/src/main.rs), which keep the key and the
-- configuration in files, are in Executor/Main.
-- Configuration and files (common/src/config.rs, common/src/file_utils.rs, common/src/path_builder.rs):
-- paths and files (Config/Files), `TlsConfig` (Config/Tls), and where a configuration is looked for
-- (Config/Location). The files are a list of paths and texts, with what may be opened or created as a
-- parameter; the YAML of a type is a parameter too. No path is another name for a file.
-- Commander (commander/src/cmd.rs): the requests of `handle_cmd` and `safeguard_command`
-- (Commander/Requests), and what `do_handle_cmd` makes of the responses (Commander/Results). The
-- shell parser, the terminal and the answer of its user are parameters; what is printed is left out.
-- The interactive mode (Commander/Interactive, with what one command comes to in Commander/Outcome) is
-- a walk over what `readline` gives, the lines and the end, and keeps what was sent;
-- Commander/Interactive/Wanted has the lines that are to be sent, and what it means to send them;
-- Commander/Interactive/Serving is about the session as a whole.
-- Commander/Delivery and Commander/Delivery/Remote put the commander, the task server and the
-- executor together.
-- The admin commands (commander/src/admin.rs): what is printed of an answer (Commander/Display, with
-- colors, JSON and YAML as parameters), and `handle_admin_command` (Commander/Admin).
-- Base: names shared by all files, and maps with string keys as association lists.
--
-- Strings are native strings and compared as such. `HashMap` is an association list: the order in
-- which it is iterated is one of those that the program may see.
-- So is a `BTreeMap`: one that is made from a `HashMap` keeps that order, instead of sorting, and
-- that of `ExecutorConfig` has the order it is given in.
--
-- Handlers pass the state along and run to their end. A stream that a handler returns is given by its
-- channel: `next_task` is what the stream of `get_tasks` does for one task, and the stream of
-- `launch_task` hands on what is in its channel. Messages that arrive at `task_execution` are a list.
-- Times are nanoseconds, `now` is the reading of the clock for the whole handler. Bytes are numbers,
-- and 64-bit numbers are written as their eight bytes, with wrap-around. A panic of a handler is an
-- error of its own, `panic`; a poisoned lock is a field of the lock. The texts of error messages are
-- kept as the data that they are made from. Lists and maps are walked by recursion on them, so that no
-- fuel is needed.
--
-- Not modelled: logging, creating directories, generated code, the processes' start, the history
-- of the interactive mode, and the shell that a command is given to.
pub mod Base
pub mod Commander
pub mod Config
pub mod Crypto
pub mod Exec
pub mod Executor
pub mod ExecutorMeta
pub mod Query
pub mod TaskServer
