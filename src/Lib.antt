-- ===== src/Lib.antt =====
-- A verification library for windbg_agent, a WinDbg extension that lets an agent drive the debugger
-- over HTTP or MCP, and that records instruction traces.
--
-- The program's parts and how they work together:
-- - main.cpp takes the command `!agent …`, keeps the state of the agent (a secondary debugger client
--   and the output object), and starts and stops the two servers.
-- - http_server.cpp and mcp_server.cpp carry commands from the threads of their clients to a command
--   thread, which gives them to the debugger and hands the answer back.
-- - dml_output.cpp shows commands and results to the user; output_capture.cpp collects what the
--   debugger prints.
-- - dbg_trace.cpp steps through a program and logs each instruction, by a loop of its own in user mode
--   and by a JavaScript script in kernel mode.
--
-- Which file models which part:
-- - Agent/Args and Agent/TraceOptions: the parsing of the arguments in main.cpp (`agent_impl`): the
--   subcommand, the tokens of `trace`, its options. `trace_command` is the branch for `trace` up to the
--   call of `WinDbgClient::Trace`. `std::stoi` and `std::getline` are Base/Decimal and Base/Split.
-- - Agent/Servers, Agent/World, Agent/Starting, Agent/Stopping, Agent/Dispatch, Agent/Info: the
--   servers as main.cpp sees them (running or not, their port, what their callbacks point to,
--   whether their threads are joined), `AgentState::reset`, `setup_agent_state`, `make_exec_cb`
--   (`exec_cb`), every branch of `agent_impl` (`dispatch`) and `DebugExtensionUninitialize`. The
--   state is the record `World`; what the debugger and the libraries answer during a command is the
--   record `Host`. A history is a list of events. Agent/Clipboard is `copy_to_clipboard`.
-- - CommandQueue: the members and methods of `HttpServer` that carry commands: `queue_and_wait`,
--   `run_command_loop`, `complete_pending_commands`, and the parts of `start` and `stop` that concern
--   them. Threads are interleaved step by step: `step` is one atomic step of one thread, and `run` a
--   list of them. A pointer to a command is the number of the call on whose stack the command lies, so
--   following a pointer to a call that has returned is an outcome of the model. A completed command
--   and the `notify_one` for it are two steps, as the mutex is released between them. The server thread
--   is a thread of its own (`Listener`). A server starts again after both threads were joined, and no
--   other `stop` is under way then. CommandQueue/Joining is about the joins of `stop` and `wait`.
-- - HttpRoutes: the routes that `HttpServer::start` registers, over a record of the JSON library
--   (Base/Json) and the queue. A call of the library may throw, and then has an exception's text.
-- - McpTool: the tool `dbg_exec` of mcp_server.cpp and `find_free_port`. McpTool/Queue has the methods
--   of `MCPServer` that carry commands (`queue_and_wait`, `run_command_loop`,
--   `complete_pending_commands`): the steps of CommandQueue with the texts of that server. McpTool/Start
--   is `MCPServer::start`, and McpTool/Schema reads its schemas by the rules of JSON Schema.
-- - Cli: cli/main.cpp, over the network and the JSON library. Cli/EndToEnd puts it in front of
--   HttpRoutes, and Cli/Delivered in front of the queue; Cli/Exits is about its exit codes.
-- - DmlOutput: the class `DmlOutput`, each method as the list of calls that it makes on the debugger.
-- - OutputCapture: the class `OutputCapture`, with the calls of `Output` that come in while the original
--   callbacks handle an outer one. OutputCapture/Counting has its count of references.
-- - WindbgClient: the class `WinDbgClient`: `ExecuteCommand` over what the engine does during one
--   command, with fuel for the readings of the execution status, whether `SetOutputCallbacks` succeeds included,
--   and the questions about the target.
--   WindbgClient/Object has the constructor, the destructor, the messages and the plain questions.
-- - Settings: settings.cpp, over a disk with what stands at each path.
-- - Trace/Setup: `WinDbgClient::Trace` as a whole: the filter, the addresses to skip, the commands that
--   lead to the start, and then the loop of Trace/Loop or the script of Trace/KernelTrace.
--   Trace/Setup/Commanded puts `agent_impl` in front of it.
-- - Trace/Registers: `ReadRegistersViaApi`, `DisassembleOneViaApi`, the lambda `read_ip`, and an entry
--   of the log. Trace/Fits is about the buffers of `sprintf_s`.
-- - Trace/StepFilter: the step filter that `WinDbgClient::Trace` installs.
-- - Trace/LogFile: the names of the logs (`OpenTraceLog`, `TraceKD_Script`), the path that `.logopen`
--   prints, and the escaping of paths in generated scripts.
-- - Trace/Loop: the user-mode loop of `WinDbgClient::Trace` up to its summary, over a record of what
--   the debugger engine does.
-- - Trace/CallTarget: the decoder of x86-64 calls in the script `kStepTraceJS`. Trace/CallTarget/Manual
--   describes the instructions independently, by encoding.
-- - Trace/Script: the loop of that script, round by round, over the debugged program. Trace/Script/Session
--   is a whole run of it, with its log and its lines.
-- - Trace/KernelTrace: `WinDbgClient::TraceKD_Script`, as the list of its effects on the debugger and
--   the disk, with the texts of the generated scripts. Trace/KernelTrace/Reading reads the globals of
--   the JavaScript file as JavaScript does; Trace/KernelTrace/Launch runs the written file.
--   Trace/KernelTrace/Verbose and Trace/KernelTrace/Stepping do the same for StepNPrint.txt.
-- - Trace/Callbacks: the class `KdTraceCallbacks`, which the program does not install at present.
--
-- Conventions. Text is a list of byte values. An `int` is a pair of a sign and a magnitude (Base/Int);
-- `std::stoi` refuses what does not fit. A 64-bit address is a natural number below 2^64, and additions
-- are written with the wrap. `std::to_string` uses the number as fuel for its digits, plus one; the
-- batches of the step filter use the number of entries; the trace loop runs once for each of
-- `max_steps` rounds, as the source does. `ExecuteCommand` waits as long as the engine does: its fuel
-- must exceed the number of readings. Each of the others is enough, and the theorems on the printed
-- numbers, the batches and the loop rest on that.
--
-- Not modelled: the text of the template `kStepTraceJS` (its meaning is Trace/CallTarget and
-- Trace/Script, and its text a parameter), the protocols of the libraries, and the event callbacks
-- of `KdTraceCallbacks` that do nothing. A trace whose elapsed time does not fit an `int`
-- is outside the model, and so is an instruction longer than its buffer.
mod Base
pub mod Agent
pub mod Cli
pub mod CommandQueue
pub mod DmlOutput
pub mod HttpRoutes
pub mod McpTool
pub mod OutputCapture
pub mod Settings
pub mod Trace
pub mod WindbgClient
