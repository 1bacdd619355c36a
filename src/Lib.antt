-- ===== src/Lib.antt =====
-- cursor-cli-byok: a local service that speaks the agent protocol of the Cursor CLI and answers
-- its turns from an OpenAI-compatible provider.
--
-- A client message is a protobuf message in a Connect envelope. It starts a turn of a
-- conversation; the runner asks the provider for passes, emits text and tool calls on the way,
-- waits for the results of the calls, and appends the finished turn to the conversation.
--
-- - Base: results, lists, Boolean tests and lemmas that the parts share.
-- - Go: of the Go library, what the code uses of strings, path, fmt and encoding/json, and maps as
--   association lists.
-- - Wire: `decodeWireFields` and the `append` functions of internal/protocol/agent.go and wire.go,
--   over an interface to protowire, which is a library. Its laws are in Wire/Protowire.antt, and
--   Wire/Sample.antt has an implementation that meets them. The loop runs on fuel: the length of
--   the payload, since a field takes at least one byte.
-- - Provider: internal/provider/types.go, the validation of requests and events.
-- - Conversation: internal/agent/conversation.go, the registry with its turns and its eviction. The
--   loop of the eviction runs on fuel: the number of the entries, one of which goes in each round.
--   Conversation/Held.antt has the interleavings of acquiring, appending and releasing.
-- - Runner: internal/agent/runner.go. A turn is a computation over the log of the events emitted
--   so far; the provider, the callback, the results and the context are an environment, which may
--   answer differently on each log. The sixteen passes are the source's. One execution is
--   described on its own: the registry changes only by its own steps.
-- - Protocol: internal/protocol. Models.antt is wire.go, Deltas.antt the updates of a turn in
--   agent.go, Connect.antt the envelopes of connect.go, Text.antt shared checks of text, Schema.antt
--   and Mcp.antt the schemas and the tools of mcp.go, Client.antt the client messages of agent.go.
--   json.Marshal and hex.DecodeString are parameters. The depth that a schema may have is the
--   source's 64, and the recursion goes over what is left of it.
-- - Session: the sessions of internal/server/agent.go. Session.antt has `agentSession`; Stream.antt
--   the loop of `streamSession` and what other goroutines do to the session meanwhile, as a step
--   relation; Retained.antt the map of sessions with its pruning. The loop that makes room runs on
--   fuel: the number of the sessions, one of which goes in each round.
--
-- - Tools: the tools of internal/protocol. Types.antt and Json.antt are the types of tool_bridge.go,
--   tools.go and the argument structs, Requests.antt and Arguments.antt the checks and the envelopes
--   that the tools share, Write.antt, Files.antt (Delete), Listing.antt, Grep.antt (and Glob),
--   Shell.antt, Mcp.antt, Read.antt and Edit.antt a tool each, Values.antt the protobuf values of
--   tool_mcp.go, Summary.antt its summaries of results, Bridge.antt the three functions of
--   tool_bridge.go that choose the tool, and State.antt the request for the MCP state and its result
--   in mcp.go. Listing/Tree.antt is a listing of trees to hold Listing.antt against.
--   `encoding/json` is an interface, `ToolJson`: the structs that it decodes and encodes are in the
--   source, what it reads and writes is not. A tree that is listed and a value that is encoded
--   recurse over what is left of the depth, which is the source's: 64 for values, the request's for
--   trees.
-- - Config: internal/config/types.go, the validation of a configuration and the models it resolves.
--   net/url and net are an interface, `Net`; the verb `%q` is a parameter of the texts.
-- - Launcher: internal/cursorcli/launch.go, the arguments and the environment of the Cursor CLI.
--   What url.Parse makes of the endpoint is an interface, `Resolver`; paths are those of Unix.
-- - Idle: internal/daemon/idle.go. A call on the monitor is two steps, one under its lock and one
--   for its signal; Steps.antt has them in any interleaving with one `Wait`, and notes the times at
--   which the monitor was used. The time between a look and `time.NewTimer` is left out.
-- - Sse: internal/provider/openai/sse.go, the reader of server-sent events. What `ReadLine` of
--   `bufio` returns, the context and the callback are parameters; the loop recurses over the lines.
--
-- Strings are lists of bytes. An `int` that the code keeps from being negative is a natural number;
-- token counts are int64 and their sums wrap. Errors carry the constant text of the source and
-- what they wrap, without the numbers that some messages print. HTTP, processes, files, random
-- numbers and the command line are not modelled.

pub mod Base
pub mod Config
pub mod Conversation
pub mod Go
pub mod Idle
pub mod Launcher
pub mod Protocol
pub mod Provider
pub mod Runner
pub mod Session
pub mod Sse
pub mod Tools
pub mod Wire
