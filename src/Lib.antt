-- ===== src/Lib.antt =====
-- harness-runtime: the process in a sandbox that runs an agent's graph, one turn at a time, streams
-- the turn to its session's clients, records it in Postgres, and reports it to Waypoint.
--
-- The parts, and the files that model them:
--   Value, Value/*      the values of the dynamic language that events, messages and state channels
--                       are made of, with Python's truth, equality and dict operations; Errors holds
--                       the exceptions.
--   Publisher           core/publishers/event_publisher.py: the interface through which a turn speaks,
--                       as the data type of its calls, and publish_turn_end.
--   Sse, Sse/*          api/publisher.py: SSEEventPublisher. The record SsePublisher holds the
--                       object's fields and its Redis stream; `perform` is the method for a call, and
--                       `close` is close. Frames holds what is written.
--   Store/Chat          core/persistence/message_writer.py, the table chat_messages:
--                       write_chat_messages and stamp_checkpoint_id.
--   Store/Stopped       the same file: unanswered_calls and record_stopped_steps.
--   Store/Files         the same file: write_agent_output_files, on the table agent_output_files.
--   Store/Artifacts     core/tools/artifact_reader.py: the command line tools' access to that table.
--   Reports             core/waypoint_reports: questions.py and replies.py; Throttle is workspace.py.
--   Execution/State     core/execution/state.py and types.py: ExecutionState and Event.from_raw.
--   Execution/World     the monad of a turn: its state, its calls, the tables, the throttle, and the
--                       reports sent. Env holds a turn's arguments and the world outside.
--   Execution/Messages  core/execution/helpers.py: the serializations; Tools is compute_tools.
--   Execution/Handlers  core/execution/handlers: the chain and the dispatch of _process_v3_event.
--                       Subagents, Root and Values hold the handlers.
--   Execution/Turn      core/execution/executor.py: async_execute, from its setup to its except
--                       clauses.
--   Execution/Resume    the same file: what the graph is given, from the session's checkpoint: a new
--                       turn, or the answer to an open question.
--   Router              api/routers/sessions.py: the SessionState of a session id, the endpoints, and the
--                       tasks that its turn lock keeps apart; Steps is how they interleave, and Stream
--                       is what stream_events sends.
--   Restore             core/restore/checkpoint.py and pending.py: the rewind of a thread.
--   AskUser             core/middleware/human_interaction/ask_user.py: the questions of an agent.
--   Session             core/session/execution.py and session.py: the input of a turn.
--   Workspace           core/workspace/backends/db.py: the files of the table that a session reads,
--                       edits, lists and searches, in Backend; Patterns has SQL's LIKE and fnmatch.
--   FileServer          api/routers/workspace_files.py and api/internal_auth.py: the endpoints on the
--                       workspace's files; Trees is the walk over them.
--   FetchUrl            core/middleware/url_fetch_middleware/fetch_url.py: what the tool tells of a URL.
--   Jobs                core/middleware/background_jobs/middleware.py: the pending jobs of an agent,
--                       how they are merged, tracked and reported.
--   Sanitizer           core/middleware/structured_output/middleware.py: sanitize_openai_messages.
--   Middleware          core/middleware/todos.py and invalid_tool_calls.py: what sends an agent back to
--                       its model after an answer; Computer is computer_reports.py: what a computer
--                       reports, told to the agent.
--   Base                what the modules share.
--
-- How they interact: async_execute runs the graph's events through the handlers, which change the
-- state, call the publisher, write the tables and note changes for the reports. The calls of a turn
-- are a list; Sse says what a list of calls writes to the stream. Execution/World/Rules is the
-- interface between them: a record of what each primitive keeps, from which it follows what each
-- handler and a whole turn keep.
--
-- Outside the model, as parameters: the graph, by the events that it streams and by how they end;
-- Redis and Postgres, by whether the n-th write goes through; the clock, by its n-th reading; fresh
-- ids; Python's str, json.dumps, json.loads and int on values that are no texts or numbers; the order
-- in which Python visits a set; the file system with its links, the HTTP client, the hash of a token,
-- urlparse, base64 and the decoding of UTF-8; LangGraph's checkpointer, and what the inherited
-- StateBackend answers from the state's files. A write to Postgres is one transaction: it is done
-- whole or not at all. Of asyncio the router's steps take that a task runs from one `await` to the
-- next, and that the cancellation of a task is raised in it at the `await` where it stands.
-- Numbers are those without a sign: counts, tokens and milliseconds. Ids, names and the parts of a
-- namespace are texts; where the code would accept a value of another kind, the definition says what
-- stands for it.
--
-- Bounds: _json_objects is given as many calls of itself as its text has characters, and one more;
-- a text inside a JSON text is shorter than it, so that they suffice. fnmatch takes a character of its
-- pattern in each round, and is given as many rounds as it has. Everything else is recursion on
-- a list.
--
-- Not modelled: the graph topologies and the builders, which call LangGraph, the
-- real-disk workspace, the loaders of tools and packs, the HTTP endpoints on computers, the
-- command line, tracing and logging.
mod Base
pub mod Value
pub mod Publisher
pub mod Sse
pub mod Store
pub mod Reports
pub mod Execution
pub mod Jobs
pub mod Sanitizer
pub mod Middleware
pub mod Router
pub mod AskUser
pub mod Restore
pub mod Session
pub mod Patterns
pub mod Workspace
pub mod FileServer
pub mod FetchUrl
