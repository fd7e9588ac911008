-- ===== src/Lib.antt =====
-- A verification of the core of the DollOS daemon (src/dollos): who a turn acts for, which tools it
-- may run and is shown, how its calls are run and its passes end, which messages take Doll's
-- attention, how her reply is cut into sentences, how her perceptions are batched and survive a
-- restart, which readings of the machine wake her, how a text becomes who she is, what stands in
-- the conversations that the model is sent, how its streamed answers are read, how her state and what
-- she pins to herself are saved, where her words go, when her schedule speaks, and how the daemon's
-- services are kept alive.
--
-- How the parts interact. A message of a channel passes the attention gate and waits in the batch of
-- its channel. An event becomes a perception, is written to the log and queued; the queue is drained
-- into one bucket for each channel. A batch of perceptions has a principal and is a moment of some
-- turn kind; the policy of the kind and the principal bind the turn's tools, the executor runs each
-- call against that binding, and the runner ends the turn. The model's answer is put together from
-- its stream before its calls are run. What is said leaves by the chunker to the
-- turn's sink. A turn goes on in the conversation of its channel, which keeps the executor's taint. A
-- reflection shows the pending candidate, and the tool SelfRevision decides on it.
--
-- Prelude: lists and Boolean tests over the native numbers, and Python's dict as an association list.
-- Perception: `Perception` of src/dollos/mind/mind_state.py.
-- Harness/Permissions: src/dollos/harness/permissions.py. `principal_of`, `tools_for` and the
--   tables TOOL_MATRIX (tool_matrix), TRUST_ORDER, ORIGIN_TIER and TAINTED_TOOLS. Trust: the
--   principal.
-- Harness/TurnPolicy: src/dollos/harness/turn_policy.py. POLICIES (policies), `moment_of`,
--   `kind_of`, `bound_tools`, `offered_tools`. Limits: what a turn can reach. Offered: the binding
--   against the list that the model is shown. Moments: the kind of a batch.
-- Harness/Executor: src/dollos/harness/executor.py. `ToolExecutor.run` with `decide`,
--   `_maybe_taint` and the log. Calls: each call. Narrowing: the calls of a turn behind one that
--   taints it.
-- Harness/Runner: src/dollos/harness/runner.py. `_Failures` (Failures, add) and the loop of
--   `TurnRunner.run` (run_passes). Strikes: the counters. Ends: how a turn ends.
-- Harness/ToolCalls: `run_tool_calls` of src/dollos/harness/runner.py. Answers: the calls of a reply.
-- Harness/Passes: `_stream_one_pass` of src/dollos/harness/runner.py (one_pass, its loop is
--   read_events) over what Llm makes of an answer. Answered, Spoken: the reply that a pass leaves.
-- Harness/Thread: how `TurnRunner.run` reads such a pass, and the thread that it leaves.
-- Attention: src/dollos/mind/attention.py. `AttentionGate` with `admit`, `note_reply`, `forget`,
--   `is_engaged`, `window_for`. Names: the match of Doll's name. Admission: one message. Sessions
--   and Budget: any sequence of operations.
-- Speech: src/dollos/cascade/sentence_chunker.py. `SentenceChunker.feed` (its loops are scan and
--   force) and `flush`. Content: what is spoken. Limits: that the loops end, and what is held back.
-- Wal: src/dollos/wal/perception_log.py. `PerceptionWAL` with `append`, `iter_pending`,
--   `truncate_through` and the scan at its start. Lines: `str.splitlines`. Recovery and Numbers:
--   any sequence of operations and restarts.
-- Queue: src/dollos/mind/perception_queue.py, and `_replay_wal` of src/dollos/kernel.py. `put`
--   (put_perception), `drain`, `drain_grouped`. Replay: the queue behind a restart. Buckets: the
--   batches by channel.
-- Batches: src/dollos/ipc/batch_accumulator.py. `BatchAccumulator` with `add` (add_item), `_flush`
--   (flush_batch), `_fire_after` (fire) and `flush_all`. Delivery: any sequence of them.
-- Pulse: src/dollos/mind/pulse_observer.py. `evaluate_alerts` (its rules are battery_bad, gpu_bad
--   and track_window, its last loop emit_alerts). Policy and Table: one evaluation. Episodes: a run of
--   them.
-- Evolution: src/dollos/mind/evolution.py, `_reverdict_once` and the bookkeeping of
--   src/dollos/mind/evolution_trigger.py, `run_evolution_pass` of
--   src/dollos/mind/evolution_keeper.py, `SelfRevision` of src/dollos/tools.py, `classify_tripwire`
--   of src/dollos/mind/current_self.py and the queries of src/dollos/mind/self_history.py. Texts:
--   the tests of a text. Slot: the pending slot and its transitions. Store: the slot's file, the
--   history (newest event first), current_self.md and the bookkeeping. Tripwire, Review, Revision:
--   the operations. Moves: any sequence of them. Sanction to Reviewed: what is kept by every move.
--   Adoption and Outcomes: a decision. Expiry: a candidate that is left alone.
-- Conversations: src/dollos/mind/context_builder.py, and what a turn of
--   src/dollos/mind/mind_loop.py does with its conversation (run_turn). `ContextBuilder` (Builder)
--   with `begin_turn`, `_touch`, `_store`. Order, Recent: the channels in memory. Lookup, Pages,
--   Fresh: what becomes of a page.
-- MindState: src/dollos/mind/mind_state.py. Json: JSON values. Rows: the records in the state and
--   their `asdict` and `_coerce`. State: `MindState`, `_ToolStatsDict`, `save_state`, `load_state`.
--   RoundTrip: what a start loads.
-- Sinks: src/dollos/mind/sink_resolver.py. `SinkResolver` (Resolver) with `register`,
--   `unregister` and `__call__` (resolve). Latest: the sink of a turn.
-- Schedule: `due_entries` of src/dollos/schedule.py and the polls of one day in
--   `_schedule_runner` of src/dollos/kernel.py. Once: an entry over a day.
-- Llm: src/dollos/llm/chat_completions.py, with the events of src/dollos/llm/model.py. Feed: `_Reply`
--   with `feed` and `finish`. Adapter: `ChatCompletionsAdapter` with `stream` (its loop is read_lines)
--   and `_account` (account). Pieces, Sorted: the calls that pieces make. Deltas, Lines: what a stream
--   adds to a reply. Contract, Calls: the events of a call.
-- Services: src/dollos/service_supervisor.py. `register`, `status`, and `_supervise` (supervise) over
--   rounds that tell how each process ends. Rounds, Streaks, Waits: when it gives up and how long it
--   waits. Life: `_supervise` and `_stop_one` as steps between their awaits (Step). Stopped: what every
--   interleaving of them keeps.
-- Profile: src/dollos/mind/self_profile.py. `_parse` (parse), `_serialize` (serialize). Edits: `_find`
--   (find), `_next_id` (next_id) and the cleaning of a text. Apply: `apply`. Bullets, RoundTrip: what
--   is read back. Found, Pins, Additions: the file behind an edit. Breaks: a text of several lines.
--
-- Parameters. The tools behind a call, the argument values and the floats are parameters of
-- the definitions that use them; so are the JSON codec of the log, which is taken to write plain
-- perceptions as one line and to read them back, what `str.strip` removes, and the passes of a turn,
-- of which the runner reads one for each index. Of the evolution: whether a character is a space or
-- punctuation, NFKC and the words of a text, what the agents answer, and which writes fail. Its
-- agents run while nothing else moves the slot that they judge; the keeper looks for a slot once more
-- behind them, and so does the model. Of the conversations: the hash, and the texts.
-- Of the saved state: json, `float` and `int` on JSON values, and whether a write fails. Of the model's
-- answer: what the connection gives, the clock and json; a chunk is read as the fields that the source
-- reads. Of the services: how each process ends; `wait` is taken to return when it has ended, and a
-- start that is cancelled to leave no process. Of the profile: what is white space and a digit, and
-- `int` and `str` of a number, of which the theorems assume that no printing character of ASCII is
-- white space, that the middle dot is no digit, and that a numeral is digits that are read back.
--
-- Fuel. The loops of the chunker run on the length of the buffer as fuel, and each turn of a loop
-- takes at least one code point where the limit is above zero (with a limit of zero the source goes on
-- for ever, and here the fuel runs out); the loop of passes runs on `max_passes`, as in the source. All other
-- recursions are structural.
--
-- Not modelled: the wording of messages and reasons, logging, asyncio, sockets, SQLite, audio, Discord
-- and MCP, and the daemon's other modules.
pub mod Prelude
pub mod Perception
pub mod Harness
pub mod Attention
pub mod Speech
pub mod Wal
pub mod Queue
pub mod Batches
pub mod Pulse
pub mod Evolution
pub mod Conversations
pub mod MindState
pub mod Sinks
pub mod Schedule
pub mod Llm
pub mod Services
pub mod Profile
