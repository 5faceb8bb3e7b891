-- ===== src/Sse.antt =====
-- api/publisher.py: the publisher that writes a session's events to its Redis stream, for the SSE
-- endpoint to read. Redis is the list of the stream's entries; a write that Redis refuses is
-- logged and lost, as `accepts` says for the n-th attempt.
pub mod Frames
pub mod Calls
pub mod Numbering
pub mod Closing
pub mod Blocks
mod Samples
use harness_runtime.Base.{
  ℕ, ◌+◌, ◌*◌, String, Bool, true, false, Option, none, some, List, [], ◌∷◌, ◌++◌, ◌==◌, ◌<>◌,
  if◌then◌else◌, get_or, decimal,
}
use harness_runtime.Value.{Value, null, str, dict, Fields, lookup, or_null, equals}
use harness_runtime.Publisher.{
  Call, lifecycle_started, lifecycle_completed, lifecycle_failed, lifecycle_cancelled, checkpoint,
  values, system_init, assistant, user_echo, tool_result, tool_output_delta, tool_started,
  stream_event_text, result, message_finish, ResultArgs,
}
use Frames.{
  Content, text_content, tool_call, Body, started, completed, failed, cancelled, checkpoint_saved,
  values_snapshot, message_start, block_start, block_delta, block_finish, message_end,
  message_end_usage, tool_use_started, tool_delta, tool_call_started, tool_finished, Frame, event,
  result_frame, Entry, frame, sentinel,
}

abbrev pub finished_turn_ttl_seconds : ℕ
finished_turn_ttl_seconds = 60

abbrev pub waiting_turn_ttl_seconds : ℕ
waiting_turn_ttl_seconds = 24 * 60 * 60

-- The object's fields, and the Redis stream that it writes: its entries and its expiry.
pub record SsePublisher : Type 0 where
  pub session_id : String
  pub closed : Bool
  pub awaiting_user : Bool
  pub seq : ℕ
  pub message_started : Bool
  pub block_started : Bool
  pub block_index : ℕ
  pub checkpoint_step : ℕ
  pub attempts : ℕ
  pub stream : List Entry
  pub ttl : Option ℕ

-- `SSEEventPublisher(session_id)`, on the entries that the stream holds by then.
abbrev pub fresh : String → List Entry → SsePublisher
fresh session_id stream = record {
  session_id = session_id;
  closed = false;
  awaiting_user = false;
  seq = 0;
  message_started = false;
  block_started = false;
  block_index = 0;
  checkpoint_step = 0;
  attempts = 0;
  stream = stream;
  ttl = none;
}

module _ (accepts : ℕ → Bool) where
  -- `r.xadd`, whose failure `_write` only logs.
  unfoldable pub xadd : Entry → SsePublisher → SsePublisher
  xadd e p = record p {
    attempts = p.attempts + 1;
    stream = if accepts p.attempts then p.stream ++ e ∷ [] else p.stream;
  }

  unfoldable pub write : Frame → SsePublisher → SsePublisher
  unfolding xadd
  write f p = if p.closed then p else xadd (frame f) p

  -- `self._write(self._protocol_event(method, body))`: the number is taken whether or not the
  -- frame is written.
  unfoldable pub emit : Body → SsePublisher → SsePublisher
  unfolding write
  emit b p = let q = record p { seq = p.seq + 1 } in write (event q.seq b) q

  unfoldable pub publish_checkpoint : SsePublisher → SsePublisher
  unfolding emit
  publish_checkpoint p =
      let q = record p { checkpoint_step = p.checkpoint_step + 1 } in
      emit (checkpoint_saved q.seq q.checkpoint_step) q

  open_message : SsePublisher → SsePublisher
  unfolding emit
  open_message p =
      if p.message_started
      then p
      else (let q = record p { message_started = true; block_index = 0 } in
          emit (message_start q.session_id q.seq) q)

  open_block : SsePublisher → SsePublisher
  unfolding emit
  open_block p =
      if p.block_started
      then p
      else (let q = record p { block_started = true } in
          emit (block_start q.block_index text_content) q)

  close_block : SsePublisher → SsePublisher
  unfolding emit
  close_block p =
      if p.block_started
      then (let q = record p { block_started = false } in
          emit (block_finish q.block_index text_content) q)
      else p

  unfoldable pub publish_stream_event_text : String → SsePublisher → SsePublisher
  unfolding open_message open_block emit
  publish_stream_event_text text p =
      let q = open_block (open_message p) in emit (block_delta q.block_index text) q

  -- The body of the loop of `publish_assistant`, for one block.
  tool_block : Fields → SsePublisher → SsePublisher
  unfolding emit
  tool_block block p =
      if equals (or_null (lookup "type" block)) "tool_use"
      then (let id = get_or (lookup "id" block) (str ("call_" <> decimal p.seq)) in
          let name = get_or (lookup "name" block) (str "") in
          let args = get_or (lookup "input" block) (dict Fields.end) in
          let q = record p { block_index = p.block_index + 1 } in
          let r = emit (block_start q.block_index (tool_call id name args)) q in
          let s = emit (block_finish q.block_index (tool_call id name args)) r in
          emit (tool_use_started id name args) s)
      else p

  tool_blocks : List Fields → SsePublisher → SsePublisher
  unfolding tool_block
  tool_blocks [] p = p
  tool_blocks (block ∷ blocks) p = tool_blocks blocks (tool_block block p)

  unfoldable pub publish_assistant : List Fields → SsePublisher → SsePublisher
  unfolding close_block tool_blocks
  publish_assistant content p = tool_blocks content (close_block p)

  unfoldable pub publish_message_finish : SsePublisher → SsePublisher
  unfolding close_block emit
  publish_message_finish p =
      let q = close_block p in
      let r = if q.message_started then emit message_end q else q in
      record r { message_started = false; block_started = false; block_index = 0 }

  unfoldable pub publish_result : ResultArgs → SsePublisher → SsePublisher
  unfolding emit
  publish_result args p =
      let q = record (emit message_end_usage p) {
        message_started = false;
        block_started = false;
      } in
      write (result_frame args) (record q { awaiting_user = args.subtype == "interrupted" })

  -- Each method of the interface. `publish_system_init` and `publish_user_echo` do nothing.
  unfoldable pub perform : Call → SsePublisher → SsePublisher
  unfolding emit publish_checkpoint publish_stream_event_text publish_assistant
      publish_message_finish publish_result
  perform (lifecycle_started node) p = emit (started node) p
  perform lifecycle_completed p = emit completed p
  perform (lifecycle_failed error) p = emit (failed error) p
  perform (lifecycle_cancelled reason) p = emit (cancelled reason) p
  perform checkpoint p = publish_checkpoint p
  perform (values messages files usage todos) p =
      emit (values_snapshot messages files usage todos) p
  perform (system_init model tools) p = p
  perform (assistant model content) p = publish_assistant content p
  perform (user_echo content) p = p
  perform (tool_result id name content is_error) p = emit (tool_finished id name content is_error) p
  perform (tool_output_delta id name delta) p = emit (tool_delta id name delta) p
  perform (tool_started id name parent) p = emit (tool_call_started id name parent) p
  perform (stream_event_text text) p = publish_stream_event_text text p
  perform (result args) p = publish_result args p
  perform message_finish p = publish_message_finish p

  unfoldable pub perform_all : List Call → SsePublisher → SsePublisher
  unfolding perform
  perform_all [] p = p
  perform_all (c ∷ cs) p = perform_all cs (perform c p)

  -- Here a refused `xadd` raises, with the publisher closed and no expiry set.
  unfoldable pub close : SsePublisher → SsePublisher
  unfolding xadd
  close p =
      if p.closed
      then p
      else (let q = record p { closed = true } in
          let r = xadd sentinel q in
          let ttl =
            if r.awaiting_user then waiting_turn_ttl_seconds else finished_turn_ttl_seconds in
          if accepts q.attempts then record r { ttl = some ttl } else r)
