-- ===== src/Sse/Calls.antt =====
-- A proof rule for the calls of api/publisher.py: what a frame and a change of the flags keep, every
-- call keeps.
use harness_runtime.Base.{ℕ, Bool, List, [], ◌∷◌, if_ind}
use harness_runtime.Value.{Fields, lookup, or_null, equals}
use harness_runtime.Publisher.{
  Call, lifecycle_started, lifecycle_completed, lifecycle_failed, lifecycle_cancelled, checkpoint,
  values, system_init, assistant, user_echo, tool_result, tool_output_delta, tool_started,
  stream_event_text, result, message_finish, ResultArgs,
}
use harness_runtime.Sse.Frames.{Body, result_frame}
use harness_runtime.Sse.{
  SsePublisher, write, emit, publish_checkpoint, open_message, open_block, close_block,
  publish_stream_event_text, tool_block, tool_blocks, publish_assistant, publish_message_finish,
  publish_result, perform, perform_all,
}

-- What frames and the flags that frames depend on keep; all calls but `publish_result` are made of
-- them.
pub record FrameRule (accepts : ℕ → Bool) (P : SsePublisher → Type 0) : Type 0 where
  pub framed : (b : Body) (p : SsePublisher) → P p → P (emit accepts b p)
  pub flags :
      (p : SsePublisher) (m b : Bool) (i c : ℕ)
      → P p
      → P (record p {
        message_started = m;
        block_started = b;
        block_index = i;
        checkpoint_step = c;
      })

-- The result frame, too, and the flag that it sets.
pub record Rule (accepts : ℕ → Bool) (P : SsePublisher → Type 0) : Type 0 where
  pub frames : FrameRule accepts P
  pub waits : (p : SsePublisher) (w : Bool) → P p → P (record p { awaiting_user = w })
  pub resulted :
      (args : ResultArgs) (p : SsePublisher) → P p → P (write accepts (result_frame args) p)

abbrev pub IsPlain : Call → Type 0
IsPlain (result args) = ⊥
IsPlain c = Unit

module _ {accepts : ℕ → Bool} {P : SsePublisher → Type 0} (rule : FrameRule accepts P) where
  open rule use {framed, flags}

  kept-open_message : (p : SsePublisher) → P p → P (open_message accepts p)
  unfolding open_message
  kept-open_message p h =
      if_ind P p.message_started (λ _. h)
        (λ _. framed _ _ (flags p Bool.true p.block_started 0 p.checkpoint_step h))

  kept-open_block : (p : SsePublisher) → P p → P (open_block accepts p)
  unfolding open_block
  kept-open_block p h =
      if_ind P p.block_started (λ _. h)
        (λ _. framed _ _ (flags p p.message_started Bool.true p.block_index p.checkpoint_step h))

  kept-close_block : (p : SsePublisher) → P p → P (close_block accepts p)
  unfolding close_block
  kept-close_block p h =
      if_ind P p.block_started
        (λ _. framed _ _ (flags p p.message_started Bool.false p.block_index p.checkpoint_step h))
        (λ _. h)

  kept-tool_block : (block : Fields) (p : SsePublisher) → P p → P (tool_block accepts block p)
  unfolding tool_block
  kept-tool_block block p h =
      if_ind P (equals (or_null (lookup "type" block)) "tool_use")
        (λ _. framed _ _ (
          framed _ _
            (framed _ _ (flags p p.message_started p.block_started _ p.checkpoint_step h))))
        (λ _. h)

  kept-tool_blocks :
      (blocks : List Fields) (p : SsePublisher) → P p → P (tool_blocks accepts blocks p)
  unfolding tool_blocks
  kept-tool_blocks [] p h = h
  kept-tool_blocks (block ∷ blocks) p h =
      kept-tool_blocks blocks (tool_block accepts block p) (kept-tool_block block p h)

  kept-message_finish : (p : SsePublisher) → P p → P (publish_message_finish accepts p)
  unfolding publish_message_finish
  kept-message_finish p h =
      let q = close_block accepts p in
      flags _ Bool.false Bool.false 0 _ (
        if_ind P q.message_started (λ _. framed _ q (kept-close_block p h))
          (λ _. kept-close_block p h))

  -- A call that is no `publish_result` keeps what the rule keeps.
  pub perform_plain_ind : (c : Call) (p : SsePublisher) → IsPlain c → P p → P (perform accepts c p)
  unfolding perform publish_checkpoint publish_stream_event_text publish_assistant
  perform_plain_ind (lifecycle_started _) p plain h = framed _ p h
  perform_plain_ind lifecycle_completed p plain h = framed _ p h
  perform_plain_ind (lifecycle_failed error) p plain h = framed _ p h
  perform_plain_ind (lifecycle_cancelled reason) p plain h = framed _ p h
  perform_plain_ind checkpoint p plain h =
      framed _ _ (flags p p.message_started p.block_started p.block_index _ h)
  perform_plain_ind (values messages files usage todos) p plain h = framed _ p h
  perform_plain_ind (system_init model tools) p plain h = h
  perform_plain_ind (assistant model content) p plain h =
      kept-tool_blocks content _ (kept-close_block p h)
  perform_plain_ind (user_echo content) p plain h = h
  perform_plain_ind (tool_result id name content is_error) p plain h = framed _ p h
  perform_plain_ind (tool_output_delta id name delta) p plain h = framed _ p h
  perform_plain_ind (tool_started id name parent) p plain h = framed _ p h
  perform_plain_ind (stream_event_text text) p plain h =
      framed _ _ (kept-open_block _ (kept-open_message p h))
  perform_plain_ind (result args) p plain h = absurd plain
  perform_plain_ind message_finish p plain h = kept-message_finish p h

module _ {accepts : ℕ → Bool} {P : SsePublisher → Type 0} (rule : Rule accepts P) where
  open rule use {frames, waits, resulted}

  -- One call keeps what the rule keeps.
  pub perform_ind : (c : Call) (p : SsePublisher) → P p → P (perform accepts c p)
  unfolding perform publish_result
  perform_ind (result args) p h =
      resulted args _ (waits _ _ (frames.flags _ Bool.false Bool.false _ _ (frames.framed _ p h)))
  perform_ind lifecycle_completed p h = perform_plain_ind frames lifecycle_completed p tt h
  perform_ind checkpoint p h = perform_plain_ind frames checkpoint p tt h
  perform_ind message_finish p h = perform_plain_ind frames message_finish p tt h
  perform_ind c p h = perform_plain_ind frames c p tt h

  -- A run of calls keeps what the rule keeps.
  pub perform_all_ind : (cs : List Call) (p : SsePublisher) → P p → P (perform_all accepts cs p)
  unfolding perform_all
  perform_all_ind [] p h = h
  perform_all_ind (c ∷ cs) p h = perform_all_ind cs (perform accepts c p) (perform_ind c p h)
