-- ===== src/Sse/Blocks/Steps.antt =====
-- Each method of api/publisher.py keeps a client's view in step with the publisher's flags.
use mathlib.Core.Path.{subst}
use harness_runtime.Base.{
  ◌==◌, ◌+◌, String, true, false, ◌≡◌, refl, sym, some, List, [], ◌∷◌, append-nil, arith, if_ind,
}
use harness_runtime.Value.{Fields, lookup, or_null, equals}
use harness_runtime.Publisher.{
  Call, lifecycle_started, lifecycle_completed, lifecycle_failed, lifecycle_cancelled, checkpoint,
  values, system_init, assistant, user_echo, tool_result, tool_output_delta, tool_started,
  stream_event_text, result, message_finish, ResultArgs,
}
use harness_runtime.Sse.Frames.{
  text_content, tool_call, Body, message_start, block_start, block_delta, block_finish, message_end,
  message_end_usage, tool_use_started, Frame, event, result_frame, Entry, frame,
}
use harness_runtime.Sse.{
  Value, SsePublisher, fresh, write, emit, perform, perform_all, open_message, open_block,
  close_block, publish_stream_event_text, tool_block, tool_blocks, publish_assistant,
  publish_message_finish, publish_result, publish_checkpoint,
}
use harness_runtime.Sse.Blocks.{
  View, idle, follow, follow_entry, always, Sees, view, Agrees, write-Sees, keep-Sees, emit-Sees,
}

-- A frame leaves the flags as they are.
view-write : (f : Frame) (q : SsePublisher) → view (write always f q) ≡ view q
unfolding write
view-write f q = ground arith

nested-write :
    (f : Frame) (q : SsePublisher)
    → (q.block_started ≡ true → q.message_started ≡ true)
    → (write always f q).block_started ≡ true
    → (write always f q).message_started ≡ true
unfolding write
nested-write f q nested = ground arith

view-idle : (q : SsePublisher) → q.message_started ≡ false → q.block_started ≡ false → view q ≡ idle
view-idle q m b = ground arith

module _ {old : List Entry} where
  write-Agrees :
      {v : View} (f : Frame) (q : SsePublisher)
      → Sees old v q
      → follow_entry (some v) (frame f) ≡ some (view q)
      → (q.block_started ≡ true → q.message_started ≡ true)
      → Agrees old (write always f q)
  write-Agrees f q h e nested = record {
    sees =
        subst (λ v. Sees old v (write always f q)) (sym (view-write f q))
          (write-Sees (view q) f q h e);
    nested = nested-write f q nested;
  }

  emit-Agrees :
      {v : View} (b : Body) (q : SsePublisher)
      → Sees old v q
      → follow v b ≡ some (view q)
      → (q.block_started ≡ true → q.message_started ≡ true)
      → Agrees old (emit always b q)
  unfolding emit
  emit-Agrees b q h e nested =
      write-Agrees (event (q.seq + 1) b) (record q { seq = q.seq + 1 })
        (keep-Sees q q.awaiting_user q.message_started q.block_started q.block_index
          q.checkpoint_step (q.seq + 1) h)
        e nested

  -- An event that the view ignores.
  neutral-Agrees :
      (b : Body) (p : SsePublisher)
      → Agrees old p
      → follow (view p) b ≡ some (view p)
      → Agrees old (emit always b p)
  neutral-Agrees b p h e = emit-Agrees b p h.sees e h.nested

  open_message-Agrees :
      (p : SsePublisher)
      → Agrees old p
      → Agrees old (open_message always p) × ((open_message always p).message_started ≡ true)
  unfolding open_message emit write
  open_message-Agrees p h =
      if_ind (λ x. Agrees old x × (x.message_started ≡ true)) p.message_started (λ on. (h, on))
        (λ off.
          let q = record p { message_started = true; block_index = 0 } in
          let v =
            keep-Sees p p.awaiting_user true p.block_started 0 p.checkpoint_step p.seq h.sees in
          (
            emit-Agrees (message_start q.session_id q.seq) q v (ground (arith, h.nested))
                (λ _. refl),
            unfold emit write in ground arith,
          ))

  open_block-Agrees :
      (p : SsePublisher)
      → Agrees old p
      → p.message_started ≡ true
      → Agrees old (open_block always p)
        × ((open_block always p).message_started ≡ true)
        × ((open_block always p).block_started ≡ true)
  unfolding open_block
  open_block-Agrees p h m =
      if_ind (λ x. Agrees old x × (x.message_started ≡ true) × (x.block_started ≡ true))
        p.block_started (λ on. (h, m, on))
        (λ off.
          let q = record p { block_started = true } in
          let v =
            keep-Sees p p.awaiting_user p.message_started true p.block_index p.checkpoint_step p.seq
              h.sees in
          (
            emit-Agrees (block_start q.block_index text_content) q v (ground arith) (λ _. m),
            unfold emit write in ground arith,
            unfold emit write in ground arith,
          ))

  close_block-Agrees :
      (p : SsePublisher)
      → Agrees old p
      → Agrees old (close_block always p) × ((close_block always p).block_started ≡ false)
  unfolding close_block
  close_block-Agrees p h =
      if_ind (λ x. Agrees old x × (x.block_started ≡ false)) p.block_started
        (λ on.
          let q = record p { block_started = false } in
          let v =
            keep-Sees p p.awaiting_user p.message_started false p.block_index p.checkpoint_step
              p.seq h.sees in
          (
            emit-Agrees (block_finish q.block_index text_content) q v (ground (arith, h.nested))
                (λ e. cc),
            unfold emit write in ground arith,
          ))
        (λ off. (h, off))

  text-Agrees :
      (text : String) (p : SsePublisher)
      → Agrees old p
      → Agrees old (publish_stream_event_text always text p)
  unfolding publish_stream_event_text
  text-Agrees text p h =
      let m = open_message-Agrees p h in
      let b = open_block-Agrees (open_message always p) m.0 m.1 in
      let q = open_block always (open_message always p) in
      emit-Agrees (block_delta q.block_index text) q b.0.sees (ground (arith, b.1, b.2)) b.0.nested

  -- The block of a tool call starts and ends.
  tool_pair :
      (id name args : Value) (q : SsePublisher)
      → Sees old (view q) q
      → q.block_started ≡ false
      → (q.block_started ≡ true → q.message_started ≡ true)
      → let call = tool_call id name args in
        Agrees old (
          emit always
            (block_finish q.block_index call)
            (emit always (block_start q.block_index call) q))
  tool_pair id name args q h off nested =
      let call = tool_call id name args in
      let during : View = record (view q) { tool = some q.block_index } in
      let r = emit always (block_start q.block_index call) q in
      let opened : Sees old during r =
        emit-Sees during (block_start q.block_index call) q h (ground (arith, off)) in
      let same : view r ≡ view q =
        unfold emit in
        view-write (event (q.seq + 1) (block_start q.block_index call))
          (record q { seq = q.seq + 1 }) in
      emit-Agrees (block_finish q.block_index call) r opened (rw same (ground (arith, off))) (
        unfold emit in
        nested-write (event (q.seq + 1) (block_start q.block_index call))
          (record q { seq = q.seq + 1 }) nested)

  -- The blocks of a tool call stand between text blocks.
  tool_block-Agrees :
      (block : Fields) (p : SsePublisher)
      → Agrees old p
      → p.block_started ≡ false
      → Agrees old (tool_block always block p) × ((tool_block always block p).block_started ≡ false)
  unfolding tool_block
  tool_block-Agrees block p h off =
      if_ind (λ x. Agrees old x × (x.block_started ≡ false))
        (equals (or_null (lookup "type" block)) "tool_use")
        (λ _.
          let q = record p { block_index = p.block_index + 1 } in
          let v =
            keep-Sees p p.awaiting_user p.message_started p.block_started (p.block_index + 1)
              p.checkpoint_step p.seq h.sees in
          let same : view p ≡ view q = ground (arith, off) in
          let w = subst (λ u. Sees old u q) same v in
          (
            neutral-Agrees (tool_use_started _ _ _) _ (tool_pair _ _ _ q w off h.nested) refl,
            unfold emit write in ground arith,
          ))
        (λ _. (h, off))

  tool_blocks-Agrees :
      (blocks : List Fields) (p : SsePublisher)
      → Agrees old p
      → p.block_started ≡ false
      → Agrees old (tool_blocks always blocks p)
  unfolding tool_blocks
  tool_blocks-Agrees [] p h off = h
  tool_blocks-Agrees (block ∷ blocks) p h off =
      let next = tool_block-Agrees block p h off in
      tool_blocks-Agrees blocks (tool_block always block p) next.0 next.1

  finish-Agrees : (p : SsePublisher) → Agrees old p → Agrees old (publish_message_finish always p)
  unfolding publish_message_finish
  finish-Agrees p h =
      let c = close_block-Agrees p h in
      let q = close_block always p in
      let ended =
        if_ind (λ x. Sees old idle x) q.message_started
          (λ on. emit-Sees idle message_end q c.0.sees (ground (arith, c.1)))
          (λ off. rw (← view-idle q off c.1) c.0.sees) in
      record { sees = keep-Sees _ _ false false 0 _ _ ended; nested = λ e. cc }

  result-Agrees :
      (args : ResultArgs) (p : SsePublisher)
      → Agrees old p
      → Agrees old (publish_result always args p)
  unfolding publish_result
  result-Agrees args p h =
      let ended = emit-Sees idle message_end_usage p h.sees refl in
      write-Agrees (result_frame args) _
        (keep-Sees _ (args.subtype == "interrupted") false false _ _ _ ended) refl (λ e. e)

  perform-Agrees : (c : Call) (p : SsePublisher) → Agrees old p → Agrees old (perform always c p)
  unfolding perform publish_checkpoint publish_assistant
  perform-Agrees (lifecycle_started _) p h = neutral-Agrees _ p h refl
  perform-Agrees lifecycle_completed p h = neutral-Agrees _ p h refl
  perform-Agrees (lifecycle_failed error) p h = neutral-Agrees _ p h refl
  perform-Agrees (lifecycle_cancelled reason) p h = neutral-Agrees _ p h refl
  perform-Agrees checkpoint p h =
      emit-Agrees _ _
        (keep-Sees p p.awaiting_user p.message_started p.block_started p.block_index _ p.seq h.sees)
        refl h.nested
  perform-Agrees (values messages files usage todos) p h = neutral-Agrees _ p h refl
  perform-Agrees (system_init model tools) p h = h
  perform-Agrees (assistant model content) p h =
      let c = close_block-Agrees p h in tool_blocks-Agrees content (close_block always p) c.0 c.1
  perform-Agrees (user_echo content) p h = h
  perform-Agrees (tool_result id name content is_error) p h = neutral-Agrees _ p h refl
  perform-Agrees (tool_output_delta id name delta) p h = neutral-Agrees _ p h refl
  perform-Agrees (tool_started id name parent) p h = neutral-Agrees _ p h refl
  perform-Agrees (stream_event_text text) p h = text-Agrees text p h
  perform-Agrees (result args) p h = result-Agrees args p h
  perform-Agrees message_finish p h = finish-Agrees p h

  perform_all-Agrees_from :
      (cs : List Call) (p : SsePublisher) → Agrees old p → Agrees old (perform_all always cs p)
  unfolding perform_all
  perform_all-Agrees_from [] p h = h
  perform_all-Agrees_from (c ∷ cs) p h =
      perform_all-Agrees_from cs (perform always c p) (perform-Agrees c p h)

pub perform_all-Agrees :
    (session_id : String) (old : List Entry) (calls : List Call)
    → Agrees old (perform_all always calls (fresh session_id old))
perform_all-Agrees session_id old calls =
    perform_all-Agrees_from calls (fresh session_id old) (record {
      sees = record { is_open = refl; added = []; stream = sym (append-nil old); seen = refl };
      nested = λ e. cc;
    })
