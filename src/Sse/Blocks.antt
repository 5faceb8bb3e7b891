-- ===== src/Sse/Blocks.antt =====
-- The messages of api/publisher.py as a client reads them: a message holds text blocks, a text delta
-- belongs to the block that is open, and the block of a tool call stands between them.
pub mod Steps
use harness_runtime.Base.{
  ℕ, ◌+◌, String, Bool, true, false, not, ◌&&◌, ◌≡◌, refl, sym, Option, some, none, List, [], ◌∷◌,
  ◌++◌, append_assoc, append-nil, arith, if◌then◌else◌, if_ind, nat_eq, Bool-cases, inl, inr,
}
use harness_runtime.Value.{Fields, lookup, or_null, equals}
use harness_runtime.Publisher.{
  Call, lifecycle_completed, checkpoint, message_finish, result, assistant, stream_event_text,
  values, lifecycle_started, lifecycle_failed, lifecycle_cancelled, system_init, user_echo,
  tool_result, tool_output_delta, tool_started,
}
use harness_runtime.Sse.Frames.{
  Content, text_content, tool_call, Body, message_start, block_start, block_delta, block_finish,
  message_end, message_end_usage, Frame, event, result_frame, Entry, frame, sentinel,
}
use harness_runtime.Sse.{
  SsePublisher, fresh, write, emit, perform, perform_all, open_message, open_block, close_block,
  publish_stream_event_text, tool_block, tool_blocks, publish_assistant, publish_message_finish,
  publish_result, publish_checkpoint,
}

-- What a client holds: whether a message is open, the index of its open text block, and the index of the
-- open block of a tool call.
pub record View : Type 0 where
  pub in_message : Bool
  pub block : Option ℕ
  pub tool : Option ℕ

abbrev pub idle : View
idle = record { in_message = false; block = none; tool = none }

abbrev is_block : Option ℕ → ℕ → Bool
is_block none i = false
is_block (some j) i = nat_eq j i

abbrev no_block : Option ℕ → Bool
no_block none = true
no_block (some j) = false

abbrev when : Bool → View → Option View
when true v = some v
when false v = none

-- Whether no block is open, of either kind.
abbrev is_between : View → Bool
is_between v = no_block v.block && no_block v.tool

-- One event. A message starts where none is open. A block starts where no block is open, a text block
-- only in a message; the block of a tool call may stand outside a message. A delta and a finish name
-- the open block of their kind, and a message ends with no block open. The event that carries the
-- usage ends a message and a text block, but never comes inside the block of a tool call. All else
-- is no concern of the messages.
abbrev pub follow : View → Body → Option View
follow v (message_start s n) =
    when (not v.in_message && is_between v) (record v { in_message = true; block = none })
follow v (block_start i text_content) =
    when (v.in_message && is_between v) (record v { block = some i })
follow v (block_start i (tool_call id name input)) =
    when (is_between v) (record v { tool = some i })
follow v (block_delta i text) = when (v.in_message && is_block v.block i && no_block v.tool) v
follow v (block_finish i text_content) =
    when (v.in_message && is_block v.block i && no_block v.tool) (record v { block = none })
follow v (block_finish i (tool_call id name input)) =
    when (is_block v.tool i) (record v { tool = none })
follow v message_end = when (v.in_message && is_between v) idle
follow v message_end_usage = when (no_block v.tool) idle
follow v b = some v

abbrev follow_entry : Option View → Entry → Option View
follow_entry none e = none
follow_entry (some v) (frame (event n b)) = follow v b
follow_entry (some v) (frame (result_frame args)) = some v
follow_entry (some v) sentinel = some v

-- The entries in order; `none` once the protocol is broken.
abbrev pub follow_all : Option View → List Entry → Option View
follow_all v [] = v
follow_all v (e ∷ es) = follow_all (follow_entry v e) es

follow_all-append :
    (v : Option View) (es : List Entry) (e : Entry)
    → follow_all v (es ++ e ∷ []) ≡ follow_entry (follow_all v es) e
follow_all-append v [] e = refl
follow_all-append v (x ∷ es) e = follow_all-append (follow_entry v x) es e

-- Redis that takes every write.
abbrev pub always : ℕ → Bool
always n = true

-- A client that reads what an open publisher added to the stream holds the view `v`.
pub record Sees (old : List Entry) (v : View) (p : SsePublisher) : Type 0 where
  pub is_open : p.closed ≡ false
  pub added : List Entry
  pub stream : p.stream ≡ old ++ added
  pub seen : follow_all (some idle) added ≡ some v

-- The view that the publisher's flags stand for.
abbrev pub view : SsePublisher → View
view p = record {
  in_message = p.message_started;
  block = if p.block_started then some p.block_index else none;
  tool = none;
}

pub record Agrees (old : List Entry) (p : SsePublisher) : Type 0 where
  pub sees : Sees old (view p) p
  pub nested : p.block_started ≡ true → p.message_started ≡ true

module _ {old : List Entry} where
  write-Sees :
      {v : View} (w : View) (f : Frame) (p : SsePublisher)
      → Sees old v p
      → follow_entry (some v) (frame f) ≡ some w
      → Sees old w (write always f p)
  unfolding write
  write-Sees w f p h e = rw h.is_open (record {
    is_open = refl;
    added = h.added ++ frame f ∷ [];
    stream = rw h.stream (append_assoc old h.added _);
    seen = rw (follow_all-append (some idle) h.added (frame f), h.seen) e;
  })

  -- The counters and flags do not matter to what is seen.
  keep-Sees :
      {v : View} (p : SsePublisher) (w m b : Bool) (i c s : ℕ)
      → Sees old v p
      → Sees old v (record p {
        awaiting_user = w;
        message_started = m;
        block_started = b;
        block_index = i;
        checkpoint_step = c;
        seq = s;
      })
  keep-Sees p w m b i c s h = record {
    is_open = h.is_open;
    added = h.added;
    stream = h.stream;
    seen = h.seen;
  }

  emit-Sees :
      {v : View} (w : View) (b : Body) (p : SsePublisher)
      → Sees old v p
      → follow v b ≡ some w
      → Sees old w (emit always b p)
  unfolding emit
  emit-Sees w b p h e =
      write-Sees w (event (p.seq + 1) b) (record p { seq = p.seq + 1 })
        (keep-Sees p p.awaiting_user p.message_started p.block_started p.block_index
          p.checkpoint_step (p.seq + 1) h)
        e
