-- ===== src/Stream.antt =====
-- `MsQuicServer::stream_cb` of daemon/src/msquic_server.cpp: the bytes of a QUIC stream are collected
-- in `pending` and handed to `on_message_` in records.
pub mod Framing
use quic_keys.Common.{
  ℕ, zero, suc, ◌+◌, Bool, true, false, ◌&&◌, List, [], ◌∷◌, ◌++◌, Option, none, some, Bytes, ltb,
  leb, length, take, drop, if◌then◌else◌,
}

-- The fields of the server that the callback reads: whether `on_message_` is set, and `record_size_`.
pub record Receiver : Type 0 where
  pub has_callback : Bool
  pub record_size : ℕ

-- `StreamCtx::pending`, and the arguments of the calls of `on_message_` so far.
pub record Delivery : Type 0 where
  pub messages : List Bytes
  pub pending : Bytes

-- The loop over the buffers of a RECEIVE event: an empty buffer adds nothing.
append_buffers : List Bytes → Bytes → Bytes
append_buffers [] pending = pending
append_buffers (b ∷ bs) pending =
    append_buffers bs (if ltb 0 (length b) then pending ++ b else pending)

-- `total`
total_bytes : List Bytes → ℕ
total_bytes [] = 0
total_bytes (b ∷ bs) = length b + total_bytes bs

-- `while (pending.size() >= record_size_)`, on fuel: a round takes `record_size_` bytes, which is not
-- 0 here, so as many rounds as there are bytes are enough.
pub deliver_loop : ℕ → ℕ → Bytes → Delivery
deliver_loop record_size zero pending = record { messages = []; pending = pending }
deliver_loop record_size (suc fuel) pending =
    let rest = deliver_loop record_size fuel (drop record_size pending) in
    if leb record_size (length pending)
    then record { messages = take record_size pending ∷ rest.messages; pending = rest.pending }
    else record { messages = []; pending = pending }

unfoldable pub deliver : ℕ → Bytes → Delivery
unfolding deliver_loop
deliver record_size pending = deliver_loop record_size (length pending) pending

-- Raw mode: whatever there is goes out at once.
deliver_raw : Bytes → Delivery
deliver_raw [] = record { messages = []; pending = [] }
deliver_raw (b ∷ bs) = record { messages = (b ∷ bs) ∷ []; pending = [] }

-- A RECEIVE event. With no callback the records are cut off and dropped; in raw mode without a
-- callback the bytes stay.
pub receive : Receiver → List Bytes → Bytes → Delivery
receive r buffers pending =
    let all = append_buffers buffers pending in
    let cut = deliver r.record_size all in
    if ltb 0 r.record_size
    then (if r.has_callback then cut else record { messages = []; pending = cut.pending })
    else if r.has_callback
    then deliver_raw all
    else record { messages = []; pending = all }

-- A run of RECEIVE events on one stream.
unfoldable pub receive_all : Receiver → List (List Bytes) → Bytes → Delivery
receive_all r [] pending = record { messages = []; pending = pending }
receive_all r (e ∷ es) pending =
    let first = receive r e pending in
    let rest = receive_all r es first.pending in
    record { messages = first.messages ++ rest.messages; pending = rest.pending }
