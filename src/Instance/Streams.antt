-- ===== src/Instance/Streams.antt =====
-- internal/instance/stream.go: the rendezvous of streams and futures between buffers that the host
-- holds. A pointer to a buffer is a number, and the store holds what stands behind it. A callback is
-- a number too. What a call of it does to the stream, before the source goes on, is an argument: the
-- `reclaim` that `onCopy` gets may be called or kept, and a callback may park a buffer anew. The
-- calls are listed in their order. The buffers of guests, which stand in linear memories, are left out.
pub mod Channel
pub mod Refine
pub mod Shows
pub mod Pack
pub mod Futures
mod Runs
use component_model.Prelude.{
  ℕ, zero, suc, ◌+◌, ◌-◌, ◌*◌, ◌%◌, ◌^◌, List, [], ◌∷◌, ◌++◌, Bool, true, false, not, ◌&&◌, ◌||◌,
  Option, none, some, ◌==◌, ltb, leb, if◌then◌else◌, Result, ok, err, stuck, ◌>>=◌, ◌>>◌, length,
  take, drop, bit_or,
}
use component_model.Descriptor.{PrimName, TypeDesc}
use component_model.Abi.Value.{Value}
use component_model.Instance.Handles.{update}

abbrev pub max_buffer_len : ℕ
max_buffer_len = 2 ^ 28 - 1

-- What a builtin answers when its copy is not through.
abbrev pub blocked_sentinel : ℕ
blocked_sentinel = 0xffffffff

pub data CopyResult : Type 0 where
  copy_completed copy_dropped copy_cancelled : CopyResult

unfoldable pub copy_code : CopyResult → ℕ
copy_code copy_completed = 0
copy_code copy_dropped = 1
copy_code copy_cancelled = 2

-- `result | progress<<4` in 32 bits.
unfoldable pub pack_copy_result : CopyResult → ℕ → ℕ
unfolding copy_code
pack_copy_result r progress = bit_or (copy_code r) (progress * 2 ^ 4 % 2 ^ 32)

-- `none` is a stream without an element.
unfoldable pub none_or_number_type : Option TypeDesc → Bool
none_or_number_type none = true
none_or_number_type (some (TypeDesc.primitive_desc PrimName.u8)) = true
none_or_number_type (some (TypeDesc.primitive_desc PrimName.u16)) = true
none_or_number_type (some (TypeDesc.primitive_desc PrimName.u32)) = true
none_or_number_type (some (TypeDesc.primitive_desc PrimName.u64)) = true
none_or_number_type (some (TypeDesc.primitive_desc PrimName.s8)) = true
none_or_number_type (some (TypeDesc.primitive_desc PrimName.s16)) = true
none_or_number_type (some (TypeDesc.primitive_desc PrimName.s32)) = true
none_or_number_type (some (TypeDesc.primitive_desc PrimName.s64)) = true
none_or_number_type (some (TypeDesc.primitive_desc PrimName.f32)) = true
none_or_number_type (some (TypeDesc.primitive_desc PrimName.f64)) = true
none_or_number_type t = false

pub data CopyError : Type 0 where
  -- The progress, the number of elements asked for, and the number that there is or the capacity.
  read_past_end write_past_capacity : ℕ → ℕ → ℕ → CopyError
  intra_component : CopyError
  -- A slice out of bounds, a nil callback, and an assertion of the source.
  panics : CopyError

-- A call of `onCopy` or of `onCopyDone`.
pub data Notice : Type 0 where
  copied : ℕ → Notice
  done : ℕ → CopyResult → Notice

-- `hostBuffer`: the source of a write has its values from the start, the destination of a read gets
-- them.
pub record HostBuffer : Type 0 where
  pub vals : List Value
  pub progress : ℕ
  pub capacity : ℕ

-- `uint32(len(vs))`, and a sum and a difference in 32 bits.
unfoldable pub count32 : List Value → ℕ
count32 vs = length vs % 2 ^ 32

unfoldable pub add32 : ℕ → ℕ → ℕ
add32 a b = (a + b) % 2 ^ 32

unfoldable pub sub32 : ℕ → ℕ → ℕ
sub32 a b = (a + 2 ^ 32 - b) % 2 ^ 32

unfoldable pub new_host_read_buffer : List Value → HostBuffer
unfolding count32
new_host_read_buffer vals = record { vals = vals; progress = 0; capacity = count32 vals }

unfoldable pub new_host_write_buffer : ℕ → HostBuffer
new_host_write_buffer n = record { vals = []; progress = 0; capacity = n }

unfoldable pub remain : HostBuffer → ℕ
unfolding sub32
remain b = sub32 b.capacity b.progress

unfoldable pub is_zero_length : HostBuffer → Bool
is_zero_length b = b.capacity == 0

-- `vals[progress : progress+n]`, which panics when the end stands before the start.
unfoldable pub read_buffer : HostBuffer → ℕ → Result CopyError (List Value × HostBuffer)
unfolding add32 count32
read_buffer b n =
    if ltb (count32 b.vals) (add32 b.progress n)
    then err (read_past_end b.progress n (length b.vals))
    else (if ltb (add32 b.progress n) b.progress
        then err panics
        else ok (take n (drop b.progress b.vals), record b { progress = add32 b.progress n }))

unfoldable pub write_buffer : HostBuffer → List Value → Result CopyError HostBuffer
unfolding add32 count32
write_buffer b vs =
    if ltb b.capacity (add32 b.progress (count32 vs))
    then err (write_past_capacity b.progress (length vs) b.capacity)
    else ok (record b { vals = b.vals ++ vs; progress = add32 b.progress (count32 vs) })

-- `inst` is the guest whose buffer is parked, `none` for the host.
pub record Pending : Type 0 where
  pub inst : Option ℕ
  pub buffer : ℕ
  pub on_copy : ℕ
  pub on_copy_done : ℕ

-- `sharedStream`, with the buffers and the callbacks that were called. `pending` is `none` when
-- `pendingBuffer` is nil, and then the source has nil in the other three fields too.
pub record SharedStream : Type 0 where
  pub numeric : Bool
  pub dropped : Bool
  pub pending : Option Pending
  pub buffers : ℕ → HostBuffer
  pub notices : List Notice

abbrev pub Stepped : Type 0
Stepped = Result CopyError SharedStream

-- What a callback does to the stream. Its code is not part of this file.
abbrev pub Callbacks : Type 0
Callbacks = Notice → SharedStream → Stepped

unfoldable pub set_pending : Pending → SharedStream → SharedStream
set_pending p s = record s { pending = some p }

unfoldable pub reset_pending : SharedStream → SharedStream
reset_pending s = record s { pending = none }

-- The trap on a copy within one guest.
unfoldable pub is_intra : Option ℕ → Option ℕ → Bool → Bool
is_intra (some a) (some b) numeric = a == b && not numeric
is_intra a b numeric = false

-- `copyElements` between two buffers of the host.
unfoldable pub copy_elements : ℕ → ℕ → ℕ → (ℕ → HostBuffer) → Result CopyError (ℕ → HostBuffer)
unfolding read_buffer write_buffer
copy_elements dst src n buffers = do
  (vs, after_read) ← read_buffer (buffers src) n
  let read = update buffers src after_read in
      write_buffer (read dst) vs >>= λ after_write. ok (update read dst after_write)

abbrev pub smaller : ℕ → ℕ → ℕ
smaller a b = if ltb a b then a else b

module _ (call : Callbacks) where
  -- A call of a callback, to its end.
  unfoldable pub notify : Notice → SharedStream → Stepped
  notify n s = call n (record s { notices = s.notices ++ n ∷ [] })

  unfoldable pub reset_and_notify_pending : CopyResult → SharedStream → Stepped
  unfolding reset_pending notify
  reset_and_notify_pending result s = elim s.pending [
    | none ↦ err panics
    | some p ↦ notify (done p.on_copy_done result) (reset_pending s)
  ]

  unfoldable pub cancel_stream : SharedStream → Stepped
  unfolding reset_and_notify_pending
  cancel_stream s = reset_and_notify_pending copy_cancelled s

  unfoldable pub drop_stream : SharedStream → Stepped
  unfolding reset_and_notify_pending
  drop_stream s = if s.dropped then ok s else elim s.pending [
    | none ↦ ok (record s { dropped = true })
    | some p ↦ reset_and_notify_pending copy_dropped (record s { dropped = true })
  ]

  -- The copy of a rendezvous, and the call of the waiting side's `onCopy`.
  unfoldable pub meet : Pending → ℕ → ℕ → ℕ → SharedStream → Stepped
  unfolding copy_elements notify
  meet p dst src n s = do
    moved ← copy_elements dst src n s.buffers
    notify (copied p.on_copy) (record s { buffers = moved })

  -- The other side is through: it is completed, and this side is parked in its place, or in the place
  -- of whatever the callback parked.
  unfoldable pub replace_pending : Pending → SharedStream → Stepped
  unfolding reset_and_notify_pending set_pending
  replace_pending me s = do
    reset ← reset_and_notify_pending copy_completed s
    ok (set_pending me reset)

  unfoldable pub write_stream : Pending → SharedStream → Stepped
  unfolding notify set_pending is_intra remain meet is_zero_length replace_pending
  write_stream me s =
      if s.dropped then notify (done me.on_copy_done copy_dropped) s else elim s.pending [
        | none ↦ ok (set_pending me s)
        | some p ↦
            let there = remain (s.buffers p.buffer) in
            let here = remain (s.buffers me.buffer) in
            if is_intra me.inst p.inst s.numeric
            then err intra_component
            else (if ltb 0 there
                then ((if ltb 0 here
                      then meet p p.buffer me.buffer (smaller here there) s
                      else ok s)
                    >>= λ after. notify (done me.on_copy_done copy_completed) after)
                else (if is_zero_length (s.buffers me.buffer) && is_zero_length (s.buffers p.buffer)
                    then notify (done me.on_copy_done copy_completed) s
                    else replace_pending me s))
      ]

  unfoldable pub read_stream : Pending → SharedStream → Stepped
  unfolding notify set_pending is_intra remain meet replace_pending
  read_stream me s =
      if s.dropped then notify (done me.on_copy_done copy_dropped) s else elim s.pending [
        | none ↦ ok (set_pending me s)
        | some p ↦
            let there = remain (s.buffers p.buffer) in
            let here = remain (s.buffers me.buffer) in
            if is_intra me.inst p.inst s.numeric
            then err intra_component
            else (if ltb 0 there
                then ((if ltb 0 here
                      then meet p me.buffer p.buffer (smaller here there) s
                      else ok s)
                    >>= λ after. notify (done me.on_copy_done copy_completed) after)
                else replace_pending me s)
      ]

-- The callbacks of stream ends: `onCopy` of a host end calls `reclaim` at once, that of a guest end
-- keeps it for the delivery of an event; `reclaims` says which it is. What a host does when it is told
-- that its copy is through is a call of its own.
unfoldable pub end_calls : (ℕ → Bool) → Callbacks
end_calls reclaims (copied k) s = ok (record s { pending = if reclaims k then none else s.pending })
end_calls reclaims (done k result) s = ok s
