-- ===== src/Instance/Streams/Runs.antt =====
-- internal/instance/stream.go: runs of reads and writes on concrete buffers.
use component_model.Prelude.{
  ℕ, ◌/◌, ◌%◌, ◌≡◌, ◌≢◌, refl, ap, arith, List, [], ◌∷◌, ◌++◌, Bool, true, false, ◌==◌,
  if◌then◌else◌, Option, none, some, ok, ◌>>=◌, take, drop,
}
use component_model.Abi.Value.{Value, uint32_value}
use component_model.Instance.Streams.{
  HostBuffer, new_host_read_buffer, new_host_write_buffer, count32, Pending, SharedStream,
  copy_completed, copy_dropped, done, write_stream, read_stream, is_zero_length, pack_copy_result,
  copy_code, blocked_sentinel, end_calls, is_intra, replace_pending, set_pending, remain, sub32,
  Callbacks, drop_stream, reset_and_notify_pending, reset_pending, notify,
}
use component_model.Instance.Streams.Channel.{offering, asking, offer, ask}
use component_model.Instance.Streams.Refine.{IsSource, IsDestination}
use component_model.Instance.Streams.Shows.{Follows, write_stream-offer, read_stream-ask}
use component_model.Instance.Streams.Pack.{pack_copy_result-unpacks}
use component_model.Instance.Streams.Futures.{
  FuturePending, SharedFuture, leaves_alone, read_future, write_future, future-passes,
}

abbrev three_values : List Value
three_values = uint32_value 7 ∷ uint32_value 8 ∷ uint32_value 9 ∷ []

-- The host's source of three values at 0, its room for two at 1.
abbrev source : HostBuffer
source = record { vals = three_values; progress = 0; capacity = 3 }

abbrev room_for_two : HostBuffer
room_for_two = record { vals = []; progress = 0; capacity = 2 }

new_buffers :
    (new_host_read_buffer three_values ≡ source) × (new_host_write_buffer 2 ≡ room_for_two)
unfolding new_host_read_buffer new_host_write_buffer count32
new_buffers = (refl, refl)

abbrev two_buffers : ℕ → HostBuffer
two_buffers k = if k == 0 then source else room_for_two

abbrev writer : Pending
writer = record { inst = none; buffer = 0; on_copy = 20; on_copy_done = 21 }

abbrev reader : Pending
reader = record { inst = none; buffer = 1; on_copy = 10; on_copy_done = 11 }

abbrev stream_of : Option Pending → SharedStream
stream_of waiting = record {
  numeric = false;
  dropped = false;
  pending = waiting;
  buffers = two_buffers;
  notices = [];
}

source-IsSource : IsSource source three_values
source-IsSource = record {
  whole = refl;
  small = omega arith;
  read_so_far = omega arith;
  to_go = refl;
}

room-IsDestination : IsDestination room_for_two [] 2
room-IsDestination = record { got = refl; filled = refl; space = refl; small = omega arith }

-- The reader reclaims its buffer at once, and the writer would too.
abbrev reclaims : ℕ → Bool
reclaims k = true

write_stream-offer_example :
    (after : SharedStream) × (write_stream (end_calls reclaims) writer (stream_of (some reader))
      ≡ ok after)
    × Follows
        (stream_of (some reader))
        after
        (offer reclaims writer three_values (asking reader false 2))
    × ((there : Pending)
        → some reader ≡ some there
        → (after.buffers there.buffer).vals
          ≡ (two_buffers there.buffer).vals
            ++ (offer reclaims writer three_values (asking reader false 2)).passed)
    × IsSource (after.buffers 0) (drop 2 three_values)
unfolding is_zero_length is_intra
write_stream-offer_example =
    write_stream-offer reclaims writer (stream_of (some reader)) (asking reader false 2)
      three_values (refl, refl, refl, ([], room-IsDestination)) (λ there waits. refl)
      source-IsSource refl (λ there waits same. apart there waits same) (λ there others same. cc)
  where
    apart :
        (there : Pending) → ◌≡◌ {A = Option Pending} (some reader) (some there) → there.buffer ≢ 0
    apart there waits same =
        let other : reader ≡ there = cc in
        absurd (omega (arith, ap (λ (p : Pending). p.buffer) other, same))

read_stream-ask_example :
    (after : SharedStream) × (read_stream (end_calls reclaims) reader (stream_of (some writer))
      ≡ ok after)
    × Follows
        (stream_of (some writer))
        after
        (ask reclaims reader false 2 (offering writer three_values))
    × ((after.buffers 1).vals ≡ take 2 three_values)
unfolding is_zero_length is_intra
read_stream-ask_example =
    read_stream-ask reclaims reader (stream_of (some writer)) (offering writer three_values) []
      false 2 (refl, refl, source-IsSource) (λ there waits. refl) room-IsDestination refl
      (λ there waits same. apart there waits same) (λ there other more same. cc)
  where
    apart :
        (there : Pending) → ◌≡◌ {A = Option Pending} (some writer) (some there) → 1 ≢ there.buffer
    apart there waits same =
        let other : writer ≡ there = cc in
        absurd (omega (arith, ap (λ (p : Pending). p.buffer) other, same))

pack_copy_result-unpacks_example :
    (pack_copy_result copy_dropped 5 % 16 ≡ copy_code copy_dropped)
    × (pack_copy_result copy_dropped 5 / 16 ≡ 5)
    × (pack_copy_result copy_dropped 5 ≢ blocked_sentinel)
pack_copy_result-unpacks_example = pack_copy_result-unpacks copy_dropped 5 (omega arith)

abbrev one_value : HostBuffer
one_value = record { vals = uint32_value 7 ∷ []; progress = 0; capacity = 1 }

abbrev room_for_one : HostBuffer
room_for_one = record { vals = []; progress = 0; capacity = 1 }

abbrev future_reader : FuturePending
future_reader = record { inst = none; buffer = 1; on_copy_done = 11 }

abbrev future_writer : FuturePending
future_writer = record { inst = none; buffer = 0; on_copy_done = 21 }

abbrev future : SharedFuture
future = record {
  numeric = false;
  dropped = false;
  pending = none;
  buffers = λ k. if k == 0 then one_value else room_for_one;
  notices = [];
}

future-passes_example :
    ((after : SharedFuture) × ((read_future leaves_alone future_reader future >>= λ waiting.
    write_future leaves_alone future_writer waiting)
        ≡ ok after)
      × (after.pending ≡ none)
      × IsDestination (after.buffers 1) (uint32_value 7 ∷ []) 0
      × (after.notices ≡ done 11 copy_completed ∷ done 21 copy_completed ∷ []))
    × ((after : SharedFuture) × ((write_future leaves_alone future_writer future >>= λ waiting.
            read_future leaves_alone future_reader waiting)
          ≡ ok after)
        × (after.pending ≡ none)
        × IsDestination (after.buffers 1) (uint32_value 7 ∷ []) 0
        × (after.notices ≡ done 21 copy_completed ∷ done 11 copy_completed ∷ []))
unfolding is_intra
future-passes_example =
    future-passes future_reader future_writer future [] (uint32_value 7) refl refl refl
      (λ same. omega (arith, same))
      (record { got = refl; filled = refl; space = refl; small = omega arith })
      (record { whole = refl; small = omega arith; read_so_far = omega arith; to_go = refl })

-- A drop of a read that waits.
dropped_read :
    drop_stream (end_calls reclaims) (stream_of (some reader))
    ≡ ok (record (stream_of none) { dropped = true; notices = done 11 copy_dropped ∷ [] })
unfolding drop_stream reset_and_notify_pending reset_pending notify end_calls
dropped_read = refl

-- A reader without room waits, and its callback parks it anew: the writer takes its place.
abbrev parks_anew : Callbacks
parks_anew n s = ok (record s { pending = some reader })

abbrev no_room : SharedStream
no_room = record (stream_of (some reader)) {
  buffers = λ k. if k == 0 then source else record { vals = []; progress = 0; capacity = 0 };
}

overwritten :
    write_stream parks_anew writer no_room
    ≡ ok (record no_room { pending = some writer; notices = done 11 copy_completed ∷ [] })
unfolding write_stream replace_pending reset_and_notify_pending notify set_pending reset_pending
    is_intra is_zero_length remain sub32
overwritten = refl
