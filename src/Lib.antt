-- ===== src/Lib.antt =====
-- The Go library component-model links WebAssembly components at run time by the Canonical ABI.
-- This development models the parts of it that carry logic of their own and proves what makes
-- them correct.
--
-- Parts, files and correspondence:
-- - Leb128.antt, Leb128/Signed.antt, Leb128/Reader.antt: internal/leb128/leb128.go, the integers of
--   the binary format. `load_uint32` is `LoadUint32` on a slice, `decode_uint32` is `DecodeUint32`
--   on an `io.ByteReader`, which is a parameter (a state and a step). A byte is a number below 256,
--   an unsigned word a number below 2 ^ w; a signed word is its bit pattern.
-- - Descriptor.antt: internal/binary/descriptor.go, the type descriptors. A descriptor names others
--   by their index, so a type table may be cyclic.
-- - Abi/Layout.antt with Validate, Align and Size below it: internal/abi/layout.go, the alignment
--   and the size of a type in linear memory. `validate_layout_type` is `validateLayoutType`,
--   `alignment` and `size` are `Alignment` and `Size`. The index resolver is an argument.
-- - Abi/Flatten.antt: internal/abi/flatten.go, the core values that a value is passed as: `Flatten`,
--   `FlattenFunc` and `joinCoreTypes`. It uses the discriminants and the resolver of the layout.
-- - Abi/Value.antt: internal/abi/value.go, component values by their dynamic Go type.
-- - Abi/Memory.antt with Load and Store below it: internal/abi/memory.go, the linear memory and the
--   allocator of a guest. `load` and `store` are `Load` and `Store`; below them each function of the
--   file is a definition under its name. They use the alignments, sizes and discriminants of the
--   layout. The allocator is guest code, an argument that answers with a pointer and the memory after
--   it. Abi/Memory/Fits.antt says which values are in the range of a type, Abi/Memory/Utf8.antt is
--   what `utf8.Valid` of the Go library documents.
-- - Instance/Handles.antt and Instance/Handles/Ops.antt: internal/instance/resource.go, the table of
--   handles of a component instance. A method takes the table and answers with its result and the
--   table after it; the mutex makes each method one step. Destructors are callbacks, an argument.
--   Instance/Handles/Calls.antt lists every method that changes the table, and what a history of them
--   does. Instance/Handles/Keeps.antt and Instance/Handles/Gone.antt follow a history: the invariant,
--   and a handle that names nothing.
-- - Instance/Waitables.antt: internal/instance/waitable.go, waitables, waitable sets and subtasks.
--   Pointers are numbers into a store. A pending event that is a closure is a number too, and what
--   calling it does is an argument. The cancellation fields of a subtask are left out.
-- - Instance/Sched.antt: internal/instance/sched.go, the run queue and the parked tasks. What a thunk
--   or a resumed task does to the scheduler and to the rest of the program is an argument.
-- - Instance/Streams.antt and Instance/Streams/Futures.antt: internal/instance/stream.go, the
--   rendezvous of a stream and of a future. `write_stream` is `sharedStream.write`. The buffers are
--   those of the host. What a callback does to the stream is an argument, run where the source calls
--   it; every call is noted too. `end_calls` are callbacks of stream ends, of which that of a host end
--   (internal/instance/stream_host.go) reclaims its buffer at once. Instance/Streams/Channel.antt is
--   the channel that a stream stands for: an offer of elements or a request for room waits, and what
--   passes is taken from the front.
-- - Instance/Tasks.antt: internal/instance/task.go, the states of a task, its cancellation, and the
--   entry of tasks into an instance. The answer of a request for cancellation says whether the source
--   resumes the task at once.
--
-- A Go pair `(value, error)` is `Result`: `ok`, `err`, or `stuck` when a model ran out of fuel, which
-- the source cannot. Errors keep their kind and the values their text shows.
--
-- Fuel: the slice loops of the 33-bit and unsigned decoders run 5 or 10 rounds, the encoders 10,
-- since a word has no more groups of seven bits; the two loops with no bound take the fuel as an
-- argument, and one round more than there are bytes is enough. The loops of the scheduler take it too;
-- it is enough if it is above a measure that every step lowers. The recursion of the layout and of
-- the flattening has `layout_fuel`, 66 levels: the validation refuses types nested deeper than 64.
-- `load` and `store` take as fuel a bound on the depth of their calls, for which the source has none;
-- the nesting of the value is enough, since each call goes one level down in the value.
--
-- Not modelled: the names of resource types, which only error texts show; the lifting and lowering of
-- values through core values (internal/abi/flat.go), the binary decoder, the buffers of guests and the
-- builtins of streams, the callback loop of tasks and the linking of instances; goroutines and the
-- WebAssembly engine.
pub mod Prelude
pub mod Leb128
pub mod Descriptor
pub mod Abi
pub mod Instance
