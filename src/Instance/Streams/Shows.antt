-- ===== src/Instance/Streams/Shows.antt =====
-- internal/instance/stream.go: the rendezvous of buffers keeps the promises of the channel.
use component_model.Prelude.{
  ℕ, zero, suc, ◌≡◌, ◌≢◌, refl, sym, ap, ◌∙◌, arith, List, [], ◌∷◌, ◌++◌, Bool, true, false, ◌&&◌,
  Option, none, some, if◌then◌else◌, ◌-◌, ◌==◌, ltb, ok, err, ◌>>=◌, length, take, drop,
  length-take,
}
use mathlib.Core.List.{append-nil, append_assoc}
use component_model.Abi.Value.{Value}
use component_model.Instance.Streams.{
  HostBuffer, panics, copy_completed, copy_dropped, copied, done, Pending, SharedStream, remain,
  is_zero_length, copy_elements, meet, notify, set_pending, reset_pending, reset_and_notify_pending,
  replace_pending, is_intra, end_calls, Notice, write_stream, read_stream, smaller,
}
use component_model.Instance.Streams.Channel.{
  Channel, dropped, idle, offering, asking, Answer, unless_reclaimed, offer, ask,
}
use component_model.Instance.Streams.Refine.{
  IsSource, IsDestination, remain-IsSource, remain-IsDestination, copy_elements-moves,
}

-- The channel that a stream of host buffers stands for.
abbrev pub Shows : SharedStream → Channel → Type 0
Shows s dropped = s.dropped ≡ true
Shows s idle = (s.dropped ≡ false) × (s.pending ≡ none)
Shows s (offering there vs) =
    (s.dropped ≡ false) × (s.pending ≡ some there) × IsSource (s.buffers there.buffer) vs
Shows s (asking there empty room) =
    (s.dropped ≡ false)
    × (s.pending ≡ some there)
    × (is_zero_length (s.buffers there.buffer) ≡ empty)
    × ((got : List Value) × IsDestination (s.buffers there.buffer) got room)

-- The step from one state of a stream to the next as the channel describes it.
pub record Follows (s after : SharedStream) (answer : Answer) : Type 0 where
  pub shows : Shows after answer.channel
  pub calls : after.notices ≡ s.notices ++ answer.called

abbrev pub is_empty : List Value → Bool
is_empty [] = true
is_empty (v ∷ vs) = false

-- A stream after the call of a callback that leaves it as it is.
abbrev told : Notice → SharedStream → SharedStream
told n s = record s { notices = s.notices ++ n ∷ [] }

unless_reclaimed-Shows :
    (reclaimed : Bool) (s : SharedStream) (c : Channel)
    → s.dropped ≡ false
    → Shows s c
    → Shows
        (record s { pending = if reclaimed then none else s.pending })
        (unless_reclaimed reclaimed c)
unless_reclaimed-Shows true s c live shows = (live, refl)
unless_reclaimed-Shows false s c live shows = shows

-- Each way through a rendezvous, for a stream at which a side waits.
module _ (reclaims : ℕ → Bool) (me there : Pending) (s : SharedStream) (live : s.dropped ≡ false)
    (waits : s.pending ≡ some there) (apart : is_intra me.inst there.inst s.numeric ≡ false) where
  abbrev met : SharedStream → SharedStream
  met = told (done me.on_copy_done copy_completed)

  abbrev met_after_copy : (ℕ → HostBuffer) → SharedStream
  met_after_copy moved = met (record s {
    buffers = moved;
    notices = s.notices ++ copied there.on_copy ∷ [];
    pending = if reclaims there.on_copy then none else s.pending;
  })

  abbrev replaced : SharedStream
  replaced = set_pending me (told (done there.on_copy_done copy_completed) (reset_pending s))

  replace_pending-replaced : replace_pending (end_calls reclaims) me s ≡ ok replaced
  unfolding replace_pending reset_and_notify_pending notify end_calls set_pending reset_pending
  replace_pending-replaced =
      ap
        (λ (waiting : Option Pending).
          elim waiting [
            | none ↦ err panics
            | some p ↦
                notify (end_calls reclaims) (done p.on_copy_done copy_completed) (reset_pending s)
          ]
          >>= λ (reset : SharedStream). ok (set_pending me reset))
        waits

  write-replaces :
      remain (s.buffers there.buffer) ≡ 0
      → (is_zero_length (s.buffers me.buffer) && is_zero_length (s.buffers there.buffer)) ≡ false
      → write_stream (end_calls reclaims) me s ≡ ok replaced
  unfolding write_stream
  write-replaces full longer = simp (live, waits, apart, full, longer, replace_pending-replaced)

  write-handshake :
      remain (s.buffers there.buffer) ≡ 0
      → (is_zero_length (s.buffers me.buffer) && is_zero_length (s.buffers there.buffer)) ≡ true
      → write_stream (end_calls reclaims) me s ≡ ok (met s)
  unfolding write_stream notify end_calls
  write-handshake full both = simp (live, waits, apart, full, both)

  write-nothing :
      (room : ℕ)
      → remain (s.buffers there.buffer) ≡ suc room
      → remain (s.buffers me.buffer) ≡ 0
      → write_stream (end_calls reclaims) me s ≡ ok (met s)
  unfolding write_stream notify end_calls
  write-nothing room wide spent =
      let some_room : ltb 0 (suc room) ≡ true = ground arith in
      simp (live, waits, apart, wide, spent, some_room)

  write-meets :
      (room count : ℕ) (moved : ℕ → HostBuffer)
      → remain (s.buffers there.buffer) ≡ suc room
      → remain (s.buffers me.buffer) ≡ suc count
      → copy_elements there.buffer me.buffer (smaller (suc count) (suc room)) s.buffers ≡ ok moved
      → write_stream (end_calls reclaims) me s ≡ ok (met_after_copy moved)
  unfolding write_stream notify end_calls meet
  write-meets room count moved wide ready e =
      let some_room : ltb 0 (suc room) ≡ true = ground arith in
      let some_values : ltb 0 (suc count) ≡ true = ground arith in
      simp (live, waits, apart, wide, ready, some_room, some_values, e)

  read-replaces :
      remain (s.buffers there.buffer) ≡ 0 → read_stream (end_calls reclaims) me s ≡ ok replaced
  unfolding read_stream
  read-replaces full = simp (live, waits, apart, full, replace_pending-replaced)

  read-nothing :
      (count : ℕ)
      → remain (s.buffers there.buffer) ≡ suc count
      → remain (s.buffers me.buffer) ≡ 0
      → read_stream (end_calls reclaims) me s ≡ ok (met s)
  unfolding read_stream notify end_calls
  read-nothing count ready spent =
      let some_values : ltb 0 (suc count) ≡ true = ground arith in
      simp (live, waits, apart, ready, spent, some_values)

  read-meets :
      (room count : ℕ) (moved : ℕ → HostBuffer)
      → remain (s.buffers there.buffer) ≡ suc count
      → remain (s.buffers me.buffer) ≡ suc room
      → copy_elements me.buffer there.buffer (smaller (suc room) (suc count)) s.buffers ≡ ok moved
      → read_stream (end_calls reclaims) me s ≡ ok (met_after_copy moved)
  unfolding read_stream notify end_calls meet
  read-meets room count moved ready wide e =
      let some_room : ltb 0 (suc room) ≡ true = ground arith in
      let some_values : ltb 0 (suc count) ≡ true = ground arith in
      simp (live, waits, apart, ready, wide, some_room, some_values, e)

-- A write of new values, whose buffer is not the one that waits, to a stream of host buffers that no
-- other writer waits at, with callbacks that do nothing to the stream but reclaim or not: unless it is
-- a copy within one guest of elements that are no numbers, it ends without an error and answers as
-- the channel does. What passes is appended to the buffer of the reader that waited, and the rest
-- stays with the writer. (A buffer has less than 2 ^ 32 elements.)
pub write_stream-offer :
    (reclaims : ℕ → Bool) (me : Pending) (s : SharedStream) (c : Channel) (vs : List Value)
    → Shows s c
    → ((there : Pending) → s.pending ≡ some there → is_intra me.inst there.inst s.numeric ≡ false)
    → IsSource (s.buffers me.buffer) vs
    → is_zero_length (s.buffers me.buffer) ≡ is_empty vs
    → ((there : Pending) → s.pending ≡ some there → there.buffer ≢ me.buffer)
    → ((there : Pending) (others : List Value) → c ≢ offering there others)
    → (after : SharedStream) × (write_stream (end_calls reclaims) me s ≡ ok after)
      × Follows s after (offer reclaims me vs c)
      × ((there : Pending)
          → s.pending ≡ some there
          → (after.buffers there.buffer).vals
            ≡ (s.buffers there.buffer).vals ++ (offer reclaims me vs c).passed)
      × IsSource (after.buffers me.buffer) (drop (length (offer reclaims me vs c).passed) vs)
unfolding write_stream notify end_calls set_pending reset_pending is_zero_length
write_stream-offer reclaims me s dropped vs shows allowed src empty apart alone = (
  told (done me.on_copy_done copy_dropped) s,
  rw shows refl,
  record { shows = shows; calls = refl },
  λ p w. sym (append-nil _),
  src,
)
write_stream-offer reclaims me s idle vs (live, free) allowed src empty apart alone = (
  set_pending me s,
  simp (live, free),
  record { shows = (live, refl, src); calls = sym (append-nil s.notices) },
  λ p w. sym (append-nil _),
  src,
)
write_stream-offer reclaims me s (offering there others) vs shows allowed src empty apart alone =
    absurd (alone there others refl)
write_stream-offer reclaims me s (asking there true zero) [] (live, waits, none_yet, (got, d))
      allowed src empty apart alone =
    (
      met reclaims me there s live waits (allowed there waits) s,
      write-handshake reclaims me there s live waits (allowed there waits)
          (remain-IsDestination _ got 0 d) (rw (empty, none_yet) refl),
      record { shows = (live, waits, none_yet, (got, d)); calls = refl },
      λ p w. sym (append-nil _),
      src,
    )
write_stream-offer reclaims me s (asking there false zero) [] (live, waits, none_yet, (got, d))
      allowed src empty apart alone =
    (
      replaced reclaims me there s live waits (allowed there waits),
      write-replaces reclaims me there s live waits (allowed there waits)
          (remain-IsDestination _ got 0 d) (rw (empty, none_yet) refl),
      record { shows = (live, refl, src); calls = refl },
      λ p w. sym (append-nil _),
      src,
    )
write_stream-offer reclaims me s (asking there never zero) (v ∷ vs)
      (live, waits, none_yet, (got, d)) allowed src empty apart alone =
    (
      replaced reclaims me there s live waits (allowed there waits),
      write-replaces reclaims me there s live waits (allowed there waits)
          (remain-IsDestination _ got 0 d) (rw empty refl),
      record { shows = (live, refl, src); calls = refl },
      λ p w. sym (append-nil _),
      src,
    )
write_stream-offer reclaims me s (asking there never (suc room)) []
      (live, waits, none_yet, (got, d)) allowed src empty apart alone =
    (
      met reclaims me there s live waits (allowed there waits) s,
      write-nothing reclaims me there s live waits (allowed there waits) room
          (remain-IsDestination _ got (suc room) d) (remain-IsSource _ [] src),
      record { shows = (live, waits, none_yet, (got, d)); calls = refl },
      λ p w. sym (append-nil _),
      src,
    )
write_stream-offer reclaims me s (asking there never (suc room)) (v ∷ vs)
      (live, waits, none_yet, (got, d)) allowed src empty apart alone =
    let n = smaller (suc (length vs)) (suc room) in
    let (moved, e, filled, rest, kept) =
      copy_elements-moves there.buffer me.buffer n (suc room) s.buffers got (v ∷ vs)
        (apart there waits) d src (ground arith) (ground arith) in
    (
      met_after_copy reclaims me there s live waits (allowed there waits) moved,
      write-meets reclaims me there s live waits (allowed there waits) room (length vs) moved
          (remain-IsDestination _ got (suc room) d) (remain-IsSource _ (v ∷ vs) src) e,
      record {
        shows =
            unless_reclaimed-Shows (reclaims there.on_copy) (record s { buffers = moved })
              (asking there never (suc room - n)) live
              (
                live,
                waits,
                ap (λ (k : ℕ). k == 0) kept ∙ none_yet,
                (got ++ take n (v ∷ vs), filled),
              );
        calls =
            append_assoc s.notices (copied there.on_copy ∷ [])
              (done me.on_copy_done copy_completed ∷ []);
      },
      λ p w.
          let same : there ≡ p = cc in
          rw (sym same) (filled.got ∙ ap (λ xs. xs ++ take n (v ∷ vs)) (sym d.got)),
      let count = length-take n (v ∷ vs) (ground arith) in rw count rest,
    )

-- A read into new room, whose buffer is not the one that waits, at a stream of host buffers that no
-- other reader waits at, with callbacks that do nothing to the stream but reclaim or not: unless it is
-- a copy within one guest of elements that are no numbers, it ends without an error and answers as
-- the channel does. What passes is what stood first in the offer, and it is appended to the buffer
-- of the read. (A buffer has less than 2 ^ 32 elements.)
pub read_stream-ask :
    (reclaims : ℕ → Bool) (me : Pending) (s : SharedStream) (c : Channel) (got : List Value)
    (empty : Bool) (room : ℕ)
    → Shows s c
    → ((there : Pending) → s.pending ≡ some there → is_intra me.inst there.inst s.numeric ≡ false)
    → IsDestination (s.buffers me.buffer) got room
    → is_zero_length (s.buffers me.buffer) ≡ empty
    → ((there : Pending) → s.pending ≡ some there → me.buffer ≢ there.buffer)
    → ((there : Pending) (other : Bool) (more : ℕ) → c ≢ asking there other more)
    → (after : SharedStream) × (read_stream (end_calls reclaims) me s ≡ ok after)
      × Follows s after (ask reclaims me empty room c)
      × ((after.buffers me.buffer).vals
          ≡ (s.buffers me.buffer).vals ++ (ask reclaims me empty room c).passed)
unfolding read_stream notify end_calls set_pending reset_pending is_zero_length
read_stream-ask reclaims me s dropped got empty room shows allowed d zero_length apart alone = (
  told (done me.on_copy_done copy_dropped) s,
  rw shows refl,
  record { shows = shows; calls = refl },
  sym (append-nil _),
)
read_stream-ask reclaims me s idle got empty room (live, free) allowed d zero_length apart alone = (
  set_pending me s,
  simp (live, free),
  record { shows = (live, refl, zero_length, (got, d)); calls = sym (append-nil s.notices) },
  sym (append-nil _),
)
read_stream-ask reclaims me s (asking there other more) got empty room shows allowed d zero_length
      apart alone =
    absurd (alone there other more refl)
read_stream-ask reclaims me s (offering there []) got empty room (live, waits, src) allowed d
      zero_length apart alone =
    (
      replaced reclaims me there s live waits (allowed there waits),
      read-replaces reclaims me there s live waits (allowed there waits) (remain-IsSource _ [] src),
      record { shows = (live, refl, zero_length, (got, d)); calls = refl },
      sym (append-nil _),
    )
read_stream-ask reclaims me s (offering there (v ∷ vs)) got empty zero (live, waits, src) allowed d
      zero_length apart alone =
    (
      met reclaims me there s live waits (allowed there waits) s,
      read-nothing reclaims me there s live waits (allowed there waits) (length vs)
          (remain-IsSource _ (v ∷ vs) src) (remain-IsDestination _ got 0 d),
      record { shows = (live, waits, src); calls = refl },
      sym (append-nil _),
    )
read_stream-ask reclaims me s (offering there (v ∷ vs)) got empty (suc room) (live, waits, src)
      allowed d zero_length apart alone =
    let n = smaller (suc room) (suc (length vs)) in
    let (moved, e, filled, rest, kept) =
      copy_elements-moves me.buffer there.buffer n (suc room) s.buffers got (v ∷ vs)
        (apart there waits) d src (ground arith) (ground arith) in
    (
      met_after_copy reclaims me there s live waits (allowed there waits) moved,
      read-meets reclaims me there s live waits (allowed there waits) room (length vs) moved
          (remain-IsSource _ (v ∷ vs) src) (remain-IsDestination _ got (suc room) d) e,
      record {
        shows =
            unless_reclaimed-Shows (reclaims there.on_copy) (record s { buffers = moved })
              (offering there (drop n (v ∷ vs))) live (live, waits, rest);
        calls =
            append_assoc s.notices (copied there.on_copy ∷ [])
              (done me.on_copy_done copy_completed ∷ []);
      },
      filled.got ∙ ap (λ xs. xs ++ take n (v ∷ vs)) (sym d.got),
    )
