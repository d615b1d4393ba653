-- ===== src/Instance/Streams/Futures.antt =====
-- internal/instance/stream.go: `sharedFuture`, the rendezvous that passes one value. Its callbacks
-- and buffers are those of a stream.
use component_model.Prelude.{
  ℕ, ◌≡◌, ◌≢◌, ◌∙◌, refl, arith, List, [], ◌∷◌, ◌++◌, Bool, true, false, Option, none, some,
  if◌then◌else◌, Result, ok, err, ◌>>=◌,
}
use mathlib.Core.List.{append_assoc}
use component_model.Abi.Value.{Value}
use component_model.Instance.Streams.{
  HostBuffer, CopyError, panics, intra_component, CopyResult, copy_completed, copy_dropped,
  copy_cancelled, Notice, done, copy_elements, is_intra,
}
use component_model.Instance.Streams.Refine.{IsSource, IsDestination, copy_elements-moves}

pub record FuturePending : Type 0 where
  pub inst : Option ℕ
  pub buffer : ℕ
  pub on_copy_done : ℕ

pub record SharedFuture : Type 0 where
  pub numeric : Bool
  pub dropped : Bool
  pub pending : Option FuturePending
  pub buffers : ℕ → HostBuffer
  pub notices : List Notice

abbrev pub Settled : Type 0
Settled = Result CopyError SharedFuture

-- What an `onCopyDone` does to the future. Its code is not part of this file.
abbrev pub FutureCallbacks : Type 0
FutureCallbacks = ℕ → CopyResult → SharedFuture → Settled

module _ (call : FutureCallbacks) where
  -- A call of a callback, to its end.
  unfoldable pub tell : ℕ → CopyResult → SharedFuture → Settled
  tell k result f = call k result (record f { notices = f.notices ++ done k result ∷ [] })

  unfoldable pub settle_pending : CopyResult → SharedFuture → Settled
  unfolding tell
  settle_pending result f = elim f.pending [
    | none ↦ err panics
    | some p ↦ tell p.on_copy_done result (record f { pending = none })
  ]

  unfoldable pub cancel_future : SharedFuture → Settled
  unfolding settle_pending
  cancel_future f = settle_pending copy_cancelled f

  unfoldable pub drop_future : SharedFuture → Settled
  unfolding settle_pending
  drop_future f = if f.dropped then ok f else elim f.pending [
    | none ↦ ok (record f { dropped = true })
    | some p ↦ settle_pending copy_dropped (record f { dropped = true })
  ]

  -- The copy of the one value, and the two calls after it.
  unfoldable pub exchange : FuturePending → FuturePending → ℕ → ℕ → SharedFuture → Settled
  unfolding is_intra copy_elements settle_pending tell
  exchange me p dst src f =
      if is_intra me.inst p.inst f.numeric
      then err intra_component
      else (copy_elements dst src 1 f.buffers >>= λ moved.
          settle_pending copy_completed (record f { buffers = moved }) >>= λ settled.
          tell me.on_copy_done copy_completed settled)

  unfoldable pub read_future : FuturePending → SharedFuture → Settled
  unfolding exchange
  read_future me f = if f.dropped then err panics else elim f.pending [
    | none ↦ ok (record f { pending = some me })
    | some p ↦ exchange me p me.buffer p.buffer f
  ]

  unfoldable pub write_future : FuturePending → SharedFuture → Settled
  unfolding exchange tell
  write_future me f = if f.dropped then tell me.on_copy_done copy_dropped f else elim f.pending [
    | none ↦ ok (record f { pending = some me })
    | some p ↦ exchange me p p.buffer me.buffer f
  ]

-- Callbacks that leave the future alone.
abbrev pub leaves_alone : FutureCallbacks
leaves_alone k result f = ok f

is_intra-sym : (a b : Option ℕ) (numeric : Bool) → is_intra a b numeric ≡ is_intra b a numeric
unfolding is_intra
is_intra-sym a b numeric = ground arith

-- A reader and a writer of one value that meet at a future of host buffers that is not dropped and at
-- which nobody waits, in either order, with callbacks that leave the future alone: unless it is a copy
-- within one guest of an element that is no number, no step fails, the value is with the reader,
-- nobody waits any more, and both are told that they are through, the one that came first before the
-- other.
pub future-passes :
    (reader writer : FuturePending) (f : SharedFuture) (got : List Value) (v : Value)
    → is_intra reader.inst writer.inst f.numeric ≡ false
    → f.dropped ≡ false
    → f.pending ≡ none
    → reader.buffer ≢ writer.buffer
    → IsDestination (f.buffers reader.buffer) got 1
    → IsSource (f.buffers writer.buffer) (v ∷ [])
    → ((after : SharedFuture) × ((read_future leaves_alone reader f >>= λ waiting.
            write_future leaves_alone writer waiting)
          ≡ ok after)
        × (after.pending ≡ none)
        × IsDestination (after.buffers reader.buffer) (got ++ v ∷ []) 0
        × (after.notices
            ≡ f.notices
              ++ done reader.on_copy_done copy_completed
                ∷ done writer.on_copy_done copy_completed
                ∷ []))
      × ((after : SharedFuture) × ((write_future leaves_alone writer f >>= λ waiting.
              read_future leaves_alone reader waiting)
            ≡ ok after)
          × (after.pending ≡ none)
          × IsDestination (after.buffers reader.buffer) (got ++ v ∷ []) 0
          × (after.notices
              ≡ f.notices
                ++ done writer.on_copy_done copy_completed
                  ∷ done reader.on_copy_done copy_completed
                  ∷ []))
unfolding read_future write_future exchange settle_pending tell
future-passes reader writer f got v apart live free distinct d src =
    let (moved, e, filled, rest, kept) =
      copy_elements-moves reader.buffer writer.buffer 1 1 f.buffers got (v ∷ []) distinct d src
        (omega arith) (omega arith) in
    let apart' = is_intra-sym writer.inst reader.inst f.numeric ∙ apart in
    (
      (
        record f {
          pending = none;
          buffers = moved;
          notices =
              (f.notices ++ done reader.on_copy_done copy_completed ∷ [])
              ++ done writer.on_copy_done copy_completed ∷ [];
        },
        simp (live, free, apart', e),
        refl,
        filled,
        append_assoc f.notices (done reader.on_copy_done copy_completed ∷ [])
            (done writer.on_copy_done copy_completed ∷ []),
      ),
      (
        record f {
          pending = none;
          buffers = moved;
          notices =
              (f.notices ++ done writer.on_copy_done copy_completed ∷ [])
              ++ done reader.on_copy_done copy_completed ∷ [];
        },
        simp (live, free, apart, e),
        refl,
        filled,
        append_assoc f.notices (done writer.on_copy_done copy_completed ∷ [])
            (done reader.on_copy_done copy_completed ∷ []),
      ),
    )
