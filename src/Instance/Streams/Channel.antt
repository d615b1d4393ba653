-- ===== src/Instance/Streams/Channel.antt =====
-- What a stream promises: at most one side waits, with the values that it offers or with the room
-- that it has, and values pass from one side to the other in order.
use component_model.Prelude.{
  ℕ, zero, suc, ◌-◌, List, [], ◌∷◌, Bool, true, false, length, take, drop,
}
use component_model.Abi.Value.{Value}
use component_model.Instance.Streams.{
  copy_completed, copy_dropped, Notice, copied, done, Pending, smaller,
}

-- The flag of a reader that waits says that it never had any room.
pub data Channel : Type 0 where
  dropped idle : Channel
  offering : Pending → List Value → Channel
  asking : Pending → Bool → ℕ → Channel

-- The state after a call, the values that passed, and the callbacks that were called.
pub record Answer : Type 0 where
  pub channel : Channel
  pub passed : List Value
  pub called : List Notice

abbrev quiet : Channel → List Notice → Answer
quiet c called = record { channel = c; passed = []; called = called }

-- A side that reclaims its buffer when it is told of the copy waits no more.
abbrev pub unless_reclaimed : Bool → Channel → Channel
unless_reclaimed true c = idle
unless_reclaimed false c = c

-- A write of new values. A side that is through with its own call makes way.
abbrev pub offer : (ℕ → Bool) → Pending → List Value → Channel → Answer
offer reclaims me vs dropped = quiet dropped (done me.on_copy_done copy_dropped ∷ [])
offer reclaims me vs idle = quiet (offering me vs) []
offer reclaims me [] (asking there true zero) =
    quiet (asking there true zero) (done me.on_copy_done copy_completed ∷ [])
offer reclaims me vs (asking there empty zero) =
    quiet (offering me vs) (done there.on_copy_done copy_completed ∷ [])
offer reclaims me [] (asking there empty (suc room)) =
    quiet (asking there empty (suc room)) (done me.on_copy_done copy_completed ∷ [])
offer reclaims me (v ∷ vs) (asking there empty (suc room)) =
    let n = smaller (suc (length vs)) (suc room) in
    record {
      channel = unless_reclaimed (reclaims there.on_copy) (asking there empty (suc room - n));
      passed = take n (v ∷ vs);
      called = copied there.on_copy ∷ done me.on_copy_done copy_completed ∷ [];
    }
offer reclaims me vs (offering there others) = quiet (offering there others) []

-- A read into new room.
abbrev pub ask : (ℕ → Bool) → Pending → Bool → ℕ → Channel → Answer
ask reclaims me empty room dropped = quiet dropped (done me.on_copy_done copy_dropped ∷ [])
ask reclaims me empty room idle = quiet (asking me empty room) []
ask reclaims me empty room (offering there []) =
    quiet (asking me empty room) (done there.on_copy_done copy_completed ∷ [])
ask reclaims me empty zero (offering there (v ∷ vs)) =
    quiet (offering there (v ∷ vs)) (done me.on_copy_done copy_completed ∷ [])
ask reclaims me empty (suc room) (offering there (v ∷ vs)) =
    let n = smaller (suc room) (suc (length vs)) in
    record {
      channel = unless_reclaimed (reclaims there.on_copy) (offering there (drop n (v ∷ vs)));
      passed = take n (v ∷ vs);
      called = copied there.on_copy ∷ done me.on_copy_done copy_completed ∷ [];
    }
ask reclaims me empty room (asking there other more) = quiet (asking there other more) []
