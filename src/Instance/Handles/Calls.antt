-- ===== src/Instance/Handles/Calls.antt =====
-- internal/instance/resource.go: the calls that change a handle table, and a history of them.
use component_model.Prelude.{ℕ, List, [], ◌∷◌}
use component_model.Instance.Handles.{
  TableEntry, HandleTable, add_entry, new_own, new_borrow, new_borrow_scoped, remove_entry,
  register_dtor, register_host_dtor,
}
use component_model.Instance.Handles.Ops.{
  take_own, drop, drop_owned, lend, unlend, Callbacks, drop_owned_with_dtor, close,
}

pub data Call : Type 0 where
  calls_new_own calls_new_borrow : ℕ → ℕ → Call
  calls_new_borrow_scoped : ℕ → ℕ → ℕ → Call
  calls_add_entry : TableEntry → Call
  calls_remove_entry calls_drop_owned calls_drop_owned_with_dtor : ℕ → Call
  calls_take_own calls_drop calls_lend calls_unlend : ℕ → ℕ → Call
  calls_register_dtor calls_register_host_dtor : ℕ → ℕ → Call
  calls_close : Call

module _ (call : Callbacks) where
  -- The table after the call; the answer is for the caller.
  unfoldable pub step : Call → HandleTable → HandleTable
  step (calls_new_own type_idx rep) t = (new_own type_idx rep t).1
  step (calls_new_borrow type_idx rep) t = (new_borrow type_idx rep t).1
  step (calls_new_borrow_scoped type_idx rep scope) t = (new_borrow_scoped type_idx rep scope t).1
  step (calls_add_entry e) t = (add_entry e t).1
  step (calls_remove_entry h) t = (remove_entry h t).1
  step (calls_drop_owned h) t = (drop_owned h t).1
  step (calls_drop_owned_with_dtor h) t = (drop_owned_with_dtor call h t).1
  step (calls_take_own type_idx h) t = (take_own type_idx h t).1
  step (calls_drop type_idx h) t = (drop type_idx h t).1
  step (calls_lend type_idx h) t = (lend type_idx h t).1
  step (calls_unlend type_idx h) t = (unlend type_idx h t).1
  step (calls_register_dtor type_idx dtor) t = register_dtor type_idx dtor t
  step (calls_register_host_dtor type_idx dtor) t = register_host_dtor type_idx dtor t
  step calls_close t = (close call t).1

  unfoldable pub run : List Call → HandleTable → HandleTable
  run [] t = t
  run (c ∷ cs) t = run cs (step c t)
