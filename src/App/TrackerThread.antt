-- ===== src/App/TrackerThread.antt =====
-- crates/app/src/tracker_thread.rs: frames to the tracker and results back, over channels that hold one.
-- The tracker is the argument `detect`, from a frame and the face-only mode to a result, if it succeeds. The
-- main thread and the worker take turns in any order: each call and each step of the worker is an event.
pub mod Order
use pixi_ai.Common.{Bool, true, false, Option, none, some, List, [], ◌∷◌}

-- What the two channels hold, and the frame that the worker has taken, with the mode that it read then.
pub record TrackerThread (F R : Type 0) : Type 0 where
  pub frame : Option F
  pub detecting : Option (F × Bool)
  pub result : Option R
  pub face_only : Bool

-- `try_send` on a channel that holds one; a full channel keeps what it has.
abbrev pub try_send : {A : Type 0} → A → Option A → Option A
try_send a none = some a
try_send a (some b) = some b

abbrev pub try_send_all : {A : Type 0} → Option A → Option A → Option A
try_send_all none o = o
try_send_all (some a) o = try_send a o

pub data Event (F : Type 0) : Type 0 where
  send_frame : F → Event F
  set_face_only : Bool → Event F
  try_recv_result recv detect_frame : Event F

abbrev pub received : {R : Type 0} → Option R → List R → List R
received none rs = rs
received (some r) rs = r ∷ rs

module _ {F R : Type 0} where
  abbrev pub new_with_mode : Bool → TrackerThread F R
  new_with_mode face_only_initial = record {
    frame = none;
    detecting = none;
    result = none;
    face_only = face_only_initial;
  }

  abbrev pub take_frame : TrackerThread F R → Option F → Option (F × Bool) → TrackerThread F R
  take_frame t (some f) none = record t { frame = none; detecting = some (f, t.face_only) }
  take_frame t o p = t

module _ {F R : Type 0} (detect : F → Bool → Option R) where
  abbrev pub finish : TrackerThread F R → Option (F × Bool) → TrackerThread F R
  finish t none = t
  finish t (some (f, face_only)) = record t {
    detecting = none;
    result = try_send_all (detect f face_only) t.result;
  }

  -- The state with the results that the main thread has got, the newest first.
  unfoldable pub step : TrackerThread F R × List R → Event F → TrackerThread F R × List R
  step (t, rs) (send_frame f) = (record t { frame = try_send f t.frame }, rs)
  step (t, rs) (set_face_only b) = (record t { face_only = b }, rs)
  step (t, rs) try_recv_result = (record t { result = none }, received t.result rs)
  step (t, rs) recv = (take_frame t t.frame t.detecting, rs)
  step (t, rs) detect_frame = (finish t t.detecting, rs)

  unfoldable pub run : TrackerThread F R × List R → List (Event F) → TrackerThread F R × List R
  unfolding step
  run s [] = s
  run s (e ∷ es) = run (step s e) es
