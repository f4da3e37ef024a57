-- ===== src/App/FrameTests.antt =====
-- The theorems about update_frame of crates/app/src/update.rs and the keys of app.rs at concrete inputs.
use pixi_ai.Common.{ℕ, ◌≡◌, refl, Option, none, some, List, [], ◌∷◌, ◌==◌, Bool, true, false}
use pixi_ai.Vrm.BoneName.{hips}
use pixi_ai.Vrm.AnimationPlayer.{update, sample, binary_search, bisect}
use pixi_ai.Vrm.Tests.{thousandths, nodes}
use pixi_ai.App.Tests
use pixi_ai.App.Tests.{waiting}
use pixi_ai.App.TrackerThread.{new_with_mode}
use pixi_ai.App.Rig.{apply_rig_to_model}
use pixi_ai.App.Frame.{
  VideoInfo, HolisticResult, Solvers, FrameState, FrameInput, update_frame, toggle_tracking,
}
use pixi_ai.App.TrackerThread.{recv, detect_frame, step}
use pixi_ai.App.Frame.{due_frame}
use pixi_ai.App.Frame.Running.{
  work, Reached, started, framed, received, detected, tracking_toggled, InOrder, tracked_of,
  Reached-InOrder,
}
use pixi_ai.App.Frame.Toggles.{face_after, toggle_tracking-stale}
use pixi_ai.App.RigTests.{rigging, angles, looking, seen}

-- The face of a result is looked at, and nothing else of it.
abbrev solvers : Solvers ℕ ℕ
solvers = record {
  face = λ l video. record looking { brow = l };
  pose = λ l l2 video. record {
    hips = record { rotation = angles; position = angles };
    spine = angles;
    chest = angles;
    right_upper_arm = angles;
    right_lower_arm = angles;
    left_upper_arm = angles;
    left_lower_arm = angles;
    right_upper_leg = angles;
    right_lower_leg = angles;
    left_upper_leg = angles;
    left_lower_leg = angles;
    left_hand = angles;
    right_hand = angles;
  };
  hand = λ l side. record {
    wrist = angles;
    thumb_proximal = angles;
    thumb_intermediate = angles;
    thumb_distal = angles;
    index_proximal = angles;
    index_intermediate = angles;
    index_distal = angles;
    middle_proximal = angles;
    middle_intermediate = angles;
    middle_distal = angles;
    ring_proximal = angles;
    ring_intermediate = angles;
    ring_distal = angles;
    little_proximal = angles;
    little_intermediate = angles;
    little_distal = angles;
  };
  is_empty = λ l. l == 0;
  centred = 5;
}

abbrev result : HolisticResult ℕ
result = record {
  face_landmarks = some 6;
  pose_landmarks_3d = none;
  pose_landmarks_2d = none;
  left_hand_landmarks = none;
  right_hand_landmarks = none;
}

-- Tracking is on, and the last result had a face.
abbrev state : FrameState ℕ ℕ ℕ (List ℕ) ℕ ℕ
state = record {
  last_frame_time = 0;
  last_camera_frame = none;
  tracking_enabled = true;
  tracker_thread = new_with_mode false;
  last_tracking_result = some result;
  target = seen;
  node_transforms = nodes;
  auto_blink = waiting;
  rig_dirty = false;
}

abbrev camera : VideoInfo
camera = record { width = 640; height = 480 }

abbrev frame : FrameInput ℕ
frame = record { now = 1_000_000_000; later = 1_000_000_000; frame = 77; video = camera }

abbrev no_results : ℕ × VideoInfo → Bool → Option (HolisticResult ℕ)
no_results f face_only = none

toggle_tracking-stale_example :
    ((toggle_tracking thousandths state).target.rig.face ≡ none)
    × (face_after (
          update_frame rigging Tests.thousandths solvers no_results frame
            (toggle_tracking thousandths state))
        ≡ some (some (record looking { brow = 6 })))
unfolding update sample binary_search bisect
toggle_tracking-stale_example =
    toggle_tracking-stale rigging Tests.thousandths solvers no_results frame state result 6
      (some ((hips, 23) ∷ [])) refl refl refl refl refl

abbrev finds : ℕ × VideoInfo → Bool → Option (HolisticResult ℕ)
finds f face_only = some (record result { face_landmarks = some f.0 })

abbrev Application : Type 0
Application = FrameState ℕ ℕ ℕ (List ℕ) ℕ ℕ

abbrev fresh : Application
fresh = record state { last_tracking_result = none; target = record seen { idle_animation = none } }

abbrev or_else : Application → Option Application → Application
or_else s none = s
or_else s (some t) = t

abbrev later_frame : FrameInput ℕ
later_frame = record frame { now = 2_000_000_000; frame = 78 }

abbrev next : FrameInput ℕ → Application → Application
next i s = or_else s (update_frame rigging Tests.thousandths solvers finds i s)

abbrev worked : Application
worked = work finds detect_frame (work finds recv (next frame fresh))

second_takes : (next later_frame worked).last_tracking_result ≡ finds (77, camera) false
unfolding update_frame due_frame apply_rig_to_model step
second_takes = refl

-- A frame, the worker's result of it, a second frame that takes it, and then key T.
two_frames :
    Reached rigging Tests.thousandths solvers finds
      (toggle_tracking thousandths (next later_frame worked))
      ((78, camera) ∷ (77, camera) ∷ [])
      (record result { face_landmarks = some 77 } ∷ [])
unfolding update_frame due_frame apply_rig_to_model step
two_frames = tracking_toggled (
    framed {s = worked} later_frame refl (
      detected {s = work finds recv (next frame fresh)} (
        received {s = next frame fresh} (framed {s = fresh} frame refl (started false refl refl)))))

Reached-InOrder_example :
    InOrder finds
      ((78, camera) ∷ (77, camera) ∷ [])
      (record result { face_landmarks = some 77 } ∷ [])
      (tracked_of (toggle_tracking thousandths (next later_frame worked)))
Reached-InOrder_example =
    Reached-InOrder rigging Tests.thousandths solvers finds
      (toggle_tracking thousandths (next later_frame worked)) ((78, camera) ∷ (77, camera) ∷ [])
      (record result { face_landmarks = some 77 } ∷ []) two_frames
