-- ===== src/App/Frame/Running.antt =====
-- crates/app/src/update.rs with tracker_thread.rs: the results that frames take, over any run.
use pixi_ai.Common.{
  ◌≡◌, refl, sym, ap, subst, ◌∙◌, inl, inr, Bool, true, false, Bool-cases, Option, none, some, List,
  [], ◌∷◌, ◌++◌, ltb, if◌then◌else◌, if-true, if-false, if-both, ◌||◌,
}
use mathlib.Core.Option.{some-injective}
use pixi_ai.Common.Options.{◌>>=◌}
use pixi_ai.Vrm.AnimationPlayer.{AnimationPlayer}
use pixi_ai.App.AutoBlink.{Floats, duration_since}
use pixi_ai.App.Rig.{apply_rig_to_model}
use pixi_ai.App.Rig.Types.{Rigging}
use pixi_ai.App.TrackerThread
use pixi_ai.App.TrackerThread.{TrackerThread, Event, send_frame, new_with_mode, try_recv_result}
use pixi_ai.App.TrackerThread.Order.{
  Line, start, results, items, frame_of, behind, step-Line, lose_result,
}
use pixi_ai.App.Frame.{
  VideoInfo, HolisticResult, Solvers, FrameState, FrameInput, target_frame_duration, is_some,
  is_auto, newer, solve, track, blink_step, advance, apply_step, due_frame, update_frame,
  toggle_tracking, toggle_idle, toggle_idle_of,
}
use pixi_ai.App.Frame.Toggles.{blink_keeps}

-- The newest of a list that begins with it.
abbrev pub newest : {A : Type 0} → List A → Option A
newest [] = none
newest (x ∷ xs) = some x

-- What a frame keeps of what it receives: nothing while tracking is off.
abbrev kept : {A : Type 0} → Bool → Option A → List A → List A
kept enabled none rs = rs
kept enabled (some r) rs = if enabled then r ∷ rs else rs

-- What waits in a channel that holds one.
abbrev pub waiting : {A : Type 0} → Option A → List A
waiting none = []
waiting (some x) = x ∷ []

kept-waiting :
    {A : Type 0} (b : Bool) (o : Option A) (rs : List A)
    → kept b o rs ≡ (if b then waiting o else []) ++ rs
kept-waiting true none rs = refl
kept-waiting false none rs = refl
kept-waiting true (some r) rs = refl
kept-waiting false (some r) rs = refl

newest-kept :
    {A : Type 0} (b : Bool) (o old : Option A) (rs : List A)
    → old ≡ newest rs
    → newer b o old ≡ newest (kept b o rs)
newest-kept b none old rs e = e
newest-kept true (some r) old rs e = refl
newest-kept false (some r) old rs e = e

-- What a step that may panic returns looks like its start.
bind_keeps :
    {A B X : Type 0} (look : B → X) (c : Bool) (o : Option A) (k : A → B) (x : B) {y : B}
    → ((a : A) → look (k a) ≡ look x)
    → (if c then (o >>= λ a. some (k a)) else some x) ≡ some y
    → look y ≡ look x
bind_keeps look true none k x same e = absurd (cc e)
bind_keeps look true (some a) k x {y} same e = sym (ap look (some-injective (k a) y e)) ∙ same a
bind_keeps look false o k x {y} same e = sym (ap look (some-injective x y e))

module _ {F V Q M I L : Type 0} where
  -- The tracker's thread and the last result of a state.
  abbrev pub tracked_of :
      FrameState F V Q M I L
      → TrackerThread (I × VideoInfo) (HolisticResult L) × Option (HolisticResult L)
  tracked_of s = (s.tracker_thread, s.last_tracking_result)

  -- The result that the frame takes: the one that waits, if the frame is due and tracking is on.
  abbrev pub taken_in : FrameInput I → FrameState F V Q M I L → List (HolisticResult L)
  taken_in i s =
      if ltb (duration_since i.now s.last_frame_time) target_frame_duration
      then []
      else (if s.tracking_enabled then waiting s.tracker_thread.result else [])

  -- The frame that goes to the tracker, if the frame is due and tracking is on.
  abbrev pub sent_in : FrameInput I → FrameState F V Q M I L → List (I × VideoInfo)
  sent_in i s =
      if ltb (duration_since i.now s.last_frame_time) target_frame_duration
      then []
      else (if s.tracking_enabled then (i.frame, i.video) ∷ [] else [])

module _ {I L : Type 0} (detect : I × VideoInfo → Bool → Option (HolisticResult L)) where
  abbrev pub work :
      {F V Q M : Type 0} → Event (I × VideoInfo) → FrameState F V Q M I L → FrameState F V Q M I L
  work e s = record s { tracker_thread = (TrackerThread.step detect (s.tracker_thread, []) e).0 }

  -- The results `rs`, the newest first, are those of frames that were sent, and the last is the newest.
  abbrev pub InOrder :
      List (I × VideoInfo)
      → List (HolisticResult L)
      → TrackerThread (I × VideoInfo) (HolisticResult L) × Option (HolisticResult L)
      → Type 0
  InOrder fs rs (t, last) = Line detect fs (items detect (t, rs)) × (last ≡ newest rs)

module _ {F V Q M I L : Type 0} (r : Rigging F V Q M) (fl : Floats F) (so : Solvers F L)
    (detect : I × VideoInfo → Bool → Option (HolisticResult L)) where
  -- The states of the application, with the frames sent to the tracker and the results that frames took
  -- from it, the newest first: frames, the worker's steps and the keys in any order.
  pub data Reached
      : FrameState F V Q M I L → List (I × VideoInfo) → List (HolisticResult L) → Type 0 where
    started :
        {s : FrameState F V Q M I L} (face_only : Bool)
        → s.tracker_thread ≡ new_with_mode face_only
        → s.last_tracking_result ≡ none
        → Reached s [] []
    framed :
        {s t : FrameState F V Q M I L} {fs : List (I × VideoInfo)} {rs : List (HolisticResult L)}
        (i : FrameInput I)
        → update_frame r fl so detect i s ≡ some t
        → Reached s fs rs
        → Reached t (sent_in i s ++ fs) (taken_in i s ++ rs)
    received :
        {s : FrameState F V Q M I L} {fs : List (I × VideoInfo)} {rs : List (HolisticResult L)}
        → Reached s fs rs
        → Reached (work detect TrackerThread.recv s) fs rs
    detected :
        {s : FrameState F V Q M I L} {fs : List (I × VideoInfo)} {rs : List (HolisticResult L)}
        → Reached s fs rs
        → Reached (work detect TrackerThread.detect_frame s) fs rs
    tracking_toggled :
        {s : FrameState F V Q M I L} {fs : List (I × VideoInfo)} {rs : List (HolisticResult L)}
        → Reached s fs rs
        → Reached (toggle_tracking r.f s) fs rs
    idle_toggled :
        {s : FrameState F V Q M I L} {fs : List (I × VideoInfo)} {rs : List (HolisticResult L)}
        → Reached s fs rs
        → Reached (toggle_idle r.f s) fs rs

  apply_step_keeps :
      (changed : Bool) (x : FrameState F V Q M I L) {y : FrameState F V Q M I L}
      → apply_step r fl so detect changed x ≡ some y
      → tracked_of y ≡ tracked_of x
  apply_step_keeps changed x e =
      bind_keeps tracked_of (changed || x.rig_dirty || is_some (x.target).idle_animation)
        (apply_rig_to_model r x.target) (λ t. record x { target = t; rig_dirty = false }) x
        (λ t. refl) e

  due_frame-tracked :
      (i : FrameInput I) (x : FrameState F V Q M I L) {y : FrameState F V Q M I L}
      → due_frame r fl so detect i x ≡ some y
      → tracked_of y ≡ tracked_of (track r fl so detect i x)
  unfolding due_frame
  due_frame-tracked i x e =
      let dt = fl.as_secs_f32 (duration_since i.now x.last_frame_time) in
      let s1 = track r fl so detect i (record x { last_frame_time = i.now }) in
      let solved = solve so i.video s1.last_tracking_result (s1.target).rig in
      let y : FrameState F V Q M I L = record s1 {
        target = record (s1.target) { rig = solved.0 };
      } in
      let s2 = blink_step r fl so detect i y in
      apply_step_keeps (solved.1 || is_auto (s2.target).blink_mode)
        (record s2 {
          target = record (s2.target) {
            idle_animation = advance r fl so detect dt (s2.target).idle_animation;
          };
        })
        e
      ∙ blink_keeps r fl so detect tracked_of i y (λ b v. refl)

  -- A result that is received is kept or lost.
  kept-Line :
      (b : Bool) (o : Option (HolisticResult L)) (rs : List (HolisticResult L))
      (fs : List (I × VideoInfo))
      → Line detect fs (results detect (TrackerThread.received o rs))
      → Line detect fs (results detect (kept b o rs))
  kept-Line b none rs fs l = l
  kept-Line true (some x) rs fs l = l
  kept-Line false (some x) rs fs l = lose_result detect l

  take-Line :
      (b : Bool) (t : TrackerThread (I × VideoInfo) (HolisticResult L))
      (rs : List (HolisticResult L)) (fs : List (I × VideoInfo))
      → Line detect fs (items detect (t, rs))
      → Line detect fs (items detect (record t { result = none }, kept b t.result rs))
  take-Line b t rs fs l =
      behind detect t.frame
        (λ gs k.
          behind detect (frame_of detect t.detecting) (λ hs m. kept-Line b t.result rs hs m) gs k)
        fs l

  sent-Line :
      (b : Bool) (f : I × VideoInfo) (t : TrackerThread (I × VideoInfo) (HolisticResult L))
      (rs : List (HolisticResult L)) (fs : List (I × VideoInfo))
      → Line detect fs (items detect (t, rs))
      → Line detect ((if b then f ∷ [] else []) ++ fs) (
          items detect
            ((if b then (TrackerThread.step detect (t, []) (send_frame f)).0 else t), rs))
  unfolding TrackerThread.step
  sent-Line true f t rs fs l = step-Line detect (t, rs) (send_frame f) fs l
  sent-Line false f t rs fs l = l

  sent-result :
      (b : Bool) (f : I × VideoInfo) (t : TrackerThread (I × VideoInfo) (HolisticResult L))
      → (if b then (TrackerThread.step detect (t, []) (send_frame f)).0 else t).result ≡ t.result
  unfolding TrackerThread.step
  sent-result true f t = refl
  sent-result false f t = refl

  track-InOrder :
      (i : FrameInput I) (s : FrameState F V Q M I L) (fs : List (I × VideoInfo))
      (rs : List (HolisticResult L))
      → InOrder detect fs rs (tracked_of s)
      → InOrder detect
          ((if s.tracking_enabled then (i.frame, i.video) ∷ [] else []) ++ fs)
          ((if s.tracking_enabled then waiting s.tracker_thread.result else []) ++ rs)
          (tracked_of (track r fl so detect i s))
  unfolding TrackerThread.step
  track-InOrder i s fs rs (l, e) =
      let b = s.tracking_enabled in
      let t0 = s.tracker_thread in
      let gs = (if b then (i.frame, i.video) ∷ [] else []) ++ fs in
      let sent : TrackerThread (I × VideoInfo) (HolisticResult L) =
        if b then (TrackerThread.step detect (t0, []) (send_frame (i.frame, i.video))).0 else t0 in
      subst (λ qs. InOrder detect gs qs (tracked_of (track r fl so detect i s)))
        (kept-waiting b sent.result rs
          ∙ ap (λ o. (if b then waiting o else []) ++ rs) (sent-result b (i.frame, i.video) t0))
        (
          take-Line b sent rs gs (sent-Line b (i.frame, i.video) t0 rs fs l),
          newest-kept b sent.result s.last_tracking_result rs e,
        )

  frame-InOrder :
      (i : FrameInput I) (s : FrameState F V Q M I L) (fs : List (I × VideoInfo))
      (rs : List (HolisticResult L)) {t : FrameState F V Q M I L}
      → update_frame r fl so detect i s ≡ some t
      → InOrder detect fs rs (tracked_of s)
      → InOrder detect (sent_in i s ++ fs) (taken_in i s ++ rs) (tracked_of t)
  unfolding update_frame
  frame-InOrder i s fs rs {t} e h =
      let skipped = ltb (duration_since i.now s.last_frame_time) target_frame_duration in
      elim (Bool-cases skipped) [
        | inl k ↦
            subst (λ gs. InOrder detect (gs ++ fs) (taken_in i s ++ rs) (tracked_of t))
              (sym (if-true skipped _ _ k))
              (subst (λ qs. InOrder detect fs (qs ++ rs) (tracked_of t))
                (sym (if-true skipped _ _ k))
                (subst (λ (x : FrameState F V Q M I L). InOrder detect fs rs (tracked_of x))
                  (some-injective s t (sym (if-true skipped _ _ k) ∙ e)) h))
        | inr k ↦
            subst (λ gs. InOrder detect (gs ++ fs) (taken_in i s ++ rs) (tracked_of t))
              (sym (if-false skipped _ _ k))
              (subst
                (λ qs.
                  InOrder detect
                    ((if s.tracking_enabled then (i.frame, i.video) ∷ [] else []) ++ fs) (qs ++ rs)
                    (tracked_of t))
                (sym (if-false skipped _ _ k))
                (subst
                  (InOrder detect
                    ((if s.tracking_enabled then (i.frame, i.video) ∷ [] else []) ++ fs)
                    ((if s.tracking_enabled then waiting s.tracker_thread.result else []) ++ rs))
                  (sym (due_frame-tracked i s (sym (if-false skipped _ _ k) ∙ e)))
                  (track-InOrder i s fs rs h)))
      ]

  toggle_tracking_keeps :
      (s : FrameState F V Q M I L) → tracked_of (toggle_tracking r.f s) ≡ tracked_of s
  unfolding toggle_tracking
  toggle_tracking_keeps s =
      if-both (λ (x : FrameState F V Q M I L). tracked_of x ≡ tracked_of s) s.tracking_enabled refl
        refl

  toggle_idle_of_keeps :
      (o : Option (AnimationPlayer F Q)) (s : FrameState F V Q M I L)
      → tracked_of (toggle_idle_of r.f o s) ≡ tracked_of s
  toggle_idle_of_keeps none s = refl
  toggle_idle_of_keeps (some anim) s =
      if-both (λ (x : FrameState F V Q M I L). tracked_of x ≡ tracked_of s) anim.enabled refl refl

  toggle_idle_keeps : (s : FrameState F V Q M I L) → tracked_of (toggle_idle r.f s) ≡ tracked_of s
  unfolding toggle_idle
  toggle_idle_keeps s = toggle_idle_of_keeps (s.target).idle_animation s

  -- However frames, the worker and the keys T and I take turns from the start, the results that frames
  -- took, each frame that is due while tracking is on the one that waits, are those of different frames
  -- sent while tracking was on, in their order; and the last tracking result is the newest of them.
  pub Reached-InOrder :
      (s : FrameState F V Q M I L) (fs : List (I × VideoInfo)) (rs : List (HolisticResult L))
      → Reached s fs rs
      → InOrder detect fs rs (tracked_of s)
  unfolding TrackerThread.step
  Reached-InOrder s fs rs (started face_only e none_yet) =
      (subst (λ t. Line detect [] (items detect (t, []))) (sym e) start, none_yet)
  Reached-InOrder s fs rs (framed {s = a} {fs = gs} {rs = qs} i e h) =
      frame-InOrder i a gs qs e (Reached-InOrder a gs qs h)
  Reached-InOrder s fs rs (received {s = a} h) =
      let (l, q) = Reached-InOrder a fs rs h in
      (step-Line detect (a.tracker_thread, rs) TrackerThread.recv fs l, q)
  Reached-InOrder s fs rs (detected {s = a} h) =
      let (l, q) = Reached-InOrder a fs rs h in
      (step-Line detect (a.tracker_thread, rs) TrackerThread.detect_frame fs l, q)
  Reached-InOrder s fs rs (tracking_toggled {s = a} h) =
      subst (InOrder detect fs rs) (sym (toggle_tracking_keeps a)) (Reached-InOrder a fs rs h)
  Reached-InOrder s fs rs (idle_toggled {s = a} h) =
      subst (InOrder detect fs rs) (sym (toggle_idle_keeps a)) (Reached-InOrder a fs rs h)
