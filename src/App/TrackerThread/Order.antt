-- ===== src/App/TrackerThread/Order.antt =====
-- crates/app/src/tracker_thread.rs: results come in the order of the frames.
use pixi_ai.Common.{
  ◌≡◌, refl, sym, subst, ◌⊎◌, inl, inr, Bool, Option, none, some, List, [], ◌∷◌, ◌++◌,
}
use pixi_ai.Common.Options.{Option-cases}
use pixi_ai.App.TrackerThread.{
  TrackerThread, Event, send_frame, set_face_only, try_recv_result, recv, detect_frame, try_send,
  try_send_all, take_frame, finish, received, step, run, new_with_mode,
}

module _ {F R : Type 0} (detect : F → Bool → Option R) where
  -- How frames that were sent, the newest first, go on: each is lost, on its way, or gave a result.
  pub data Line : List F → List (F ⊎ R) → Type 0 where
    start : Line [] []
    lost : {f : F} {fs : List F} {xs : List (F ⊎ R)} → Line fs xs → Line (f ∷ fs) xs
    waiting : {f : F} {fs : List F} {xs : List (F ⊎ R)} → Line fs xs → Line (f ∷ fs) (inl f ∷ xs)
    made :
        {f : F} {fs : List F} {xs : List (F ⊎ R)} (face_only : Bool) (r : R)
        → detect f face_only ≡ some r
        → Line fs xs
        → Line (f ∷ fs) (inr r ∷ xs)

  abbrev pub on_way : Option F → List (F ⊎ R)
  on_way none = []
  on_way (some f) = inl f ∷ []

  abbrev pub frame_of : Option (F × Bool) → Option F
  frame_of none = none
  frame_of (some (f, face_only)) = some f

  abbrev pub results : List R → List (F ⊎ R)
  results [] = []
  results (r ∷ rs) = inr r ∷ results rs

  -- What is in the channels, with the worker, and with the main thread; the newest first.
  abbrev pub items : TrackerThread F R × List R → List (F ⊎ R)
  items (t, rs) =
      on_way t.frame ++ (on_way (frame_of t.detecting) ++ results (received t.result rs))

  abbrev pub sent_by : Event F → List F
  sent_by (send_frame f) = f ∷ []
  sent_by e = []

  -- The frames that were sent, the newest first.
  abbrev pub sent : List F → List (Event F) → List F
  sent fs [] = fs
  sent fs (e ∷ es) = sent (sent_by e ++ fs) es

  lose_head : {f : F} {fs : List F} {xs : List (F ⊎ R)} → Line fs (inl f ∷ xs) → Line fs xs
  lose_head (lost l) = lost (lose_head l)
  lose_head (waiting l) = lost l

  -- A result that is not kept is lost.
  pub lose_result : {r : R} {fs : List F} {xs : List (F ⊎ R)} → Line fs (inr r ∷ xs) → Line fs xs
  lose_result (lost l) = lost (lose_result l)
  lose_result (made b r e l) = lost l

  make_head :
      {f : F} {fs : List F} {xs : List (F ⊎ R)} (b : Bool) (r : R)
      → detect f b ≡ some r
      → Line fs (inl f ∷ xs)
      → Line fs (inr r ∷ xs)
  make_head b r e (lost l) = lost (make_head b r e l)
  make_head b r e (waiting l) = made b r e l

  -- Behind a frame that waits in the channel the worker's frame changes alike.
  pub behind :
      (o : Option F) {xs ys : List (F ⊎ R)}
      → ((fs : List F) → Line fs xs → Line fs ys)
      → (fs : List F) → Line fs (on_way o ++ xs)
      → Line fs (on_way o ++ ys)
  behind none h fs l = h fs l
  behind (some g) h [] l = elim l [ ]
  behind (some g) h (f ∷ fs) (lost l) = lost (behind (some g) h fs l)
  behind (some g) h (f ∷ fs) (waiting l) = waiting (h fs l)

  send-Line :
      (o : Option F) (f : F) (xs : List (F ⊎ R)) {fs : List F}
      → Line fs (on_way o ++ xs)
      → Line (f ∷ fs) (on_way (try_send f o) ++ xs)
  send-Line none f xs l = waiting l
  send-Line (some g) f xs l = lost l

  take_frame-items :
      (t : TrackerThread F R) (rs : List R)
      → items (take_frame t t.frame t.detecting, rs) ≡ items (t, rs)
  take_frame-items t rs = elim (Option-cases t.frame) [
    | inl e ↦ rw (e) refl
    | inr (f, e) ↦ elim (Option-cases t.detecting) [
      | inl q ↦ rw (e, q) refl
      | inr ((g, b), q) ↦ rw (e, q) refl
    ]
  ]

  -- The worker's frame is lost, or its result goes to the channel if that is empty.
  finish-head :
      (f : F) (b : Bool) (o : Option R) (rs : List R) (d : Option R) {fs : List F}
      → detect f b ≡ d
      → Line fs (inl f ∷ results (received o rs))
      → Line fs (results (received (try_send_all d o) rs))
  finish-head f b o rs none e l = lose_head l
  finish-head f b none rs (some r) e l = make_head b r e l
  finish-head f b (some q) rs (some r) e l = lose_head l

  finish-Line :
      (t : TrackerThread F R) (rs : List R) (fs : List F) (o : Option (F × Bool))
      → t.detecting ≡ o
      → Line fs (on_way t.frame ++ (on_way (frame_of o) ++ results (received t.result rs)))
      → Line fs (items (finish detect t o, rs))
  finish-Line t rs fs none e l =
      subst
        (λ o. Line fs (on_way t.frame ++ (on_way (frame_of o) ++ results (received t.result rs))))
        (sym e) l
  finish-Line t rs fs (some (f, b)) e l =
      behind t.frame (λ gs k. finish-head f b t.result rs (detect f b) refl k) fs l

  pub step-Line :
      (s : TrackerThread F R × List R) (e : Event F) (fs : List F)
      → Line fs (items s)
      → Line (sent_by e ++ fs) (items (step detect s e))
  unfolding step
  step-Line (t, rs) (send_frame f) fs l =
      send-Line t.frame f (on_way (frame_of t.detecting) ++ results (received t.result rs)) l
  step-Line (t, rs) (set_face_only b) fs l = l
  step-Line (t, rs) try_recv_result fs l = l
  step-Line (t, rs) recv fs l = subst (Line fs) (sym (take_frame-items t rs)) l
  step-Line (t, rs) detect_frame fs l = finish-Line t rs fs t.detecting refl l

  run-Line :
      (es : List (Event F)) (s : TrackerThread F R × List R) (fs : List F)
      → Line fs (items s)
      → Line (sent fs es) (items (run detect s es))
  unfolding run
  run-Line [] s fs l = l
  run-Line (e ∷ es) s fs l = run-Line es (step detect s e) (sent_by e ++ fs) (step-Line s e fs l)

  -- However the main thread and the worker take turns, each result is that of a frame of its own, in the
  -- order in which the frames were sent; the other frames are lost or still on their way.
  run-Ordered :
      (face_only : Bool) (es : List (Event F))
      → Line (sent [] es) (items (run detect (new_with_mode face_only, []) es))
  run-Ordered face_only es = run-Line es (new_with_mode face_only, []) [] start
