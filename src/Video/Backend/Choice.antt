-- ===== src/Video/Backend/Choice.antt =====
-- The decoder that `create_session` chooses, branch by branch.
use pixi_ai.Common.{
  ◌≡◌, ◌⊎◌, inl, inr, Bool, true, false, Option, none, some, List, [], ◌∷◌, arith, All, Text,
  Bool-cases, refl, ◌∙◌, sym, subst, if-true, if-false,
}
use pixi_ai.Video.Types.{
  Backend, software, VideoError, file_not_found, no_hw_decoder, Result, ok, err, OutputTarget,
  SessionConfig, NativeHandle, metal, d3d12, d3d11, vulkan, wgpu,
}
use pixi_ai.Video.Backend.{
  Platform, detect_backends, has_arm, is_macos, create_with_backend, try_candidates, fallback,
  open_with, create_session,
}

Result-cases {ℓ} :
    {A : Type ℓ} (r : Result A) → ((a : A) × (r ≡ ok a)) ⊎ ((e : VideoError) × (r ≡ err e))
Result-cases (ok a) = inl (a, refl)
Result-cases (err e) = inr (e, refl)

module _ {ℓ} {Session : Type ℓ} (p : Platform) (exists : Text → Bool)
    (construct : Backend → Text → OutputTarget → SessionConfig → Result Session) where
  -- What making a session with one backend gives: what its constructor gives where the platform has an
  -- arm for it, and `NoHwDecoder` where not.
  abbrev pub Gives : Text → OutputTarget → SessionConfig → Backend → Result Session → Type ℓ
  Gives path output config b r =
      ((has_arm p b ≡ true) × (r ≡ construct b path output config))
      ⊎ ((has_arm p b ≡ false) × (r ≡ err no_hw_decoder))

  abbrev pub Fails : Text → OutputTarget → SessionConfig → Backend → Type ℓ
  Fails path output config b = (e : VideoError) × Gives path output config b (err e)

  -- The first backend that works after some that fail.
  pub data FirstOf (path : Text) (output : OutputTarget) (config : SessionConfig) (s : Session)
      : List Backend → Type ℓ where
    first :
        {b : Backend} {bs : List Backend}
        → Gives path output config b (ok s)
        → FirstOf path output config s (b ∷ bs)
    later :
        {b : Backend} {bs : List Backend}
        → Fails path output config b
        → FirstOf path output config s bs
        → FirstOf path output config s (b ∷ bs)

  create_with_backend-Gives :
      (path : Text) (output : OutputTarget) (config : SessionConfig) (b : Backend)
      → Gives path output config b (create_with_backend p exists construct path output config b)
  unfolding create_with_backend
  create_with_backend-Gives path output config b = elim (Bool-cases (has_arm p b)) [
    | inl here ↦ rw (here, create_with_backend) (inl (refl, refl))
    | inr lacking ↦ rw (lacking, create_with_backend) (inr (refl, refl))
  ]

  -- The software session where the fallback is allowed, and `NoHwDecoder` where not.
  abbrev pub FallsBack : Text → OutputTarget → SessionConfig → Result Session → Type ℓ
  FallsBack path output config r =
      ((config.allow_software_fallback ≡ true) × Gives path output config software r)
      ⊎ ((config.allow_software_fallback ≡ false) × (r ≡ err no_hw_decoder))

  fallback-FallsBack :
      (path : Text) (output : OutputTarget) (config : SessionConfig)
      → FallsBack path output config (fallback p exists construct path output config)
  fallback-FallsBack path output config = elim (Bool-cases config.allow_software_fallback) [
    | inl allowed ↦ inl (
      allowed,
      subst (Gives path output config software)
          (sym (if-true config.allow_software_fallback _ _ allowed))
          (create_with_backend-Gives path output config software),
    )
    | inr refused ↦ inr (refused, if-false config.allow_software_fallback _ _ refused)
  ]

  try_candidates_lem :
      (path : Text) (output : OutputTarget) (config : SessionConfig) (bs : List Backend)
      → ((s : Session) × (try_candidates p exists construct path output config bs ≡ ok s)
          × FirstOf path output config s bs)
        ⊎ (All (Fails path output config) bs
            × (try_candidates p exists construct path output config bs
                ≡ fallback p exists construct path output config))
  unfolding try_candidates
  try_candidates_lem path output config [] = inr (tt, refl)
  try_candidates_lem path output config (b ∷ bs) =
      elim (Result-cases (create_with_backend p exists construct path output config b)) [
        | inl (s, e) ↦
            let g =
              subst (Gives path output config b) e
                (create_with_backend-Gives path output config b) in
            rw (e, try_candidates) (inl (s, refl, first g))
        | inr (x, e) ↦
            let g =
              subst (Gives path output config b) e
                (create_with_backend-Gives path output config b) in
            rw (e, try_candidates)
              (elim (try_candidates_lem path output config bs) [
                | inl (s, f, l) ↦ inl (s, f, later (x, g) l)
                | inr (all, f) ↦ inr (((x, g), all), f)
              ])
      ]

  -- The preferred backend's answer; else the session of the first candidate that works; else, where
  -- every candidate fails, the software session or `NoHwDecoder`.
  abbrev pub Chosen : Text → OutputTarget → SessionConfig → Option Backend → Result Session → Type ℓ
  Chosen path output config preferred r =
      ((b : Backend) × (preferred ≡ some b) × Gives path output config b r)
      ⊎ ((s : Session) × (preferred ≡ none)
          × (r ≡ ok s)
          × FirstOf path output config s (detect_backends p output.native_handle))
      ⊎ ((preferred ≡ none)
          × All (Fails path output config) (detect_backends p output.native_handle)
          × FallsBack path output config r)

  open_with-Chosen :
      (path : Text) (output : OutputTarget) (config : SessionConfig) (preferred : Option Backend)
      → Chosen path output config preferred
          (open_with p exists construct path output config preferred)
  unfolding open_with
  open_with-Chosen path output config (some b) =
      inl (b, refl, create_with_backend-Gives path output config b)
  open_with-Chosen path output config none =
      elim (try_candidates_lem path output config (detect_backends p output.native_handle)) [
        | inl (s, f, l) ↦ inr (inl (s, refl, f, l))
        | inr (all, f) ↦ inr (
            inr (
              refl,
              all,
              subst (FallsBack path output config) (sym f) (fallback-FallsBack path output config),
            ))
      ]

  -- What `create_session` returns: the error for a missing file; what the preferred backend gives,
  -- if one is set; else the session of the first candidate that works; else, where every candidate
  -- fails, the software session if the fallback is allowed and `NoHwDecoder` if not.
  pub create_session_lem :
      (path : Text) (output : OutputTarget) (config : SessionConfig)
      → let r = create_session p exists construct path output config in
        ((exists path ≡ false) × (r ≡ err file_not_found))
        ⊎ ((exists path ≡ true) × Chosen path output config config.preferred_backend r)
  unfolding create_session
  create_session_lem path output config = elim (Bool-cases (exists path)) [
    | inl there ↦
        rw there (inr (refl, open_with-Chosen path output config config.preferred_backend))
    | inr gone ↦ rw gone (inl (refl, refl))
  ]

  -- An existing file always opens where no backend is preferred, the fallback is allowed and the
  -- software session can be made.
  pub create_session-ok :
      (path : Text) (output : OutputTarget) (config : SessionConfig) (fine : Session)
      → exists path ≡ true
      → config.preferred_backend ≡ none
      → config.allow_software_fallback ≡ true
      → construct software path output config ≡ ok fine
      → (s : Session) × (create_session p exists construct path output config ≡ ok s)
  unfolding create_session create_with_backend open_with
  create_session-ok path output config fine there free allowed works =
      rw there (opens config.preferred_backend free)
    where
      opens :
          (o : Option Backend)
          → o ≡ none
          → (s : Session) × (open_with p exists construct path output config o ≡ ok s)
      opens (some b) e = absurd (cc)
      opens none e =
          elim (try_candidates_lem path output config (detect_backends p output.native_handle)) [
            | inl (s, f, _) ↦ (s, f)
            | inr (_, f) ↦ (fine, f ∙ ground arith)
          ]

-- Every backend that detection proposes has an arm on the platform, but for VideoToolbox, which is
-- proposed for a Metal handle on every system.
pub detect_backends-has_arm :
    (p : Platform) (h : NativeHandle)
    → All
        (λ b. (has_arm p b ≡ true) ⊎ ((h ≡ metal) × (is_macos p.system ≡ false)))
        (detect_backends p h)
unfolding detect_backends has_arm
detect_backends-has_arm p metal = ground arith
detect_backends-has_arm p d3d12 = ground arith
detect_backends-has_arm p d3d11 = ground arith
detect_backends-has_arm p vulkan = ground arith
detect_backends-has_arm p wgpu = ground arith
