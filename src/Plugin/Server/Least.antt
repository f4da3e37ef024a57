-- ===== src/Plugin/Server/Least.antt =====
-- crates/go-plugin/src/server.rs: what is served where the host gives no list.
use pixi_ai.Common.{
  ℕ, ◌≤◌, ◌≡◌, ◌⊎◌, inl, inr, Bool-cases, refl, sym, ap, subst, ◌∙◌, Option, none, some, List, [],
  ◌∷◌, arith, leb,
}
use pixi_ai.Plugin.Protocol.Versions.{Offers}
use pixi_ai.Plugin.Server.{
  ServeConfig, keys, get, least, smaller, or_else, without_list, negotiate_server_version,
}
use pixi_ai.Plugin.Server.Highest.{get-keys, table-cases}

-- The smallest version, if there is one.
abbrev LeastOf : List ℕ → Option ℕ → Type 0
LeastOf vs none = (w : ℕ) → ¬ Offers vs w
LeastOf vs (some v) = Offers vs v × ((w : ℕ) → Offers vs w → v ≤ w)

least-LeastOf : (vs : List ℕ) → LeastOf vs (least vs)
unfolding least
least-LeastOf [] = λ w o. o
least-LeastOf (v ∷ vs) = go (least vs) (least-LeastOf vs)
  where
    go : (o : Option ℕ) → LeastOf vs o → LeastOf (v ∷ vs) (some (smaller v o))
    go none n = (inl refl, λ w o. elim o [ inl e ↦ ground arith | inr p ↦ absurd (n w p) ])
    go (some x) (a, b) = elim (Bool-cases (leb v x)) [
      | inl e ↦
          rw e (inl refl, λ w o. elim o [ inl k ↦ ground arith | inr p ↦ ground (arith, b w p) ])
      | inr e ↦ rw e (inr a, λ w o. elim o [ inl k ↦ ground arith | inr p ↦ b w p ])
    ]

module _ {S : Type 0} where
  -- What is served without a list.
  abbrev pub ServedAlone : ServeConfig S → ℕ × S → Type 0
  ServedAlone c (v, s) =
      (Offers (keys c.versioned_plugins) v
        × ((w : ℕ) → Offers (keys c.versioned_plugins) w → v ≤ w)
        × (get v c.versioned_plugins ≡ some s))
      ⊎ ((c.versioned_plugins ≡ []) × (v ≡ c.protocol_version) × (s ≡ c.plugins))

  alone :
      (default : S) (c : ServeConfig S) (v : ℕ)
      → Offers (keys c.versioned_plugins) v
      → (o : Option ℕ) → LeastOf (keys c.versioned_plugins) o
      → (let v = or_else c.protocol_version o in
          ServedAlone c (v, or_else default (get v c.versioned_plugins)))
  alone default c v p none n = absurd (n v p)
  alone default c v p (some x) (a, b) =
      let (s, g) = get-keys x c.versioned_plugins a in
      inl (a, b, g ∙ ap some (sym (ap (or_else default) g)))

  -- Where the host's list is not set, the plugin serves the least of its versions with its set for it, or,
  -- without any, the version of its handshake with its unversioned set.
  pub negotiate_server_version-ServedAlone :
      (default : S) (c : ServeConfig S) → ServedAlone c (negotiate_server_version default none c)
  unfolding negotiate_server_version
  negotiate_server_version-ServedAlone default c = elim (table-cases c.versioned_plugins) [
    | inl e ↦
        let served : negotiate_server_version default none c ≡ (c.protocol_version, c.plugins) =
          rw (e, negotiate_server_version) refl in
        subst (ServedAlone c) (sym served) (inr (e, refl, refl))
    | inr (entry, rest, e) ↦
        let served : negotiate_server_version default none c ≡ without_list default c =
          rw (e, negotiate_server_version)
            (ap (λ t. without_list default (record c { versioned_plugins = t })) e) in
        subst (ServedAlone c) (sym served) (
          alone default c entry.0 (subst (λ t. Offers (keys t) entry.0) (sym e) (inl refl))
            (least (keys c.versioned_plugins)) (least-LeastOf (keys c.versioned_plugins)))
  ]
