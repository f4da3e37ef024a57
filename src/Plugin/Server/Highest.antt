-- ===== src/Plugin/Server/Highest.antt =====
-- crates/go-plugin/src/server.rs: the highest version that both sides have is served.
use pixi_ai.Common.{
  ℕ, ◌≤◌, ◌≡◌, ◌↔◌, ◌⊎◌, inl, inr, refl, sym, ap, subst, ◌∙◌, Bool-cases, Option, none, some, List,
  [], ◌∷◌, arith, leb, ◌==◌, Text,
}
use pixi_ai.Plugin.Protocol.{parse_version_list, contains}
use pixi_ai.Plugin.Protocol.Versions.{Offers, contains-Offers}
use pixi_ai.Plugin.Server.{
  ServeConfig, keys, get, insert, sort, least, or_this, last_offered, or_else, with_list,
  negotiate_server_version,
}

abbrev Ascending : List ℕ → Type 0
Ascending [] = Unit {0}
Ascending (x ∷ xs) = ((w : ℕ) → Offers xs w → x ≤ w) × Ascending xs

insert-Offers : (v : ℕ) (xs : List ℕ) (w : ℕ) → Offers (insert v xs) w ↔ ((v ≡ w) ⊎ Offers xs w)
unfolding insert
insert-Offers v [] w = ground arith
insert-Offers v (x ∷ xs) w = ground (arith, insert-Offers v xs w)

insert-Ascending : (v : ℕ) (xs : List ℕ) → Ascending xs → Ascending (insert v xs)
unfolding insert
insert-Ascending v [] h = (λ w o. absurd o, tt)
insert-Ascending v (x ∷ xs) (least, h) = elim (Bool-cases (leb v x)) [
  | inl e ↦
      rw e (λ w o. elim o [ inl k ↦ ground arith | inr k ↦ ground (arith, least w k) ], (least, h))
  | inr e ↦ rw e (
    λ w o. elim ((insert-Offers v xs w).0 o) [ inl k ↦ ground arith | inr k ↦ least w k ],
    insert-Ascending v xs h,
  )
]

sort-Ascending : (xs : List ℕ) → Ascending (sort xs)
unfolding sort
sort-Ascending [] = tt
sort-Ascending (x ∷ xs) = insert-Ascending x (sort xs) (sort-Ascending xs)

sort-Offers : (xs : List ℕ) (w : ℕ) → Offers (sort xs) w ↔ Offers xs w
unfolding sort
sort-Offers [] w = (λ o. o, λ o. o)
sort-Offers (x ∷ xs) w = ground (arith, insert-Offers x (sort xs) w, sort-Offers xs w)

-- The versions that both sides have, with the highest of them or none.
abbrev pub HighestOf : List ℕ → List ℕ → Option ℕ → Type 0
HighestOf host vs none = (w : ℕ) → Offers vs w → ¬ Offers host w
HighestOf host vs (some v) =
    Offers vs v × Offers host v × ((w : ℕ) → Offers vs w → Offers host w → w ≤ v)

last_offered-HighestOf :
    (host vs : List ℕ) → Ascending vs → HighestOf host vs (last_offered host vs)
unfolding last_offered
last_offered-HighestOf host [] h = λ w o. absurd o
last_offered-HighestOf host (v ∷ vs) (least, h) =
    go (last_offered host vs) (last_offered-HighestOf host vs h)
  where
    go : (o : Option ℕ) → HighestOf host vs o → HighestOf host (v ∷ vs) (or_this host v o)
    go (some x) (a, b, c) =
        (inr a, b, λ w p q. elim p [ inl e ↦ ground (arith, least x a) | inr p' ↦ c w p' q ])
    go none n = elim (Bool-cases (contains host v)) [
      | inl e ↦ rw e (
        inl refl,
        (contains-Offers host v).0 e,
        λ w p q. elim p [ inl k ↦ ground arith | inr p' ↦ absurd (n w p' q) ],
      )
      | inr e ↦
          rw e
            (λ w p q. elim p [ inl k ↦ ground (arith, contains-Offers host v) | inr p' ↦ n w p' q ])
    ]

sorted-HighestOf :
    (host vs : List ℕ) (o : Option ℕ) → HighestOf host (sort vs) o → HighestOf host vs o
sorted-HighestOf host vs none n = λ w o. n w ((sort-Offers vs w).1 o)
sorted-HighestOf host vs (some v) (a, b, c) =
    ((sort-Offers vs v).0 a, b, λ w o. c w ((sort-Offers vs w).1 o))

module _ {S : Type 0} where
  pub get-keys :
      (v : ℕ) (table : List (ℕ × S)) → Offers (keys table) v → (s : S) × (get v table ≡ some s)
  unfolding get
  get-keys v [] o = absurd o
  get-keys v ((k, s) ∷ table) o = elim (Bool-cases (k == v)) [
    | inl e ↦ (s, rw e refl)
    | inr e ↦ elim o [
      | inl n ↦ absurd (ground arith)
      | inr o' ↦ let (t, g) = get-keys v table o' in (t, rw e g)
    ]
  ]

  pub table-cases :
      (table : List (ℕ × S))
      → (table ≡ []) ⊎ ((entry : ℕ × S) × (rest : List (ℕ × S)) × (table ≡ entry ∷ rest))
  table-cases [] = inl refl
  table-cases (entry ∷ rest) = inr (entry, rest, refl)

  -- What is served for the host's list.
  abbrev pub Served : ServeConfig S → List ℕ → ℕ × S → Type 0
  Served c host (v, s) =
      (HighestOf host (keys c.versioned_plugins) (some v) × (get v c.versioned_plugins ≡ some s))
      ⊎ (HighestOf host (keys c.versioned_plugins) none
          × (v ≡ c.protocol_version)
          × (s ≡ c.plugins))

  with_list-Served :
      (default : S) (c : ServeConfig S) (host : List ℕ) → Served c host (with_list default c host)
  with_list-Served default c host =
      let vs = keys c.versioned_plugins in
      let highest : HighestOf host vs (last_offered host (sort vs)) =
        sorted-HighestOf host vs (last_offered host (sort vs))
          (last_offered-HighestOf host (sort vs) (sort-Ascending vs)) in
      go (last_offered host (sort vs)) highest
    where
      go :
          (o : Option ℕ)
          → HighestOf host (keys c.versioned_plugins) o
          → Served c host (elim o as (λ _. ℕ × S) [
            | some v ↦ (v, or_else c.plugins (get v c.versioned_plugins))
            | none ↦ (c.protocol_version, c.plugins)
          ])
      go none n = inr (n, refl, refl)
      go (some v) (a, b, d) =
          let (s, g) = get-keys v c.versioned_plugins a in
          inl ((a, b, d), g ∙ ap some (sym (ap (or_else c.plugins) g)))

  -- Where the host's list is set, the plugin serves the highest version that both sides have, with the
  -- set of plugins it has for it; where they have none in common, the version of its handshake with its
  -- unversioned set.
  pub negotiate_server_version-Served :
      (default : S) (s : Text) (c : ServeConfig S)
      → Served c (parse_version_list s) (negotiate_server_version default (some s) c)
  unfolding negotiate_server_version
  negotiate_server_version-Served default s c = elim (table-cases c.versioned_plugins) [
    | inl e ↦
        let served : negotiate_server_version default (some s) c ≡ (c.protocol_version, c.plugins) =
          rw (e, negotiate_server_version) refl in
        subst (Served c (parse_version_list s)) (sym served)
          (inr (λ w o. absurd (subst (λ t. Offers (keys t) w) e o), refl, refl))
    | inr (entry, rest, e) ↦
        let served : negotiate_server_version default (some s) c
            ≡ with_list default c (parse_version_list s) =
          rw (e, negotiate_server_version)
            (ap (λ t. with_list default (record c { versioned_plugins = t }) (parse_version_list s))
              e) in
        subst (Served c (parse_version_list s)) (sym served)
          (with_list-Served default c (parse_version_list s))
  ]
