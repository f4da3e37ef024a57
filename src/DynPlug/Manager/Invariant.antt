-- ===== src/DynPlug/Manager/Invariant.antt =====
-- crates/dynplug/src/manager.rs: the name index and the slots agree after every operation.
use pixi_ai.Common.{
  ℕ, zero, suc, ◌≡◌, ◌≢◌, ◌↔◌, ◌⊎◌, inl, inr, refl, sym, subst, ap, ◌∙◌, Bool-cases, Option-cases,
  Option, none, some, List, [], ◌∷◌, ◌++◌, arith, if◌then◌else◌, length, get_elem?, set, Text,
  text_eq, text_eq_iff, text_eq-false, get_elem?-set_ne,
}
use pixi_ai.DynPlug.Manager.{
  Backend, PluginManager, duplicate_name, not_found, ok, err, name_of, lookup, remove, register,
  new,
}
use pixi_ai.DynPlug.Manager.Calls.{take_slot, unload}

-- The slot holds a plugin of that name.
abbrev pub Held : List (Option Backend) → ℕ → Text → Type 0
Held ps i name = (b : Backend) × (get_elem? ps i ≡ some (some b)) × (name_of b ≡ name)

-- A name has an index exactly where its slot holds a plugin of that name.
abbrev pub Indexed : PluginManager → Type 0
Indexed m = (name : Text) (i : ℕ) → (lookup name m.name_index ≡ some i) ↔ Held m.plugins i name

pub get_elem?-snoc {ℓ} :
    {A : Type ℓ} (xs : List A) (x : A) → get_elem? (xs ++ (x ∷ [])) (length xs) ≡ some x
get_elem?-snoc [] x = refl
get_elem?-snoc (y ∷ xs) x = get_elem?-snoc xs x

pub get_elem?-append {ℓ} :
    {A : Type ℓ} (xs : List A) (i : ℕ) (x : A) {y : A}
    → get_elem? xs i ≡ some y
    → get_elem? (xs ++ (x ∷ [])) i ≡ some y
get_elem?-append [] i x e = absurd (ground arith)
get_elem?-append (z ∷ xs) zero x e = e
get_elem?-append (z ∷ xs) (suc i) x e = get_elem?-append xs i x e

snoc-cases {ℓ} :
    {A : Type ℓ} (xs : List A) (i : ℕ) {x y : A}
    → get_elem? (xs ++ (x ∷ [])) i ≡ some y
    → (get_elem? xs i ≡ some y) ⊎ ((i ≡ length xs) × (x ≡ y))
snoc-cases [] zero e = inr (refl, ground arith)
snoc-cases [] (suc i) e = absurd (ground arith)
snoc-cases (z ∷ xs) zero e = inl e
snoc-cases (z ∷ xs) (suc i) e = elim (snoc-cases xs i e) [
  | inl h ↦ inl h
  | inr (h, k) ↦ inr (ap suc h, k)
]

pub lookup-remove :
    (name key : Text) (index : List (Text × ℕ))
    → lookup key (remove name index) ≡ (if text_eq name key then none else lookup key index)
unfolding lookup remove
lookup-remove name key [] = ground arith
lookup-remove name key ((k, i) ∷ index) = ground (
  arith,
  lookup-remove name key index,
  text_eq_iff k name,
  text_eq_iff k key,
  text_eq_iff name key,
)

pub new-Indexed : Indexed new
unfolding new lookup
new-Indexed name i = (λ e. absurd (ground arith), λ (b, e, n). absurd (ground arith))

-- What `register` and `unload` leave where they succeed.
abbrev pub pushed : Backend → PluginManager → PluginManager
pushed b m = record m {
  name_index = (name_of b, length m.plugins) ∷ m.name_index;
  plugins = m.plugins ++ (some b ∷ []);
}

abbrev pub taken : Text → ℕ → PluginManager → PluginManager
taken name idx m = take_slot idx (record m { name_index = remove name m.name_index })

pub register-free :
    (b : Backend) (m : PluginManager)
    → lookup (name_of b) m.name_index ≡ none
    → register b m ≡ (ok b, pushed b m)
unfolding register
register-free b m e = rw (e, register) refl

pub register-taken :
    (b : Backend) (m : PluginManager) {i : ℕ}
    → lookup (name_of b) m.name_index ≡ some i
    → register b m ≡ (err (duplicate_name (name_of b)), m)
unfolding register
register-taken b m e = rw (e, register) refl

pub unload-some :
    (name : Text) (m : PluginManager) {i : ℕ}
    → lookup name m.name_index ≡ some i
    → unload name m ≡ (ok tt, taken name i m)
unfolding unload
unload-some name m e = rw (e, unload) refl

pub unload-none :
    (name : Text) (m : PluginManager)
    → lookup name m.name_index ≡ none
    → unload name m ≡ (err (not_found name), m)
unfolding unload
unload-none name m e = rw (e, unload) refl

pub set-none {ℓ} :
    {A : Type ℓ} (xs : List (Option A)) (j i : ℕ) {a : A}
    → get_elem? (set xs j none) i ≡ some (some a)
    → (j ≢ i) × (get_elem? xs i ≡ some (some a))
set-none [] j i e = absurd (ground arith)
set-none (x ∷ xs) zero zero e = absurd (ground arith)
set-none (x ∷ xs) zero (suc i) e = (λ k. ground arith, e)
set-none (x ∷ xs) (suc j) zero e = (λ k. ground arith, e)
set-none (x ∷ xs) (suc j) (suc i) e = let (ne, g) = set-none xs j i e in (λ k. ne (ground arith), g)

pushed-Indexed :
    (b : Backend) (m : PluginManager)
    → lookup (name_of b) m.name_index ≡ none
    → Indexed m
    → Indexed (pushed b m)
unfolding lookup
pushed-Indexed b m e h name i = elim (Bool-cases (text_eq (name_of b) name)) [
  | inl t ↦
      let nm : name_of b ≡ name = (text_eq_iff (name_of b) name).0 t in
      (
        λ q.
            let k : length m.plugins ≡ i = ground arith in
            (
              b,
              subst (λ j. get_elem? (m.plugins ++ (some b ∷ [])) j ≡ some (some b)) k
                  (get_elem?-snoc m.plugins (some b)),
              nm,
            ),
        λ (c, g, n). elim (snoc-cases m.plugins i g) [
          | inl g' ↦
              let q : lookup name m.name_index ≡ some i = (h name i).1 (c, g', n) in
              absurd (ground arith)
          | inr (k, bc) ↦ ground arith
        ],
      )
  | inr f ↦ (
    λ q.
        let (c, g, n) = (h name i).0 (ground arith) in
        (c, get_elem?-append m.plugins i (some b) g, n),
    λ (c, g, n). elim (snoc-cases m.plugins i g) [
      | inl g' ↦ rw f ((h name i).1 (c, g', n))
      | inr (k, bc) ↦ absurd (text_eq-false (name_of b) name f (ground arith))
    ],
  )
]

pub taken-Indexed :
    (name : Text) (idx : ℕ) (m : PluginManager)
    → lookup name m.name_index ≡ some idx
    → Indexed m
    → Indexed (taken name idx m)
unfolding take_slot
taken-Indexed name idx m e h key i = elim (Bool-cases (text_eq name key)) [
  | inl t ↦
      let nm : name ≡ key = (text_eq_iff name key).0 t in
      (
        λ q. absurd (ground (arith, lookup-remove name key m.name_index)),
        λ (b, g, n).
            let (ne, g') = set-none m.plugins idx i g in
            let q : lookup key m.name_index ≡ some i = (h key i).1 (b, g', n) in
            absurd (ne (ground arith)),
      )
  | inr f ↦
      let look : lookup key (remove name m.name_index) ≡ lookup key m.name_index =
        lookup-remove name key m.name_index ∙ (rw f refl) in
      (
        λ q.
            let (b, g, n) = (h key i).0 (sym look ∙ q) in
            let (c, g', n') = (h name idx).0 e in
            (
              b,
              get_elem?-set_ne m.plugins none (λ k. text_eq-false name key f (ground arith)) ∙ g,
              n,
            ),
        λ (b, g, n). look ∙ (h key i).1 (b, (set-none m.plugins idx i g).1, n),
      )
]

pub register-Indexed : (b : Backend) (m : PluginManager) → Indexed m → Indexed (register b m).1
register-Indexed b m h = elim (Option-cases (lookup (name_of b) m.name_index)) [
  | inr (idx, e) ↦ subst (λ r. Indexed r.1) (sym (register-taken b m e)) h
  | inl e ↦ subst (λ r. Indexed r.1) (sym (register-free b m e)) (pushed-Indexed b m e h)
]

pub unload-Indexed : (name : Text) (m : PluginManager) → Indexed m → Indexed (unload name m).1
unload-Indexed name m h = elim (Option-cases (lookup name m.name_index)) [
  | inl e ↦ subst (λ r. Indexed r.1) (sym (unload-none name m e)) h
  | inr (idx, e) ↦
      subst (λ r. Indexed r.1) (sym (unload-some name m e)) (taken-Indexed name idx m e h)
]
