-- ===== src/Vrm/Bone/Parents.antt =====
-- crates/vrm/src/bone.rs: the table of parents agrees with the lists of children.
use pixi_ai.Common.{
  ℕ, zero, suc, ◌+◌, ◌<◌, ◌≡◌, refl, sym, ap, ◌∙◌, ◌↔◌, ◌≢◌, ◌⊎◌, inl, inr, true, Option, none,
  some, List, [], ◌∷◌, ◌++◌, ltb, if◌then◌else◌, Bool-cases, ltb→lt, lt→ltb, length, get_elem?, set,
  length-set, get_elem?-set_self, get_elem?-set_ne, keep_if, replicate, length-replicate,
  get_elem?-replicate, if-both, arith, ℕ_discrete, Bool, subst,
}
use mathlib.Core.Option.{some-injective}
use pixi_ai.Vrm.Bone.{NodeTransform}
use pixi_ai.Vrm.Bone.Tree.{within, mark_children, mark_parents, parents, roots}

-- A number stands in a list.
abbrev pub Has : ℕ → List ℕ → Type 0
Has c [] = ⊥
Has c (x ∷ xs) = (x ≡ c) ⊎ Has c xs

pub Has-append_left : (c : ℕ) (xs ys : List ℕ) → Has c xs → Has c (xs ++ ys)
Has-append_left c (x ∷ xs) ys (inl e) = inl e
Has-append_left c (x ∷ xs) ys (inr h) = inr (Has-append_left c xs ys h)
Has-append_left c [] ys h = absurd h

pub Has-append_right : (c : ℕ) (xs ys : List ℕ) → Has c ys → Has c (xs ++ ys)
Has-append_right c [] ys h = h
Has-append_right c (x ∷ xs) ys h = inr (Has-append_right c xs ys h)

pub Has-append : (c : ℕ) (xs ys : List ℕ) → Has c (xs ++ ys) → Has c xs ⊎ Has c ys
Has-append c [] ys h = inr h
Has-append c (x ∷ xs) ys (inl e) = inl (inl e)
Has-append c (x ∷ xs) ys (inr h) = elim (Has-append c xs ys h) [
  | inl k ↦ inl (inr k)
  | inr k ↦ inr k
]

Has-keep_if :
    (p : ℕ → Bool) (c : ℕ) (xs : List ℕ) → Has c (keep_if p xs) ↔ (Has c xs × (p c ≡ true))
Has-keep_if p c [] = (λ h. absurd h, λ h. absurd h.0)
Has-keep_if p c (x ∷ xs) = elim (Bool-cases (p x)) [
  | inl e ↦
      rw (e, keep_if)
        (
          λ h. elim h [
            | inl q ↦ (inl q, ap p (sym q) ∙ e)
            | inr k ↦ let r = (Has-keep_if p c xs).0 k in (inr r.0, r.1)
          ],
          λ (h, t). elim h [ inl q ↦ inl q | inr k ↦ inr ((Has-keep_if p c xs).1 (k, t)) ],
        )
  | inr e ↦
      rw (e, keep_if)
        (
          λ k. let r = (Has-keep_if p c xs).0 k in (inr r.0, r.1),
          λ (h, t). elim h [
            | inl q ↦ absurd (ground (arith, ap p q))
            | inr k ↦ (Has-keep_if p c xs).1 (k, t)
          ],
        )
]

pub Has-within : (n c : ℕ) (xs : List ℕ) → Has c (within n xs) ↔ (Has c xs × (c < n))
Has-within n c xs =
    let r = Has-keep_if (λ x. ltb x n) c xs in
    (λ h. ((r.0 h).0, ltb→lt c n (r.0 h).1), λ h. r.1 (h.0, lt→ltb c n h.1))

-- One entry of the table of parents.
put-length :
    (n i x : ℕ) (acc : List (Option ℕ))
    → length (if ltb x n then set acc x (some i) else acc) ≡ length acc
put-length n i x acc =
    if-both (λ ps. length ps ≡ length acc) (ltb x n) (length-set acc x (some i)) refl

put_ne :
    (n i x c : ℕ) (acc : List (Option ℕ))
    → x ≢ c
    → get_elem? (if ltb x n then set acc x (some i) else acc) c ≡ get_elem? acc c
put_ne n i x c acc h =
    if-both (λ ps. get_elem? ps c ≡ get_elem? acc c) (ltb x n) (get_elem?-set_ne acc (some i) h)
      refl

put_self :
    (n i c : ℕ) (acc : List (Option ℕ))
    → c < n
    → length acc ≡ n
    → get_elem? (if ltb c n then set acc c (some i) else acc) c ≡ some (some i)
put_self n i c acc h e = rw (lt→ltb c n h) (get_elem?-set_self acc c (some i) (omega arith))

mark_children-length :
    (n i : ℕ) (cs : List ℕ) (acc : List (Option ℕ)) → length (mark_children n i cs acc) ≡ length acc
mark_children-length n i [] acc = refl
mark_children-length n i (x ∷ cs) acc = mark_children-length n i cs _ ∙ put-length n i x acc

-- A child's entry is the node, any other entry is as before.
mark_children_lem :
    (n i c : ℕ) (cs : List ℕ) (acc : List (Option ℕ))
    → c < n
    → length acc ≡ n
    → ((get_elem? (mark_children n i cs acc) c ≡ get_elem? acc c) × ¬ (Has c cs))
      ⊎ ((get_elem? (mark_children n i cs acc) c ≡ some (some i)) × Has c cs)
mark_children_lem n i c [] acc h e = inl (refl, λ k. k)
mark_children_lem n i c (x ∷ cs) acc h e =
    elim (mark_children_lem n i c cs _ h (put-length n i x acc ∙ e)) [
      | inl (q, no_child) ↦ elim (ℕ_discrete x c) [
        | yes x_c ↦ inr (
          q
              ∙ subst
                  (λ y. get_elem? (if ltb y n then set acc y (some i) else acc) c ≡ some (some i))
                  (sym x_c) (put_self n i c acc h e),
          inl x_c,
        )
        | no x_c ↦
            inl (q ∙ put_ne n i x c acc x_c, λ k. elim k [ inl r ↦ x_c r | inr r ↦ no_child r ])
      ]
      | inr (q, k) ↦ inr (q, inr k)
    ]

module _ {V Q : Type 0} where
  -- `c` is a node and a child of the node `p`.
  abbrev pub Child : List (NodeTransform V Q) → ℕ → ℕ → Type 0
  Child nodes p c =
      (nt : NodeTransform V Q) × (get_elem? nodes p ≡ some nt)
      × Has c nt.children
      × (c < length nodes)

  -- No node is a child of two.
  abbrev pub IsForest : List (NodeTransform V Q) → Type 0
  IsForest nodes = (p q c : ℕ) → Child nodes p c → Child nodes q c → p ≡ q

  mark_parents-length :
      (n i : ℕ) (nodes : List (NodeTransform V Q)) (acc : List (Option ℕ))
      → length (mark_parents n i nodes acc) ≡ length acc
  mark_parents-length n i [] acc = refl
  mark_parents-length n i (nt ∷ nodes) acc =
      mark_parents-length n (suc i) nodes _ ∙ mark_children-length n i nt.children acc

  -- An entry is as before, or a node that has the child.
  mark_parents_lem :
      (n i c : ℕ) (nodes : List (NodeTransform V Q)) (acc : List (Option ℕ))
      → c < n
      → length acc ≡ n
      → ((get_elem? (mark_parents n i nodes acc) c ≡ get_elem? acc c)
          × ((k : ℕ) (nt : NodeTransform V Q)
              → get_elem? nodes k ≡ some nt
              → ¬ (Has c nt.children)))
        ⊎ ((k : ℕ) × (nt : NodeTransform V Q) × (get_elem? nodes k ≡ some nt)
            × Has c nt.children
            × (get_elem? (mark_parents n i nodes acc) c ≡ some (some (i + k))))
  mark_parents_lem n i c [] acc h e = inl (refl, λ k nt q. absurd (ground arith))
  mark_parents_lem n i c (nt ∷ nodes) acc h e =
      elim (mark_parents_lem n (suc i) c nodes _ h (mark_children-length n i nt.children acc ∙ e)) [
        | inl (q, none_later) ↦ elim (mark_children_lem n i c nt.children acc h e) [
          | inl (r, none_here) ↦ inl (
            q ∙ r,
            elim [
              | zero ↦ λ nt' at_k has. none_here (
                  subst (λ (m : NodeTransform V Q). Has c m.children)
                    (sym (some-injective nt nt' at_k)) has)
              | suc k ↦ none_later k
            ],
          )
          | inr (r, has) ↦ inr (0, nt, refl, has, q ∙ r ∙ ap (λ j. some (some j)) (omega arith))
        ]
        | inr (k, found, at_k, has, q) ↦
            inr (suc k, found, at_k, has, q ∙ ap (λ j. some (some j)) (omega arith))
      ]

  pub parents-length : (nodes : List (NodeTransform V Q)) → length (parents nodes) ≡ length nodes
  parents-length nodes =
      mark_parents-length (length nodes) 0 nodes (replicate (length nodes) none)
      ∙ length-replicate (length nodes) none

  -- A node has no parent in the table and none in the lists of children, or the same in both.
  pub parent-cases :
      (nodes : List (NodeTransform V Q)) (c : ℕ)
      → c < length nodes
      → ((get_elem? (parents nodes) c ≡ some none) × ((p : ℕ) → ¬ (Child nodes p c)))
        ⊎ ((p : ℕ) × (get_elem? (parents nodes) c ≡ some (some p)) × Child nodes p c)
  parent-cases nodes c h =
      elim (mark_parents_lem (length nodes) 0 c nodes (replicate (length nodes) none) h
        (length-replicate (length nodes) none)) [
          | inl (q, no_parent) ↦ inl (
            q ∙ get_elem?-replicate (length nodes) none c h,
            λ p (nt, at_p, has, _). no_parent p nt at_p has,
          )
          | inr (k, nt, at_k, has, q) ↦
              inr (k, q ∙ ap (λ j. some (some j)) (omega arith), (nt, at_k, has, h))
        ]

-- The roots are the entries with no parent.
pub Has-roots_sound :
    (j i : ℕ) (ps : List (Option ℕ))
    → Has j (roots i ps)
    → (m : ℕ) × (j ≡ i + m) × (get_elem? ps m ≡ some none)
Has-roots_sound j i [] h = absurd h
Has-roots_sound j i (none ∷ ps) (inl e) = (0, omega arith, refl)
Has-roots_sound j i (none ∷ ps) (inr h) =
    let (m, e, at_m) = Has-roots_sound j (suc i) ps h in (suc m, omega arith, at_m)
Has-roots_sound j i (some p ∷ ps) h =
    let (m, e, at_m) = Has-roots_sound j (suc i) ps h in (suc m, omega arith, at_m)

pub Has-roots :
    (i m : ℕ) (ps : List (Option ℕ)) → get_elem? ps m ≡ some none → Has (i + m) (roots i ps)
Has-roots i m [] e = absurd (ground arith)
Has-roots i zero (none ∷ ps) e = inl (omega arith)
Has-roots i (suc m) (none ∷ ps) e =
    inr (subst (λ j. Has j (roots (suc i) ps)) (omega arith) (Has-roots (suc i) m ps e))
Has-roots i zero (some p ∷ ps) e = absurd (ground arith)
Has-roots i (suc m) (some p ∷ ps) e =
    subst (λ j. Has j (roots (suc i) ps)) (omega arith) (Has-roots (suc i) m ps e)
