-- ===== src/Prelude/Maps.antt =====
-- Maps and sets keyed by texts (std::unordered_map, std::unordered_set), as lists of entries. The
-- order of the entries is not that of a hash table, on which nothing depends.
use mathlib.Core.Path.{subst}
use lob.Prelude.{
  ◌≡◌, refl, sym, Bool, true, false, ◌||◌, inl, inr, Bool-cases, List, [], ◌∷◌, Option, none, some,
  if◌then◌else◌, arith, Bytes, same_text, text_iff, same_text-eq, All, not, ◌&&◌,
}

pub none-ne-some {ℓ} : {A : Type ℓ} {a : A} → none ≡ some a → ⊥
none-ne-some h = cc

pub some_inj {ℓ} : {A : Type ℓ} {a b : A} → some a ≡ some b → a ≡ b
some_inj h = cc

module _ {ℓ} {V : Type ℓ} where
  -- `find`
  unfoldable pub lookup : List (Bytes × V) → Bytes → Option V
  lookup [] key = none
  lookup ((k, v) ∷ m) key = if same_text k key then some v else lookup m key

  -- `m[key] = v`
  unfoldable pub assign : Bytes → V → List (Bytes × V) → List (Bytes × V)
  assign key v [] = (key, v) ∷ []
  assign key v ((k, w) ∷ m) = if same_text k key then (k, v) ∷ m else (k, w) ∷ assign key v m

  -- A change of the value at a key, if there is one.
  unfoldable pub modify : (V → V) → Bytes → List (Bytes × V) → List (Bytes × V)
  modify f key [] = []
  modify f key ((k, w) ∷ m) = if same_text k key then (k, f w) ∷ m else (k, w) ∷ modify f key m

  unfoldable pub erase : Bytes → List (Bytes × V) → List (Bytes × V)
  erase key [] = []
  erase key ((k, w) ∷ m) = if same_text k key then erase key m else (k, w) ∷ erase key m

  -- The key of a found entry is the key that is looked for.
  abbrev pub map_some : (V → V) → Option V → Option V
  map_some f none = none
  map_some f (some v) = some (f v)

  pub lookup-assign :
      (key j : Bytes) (v : V) (m : List (Bytes × V))
      → lookup (assign key v m) j ≡ (if same_text key j then some v else lookup m j)
  unfolding lookup assign
  lookup-assign key j v [] = refl
  lookup-assign key j v ((k, w) ∷ m) =
      ground (arith, text_iff k key, text_iff k j, text_iff key j, lookup-assign key j v m)

  pub lookup-modify :
      (f : V → V) (key j : Bytes) (m : List (Bytes × V))
      → lookup (modify f key m) j
        ≡ (if same_text key j then map_some f (lookup m j) else lookup m j)
  unfolding lookup modify
  lookup-modify f key j [] = ground arith
  lookup-modify f key j ((k, w) ∷ m) =
      ground (arith, text_iff k key, text_iff k j, text_iff key j, lookup-modify f key j m)

  pub lookup-erase :
      (key j : Bytes) (m : List (Bytes × V))
      → lookup (erase key m) j ≡ (if same_text key j then none else lookup m j)
  unfolding lookup erase
  lookup-erase key j [] = ground arith
  lookup-erase key j ((k, w) ∷ m) =
      ground (arith, text_iff k key, text_iff k j, text_iff key j, lookup-erase key j m)

-- What holds of every value of a map, at its key.
abbrev pub Each {ℓ} : {V : Type ℓ} → (Bytes → V → Type 0) → List (Bytes × V) → Type 0
Each P m = All (λ e. P e.0 e.1) m

module _ {ℓ} {V : Type ℓ} (P : Bytes → V → Type 0) where
  pub lookup-Each :
      (key : Bytes) (m : List (Bytes × V)) {v : V} → Each P m → lookup m key ≡ some v → P key v
  unfolding lookup
  lookup-Each key [] h e = absurd (none-ne-some e)
  lookup-Each key ((k, w) ∷ m) {v} (p, h) e = elim (Bool-cases (same_text k key)) [
    | inl same ↦
        let eq : some w ≡ some v = rw same at e in
        let found : w ≡ v = cc in subst (λ x. P x v) (same_text-eq k key same) (subst (P k) found p)
    | inr other ↦ lookup-Each key m h (rw other at e)
  ]

  pub modify-Each :
      (f : V → V) (key : Bytes) (m : List (Bytes × V))
      → ((v : V) → P key v → P key (f v))
      → Each P m
      → Each P (modify f key m)
  unfolding modify
  modify-Each f key [] keep h = tt
  modify-Each f key ((k, w) ∷ m) keep (p, h) = elim (Bool-cases (same_text k key)) [
    | inl same ↦
        let at : k ≡ key = same_text-eq k key same in
        rw same (subst (λ x. P x (f w)) (sym at) (keep w (subst (λ x. P x w) at p)), h)
    | inr other ↦ rw other (p, modify-Each f key m keep h)
  ]

  pub assign-Each :
      (key : Bytes) (v : V) (m : List (Bytes × V)) → P key v → Each P m → Each P (assign key v m)
  unfolding assign
  assign-Each key v [] p h = (p, tt)
  assign-Each key v ((k, w) ∷ m) p (q, h) = elim (Bool-cases (same_text k key)) [
    | inl same ↦ rw same (subst (λ x. P x v) (sym (same_text-eq k key same)) p, h)
    | inr other ↦ rw other (q, assign-Each key v m p h)
  ]

  pub erase-Each : (key : Bytes) (m : List (Bytes × V)) → Each P m → Each P (erase key m)
  unfolding erase
  erase-Each key [] h = tt
  erase-Each key ((k, w) ∷ m) (p, h) = elim (Bool-cases (same_text k key)) [
    | inl same ↦ rw same (erase-Each key m h)
    | inr other ↦ rw other (p, erase-Each key m h)
  ]

-- Sets of texts.
unfoldable pub has_text : List Bytes → Bytes → Bool
has_text [] key = false
has_text (x ∷ xs) key = same_text x key || has_text xs key

unfoldable pub add_text : Bytes → List Bytes → List Bytes
unfolding has_text
add_text key xs = if has_text xs key then xs else key ∷ xs

unfoldable pub remove_text : Bytes → List Bytes → List Bytes
remove_text key [] = []
remove_text key (x ∷ xs) = if same_text x key then remove_text key xs else x ∷ remove_text key xs

pub has_text-add_text :
    (key j : Bytes) (xs : List Bytes)
    → has_text (add_text key xs) j ≡ (same_text key j || has_text xs j)
unfolding add_text has_text
has_text-add_text key j xs = elim (Bool-cases (has_text xs key)) [
  | inl old ↦ rw old (present xs old)
  | inr new ↦ rw new
]
  where
    present :
        (ys : List Bytes)
        → has_text ys key ≡ true
        → has_text ys j ≡ (same_text key j || has_text ys j)
    present [] h = ground arith
    present (y ∷ ys) h = ground (arith, text_iff y key, text_iff y j, text_iff key j, present ys)

pub has_text-remove_text :
    (key j : Bytes) (xs : List Bytes)
    → has_text (remove_text key xs) j ≡ (not (same_text key j) && has_text xs j)
unfolding remove_text has_text
has_text-remove_text key j [] = ground arith
has_text-remove_text key j (x ∷ xs) =
    ground (arith, text_iff x key, text_iff x j, text_iff key j, has_text-remove_text key j xs)
