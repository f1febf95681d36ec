-- ===== src/Competitors/Art/Indices.antt =====
-- The index of a Node48 over the sorted keys of a Node16 (`insertNode16` of src/competitors/art.hpp).
use learned_secondary_index.Common.{
  ℕ, suc, ◌+◌, ◌-◌, ◌≤◌, ◌<◌, ◌≡◌, refl, ◌∙◌, ◌==◌, if◌then◌else◌, true, false, Bool-cases, inl,
  inr, List, [], ◌∷◌, length, get_or, arith, ℕ_discrete, ◌⊎◌,
}
use learned_secondary_index.Common.Run.{done}
use learned_secondary_index.Common.Arrays.{at, set}
use learned_secondary_index.Common.ArrayLaws.{length-set, get_or-set, write_lem}
use learned_secondary_index.Competitors.Art.Node.{Ptr}
use learned_secondary_index.Competitors.Art.Children.{index_keys}
use learned_secondary_index.Competitors.Art.Sorted.{
  assoc, AllAbove, Ascending, Holds, Holds-head, Holds-tail,
}

-- the index that a list gives to a byte, counted from `i`, and `d` for a byte that is not in it
abbrev pub index_in : (i : ℕ) → List ℕ → (d : ℕ) → ℕ → ℕ
index_in i [] d k = d
index_in i (y ∷ ks) d k = if y == k then i else index_in (i + 1) ks d k

index_in-above : (i y d : ℕ) (ks : List ℕ) → AllAbove y ks → index_in i ks d y ≡ d
index_in-above i y d [] all = refl
index_in-above i y d (k ∷ ks) all =
    let other : (k == y) ≡ false = ground (arith, all.0) in
    rw other (index_in-above (i + 1) y d ks all.1)

-- `childIndex[key[i]] = i` for ascending keys
pub index_keys_lem :
    (key : List ℕ) (i : ℕ) (ks array : List ℕ)
    → Holds key i ks
    → Ascending ks
    → length array ≡ 256
    → (array' : List ℕ) × (index_keys (length ks) i key array ≡ done array')
      × (length array' ≡ 256)
      × ((k : ℕ) → get_or array' k 0 ≡ index_in i ks (get_or array k 0) k)
unfolding index_keys
index_keys_lem key i [] array h s n = (array, refl, n, λ k. refl)
index_keys_lem key i (y ∷ ks) array h s n =
    let here = Holds-head key i y ks h in
    let (array', run, size, view) =
      index_keys_lem key (i + 1) ks (set array y i) (Holds-tail key i y ks h) s.2
        (length-set array y i ∙ n) in
    (
      array',
      rw (here, write_lem array y i (omega (arith, s.0))) run,
      size,
      λ k. view k ∙ elim (ℕ_discrete y k) [
        | yes e ↦
            let self : (y == y) ≡ true = ground arith in
            let set_here : get_or (set array y i) y 0 ≡ i =
              rw self at (get_or-set array y y i 0 (omega (arith, s.0))) in
            rw (← e) (rw (set_here, self) (index_in-above (i + 1) y i ks s.1))
        | no ne ↦
            let other : (y == k) ≡ false = ground (arith, ne) in
            let kept : get_or (set array y i) k 0 ≡ get_or array k 0 =
              rw other at (get_or-set array y k i 0 (omega (arith, s.0))) in
            rw (other, kept) refl
      ],
    )

pub index_in-assoc :
    (i k : ℕ) (ks : List ℕ) (cs : List Ptr)
    → length ks ≡ length cs
    → ((index_in i ks 48 k ≡ 48) × (assoc ks cs k ≡ 0))
      ⊎ ((j : ℕ) × (index_in i ks 48 k ≡ i + j) × (j < length ks) × (get_or cs j 0 ≡ assoc ks cs k))
index_in-assoc i k [] cs l = inl (refl, refl)
index_in-assoc i k (y ∷ ks) [] l = absurd (omega arith)
index_in-assoc i k (y ∷ ks) (c ∷ cs) l = elim (Bool-cases (y == k)) [
  | inl e ↦ rw e (inr (0, omega arith, omega arith, refl))
  | inr e ↦ elim (index_in-assoc (i + 1) k ks cs (omega arith)) [
    | inl absent ↦ rw e (inl absent)
    | inr (j, at, less, same) ↦ rw e (inr (suc j, at ∙ omega arith, omega arith, same))
  ]
]

-- the byte at the index
pub index_in-key :
    (i k : ℕ) (ks : List ℕ)
    → (index_in i ks 48 k ≡ 48)
      ⊎ ((i ≤ index_in i ks 48 k) × (get_or ks (index_in i ks 48 k - i) 0 ≡ k))
index_in-key i k [] = inl refl
index_in-key i k (y ∷ ks) = elim (Bool-cases (y == k)) [
  | inl e ↦
      let start : i - i ≡ 0 = omega arith in
      let same : y ≡ k = ground arith in rw e (inr (omega arith, rw start same))
  | inr e ↦ elim (index_in-key (i + 1) k ks) [
    | inl absent ↦ rw e (inl absent)
    | inr (le, here) ↦
        let m = index_in (i + 1) ks 48 k in
        let later : m - i ≡ suc (m - (i + 1)) = omega (arith, le) in
        rw e (inr (omega (arith, le), rw later here))
  ]
]
