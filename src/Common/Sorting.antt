-- ===== src/Common/Sorting.antt =====
-- Lists of keys with their displacements, and what a permutation of one keeps.
use Prim.Native.Nat.{ℕ, zero, suc, ◌+◌, ◌≤◌, ◌<◌}
use Prim.Native.Nat.add
use mathlib.Core.Path.{◌≡◌, refl, sym, ap, ◌∙◌}
use mathlib.Core.List.{List, [], ◌∷◌, Perm, Permᴰ, Mem, Memᴰ, mem-cons_self, mem-cons_of_mem}
use mathlib.Core.Option.{Option, some}
use mathlib.Core.Logic.{∥∥₁_elim, ∥∥₁_map}
use native.Mathlib.Omega.{arith}
use native.Mathlib.Nat.{ℕ_set}
use native.Mathlib.Bridge.{le_prop}
use native.Mathlib.Decide.{dec_lt}
use mathlib.Core.HLevel.{×_prop}
use mathlib.Core.List.Perm
use learned_secondary_index.Common.Lists.{length, get_elem?, get_or}

-- a key and the displacement that it was found at
abbrev pub Pair : Type 0
Pair = ℕ × ℕ

abbrev pub pair_at : List Pair → ℕ → Pair
pair_at l i = get_or l i (0, 0)

abbrev pub key_at : List Pair → ℕ → ℕ
key_at l i = (pair_at l i).0

abbrev pub IsSortedByKey : List Pair → Type 0
IsSortedByKey l = (i j : ℕ) → i ≤ j → j < length l → key_at l i ≤ key_at l j

module _ {ℓ} {A : Type ℓ} where
  length-permᴰ : {xs ys : List A} → Permᴰ xs ys → length xs ≡ length ys
  length-permᴰ Permᴰ.nil = refl
  length-permᴰ (Permᴰ.cons e p) = ap suc (length-permᴰ p)
  length-permᴰ (Permᴰ.swap e f) = refl
  length-permᴰ (Permᴰ.trans p q) = length-permᴰ p ∙ length-permᴰ q

  pub length-perm : {xs ys : List A} → Perm xs ys → length xs ≡ length ys
  length-perm p = ∥∥₁_elim p (ℕ_set _ _) length-permᴰ

  -- what stands in a list at an index is a member of it
  pub mem-get_or : (xs : List A) (i : ℕ) (d : A) → i < length xs → Mem (get_or xs i d) xs
  mem-get_or [] i d h = absurd (omega arith)
  mem-get_or (x ∷ xs) zero d h = mem-cons_self
  mem-get_or (x ∷ xs) (suc i) d h = mem-cons_of_mem x (mem-get_or xs i d (omega arith))

  index_of_memᴰ :
      (xs : List A) {a : A} (d : A) → Memᴰ a xs → (i : ℕ) × (i < length xs) × (get_or xs i d ≡ a)
  index_of_memᴰ [] d m = elim m [ ]
  index_of_memᴰ (x ∷ xs) d (Memᴰ.head e) = (0, omega arith, sym e)
  index_of_memᴰ (x ∷ xs) d (Memᴰ.tail m) =
      let (i, h, e) = index_of_memᴰ xs d m in (suc i, omega arith, e)

  -- a member of a list stands in it at an index
  pub index_of_mem :
      (xs : List A) {a : A} (d : A)
      → Mem a xs
      → ∥ ((i : ℕ) × (i < length xs) × (get_or xs i d ≡ a)) ∥₁
  index_of_mem xs d m = ∥∥₁_map m (index_of_memᴰ xs d)

  pub get_elem?-get_or :
      (xs : List A) (i : ℕ) (d : A) → i < length xs → get_elem? xs i ≡ some (get_or xs i d)
  get_elem?-get_or [] i d h = absurd (omega arith)
  get_elem?-get_or (x ∷ xs) zero d h = refl
  get_elem?-get_or (x ∷ xs) (suc i) d h = get_elem?-get_or xs i d (omega arith)

pub get_elem?-lt : (l : List ℕ) (i : ℕ) {x : ℕ} → get_elem? l i ≡ some x → i < length l
get_elem?-lt [] i e = ground arith
get_elem?-lt (y ∷ l) zero e = omega arith
get_elem?-lt (y ∷ l) (suc i) e = omega (arith, get_elem?-lt l i e)

-- the keys of a range with their displacements, counted from `i`
abbrev pub enumerate : ℕ → List ℕ → List Pair
enumerate i [] = []
enumerate i (k ∷ ks) = (k, i) ∷ enumerate (suc i) ks

pub length-enumerate : (i : ℕ) (ks : List ℕ) → length (enumerate i ks) ≡ length ks
length-enumerate i [] = refl
length-enumerate i (k ∷ ks) = ap suc (length-enumerate (suc i) ks)

pub get_or-enumerate :
    (i j : ℕ) (ks : List ℕ) (x : ℕ)
    → get_elem? ks j ≡ some x
    → pair_at (enumerate i ks) j ≡ (x, i + j)
get_or-enumerate i j [] x e = ground arith
get_or-enumerate i zero (k ∷ ks) x e = ground arith
get_or-enumerate i (suc j) (k ∷ ks) x e = get_or-enumerate (suc i) j ks x e ∙ ground arith

Option-ℕ-set : IsSet (Option ℕ)
Option-ℕ-set = hlevel ℕ_set

-- a pair of an enumerated range has the key that stands at its displacement
pub mem-enumerate : (ks : List ℕ) (p : Pair) → Mem p (enumerate 0 ks) → get_elem? ks p.1 ≡ some p.0
mem-enumerate ks p m =
    ∥∥₁_elim (index_of_mem (enumerate 0 ks) (0, 0) m) (Option-ℕ-set _ _) λ (j, h, e).
      let there = get_elem?-get_or ks j 0 (omega (arith, length-enumerate 0 ks)) in
      let same = sym (get_or-enumerate 0 j ks _ there) ∙ e in rw (← same) (rw add.zero there)

-- Sorted pairs that are those of a range: where the keys before `p` are smaller than a key of the
-- range and those from `p` on are not, the key stands at `p`, with a displacement that holds it.
module _ (base : List ℕ) (l : List Pair) (perm : Perm l (enumerate 0 base)) where
  pub perm-in_base : (i : ℕ) → i < length l → get_elem? base (pair_at l i).1 ≡ some (key_at l i)
  perm-in_base i h =
      mem-enumerate base (pair_at l i) ((Perm.mem_iff perm).0 (mem-get_or l i (0, 0) h))

  perm_complete :
      (d : ℕ) {key : ℕ}
      → get_elem? base d ≡ some key
      → d < length base
      → ∥ ((i : ℕ) × (i < length l) × (pair_at l i ≡ (key, d))) ∥₁
  perm_complete d {key} e h =
      let pair : pair_at (enumerate 0 base) d ≡ (key, d) =
        rw add.zero at (get_or-enumerate 0 d base key e) in
      index_of_mem l (0, 0)
        ((Perm.mem_iff perm).1 (
          rw pair at
            (mem-get_or (enumerate 0 base) d (0, 0) (omega (arith, length-enumerate 0 base)))))

  pub perm-boundary :
      (d p : ℕ) {key : ℕ}
      → IsSortedByKey l
      → get_elem? base d ≡ some key
      → d < length base
      → ((i : ℕ) → i < p → key_at l i < key)
      → ((i : ℕ) → p ≤ i → i < length l → key ≤ key_at l i)
      → (p < length l) × (key_at l p ≡ key)
  perm-boundary d p {key} sorted e h below above =
      ∥∥₁_elim (perm_complete d e h) (×_prop le_prop (ℕ_set _ _)) λ (i, inside, same).
        let k : key_at l i ≡ key = ap (λ q. q.0) same in
        let from : p ≤ i = elim (dec_lt i p) [
          | yes less ↦ absurd (omega (arith, below i less))
          | no le ↦ omega arith
        ] in
        (omega arith, omega (arith, above p, sorted p i from inside))
