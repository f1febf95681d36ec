-- ===== src/Instances/Keys.antt =====
-- A sort of keys that meets what the model asks of `std::sort`.
use learned_secondary_index.Common.{
  ℕ, ◌≤◌, leb, if◌then◌else◌, Bool-cases, inl, inr, List, [], ◌∷◌, arith,
}
use learned_secondary_index.Datasets.Shape.{AllFrom, Ordered}
use mathlib.Core.List.{Perm}
use mathlib.Core.List.Perm

unfoldable pub insert_key : ℕ → List ℕ → List ℕ
insert_key x [] = x ∷ []
insert_key x (y ∷ l) = if leb x y then x ∷ y ∷ l else y ∷ insert_key x l

unfoldable pub sort_keys : List ℕ → List ℕ
sort_keys [] = []
sort_keys (x ∷ l) = insert_key x (sort_keys l)

insert_key-perm : (x : ℕ) (l : List ℕ) → Perm (insert_key x l) (x ∷ l)
unfolding insert_key
insert_key-perm x [] = Perm.rfl
insert_key-perm x (y ∷ l) = elim (Bool-cases (leb x y)) [
  | inl e ↦ rw e Perm.rfl
  | inr e ↦ rw e (Perm.trans (Perm.cons y (insert_key-perm x l)) (Perm.swap x y l))
]

pub sort_keys-perm : (l : List ℕ) → Perm (sort_keys l) l
unfolding sort_keys
sort_keys-perm [] = Perm.rfl
sort_keys-perm (x ∷ l) =
    Perm.trans (insert_key-perm x (sort_keys l)) (Perm.cons x (sort_keys-perm l))

AllFrom-trans : (x y : ℕ) (l : List ℕ) → x ≤ y → AllFrom y l → AllFrom x l
AllFrom-trans x y [] le all = tt
AllFrom-trans x y (z ∷ l) le all = (omega (arith, all.0), AllFrom-trans x y l le all.1)

AllFrom-insert_key : (z x : ℕ) (l : List ℕ) → z ≤ x → AllFrom z l → AllFrom z (insert_key x l)
unfolding insert_key
AllFrom-insert_key z x [] le all = (le, tt)
AllFrom-insert_key z x (y ∷ l) le all = elim (Bool-cases (leb x y)) [
  | inl e ↦ rw e (le, all)
  | inr e ↦ rw e (all.0, AllFrom-insert_key z x l le all.1)
]

Ordered-insert_key : (x : ℕ) (l : List ℕ) → Ordered l → Ordered (insert_key x l)
unfolding insert_key
Ordered-insert_key x [] o = (tt, tt)
Ordered-insert_key x (y ∷ l) o = elim (Bool-cases (leb x y)) [
  | inl e ↦ let le : x ≤ y = ground arith in rw e ((le, AllFrom-trans x y l le o.0), o)
  | inr e ↦ rw e (AllFrom-insert_key y x l (ground arith) o.0, Ordered-insert_key x l o.1)
]

pub sort_keys-Ordered : (l : List ℕ) → Ordered (sort_keys l)
unfolding sort_keys
sort_keys-Ordered [] = tt
sort_keys-Ordered (x ∷ l) = Ordered-insert_key x (sort_keys l) (sort_keys-Ordered l)
