-- ===== src/Competitors/Art/Sorted.antt =====
-- The keys and children of a Node4 or Node16 as two lists of the same length, in ascending order of
-- the keys (src/competitors/art.hpp).
use learned_secondary_index.Common.{
  ℕ, zero, suc, ◌+◌, ◌≤◌, ◌<◌, ◌≡◌, ◌≢◌, refl, ap, ltb, ◌==◌, if◌then◌else◌, Bool, Bool-cases, inl,
  inr, none, some, List, [], ◌∷◌, length, get_elem?, get_or, take, map, arith,
}
use learned_secondary_index.Common.Run.{done, ◌>>=◌}
use learned_secondary_index.Common.Arrays.{at}
use learned_secondary_index.Common.ArrayLaws.{insert_at}
use learned_secondary_index.Competitors.Art.Node.{Ptr}
use learned_secondary_index.Competitors.Art.Children.{
  find_key, lowest_set, insert_position, equal_bits,
}

-- the child of a key byte, and null for a byte without one
abbrev pub assoc : List ℕ → List Ptr → ℕ → Ptr
assoc [] cs b = 0
assoc (k ∷ ks) [] b = 0
assoc (k ∷ ks) (c ∷ cs) b = if k == b then c else assoc ks cs b

abbrev pub AllAbove : ℕ → List ℕ → Type 0
AllAbove b [] = Unit
AllAbove b (k ∷ ks) = (b < k) × AllAbove b ks

-- strictly ascending bytes
abbrev pub Ascending : List ℕ → Type 0
Ascending [] = Unit
Ascending (k ∷ ks) = (k < 256) × AllAbove k ks × Ascending ks

abbrev pub NonNull : List Ptr → Type 0
NonNull [] = Unit
NonNull (c ∷ cs) = (c ≢ 0) × NonNull cs

abbrev pub NotIn : ℕ → List ℕ → Type 0
NotIn b [] = Unit
NotIn b (k ∷ ks) = (k ≢ b) × NotIn b ks

-- where a new key byte goes
abbrev pub place_of : ℕ → List ℕ → ℕ
place_of b [] = 0
place_of b (k ∷ ks) = if ltb k b then suc (place_of b ks) else 0

-- from index `i` on the array holds the list
abbrev pub Holds : List ℕ → ℕ → List ℕ → Type 0
Holds array i xs = (j x : ℕ) → get_elem? xs j ≡ some x → get_elem? array (i + j) ≡ some x

pub Holds-head :
    (array : List ℕ) (i x : ℕ) (xs : List ℕ) → Holds array i (x ∷ xs) → get_elem? array i ≡ some x
Holds-head array i x xs h = ground (arith, h 0 x refl)

pub Holds-tail :
    (array : List ℕ) (i x : ℕ) (xs : List ℕ) → Holds array i (x ∷ xs) → Holds array (i + 1) xs
Holds-tail array i x xs h j y e =
    let same : i + 1 + j ≡ i + suc j = omega arith in rw same (h (suc j) y e)

pub Holds-take : (array : List ℕ) (n : ℕ) → Holds array 0 (take n array)
Holds-take array zero j x e = absurd (ground arith)
Holds-take [] (suc n) j x e = absurd (ground arith)
Holds-take (y ∷ array) (suc n) zero x e = e
Holds-take (y ∷ array) (suc n) (suc j) x e = ground (arith, Holds-take array n j x e)

pub assoc-NotIn :
    (ks : List ℕ) (cs : List Ptr) (b : ℕ)
    → length ks ≡ length cs
    → NonNull cs
    → assoc ks cs b ≡ 0
    → NotIn b ks
assoc-NotIn [] cs b l n e = tt
assoc-NotIn (k ∷ ks) [] b l n e = absurd (omega arith)
assoc-NotIn (k ∷ ks) (c ∷ cs) b l n e = elim (Bool-cases (k == b)) [
  | inl same ↦ absurd (n.0 (rw same at e))
  | inr other ↦ (ground arith, assoc-NotIn ks cs b (omega arith) n.1 (rw other at e))
]

-- `*findChild` in a Node4
pub find_key-assoc :
    (key child : List ℕ) (b i : ℕ) (ks cs : List ℕ)
    → length ks ≡ length cs
    → Holds key i ks
    → Holds child i cs
    → (find_key (length ks) i key b >>= λ found. elim found [ none ↦ done 0 | some j ↦ at child j ])
      ≡ done (assoc ks cs b)
unfolding find_key
find_key-assoc key child b i [] cs l hk hc = refl
find_key-assoc key child b i (k ∷ ks) [] l hk hc = absurd (omega arith)
find_key-assoc key child b i (k ∷ ks) (c ∷ cs) l hk hc =
    let here = Holds-head key i k ks hk in
    let there = Holds-head child i c cs hc in
    let rest =
      find_key-assoc key child b (i + 1) ks cs (omega arith) (Holds-tail key i k ks hk)
        (Holds-tail child i c cs hc) in
    elim (Bool-cases (k == b)) [ inl e ↦ rw (here, e, there) | inr e ↦ rw (here, e, rest) ]

-- `*findChild` in a Node16
pub lowest_set-assoc :
    (child : List ℕ) (b i : ℕ) (ks cs : List ℕ)
    → length ks ≡ length cs
    → Holds child i cs
    → (done (lowest_set i (equal_bits ks b)) >>= λ found. elim found [
      | none ↦ done 0
      | some j ↦ at child j
    ])
      ≡ done (assoc ks cs b)
unfolding lowest_set
lowest_set-assoc child b i [] cs l hc = refl
lowest_set-assoc child b i (k ∷ ks) [] l hc = absurd (omega arith)
lowest_set-assoc child b i (k ∷ ks) (c ∷ cs) l hc =
    let there = Holds-head child i c cs hc in
    let rest = lowest_set-assoc child b (i + 1) ks cs (omega arith) (Holds-tail child i c cs hc) in
    elim (Bool-cases (k == b)) [ inl e ↦ rw (e, there) | inr e ↦ rw (e, rest) ]

pub take-map : (n : ℕ) (f : ℕ → Bool) (xs : List ℕ) → take n (map f xs) ≡ map f (take n xs)
take-map zero f xs = refl
take-map (suc n) f [] = refl
take-map (suc n) f (x ∷ xs) = ap (◌∷◌ (f x)) (take-map n f xs)

pub place_of-le : (b : ℕ) (ks : List ℕ) → place_of b ks ≤ length ks
place_of-le b [] = omega arith
place_of-le b (k ∷ ks) = ground (arith, place_of-le b ks)

pub insert_position_lem :
    (key : List ℕ) (b i : ℕ) (ks : List ℕ)
    → Holds key i ks
    → insert_position (length ks) i key b ≡ done (i + place_of b ks)
unfolding insert_position
insert_position_lem key b i [] h = ground arith
insert_position_lem key b i (k ∷ ks) h =
    let here = Holds-head key i k ks h in
    let rest = insert_position_lem key b (i + 1) ks (Holds-tail key i k ks h) in
    ground (arith, here, rest)

-- a child that is put in anywhere is found under its byte, and the others under theirs
pub assoc-insert_at :
    (pos b c k : ℕ) (ks : List ℕ) (cs : List Ptr)
    → length ks ≡ length cs
    → pos ≤ length ks
    → NotIn b ks
    → assoc (insert_at pos b ks) (insert_at pos c cs) k ≡ (if b == k then c else assoc ks cs k)
assoc-insert_at zero b c k ks cs l p n = refl
assoc-insert_at (suc pos) b c k [] cs l p n = absurd (omega arith)
assoc-insert_at (suc pos) b c k (y ∷ ks) [] l p n = absurd (omega arith)
assoc-insert_at (suc pos) b c k (y ∷ ks) (d ∷ cs) l p n =
    let rest = assoc-insert_at pos b c k ks cs (omega arith) (omega arith) n.1 in
    let ne = n.0 in ground (arith, rest)

AllAbove-insert_at :
    (x b : ℕ) (pos : ℕ) (ks : List ℕ) → x < b → AllAbove x ks → AllAbove x (insert_at pos b ks)
AllAbove-insert_at x b zero ks lt all = (lt, all)
AllAbove-insert_at x b (suc pos) [] lt all = (lt, tt)
AllAbove-insert_at x b (suc pos) (k ∷ ks) lt all = (all.0, AllAbove-insert_at x b pos ks lt all.1)

AllAbove-trans : (x y : ℕ) (ks : List ℕ) → x < y → AllAbove y ks → AllAbove x ks
AllAbove-trans x y [] lt all = tt
AllAbove-trans x y (k ∷ ks) lt all = (omega (arith, all.0), AllAbove-trans x y ks lt all.1)

pub Ascending-insert_at :
    (b : ℕ) (ks : List ℕ)
    → b < 256
    → NotIn b ks
    → Ascending ks
    → Ascending (insert_at (place_of b ks) b ks)
Ascending-insert_at b [] byte n s = (byte, tt, tt)
Ascending-insert_at b (k ∷ ks) byte n s = elim (Bool-cases (ltb k b)) [
  | inl less ↦
      let lt : k < b = ground arith in
      rw less (
        s.0,
        AllAbove-insert_at k b (place_of b ks) ks lt s.1,
        Ascending-insert_at b ks byte n.1 s.2,
      )
  | inr more ↦
      let ne = n.0 in
      let lt : b < k = ground arith in rw more (byte, (lt, AllAbove-trans b k ks lt s.1), s)
]

pub NonNull-insert_at :
    (pos c : ℕ) (cs : List Ptr) → c ≢ 0 → NonNull cs → NonNull (insert_at pos c cs)
NonNull-insert_at zero c cs ne n = (ne, n)
NonNull-insert_at (suc pos) c [] ne n = (ne, tt)
NonNull-insert_at (suc pos) c (d ∷ cs) ne n = (n.0, NonNull-insert_at pos c cs ne n.1)

pub NonNull-get_or : (cs : List Ptr) (i : ℕ) → NonNull cs → i < length cs → get_or cs i 0 ≢ 0
NonNull-get_or [] i n h = absurd (omega arith)
NonNull-get_or (c ∷ cs) zero n h = n.0
NonNull-get_or (c ∷ cs) (suc i) n h = NonNull-get_or cs i n.1 (omega arith)
