-- ===== src/Competitors/Art/SlotWrite.antt =====
-- The slot that `findChild` finds in the keys of a Node4 or Node16, and a write to it
-- (src/competitors/art.hpp).
use learned_secondary_index.Common.{
  ℕ, zero, suc, ◌+◌, ◌<◌, ◌≡◌, ◌≢◌, refl, ap, ◌∙◌, ◌==◌, if◌then◌else◌, Bool-cases, false, inl, inr,
  some, List, [], ◌∷◌, length, get_elem?, get_or, take, arith,
}
use learned_secondary_index.Common.Run.{done}
use learned_secondary_index.Common.Arrays.{set}
use learned_secondary_index.Competitors.Art.Node.{Ptr}
use learned_secondary_index.Competitors.Art.Children.{find_key, lowest_set, equal_bits}
use learned_secondary_index.Competitors.Art.Sorted.{assoc, NonNull, Holds, Holds-head, Holds-tail}

abbrev pub first_of : (b : ℕ) → List ℕ → ℕ
first_of b [] = 0
first_of b (k ∷ ks) = if k == b then 0 else suc (first_of b ks)

pub take-set : (n i : ℕ) (v : ℕ) (a : List ℕ) → take n (set a i v) ≡ set (take n a) i v
take-set zero i v [] = refl
take-set zero zero v (x ∷ a) = refl
take-set zero (suc i) v (x ∷ a) = refl
take-set (suc n) i v [] = refl
take-set (suc n) zero v (x ∷ a) = refl
take-set (suc n) (suc i) v (x ∷ a) = ap (◌∷◌ x) (take-set n i v a)

pub NonNull-set : (cs : List Ptr) (i : ℕ) (v : Ptr) → NonNull cs → v ≢ 0 → NonNull (set cs i v)
NonNull-set [] i v n ne = tt
NonNull-set (c ∷ cs) zero v n ne = (ne, n.1)
NonNull-set (c ∷ cs) (suc i) v n ne = (n.0, NonNull-set cs i v n.1 ne)

pub get_elem?-take :
    (n i x : ℕ) (a : List ℕ) → get_elem? (take n a) i ≡ some x → get_elem? a i ≡ some x
get_elem?-take zero i x a e = absurd (ground arith)
get_elem?-take (suc n) i x [] e = absurd (ground arith)
get_elem?-take (suc n) zero x (y ∷ a) e = e
get_elem?-take (suc n) (suc i) x (y ∷ a) e = get_elem?-take n i x a e

pub get_elem?-get_or : (a : List ℕ) (i : ℕ) → i < length a → get_elem? a i ≡ some (get_or a i 0)
get_elem?-get_or [] i lt = absurd (omega arith)
get_elem?-get_or (x ∷ a) zero lt = refl
get_elem?-get_or (x ∷ a) (suc i) lt = get_elem?-get_or a i (omega arith)

module _ (b : ℕ) where
  pub get_elem?-first_of :
      (ks cs : List ℕ) → assoc ks cs b ≢ 0 → get_elem? cs (first_of b ks) ≡ some (assoc ks cs b)
  get_elem?-first_of [] cs ne = absurd (ne refl)
  get_elem?-first_of (k ∷ ks) [] ne = absurd (ne refl)
  get_elem?-first_of (k ∷ ks) (c ∷ cs) ne = elim (Bool-cases (k == b)) [
    | inl e ↦ rw e refl
    | inr e ↦ rw e (get_elem?-first_of ks cs (rw e at ne))
  ]

  pub find_key-first_of :
      (key : List ℕ) (i : ℕ) (ks cs : List ℕ)
      → Holds key i ks
      → assoc ks cs b ≢ 0
      → find_key (length ks) i key b ≡ done (some (i + first_of b ks))
  unfolding find_key
  find_key-first_of key i [] cs h ne = absurd (ne refl)
  find_key-first_of key i (k ∷ ks) [] h ne = absurd (ne refl)
  find_key-first_of key i (k ∷ ks) (c ∷ cs) h ne =
      let here = Holds-head key i k ks h in
      elim (Bool-cases (k == b)) [
        | inl e ↦ rw (here, e) (ap (λ j. done (some j)) (omega arith))
        | inr e ↦
            let rest = find_key-first_of key (i + 1) ks cs (Holds-tail key i k ks h) (rw e at ne) in
            rw (here, e) (rest ∙ ap (λ j. done (some j)) (omega arith))
      ]

  pub lowest_set-first_of :
      (i : ℕ) (ks cs : List ℕ)
      → assoc ks cs b ≢ 0
      → lowest_set i (equal_bits ks b) ≡ some (i + first_of b ks)
  unfolding lowest_set
  lowest_set-first_of i [] cs ne = absurd (ne refl)
  lowest_set-first_of i (k ∷ ks) [] ne = absurd (ne refl)
  lowest_set-first_of i (k ∷ ks) (c ∷ cs) ne = elim (Bool-cases (k == b)) [
    | inl e ↦ rw e (ap some (omega arith))
    | inr e ↦
        let rest = lowest_set-first_of (i + 1) ks cs (rw e at ne) in
        rw e (rest ∙ ap some (omega arith))
  ]

  pub assoc-set_same :
      (ks cs : List ℕ) (v : ℕ) → assoc ks cs b ≢ 0 → assoc ks (set cs (first_of b ks) v) b ≡ v
  assoc-set_same [] cs v ne = absurd (ne refl)
  assoc-set_same (k ∷ ks) [] v ne = absurd (ne refl)
  assoc-set_same (k ∷ ks) (c ∷ cs) v ne = elim (Bool-cases (k == b)) [
    | inl e ↦ rw (e, e) refl
    | inr e ↦ rw (e, e) (assoc-set_same ks cs v (rw e at ne))
  ]

  pub assoc-set_other :
      (ks cs : List ℕ) (v k : ℕ) → k ≢ b → assoc ks (set cs (first_of b ks) v) k ≡ assoc ks cs k
  assoc-set_other [] cs v k ne = refl
  assoc-set_other (y ∷ ks) [] v k ne = refl
  assoc-set_other (y ∷ ks) (c ∷ cs) v k ne = elim (Bool-cases (y == b)) [
    | inl e ↦ let other : (y == k) ≡ false = ground arith in rw (e, other) refl
    | inr e ↦ rw e (ap (λ z. if y == k then c else z) (assoc-set_other ks cs v k ne))
  ]
