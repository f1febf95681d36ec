-- ===== src/Competitors/Art/Bytes.antt =====
-- The order of the keys and of their bytes: `swapBytes`, and the comparison of keys from their first
-- byte on (src/competitors/art.hpp).
use learned_secondary_index.Common.{
  ℕ, ◌+◌, ◌*◌, ◌^◌, ◌<◌, ◌≡◌, refl, ap, ◌∙◌, ◌==◌, ◌⊎◌, inl, inr, Bool-cases, some, List, [], ◌∷◌,
  ◌++◌, length, get_elem?, arith, dec_lt,
}
use learned_secondary_index.Common.Run.{done}
use learned_secondary_index.Common.ArrayLaws.{get_elem?-append}
use learned_secondary_index.Competitors.Art.Heap.{swap_bytes}
use learned_secondary_index.Competitors.Art.Prefix.{compare_bytes}
use learned_secondary_index.Competitors.Art.Sorted.{Holds, Holds-head, Holds-tail}

abbrev pub AllBytes : List ℕ → Type 0
AllBytes [] = Unit
AllBytes (x ∷ xs) = (x < 256) × AllBytes xs

-- the number that the bytes write behind `acc`, highest first
abbrev pub number : (acc : ℕ) → List ℕ → ℕ
number acc [] = acc
number acc (x ∷ xs) = number (acc * 256 + x) xs

pub number_lt :
    (acc acc' : ℕ) (xs ys : List ℕ)
    → acc < acc'
    → length xs ≡ length ys
    → AllBytes xs
    → AllBytes ys
    → number acc xs < number acc' ys
number_lt acc acc' [] [] lt l u v = lt
number_lt acc acc' [] (y ∷ ys) lt l u v = absurd (omega arith)
number_lt acc acc' (x ∷ xs) [] lt l u v = absurd (omega arith)
number_lt acc acc' (x ∷ xs) (y ∷ ys) lt l u v =
    let less : acc * 256 + x < acc' * 256 + y = omega (arith, u.0) in
    number_lt (acc * 256 + x) (acc' * 256 + y) xs ys less (omega arith) u.1 v.1

-- how the first different byte orders two numbers
abbrev pub Orders : (a b : List ℕ) (from i m n : ℕ) → Type 0
Orders a b from i m n =
    (x : ℕ) × (y : ℕ) × (get_elem? a (from + i) ≡ some x)
    × (get_elem? b (from + i) ≡ some y)
    × (((x < y) × (m < n)) ⊎ ((y < x) × (n < m)))

pub compare_bytes-number :
    (a b : List ℕ) (from pos acc acc' : ℕ) (xs ys : List ℕ)
    → acc ≡ acc'
    → Holds a (from + pos) xs
    → Holds b (from + pos) ys
    → length xs ≡ length ys
    → AllBytes xs
    → AllBytes ys
    → ((compare_bytes (length xs) pos a from b from ≡ done (pos + length xs))
        × (number acc xs ≡ number acc' ys))
      ⊎ ((i : ℕ) × (compare_bytes (length xs) pos a from b from ≡ done i)
          × (i < pos + length xs)
          × Orders a b from i (number acc xs) (number acc' ys))
unfolding compare_bytes
compare_bytes-number a b from pos acc acc' [] [] q h h' l u v = inl (ap done (omega arith), q)
compare_bytes-number a b from pos acc acc' [] (y ∷ ys) q h h' l u v = absurd (omega arith)
compare_bytes-number a b from pos acc acc' (x ∷ xs) [] q h h' l u v = absurd (omega arith)
compare_bytes-number a b from pos acc acc' (x ∷ xs) (y ∷ ys) q h h' l u v =
    let here = Holds-head a (from + pos) x xs h in
    let there = Holds-head b (from + pos) y ys h' in
    let next : from + (pos + 1) ≡ from + pos + 1 = omega arith in
    let after = Holds-tail a (from + pos) x xs h in
    let after' = Holds-tail b (from + pos) y ys h' in
    elim (Bool-cases (x == y)) [
      | inl e ↦
          let same : acc * 256 + x ≡ acc' * 256 + y = ground arith in
          let rest =
            compare_bytes-number a b from (pos + 1) (acc * 256 + x) (acc' * 256 + y) xs ys same
              (rw next after) (rw next after') (omega arith) u.1 v.1 in
          elim rest [
            | inl (run, equal) ↦ inl (rw (here, there, e) (run ∙ ap done (omega arith)), equal)
            | inr (i, run, inside, order) ↦ inr (i, rw (here, there, e) run, omega arith, order)
          ]
      | inr e ↦ inr (
        pos,
        rw (here, there, e) refl,
        omega arith,
        (
          x,
          y,
          here,
          there,
          elim (dec_lt x y) [
            | yes less ↦ inl (
              less,
              number_lt (acc * 256 + x) (acc' * 256 + y) xs ys (omega arith) (omega arith) u.1 v.1,
            )
            | no more ↦
                let less : y < x = ground arith in
                inr (
                  less,
                  number_lt (acc' * 256 + y) (acc * 256 + x) ys xs (omega arith) (omega arith) v.1
                      u.1,
                )
          ],
        ),
      )
    ]

pub swap_bytes-AllBytes : (x : ℕ) → AllBytes (swap_bytes x)
swap_bytes-AllBytes x = (
  omega arith,
  (
    omega arith,
    (omega arith, (omega arith, (omega arith, (omega arith, (omega arith, (omega arith, tt)))))),
  ),
)

pub swap_bytes-number : (x : ℕ) → x < 2 ^ 64 → number 0 (swap_bytes x) ≡ x
swap_bytes-number x fits = omega arith

-- `compare_bytes` of a key and of what begins with the bytes of another key
pub compare_bytes-swap_bytes :
    (x k : ℕ) (behind : List ℕ)
    → x < 2 ^ 64
    → k < 2 ^ 64
    → ((compare_bytes 8 0 (swap_bytes x) 0 (swap_bytes k ++ behind) 0 ≡ done 8) × (x ≡ k))
      ⊎ ((i : ℕ) × (compare_bytes 8 0 (swap_bytes x) 0 (swap_bytes k ++ behind) 0 ≡ done i)
          × (i < 8)
          × Orders (swap_bytes x) (swap_bytes k ++ behind) 0 i x k)
compare_bytes-swap_bytes x k behind fits fits' =
    let found =
      compare_bytes-number (swap_bytes x) (swap_bytes k ++ behind) 0 0 0 0 (swap_bytes x)
        (swap_bytes k) refl (λ j y e. ap (get_elem? (swap_bytes x)) (omega arith) ∙ e)
        (λ j y e.
          ap (get_elem? (swap_bytes k ++ behind)) (omega arith)
          ∙ get_elem?-append (swap_bytes k) behind j y e)
        refl (swap_bytes-AllBytes x) (swap_bytes-AllBytes k) in
    rw (swap_bytes-number x fits, swap_bytes-number k fits') at found
