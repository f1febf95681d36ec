-- ===== src/Competitors/Art/KeyOrder.antt =====
-- The order of keys by their first different byte
-- (src/competitors/art.hpp).
use learned_secondary_index.Common.{
  ℕ, zero, suc, ◌+◌, ◌*◌, ◌^◌, ◌≤◌, ◌<◌, ◌≡◌, ◌≢◌, refl, ap, ◌∙◌, ltb, ◌==◌, ◌⊎◌, inl, inr,
  Bool-cases, true, List, [], ◌∷◌, ◌++◌, length, get_or, arith, ℕ_discrete,
}
use learned_secondary_index.Common.Run.{Run, done}
use learned_secondary_index.Common.Arrays.{at}
use learned_secondary_index.Common.ArrayLaws.{at-get_or, get_or-append}
use learned_secondary_index.Competitors.Art.Heap.{swap_bytes}
use learned_secondary_index.Competitors.Art.Prefix.{compare_bytes}
use learned_secondary_index.Competitors.Art.Bytes.{
  AllBytes, number, number_lt, swap_bytes-AllBytes, swap_bytes-number,
}
use learned_secondary_index.Competitors.Art.Subtree.{byte}

number-differ :
    (j acc : ℕ) (xs ys : List ℕ)
    → length xs ≡ length ys
    → AllBytes xs
    → AllBytes ys
    → j < length xs
    → ((i : ℕ) → i < j → get_or xs i 0 ≡ get_or ys i 0)
    → get_or xs j 0 < get_or ys j 0
    → number acc xs < number acc ys
number-differ j acc [] ys l u v lt same less = absurd (omega arith)
number-differ j acc (x ∷ xs) [] l u v lt same less = absurd (omega arith)
number-differ zero acc (x ∷ xs) (y ∷ ys) l u v lt same less =
    number_lt (acc * 256 + x) (acc * 256 + y) xs ys (omega arith) (omega arith) u.1 v.1
number-differ (suc j) acc (x ∷ xs) (y ∷ ys) l u v lt same less =
    let first : x ≡ y = same 0 (omega arith) in
    rw first (
      number-differ j (acc * 256 + y) xs ys (omega arith) u.1 v.1 (omega arith)
        (λ i le. same (suc i) (omega arith)) less)

number-same :
    (acc : ℕ) (xs ys : List ℕ)
    → length xs ≡ length ys
    → ((i : ℕ) → i < length xs → get_or xs i 0 ≡ get_or ys i 0)
    → number acc xs ≡ number acc ys
number-same acc [] [] l same = refl
number-same acc [] (y ∷ ys) l same = absurd (omega arith)
number-same acc (x ∷ xs) [] l same = absurd (omega arith)
number-same acc (x ∷ xs) (y ∷ ys) l same =
    let first : x ≡ y = same 0 (omega arith) in
    rw first (number-same (acc * 256 + y) xs ys (omega arith) (λ i le. same (suc i) (omega arith)))

-- the first `d` bytes of two keys are the same
abbrev pub Agree : (d x k : ℕ) → Type 0
Agree d x k = (i : ℕ) → i < d → byte x i ≡ byte k i

pub Agree-suc : (d x k : ℕ) → Agree d x k → byte x d ≡ byte k d → Agree (suc d) x k
Agree-suc d x k same here i lt = elim (ℕ_discrete i d) [
  | yes e ↦ rw e here
  | no other ↦ same i (omega (arith, other))
]

pub less_at :
    (j x k : ℕ) → x < 2 ^ 64 → k < 2 ^ 64 → j < 8 → Agree j x k → byte x j < byte k j → x < k
less_at j x k fits fits' lt same less =
    let found =
      number-differ j 0 (swap_bytes x) (swap_bytes k) refl (swap_bytes-AllBytes x)
        (swap_bytes-AllBytes k) lt same less in
    rw (swap_bytes-number x fits, swap_bytes-number k fits') at found

pub Agree-all : (x k : ℕ) → x < 2 ^ 64 → k < 2 ^ 64 → Agree 8 x k → x ≡ k
Agree-all x k fits fits' same =
    let found = number-same 0 (swap_bytes x) (swap_bytes k) refl same in
    rw (swap_bytes-number x fits, swap_bytes-number k fits') at found

-- the bytes of a key, and what stands behind them
pub key-byte : (k i : ℕ) (behind : List ℕ) → i < 8 → get_or (swap_bytes k ++ behind) i 0 ≡ byte k i
key-byte k i behind lt =
    let inside : ltb i 8 ≡ true = ground arith in
    get_or-append (swap_bytes k) behind i 0 ∙ rw inside refl

pub at-key : (k i : ℕ) (behind : List ℕ) → i < 8 → at (swap_bytes k ++ behind) i ≡ done (byte k i)
at-key k i behind lt =
    at-get_or (swap_bytes k ++ behind) i 0 (omega arith) ∙ ap done (key-byte k i behind lt)

-- what `compare_bytes` finds in two arrays that can be read
compare_bytes_from :
    (m pos : ℕ) (a : List ℕ) (from_a : ℕ) (f : ℕ → ℕ) (b : List ℕ) (from_b : ℕ) (g : ℕ → ℕ)
    → ((i : ℕ) → i < pos + m → at a (from_a + i) ≡ done (f i))
    → ((i : ℕ) → i < pos + m → at b (from_b + i) ≡ done (g i))
    → ((compare_bytes m pos a from_a b from_b ≡ done (pos + m))
        × ((i : ℕ) → pos ≤ i → i < pos + m → f i ≡ g i))
      ⊎ ((i : ℕ) × (compare_bytes m pos a from_a b from_b ≡ done i)
          × (i < pos + m)
          × (f i ≢ g i)
          × ((j : ℕ) → pos ≤ j → j < i → f j ≡ g j))
unfolding compare_bytes
compare_bytes_from zero pos a from_a f b from_b g ra rb =
    inl (ap done (omega arith), λ i le lt. absurd (omega arith))
compare_bytes_from (suc m) pos a from_a f b from_b g ra rb =
    let here = ra pos (omega arith) in
    let here' = rb pos (omega arith) in
    elim (Bool-cases (f pos == g pos)) [
      | inr e ↦ inr (
        pos,
        rw (here, here', e) refl,
        omega arith,
        (λ same. ground arith),
        λ j le lt. absurd (omega arith),
      )
      | inl e ↦
          let same : f pos ≡ g pos = ground arith in
          elim (compare_bytes_from m (pos + 1) a from_a f b from_b g (λ i lt. ra i (omega arith))
            (λ i lt. rb i (omega arith))) [
              | inl (run, all) ↦ inl (
                rw (here, here', e) (run ∙ ap done (omega arith)),
                λ i le lt. elim (ℕ_discrete i pos) [
                  | yes q ↦ rw q same
                  | no other ↦ all i (omega (arith, other)) (omega arith)
                ],
              )
              | inr (i, run, lt, differ, before) ↦ inr (
                i,
                rw (here, here', e) run,
                omega arith,
                differ,
                λ j le lt'. elim (ℕ_discrete j pos) [
                  | yes q ↦ rw q same
                  | no other ↦ before j (omega (arith, other)) lt'
                ],
              )
            ]
    ]

-- `compare_bytes` from the first byte on finds no difference, or the first one
abbrev pub Compared : (run : Run ℕ) (m : ℕ) (f g : ℕ → ℕ) → Type 0
Compared run m f g =
    ((run ≡ done m) × ((i : ℕ) → i < m → f i ≡ g i))
    ⊎ ((i : ℕ) × (run ≡ done i) × (i < m) × (f i ≢ g i) × ((j : ℕ) → j < i → f j ≡ g j))

pub compare_bytes_lem :
    (m : ℕ) (a : List ℕ) (from_a : ℕ) (f : ℕ → ℕ) (b : List ℕ) (from_b : ℕ) (g : ℕ → ℕ)
    → ((i : ℕ) → i < m → at a (from_a + i) ≡ done (f i))
    → ((i : ℕ) → i < m → at b (from_b + i) ≡ done (g i))
    → Compared (compare_bytes m 0 a from_a b from_b) m f g
compare_bytes_lem m a from_a f b from_b g ra rb =
    elim (compare_bytes_from m 0 a from_a f b from_b g (λ i lt. ra i (omega arith))
      (λ i lt. rb i (omega arith))) [
        | inl (run, all) ↦
            inl (run ∙ ap done (omega arith), λ i lt. all i (omega arith) (omega arith))
        | inr (i, run, lt, differ, before) ↦
            inr (i, run, omega arith, differ, λ j le. before j (omega arith) le)
      ]
