-- ===== src/Competitors/Art/First.antt =====
-- The first child from a byte on: in the sorted keys of a Node4 or Node16, and in the arrays of the
-- other nodes (src/competitors/art.hpp).
use learned_secondary_index.Common.{
  ℕ, zero, suc, ◌+◌, ◌≤◌, ◌<◌, ◌≡◌, ◌≢◌, refl, ap, ◌∙◌, sym, ltb, ◌==◌, if◌then◌else◌, Bool-cases,
  inl, inr, ◌⊎◌, true, false, List, [], ◌∷◌, length, get_or, arith, ℕ_discrete,
}
use learned_secondary_index.Common.Run.{done}
use learned_secondary_index.Common.Arrays.{at}
use learned_secondary_index.Common.ArrayLaws.{at-get_or}
use learned_secondary_index.Competitors.Art.Node.{Ptr}
use learned_secondary_index.Competitors.Art.Iterator.{next_used}
use learned_secondary_index.Competitors.Art.Search.{bound_key}
use learned_secondary_index.Competitors.Art.Sorted.{
  assoc, AllAbove, Ascending, NonNull, place_of, Holds, Holds-head, Holds-tail,
}

-- `c` is the child of the first byte from `b` on that has one, or null
abbrev pub FirstFrom : (child_of : ℕ → Ptr) → (b : ℕ) → (c : Ptr) → Type 0
FirstFrom child_of b c =
    ((c ≡ 0) × ((k : ℕ) → b ≤ k → k < 256 → child_of k ≡ 0))
    ⊎ ((c ≢ 0)
        × ((k : ℕ) × (b ≤ k)
            × (k < 256)
            × (child_of k ≡ c)
            × ((j : ℕ) → b ≤ j → j < k → child_of j ≡ 0)))

-- the same, with the position behind that byte
abbrev pub FirstTo : (child_of : ℕ → Ptr) → (b : ℕ) → (c : Ptr) → (p : ℕ) → Type 0
FirstTo child_of b c p =
    ((c ≡ 0) × ((k : ℕ) → b ≤ k → k < 256 → child_of k ≡ 0))
    ⊎ ((c ≢ 0)
        × ((k : ℕ) × (b ≤ k)
            × (k < 256)
            × (child_of k ≡ c)
            × ((j : ℕ) → b ≤ j → j < k → child_of j ≡ 0)
            × (p ≡ k + 1)))

pub FirstTo-FirstFrom :
    (child_of : ℕ → Ptr) (b : ℕ) (c : Ptr) (p : ℕ) → FirstTo child_of b c p → FirstFrom child_of b c
FirstTo-FirstFrom child_of b c p (inl none_there) = inl none_there
FirstTo-FirstFrom child_of b c p (inr (there, (k, le, lt, e, before, behind))) =
    inr (there, (k, le, lt, e, before))

assoc-below : (x j : ℕ) (ks : List ℕ) (cs : List Ptr) → AllAbove x ks → j ≤ x → assoc ks cs j ≡ 0
assoc-below x j [] cs all le = refl
assoc-below x j (k ∷ ks) [] all le = refl
assoc-below x j (k ∷ ks) (c ∷ cs) all le =
    let other : (k == j) ≡ false = ground (arith, all.0) in
    rw other (assoc-below x j ks cs all.1 le)

pub assoc-FirstFrom :
    (b : ℕ) (ks : List ℕ) (cs : List Ptr)
    → length ks ≡ length cs
    → Ascending ks
    → NonNull cs
    → FirstFrom (assoc ks cs) b (get_or cs (place_of b ks) 0)
assoc-FirstFrom b [] [] l s n = inl (refl, λ k le lt. refl)
assoc-FirstFrom b [] (c ∷ cs) l s n = absurd (omega arith)
assoc-FirstFrom b (x ∷ ks) [] l s n = absurd (omega arith)
assoc-FirstFrom b (x ∷ ks) (c ∷ cs) l s n = elim (Bool-cases (ltb x b)) [
  | inl less ↦
      let skip : (j : ℕ) → b ≤ j → (x == j) ≡ false = λ j le. ground arith in
      rw less (elim (assoc-FirstFrom b ks cs (omega arith) s.2 n.1) [
        | inl (null, none_there) ↦ inl (null, λ k le lt. rw (skip k le) (none_there k le lt))
        | inr (there, (k, le, lt, e, before)) ↦
            inr (there, (k, le, lt, rw (skip k le) e, λ j p q. rw (skip j p) (before j p q)))
      ])
  | inr more ↦
      let self : (x == x) ≡ true = ground arith in
      rw more (
        inr (
          n.0,
          (
            x,
            ground arith,
            s.0,
            rw self refl,
            λ j p q.
                let other : (x == j) ≡ false = ground arith in
                rw other (assoc-below x j ks cs s.1 (omega arith)),
          ),
        ))
]

-- the loop of `bound` over the keys of a Node4 or Node16
pub bound_key-assoc :
    (key child : List ℕ) (b i : ℕ) (ks cs : List ℕ)
    → length ks ≡ length cs
    → Ascending ks
    → Holds key i ks
    → Holds child i cs
    → bound_key (length ks) i key child b ≡ done (assoc ks cs b, i + place_of b ks)
unfolding bound_key
bound_key-assoc key child b i [] [] l s hk hc = ap (λ p. done (0, p)) (omega arith)
bound_key-assoc key child b i [] (c ∷ cs) l s hk hc = absurd (omega arith)
bound_key-assoc key child b i (k ∷ ks) [] l s hk hc = absurd (omega arith)
bound_key-assoc key child b i (k ∷ ks) (c ∷ cs) l s hk hc =
    let here = Holds-head key i k ks hk in
    let there = Holds-head child i c cs hc in
    let rest =
      bound_key-assoc key child b (i + 1) ks cs (omega arith) s.2 (Holds-tail key i k ks hk)
        (Holds-tail child i c cs hc) in
    elim (Bool-cases (k == b)) [
      | inl e ↦
          let first : ltb k b ≡ false = ground arith in
          rw (here, there, e, first) (ap (λ p. done (c, p)) (omega arith))
      | inr e ↦ elim (Bool-cases (ltb b k)) [
        | inl more ↦
            let first : ltb k b ≡ false = ground arith in
            rw (here, e, more, first, assoc-below k b ks cs s.1 (ground arith))
              (ap (λ p. done (0, p)) (omega arith))
        | inr less ↦
            let skip : ltb k b ≡ true = ground arith in
            rw (here, e, less, skip, rest) (ap (λ p. done (assoc ks cs b, p)) (omega arith))
      ]
    ]

place_of-below : (x b : ℕ) (ks : List ℕ) → AllAbove x ks → b ≤ suc x → place_of b ks ≡ 0
place_of-below x b [] all le = refl
place_of-below x b (k ∷ ks) all le =
    let first : ltb k b ≡ false = ground (arith, all.0) in rw first refl

-- where the next key goes on
pub place_of-suc :
    (b : ℕ) (ks : List ℕ) (cs : List Ptr)
    → length ks ≡ length cs
    → Ascending ks
    → NonNull cs
    → (if assoc ks cs b == 0 then place_of b ks else place_of b ks + 1) ≡ place_of (b + 1) ks
place_of-suc b [] cs l s n = refl
place_of-suc b (k ∷ ks) [] l s n = absurd (omega arith)
place_of-suc b (k ∷ ks) (c ∷ cs) l s n = elim (Bool-cases (k == b)) [
  | inl e ↦
      let there : (c == 0) ≡ false = let ne = n.0 in ground arith in
      let first : ltb k b ≡ false = ground arith in
      let skip : ltb k (b + 1) ≡ true = ground arith in
      rw (e, there, first, skip, place_of-below k (b + 1) ks s.1 (ground arith)) refl
  | inr e ↦ elim (Bool-cases (ltb b k)) [
    | inl more ↦
        let first : ltb k b ≡ false = ground arith in
        let first' : ltb k (b + 1) ≡ false = ground arith in
        rw (e, first, first', assoc-below k b ks cs s.1 (ground arith)) refl
    | inr less ↦
        let skip : ltb k b ≡ true = ground arith in
        let skip' : ltb k (b + 1) ≡ true = ground arith in
        let rest = place_of-suc b ks cs (omega arith) s.2 n.1 in
        rw (e, skip, skip')
          (elim (Bool-cases (assoc ks cs b == 0)) [
            | inl null ↦ rw null (ap suc (rw null at rest))
            | inr there ↦
                let rest' : place_of b ks + 1 ≡ place_of (b + 1) ks = rw there at rest in
                rw there (omega arith)
          ])
  ]
]

pub next_used_lem :
    (rounds pos : ℕ) (used : List ℕ) (unused : ℕ)
    → pos + rounds ≡ length used
    → (p : ℕ) × (next_used rounds pos used unused ≡ done p)
      × (pos ≤ p)
      × (p ≤ length used)
      × ((j : ℕ) → pos ≤ j → j < p → get_or used j 0 ≡ unused)
      × (p < length used → get_or used p 0 ≢ unused)
unfolding next_used
next_used_lem zero pos used unused e =
    (pos, refl, omega arith, omega arith, λ j p q. absurd (omega arith), λ lt. absurd (omega arith))
next_used_lem (suc rounds) pos used unused e =
    let here : at used pos ≡ done (get_or used pos 0) = at-get_or used pos 0 (omega arith) in
    elim (Bool-cases (get_or used pos 0 == unused)) [
      | inl free ↦
          let (p, run, le, le', before, last) =
            next_used_lem rounds (pos + 1) used unused (omega arith) in
          (
            p,
            rw (here, free) run,
            omega arith,
            le',
            λ j q r. elim (Bool-cases (j == pos)) [
              | inl same ↦ let e' : j ≡ pos = ground arith in rw e' (ground arith)
              | inr other ↦ before j (ground arith) r
            ],
            last,
          )
      | inr taken ↦ (
        pos,
        rw (here, taken) refl,
        omega arith,
        omega arith,
        λ j p q. absurd (omega arith),
        λ lt. ground arith,
      )
    ]

pub FirstFrom-next :
    (child_of : ℕ → Ptr) (b : ℕ) (c : Ptr)
    → child_of b ≡ 0
    → FirstFrom child_of b c
    → FirstFrom child_of (b + 1) c
FirstFrom-next child_of b c e (inl (null, none_there)) =
    inl (null, λ k le lt. none_there k (omega arith) lt)
FirstFrom-next child_of b c e (inr (there, (k, le, lt, at, before))) = elim (ℕ_discrete k b) [
  | yes same ↦ absurd (there (sym at ∙ (ap child_of same ∙ e)))
  | no other ↦ inr (there, (k, omega (arith, other), lt, at, λ j p q. before j (omega arith) q))
]
