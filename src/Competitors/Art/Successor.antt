-- ===== src/Competitors/Art/Successor.antt =====
-- How `bound` leaves a node behind, and where `next` goes on in it (src/competitors/art.hpp).
use learned_secondary_index.Common.{
  ℕ, ◌+◌, ◌≤◌, ◌<◌, ◌≡◌, ◌≢◌, refl, ap, ◌∙◌, ◌==◌, if◌then◌else◌, Bool-cases, inl, inr, ◌⊎◌, false,
  get_or, take, arith,
}
use learned_secondary_index.Common.Run.{done}
use learned_secondary_index.Common.Arrays.{at}
use learned_secondary_index.Common.ArrayLaws.{at-get_or}
use learned_secondary_index.Competitors.Art.Node.{Ptr, Node, node4, node16, node48, node256}
use learned_secondary_index.Competitors.Art.Iterator.{step_child}
use learned_secondary_index.Competitors.Art.Search.{child_at, bound_child}
use learned_secondary_index.Competitors.Art.Sorted.{assoc, place_of}
use learned_secondary_index.Competitors.Art.Contract.{
  IsNode, indexed, child_at-node4, child_at-node16, child_at-node48,
}
use learned_secondary_index.Competitors.Art.Spread.{child_at-node256}
use learned_secondary_index.Competitors.Art.First.{FirstFrom, FirstFrom-next, FirstTo-FirstFrom}
use learned_secondary_index.Competitors.Art.After.{
  bound_sorted, after_sorted, step_indexed, step_direct,
}

-- `c` is the child of the first byte from `b` on that has one in the node, or null
abbrev pub FirstChild : Node → (b : ℕ) → (c : Ptr) → Type 0
FirstChild node b c =
    ((c ≡ 0) × ((k : ℕ) → b ≤ k → k < 256 → child_at node k ≡ done 0))
    ⊎ ((c ≢ 0)
        × ((k : ℕ) × (b ≤ k)
            × (k < 256)
            × (child_at node k ≡ done c)
            × ((j : ℕ) → b ≤ j → j < k → child_at node j ≡ done 0)))

FirstFrom-FirstChild :
    (node : Node) (child_of : ℕ → Ptr) (b : ℕ) (c : Ptr)
    → ((k : ℕ) → k < 256 → child_at node k ≡ done (child_of k))
    → FirstFrom child_of b c
    → FirstChild node b c
FirstFrom-FirstChild node child_of b c view (inl (null, none_there)) =
    inl (null, λ k le lt. view k lt ∙ ap done (none_there k le lt))
FirstFrom-FirstChild node child_of b c view (inr (there, (k, le, lt, at, before))) = inr (
  there,
  (k, le, lt, view k lt ∙ ap done at, λ j p q. view j (omega arith) ∙ ap done (before j p q)),
)

-- what `bound` finds for a byte, and what `next` goes on with
abbrev pub GoesOn : Node → (b : ℕ) → Type 0
GoesOn node b =
    (c : Ptr) × (pos : ℕ) × (c' : Ptr) × (pos' : ℕ) × (bound_child node b ≡ done (c, pos))
    × (child_at node b ≡ done c)
    × (step_child node (if c == 0 then pos else pos + 1) ≡ done (c', pos'))
    × FirstChild node (b + 1) c'

-- In a well-formed node of every type, `bound` takes for a byte the child that `findChild` finds,
-- and keeps a position from which `next` goes on to the child of the first byte above that has
-- one, or to none if no byte above has one. The position is one further if there is a child to go
-- down to.
pub bound_child-step : (node : Node) (b : ℕ) → IsNode node → b < 256 → GoesOn node b
unfolding bound_child step_child
bound_child-step (node4 h key child) b w byte =
    let (c', pos', run, first) = after_sorted 4 h key child w b in
    (
      assoc (take h.count key) (take h.count child) b,
      place_of b (take h.count key),
      c',
      pos',
      bound_sorted 4 h key child w b,
      child_at-node4 h key child b w,
      run,
      FirstFrom-FirstChild (node4 h key child) (assoc (take h.count key) (take h.count child))
          (b + 1) c' (λ k lt. child_at-node4 h key child k w) first,
    )
bound_child-step (node16 h key child) b w byte =
    let (c', pos', run, first) = after_sorted 16 h key child w b in
    (
      assoc (take h.count key) (take h.count child) b,
      place_of b (take h.count key),
      c',
      pos',
      bound_sorted 16 h key child w b,
      child_at-node16 h key child b w,
      run,
      FirstFrom-FirstChild (node16 h key child) (assoc (take h.count key) (take h.count child))
          (b + 1) c' (λ k lt. child_at-node16 h key child k w) first,
    )
bound_child-step (node48 h child_index child) b w byte =
    let node = node48 h child_index child in
    let i = get_or child_index b 0 in
    let index : at child_index b ≡ done i = at-get_or child_index b 0 (omega (arith, w.indices)) in
    let firsts = λ (c : Ptr).
      FirstFrom-FirstChild node (indexed child_index child) (b + 1) c
        (λ k lt. child_at-node48 h child_index child k lt w) in
    elim (w.index b byte) [
      | inl unused ↦
          let (c', pos', run, to) = step_indexed h child_index child b w (omega arith) in
          let first = FirstTo-FirstFrom (indexed child_index child) b c' pos' to in
          let null : indexed child_index child b ≡ 0 = rw unused refl in
          (
            0,
            b,
            c',
            pos',
            rw (index, unused) refl,
            child_at-node48 h child_index child b byte w ∙ ap done null,
            run,
            firsts c' (FirstFrom-next (indexed child_index child) b c' null first),
          )
      | inr less ↦
          let (c', pos', run, to) = step_indexed h child_index child (b + 1) w (omega arith) in
          let first = FirstTo-FirstFrom (indexed child_index child) (b + 1) c' pos' to in
          let test : (i == 48) ≡ false = ground (arith, w.fits) in
          let here : at child i ≡ done (get_or child i 0) =
            at-get_or child i 0 (omega (arith, w.slots, w.fits)) in
          let there : (get_or child i 0 == 0) ≡ false = let ne = w.nonnull i less in ground arith in
          (
            get_or child i 0,
            b,
            c',
            pos',
            rw (index, test, here) refl,
            child_at-node48 h child_index child b byte w ∙ rw test refl,
            rw there run,
            firsts c' first,
          )
    ]
bound_child-step (node256 h child) b w byte =
    let node = node256 h child in
    let here : at child b ≡ done (get_or child b 0) =
      at-get_or child b 0 (omega (arith, w.slots)) in
    let firsts = λ (c : Ptr).
      FirstFrom-FirstChild node (λ k. get_or child k 0) (b + 1) c
        (λ k lt. child_at-node256 h child k lt w) in
    elim (Bool-cases (get_or child b 0 == 0)) [
      | inl null ↦
          let (c', pos', run, to) = step_direct child b w.slots (omega arith) in
          let first = FirstTo-FirstFrom (λ k. get_or child k 0) b c' pos' to in
          (
            get_or child b 0,
            b,
            c',
            pos',
            rw here refl,
            child_at-node256 h child b byte w,
            rw null run,
            firsts c' (FirstFrom-next (λ k. get_or child k 0) b c' (ground arith) first),
          )
      | inr there ↦
          let (c', pos', run, to) = step_direct child (b + 1) w.slots (omega arith) in
          let first = FirstTo-FirstFrom (λ k. get_or child k 0) (b + 1) c' pos' to in
          (
            get_or child b 0,
            b,
            c',
            pos',
            rw here refl,
            child_at-node256 h child b byte w,
            rw there run,
            firsts c' first,
          )
    ]
