-- ===== src/Competitors/Art/Cursor.antt =====
-- The position that an iterator keeps in a node stands for a key byte: the children from it on are
-- those of the bytes from that one on (src/competitors/art.hpp).
use learned_secondary_index.Common.{
  ℕ, zero, suc, ◌+◌, ◌-◌, ◌≤◌, ◌<◌, ◌≡◌, ◌≢◌, refl, ap, ◌∙◌, sym, ltb, ◌==◌, inl, inr, ◌⊎◌, true,
  false, List, [], ◌∷◌, length, get_or, take, arith,
}
use learned_secondary_index.Common.Run.{done}
use learned_secondary_index.Common.Arrays.{at}
use learned_secondary_index.Common.ArrayLaws.{at-get_or}
use learned_secondary_index.Competitors.Art.Node.{Ptr, Header, Node, node4, node16, node48, node256}
use learned_secondary_index.Competitors.Art.Iterator.{step_child}
use learned_secondary_index.Competitors.Art.Search.{child_at, bound_child}
use learned_secondary_index.Competitors.Art.Sorted.{assoc, Ascending, NonNull, place_of}
use learned_secondary_index.Competitors.Art.Contract.{
  IsNode, IsSortedNode, same_length, indexed, child_at-node4, child_at-node16, child_at-node48,
}
use learned_secondary_index.Competitors.Art.Spread.{child_at-node256}
use learned_secondary_index.Competitors.Art.First.{FirstFrom, FirstTo, place_of-suc}
use learned_secondary_index.Competitors.Art.After.{
  bound_sorted, step_sorted, step_indexed, step_direct, from_key,
}

-- where an iterator stands that has the bytes from `b` on before it
abbrev pub pos_of : Node → (b : ℕ) → ℕ
pos_of (node4 h key child) b = place_of b (take h.count key)
pos_of (node16 h key child) b = place_of b (take h.count key)
pos_of (node48 h child_index child) b = b
pos_of (node256 h child) b = b

place_of_zero : (ks : List ℕ) → place_of 0 ks ≡ 0
place_of_zero [] = refl
place_of_zero (k ∷ ks) = let first : ltb k 0 ≡ false = ground arith in rw first refl

pub pos_of_zero : (node : Node) → pos_of node 0 ≡ 0
pos_of_zero (node4 h key child) = place_of_zero (take h.count key)
pos_of_zero (node16 h key child) = place_of_zero (take h.count key)
pos_of_zero (node48 h child_index child) = refl
pos_of_zero (node256 h child) = refl

module _ (ks : List ℕ) (cs : List Ptr) (l : length ks ≡ length cs) (s : Ascending ks)
    (n : NonNull cs) where
  place_of_absent : (b : ℕ) → assoc ks cs b ≡ 0 → place_of b ks ≡ place_of (b + 1) ks
  place_of_absent b e =
      let null : (assoc ks cs b == 0) ≡ true = ground arith in
      rw null at (place_of-suc b ks cs l s n)

  place_of_present : (b : ℕ) → assoc ks cs b ≢ 0 → place_of b ks + 1 ≡ place_of (b + 1) ks
  place_of_present b ne =
      let there : (assoc ks cs b == 0) ≡ false = ground arith in
      rw there at (place_of-suc b ks cs l s n)

  place_of_skip :
      (rounds b : ℕ)
      → ((j : ℕ) → b ≤ j → j < b + rounds → assoc ks cs j ≡ 0)
      → place_of b ks ≡ place_of (b + rounds) ks
  place_of_skip zero b absent = ap (λ i. place_of i ks) (omega arith)
  place_of_skip (suc rounds) b absent =
      place_of_absent b (absent b (omega arith) (omega arith))
      ∙ place_of_skip rounds (b + 1) (λ j p q. absent j (omega arith) (omega arith))
      ∙ ap (λ i. place_of i ks) (omega arith)

  place_of_found :
      (b k : ℕ)
      → b ≤ k
      → assoc ks cs k ≢ 0
      → ((j : ℕ) → b ≤ j → j < k → assoc ks cs j ≡ 0)
      → place_of b ks + 1 ≡ place_of (k + 1) ks
  place_of_found b k le there before =
      let same : place_of b ks ≡ place_of k ks =
        place_of_skip (k - b) b (λ j p q. before j p (omega arith))
        ∙ ap (λ i. place_of i ks) (omega arith) in
      ap (λ i. i + 1) same ∙ place_of_present k there

-- the first child from `b` on, with the position behind it
abbrev pub NextChild : Node → (b : ℕ) → (c : Ptr) → (p : ℕ) → Type 0
NextChild node b c p =
    ((c ≡ 0) × ((k : ℕ) → b ≤ k → k < 256 → child_at node k ≡ done 0))
    ⊎ ((c ≢ 0)
        × ((k : ℕ) × (b ≤ k)
            × (k < 256)
            × (child_at node k ≡ done c)
            × (p ≡ pos_of node (k + 1))
            × ((j : ℕ) → b ≤ j → j < k → child_at node j ≡ done 0)))

FirstFrom-NextChild :
    (node : Node) (child_of : ℕ → Ptr) (b : ℕ) (c : Ptr) (p : ℕ)
    → ((k : ℕ) → k < 256 → child_at node k ≡ done (child_of k))
    → ((k : ℕ)
        → b ≤ k
        → child_of k ≡ c
        → c ≢ 0
        → ((j : ℕ) → b ≤ j → j < k → child_of j ≡ 0)
        → p ≡ pos_of node (k + 1))
    → FirstFrom child_of b c
    → NextChild node b c p
FirstFrom-NextChild node child_of b c p view behind (inl (null, none_there)) =
    inl (null, λ k le lt. view k lt ∙ ap done (none_there k le lt))
FirstFrom-NextChild node child_of b c p view behind (inr (there, (k, le, lt, here, before))) = inr (
  there,
  (
    k,
    le,
    lt,
    view k lt ∙ ap done here,
    behind k le here there before,
    λ j q r. view j (omega arith) ∙ ap done (before j q r),
  ),
)

FirstTo-NextChild :
    (node : Node) (child_of : ℕ → Ptr) (b : ℕ) (c : Ptr) (p : ℕ)
    → ((k : ℕ) → k < 256 → child_at node k ≡ done (child_of k))
    → ((k : ℕ) → pos_of node k ≡ k)
    → FirstTo child_of b c p
    → NextChild node b c p
FirstTo-NextChild node child_of b c p view own (inl (null, none_there)) =
    inl (null, λ k le lt. view k lt ∙ ap done (none_there k le lt))
FirstTo-NextChild node child_of b c p view own (inr (there, (k, le, lt, here, before, behind))) =
    inr (
      there,
      (
        k,
        le,
        lt,
        view k lt ∙ ap done here,
        behind ∙ sym (own (k + 1)),
        λ j q r. view j (omega arith) ∙ ap done (before j q r),
      ),
    )

-- a Node4 or Node16
module _ (cap : ℕ) (h : Header) (key : List ℕ) (child : List Ptr) (w : IsSortedNode cap h key child)
    (node : Node) (same_pos : (b : ℕ) → pos_of node b ≡ place_of b (take h.count key))
    (view : (k : ℕ)
      → child_at node k ≡ done (assoc (take h.count key) (take h.count child) k)) where
  step_keys :
      (b : ℕ)
      → (c : Ptr) × (p : ℕ) × (from_key cap h key child w (place_of b (take h.count key))
          ≡ done (c, p))
        × NextChild node b c p
  step_keys b =
      let ks = take h.count key in
      let cs = take h.count child in
      let l = same_length h key child cap w in
      let (c, p, run, first, behind) = step_sorted cap h key child w b in
      (
        c,
        p,
        run,
        FirstFrom-NextChild node (assoc ks cs) b c p (λ k lt. view k)
            (λ k le here there before.
              behind there
              ∙ place_of_found ks cs l w.ascending w.nonnull b k le (λ e. there (sym here ∙ e))
                  before
              ∙ sym (same_pos (k + 1)))
            first,
      )

-- the `switch` of `next` at the position of a byte
pub step_child_lem :
    (node : Node) (b : ℕ)
    → IsNode node
    → b ≤ 256
    → (c : Ptr) × (p : ℕ) × (step_child node (pos_of node b) ≡ done (c, p)) × NextChild node b c p
unfolding step_child
step_child_lem (node4 h key child) b w le =
    step_keys 4 h key child w (node4 h key child) (λ b. refl) (λ k. child_at-node4 h key child k w)
      b
step_child_lem (node16 h key child) b w le =
    step_keys 16 h key child w (node16 h key child) (λ b. refl)
      (λ k. child_at-node16 h key child k w) b
step_child_lem (node48 h child_index child) b w le =
    let (c, p, run, to) = step_indexed h child_index child b w le in
    (
      c,
      p,
      run,
      FirstTo-NextChild (node48 h child_index child) (indexed child_index child) b c p
          (λ k lt. child_at-node48 h child_index child k lt w) (λ k. refl) to,
    )
step_child_lem (node256 h child) b w le =
    let (c, p, run, to) = step_direct child b w.slots le in
    (
      c,
      p,
      run,
      FirstTo-NextChild (node256 h child) (λ k. get_or child k 0) b c p
          (λ k lt. child_at-node256 h child k lt w) (λ k. refl) to,
    )

-- the `switch` of `bound` for a byte
pub bound_child_lem :
    (node : Node) (b : ℕ)
    → IsNode node
    → b < 256
    → (c : Ptr) × (bound_child node b ≡ done (c, pos_of node b))
      × (child_at node b ≡ done c)
      × (c ≢ 0 → pos_of node b + 1 ≡ pos_of node (b + 1))
unfolding bound_child
bound_child_lem (node4 h key child) b w byte = (
  assoc (take h.count key) (take h.count child) b,
  bound_sorted 4 h key child w b,
  child_at-node4 h key child b w,
  place_of_present (take h.count key) (take h.count child) (same_length h key child 4 w) w.ascending
      w.nonnull b,
)
bound_child_lem (node16 h key child) b w byte = (
  assoc (take h.count key) (take h.count child) b,
  bound_sorted 16 h key child w b,
  child_at-node16 h key child b w,
  place_of_present (take h.count key) (take h.count child) (same_length h key child 16 w)
      w.ascending w.nonnull b,
)
bound_child_lem (node48 h child_index child) b w byte =
    let i = get_or child_index b 0 in
    let index : at child_index b ≡ done i = at-get_or child_index b 0 (omega (arith, w.indices)) in
    elim (w.index b byte) [
      | inl unused ↦ (
        0,
        rw (index, unused) refl,
        child_at-node48 h child_index child b byte w ∙ rw unused refl,
        λ there. refl,
      )
      | inr less ↦
          let test : (i == 48) ≡ false = ground (arith, w.fits) in
          let here : at child i ≡ done (get_or child i 0) =
            at-get_or child i 0 (omega (arith, w.slots, w.fits)) in
          (
            get_or child i 0,
            rw (index, test, here) refl,
            child_at-node48 h child_index child b byte w ∙ rw test refl,
            λ there. refl,
          )
    ]
bound_child_lem (node256 h child) b w byte =
    let here : at child b ≡ done (get_or child b 0) =
      at-get_or child b 0 (omega (arith, w.slots)) in
    (get_or child b 0, rw here refl, child_at-node256 h child b byte w, λ there. refl)
