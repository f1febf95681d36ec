-- ===== src/Competitors/Art/Spread.antt =====
-- A full Node48 spread over a Node256 (src/competitors/art.hpp).
use learned_secondary_index.Common.{
  ℕ, zero, suc, ◌+◌, ◌<◌, ◌≡◌, ◌≢◌, refl, ap, ◌∙◌, sym, ltb, ◌==◌, not, ◌&&◌, if◌then◌else◌, false,
  Bool-cases, inl, inr, ◌⊎◌, List, length, get_or, replicate, arith, ℕ_discrete,
}
use learned_secondary_index.Common.Run.{done}
use learned_secondary_index.Common.Arrays.{at, set}
use learned_secondary_index.Common.ArrayLaws.{
  length-set, get_or-set, at-get_or, write_lem, length-replicate, get_or-replicate,
}
use learned_secondary_index.Competitors.Art.Node.{Ptr, Header, node48, node256, new_header}
use learned_secondary_index.Competitors.Art.Children.{
  find_child, insert_node48, insert_node256, grow_node48, spread_children,
}
use learned_secondary_index.Competitors.Art.Search.{child_at}
use learned_secondary_index.Competitors.Art.Contract.{
  IsIndexedNode, IsDirectNode, Inserts, same_children, indexed, child_at-node48, copy_prefix_lem,
}
use learned_secondary_index.Competitors.Art.Place.{insert_direct}

-- the children of a full Node48, spread over a Node256
spread_lem :
    (child_index : List ℕ) (child : List Ptr) (rounds i : ℕ) (filled : List Ptr)
    → i + rounds ≡ 256
    → length child_index ≡ 256
    → length filled ≡ 256
    → ((k : ℕ) → k < 256 → (get_or child_index k 0 ≡ 48) ⊎ (get_or child_index k 0 < length child))
    → (filled' : List Ptr) × (spread_children rounds i child_index child filled ≡ done filled')
      × (length filled' ≡ 256)
      × ((k : ℕ)
          → k < 256
          → get_or filled' k 0 ≡ (
              if not (ltb k i) && not (get_or child_index k 0 == 48)
              then get_or child (get_or child_index k 0) 0
              else get_or filled k 0))
unfolding spread_children
spread_lem child_index child zero i filled e n m inside = (filled, refl, m, λ k lt. ground arith)
spread_lem child_index child (suc rounds) i filled e n m inside =
    let index : at child_index i ≡ done (get_or child_index i 0) =
      at-get_or child_index i 0 (omega arith) in
    elim (Bool-cases (get_or child_index i 0 == 48)) [
      | inl unused ↦
          let (filled', run, size, view) =
            spread_lem child_index child rounds (i + 1) filled (omega arith) n m inside in
          (
            filled',
            rw (index, unused) run,
            size,
            λ k lt. view k lt ∙ elim (ℕ_discrete k i) [
              | yes e ↦ rw e (ground (arith, unused))
              | no ne ↦ ground (arith, ne)
            ],
          )
      | inr used ↦
          let c = get_or child (get_or child_index i 0) 0 in
          let less : get_or child_index i 0 < length child =
            ground (arith, inside i (omega arith)) in
          let (filled', run, size, view) =
            spread_lem child_index child rounds (i + 1) (set filled i c) (omega arith) n
              (length-set filled i c ∙ m) inside in
          (
            filled',
            rw
                (
                  index,
                  used,
                  at-get_or child (get_or child_index i 0) 0 less,
                  write_lem filled i c (omega arith),
                )
                run,
            size,
            λ k lt. view k lt ∙ elim (ℕ_discrete k i) [
              | yes e ↦ rw e (ground (arith, used, get_or-set filled i i c 0 (omega arith)))
              | no ne ↦ ground (arith, ne, get_or-set filled i k c 0 (omega arith))
            ],
          )
    ]

in_slots :
    (h : Header) (child_index : List ℕ) (child : List Ptr)
    → IsIndexedNode h child_index child
    → (k : ℕ) → k < 256
    → (get_or child_index k 0 ≡ 48) ⊎ (get_or child_index k 0 < length child)
in_slots h child_index child w k lt = elim (w.index k lt) [
  | inl unused ↦ inl unused
  | inr less ↦ inr (omega (arith, w.fits, w.slots))
]

pub child_at-node256 :
    (h : Header) (child : List Ptr) (k : ℕ)
    → k < 256
    → IsDirectNode h child
    → child_at (node256 h child) k ≡ done (get_or child k 0)
unfolding child_at find_child
child_at-node256 h child k lt w = at-get_or child k 0 (omega (arith, w.slots))

spread_child :
    (child_index : List ℕ) (child : List Ptr) (k filled : ℕ)
    → filled ≡ (
        if not (ltb k 0) && not (get_or child_index k 0 == 48)
        then get_or child (get_or child_index k 0) 0
        else get_or (replicate 256 0) k 0)
    → indexed child_index child k ≡ filled
spread_child child_index child k filled e = ground (arith, e, get_or-replicate {A = ℕ} 256 k 0)

module _ (b c : ℕ) (byte : b < 256) (ne : c ≢ 0) where
  pub insert_full48 :
      (h : Header) (child_index : List ℕ) (child : List Ptr) (w : IsIndexedNode h child_index child)
      → h.count ≡ 48
      → Inserts (node48 h child_index child) b c (insert_node48 h child_index child b c)
  unfolding insert_node48 grow_node48
  insert_full48 h child_index child w full =
      let test : ltb h.count 48 ≡ false = ground arith in
      let (filled, spread, size, view) =
        spread_lem child_index child 256 0 (replicate 256 0) refl w.indices
          (length-replicate {A = ℕ} 256 0) (in_slots h child_index child w) in
      let (h', header, _, _) =
        copy_prefix_lem h (record new_header { count = h.count }) w.prefix
          (length-replicate {A = ℕ} 17 0) in
      let run : insert_node48 h child_index child b c ≡ insert_node256 h' filled b c =
        rw (test, spread, header) refl in
      let direct : IsDirectNode h' filled = record { slots = size } in
      rw run (
        same_children b c byte ne (node48 h child_index child) (node256 h' filled)
          (insert_node256 h' filled b c)
          (λ k lt.
            child_at-node48 h child_index child k lt w
            ∙ ap done (spread_child child_index child k (get_or filled k 0) (view k lt))
            ∙ sym (child_at-node256 h' filled k lt direct))
          (insert_direct b c byte ne h' filled direct))
