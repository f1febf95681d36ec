-- ===== src/Competitors/Art/After.antt =====
-- What `next` goes on with in a node of each type, from the position that a byte gives
-- (src/competitors/art.hpp).
use learned_secondary_index.Common.{
  ℕ, ◌+◌, ◌-◌, ◌≤◌, ◌<◌, ◌≡◌, ◌≢◌, refl, ap, ◌∙◌, sym, ltb, ◌==◌, if◌then◌else◌, Bool-cases, inl,
  inr, false, List, length, get_or, take, arith,
}
use learned_secondary_index.Common.Run.{Run, done, ◌>>=◌}
use learned_secondary_index.Common.Arrays.{at}
use learned_secondary_index.Common.ArrayLaws.{at-get_or, length-take, get_or-take, get_or-beyond}
use learned_secondary_index.Competitors.Art.Node.{Ptr, Header, empty_marker}
use learned_secondary_index.Competitors.Art.Iterator.{next_used}
use learned_secondary_index.Competitors.Art.Search.{bound_key}
use learned_secondary_index.Competitors.Art.Sorted.{assoc, place_of, Holds-take}
use learned_secondary_index.Competitors.Art.Contract.{
  IsSortedNode, IsIndexedNode, same_length, indexed,
}
use learned_secondary_index.Competitors.Art.First.{
  FirstFrom, FirstTo, assoc-FirstFrom, bound_key-assoc, place_of-suc, next_used_lem,
}

-- a Node4 or Node16, from a position of its keys on
module _ (cap : ℕ) (h : Header) (key : List ℕ) (child : List Ptr)
    (w : IsSortedNode cap h key child) where
  abbrev pub ks : List ℕ
  ks = take h.count key

  abbrev pub cs : List Ptr
  cs = take h.count child

  pub bound_sorted : (b : ℕ) → bound_key h.count 0 key child b ≡ done (assoc ks cs b, place_of b ks)
  bound_sorted b =
      let n : length ks ≡ h.count = length-take h.count key (omega (arith, w.fits, w.keys)) in
      rw n at (
        bound_key-assoc key child b 0 ks cs (same_length h key child cap w) w.ascending
          (Holds-take key h.count) (Holds-take child h.count))
      ∙ ap (λ p. done (assoc ks cs b, p)) (omega arith)

  -- the branch of `next` for these nodes
  abbrev pub from_key : ℕ → Run (Ptr × ℕ)
  from_key pos =
      let c = (do c ← at child pos; done (c, pos + 1)) in
      if ltb pos h.count then c else done (0, pos)

  pub step_sorted :
      (b : ℕ)
      → (c : Ptr) × (p : ℕ) × (from_key (place_of b ks) ≡ done (c, p))
        × FirstFrom (assoc ks cs) b c
        × (c ≢ 0 → p ≡ place_of b ks + 1)
  step_sorted b =
      let i = place_of b ks in
      let first = assoc-FirstFrom b ks cs (same_length h key child cap w) w.ascending w.nonnull in
      let n : length cs ≡ h.count = length-take h.count child (omega (arith, w.fits, w.slots)) in
      elim (Bool-cases (ltb i h.count)) [
        | inl inside ↦
            let here : at child i ≡ done (get_or cs i 0) =
              at-get_or child i 0 (ground (arith, w.fits, w.slots))
              ∙ ap done (sym (get_or-take h.count child i 0 (ground arith))) in
            (get_or cs i 0, i + 1, rw (inside, here) refl, first, λ there. refl)
        | inr behind ↦
            let null : get_or cs i 0 ≡ 0 = get_or-beyond cs i 0 (ground arith) in
            (0, i, rw behind refl, rw null at first, λ there. absurd (there refl))
      ]

  -- `bound` and then `next`
  pub after_sorted :
      (b : ℕ)
      → (c' : Ptr) × (p : ℕ) × (from_key
            (if assoc ks cs b == 0 then place_of b ks else place_of b ks + 1)
          ≡ done (c', p))
        × FirstFrom (assoc ks cs) (b + 1) c'
  after_sorted b =
      let (c, p, run, first, _) = step_sorted (b + 1) in
      rw (place_of-suc b ks cs (same_length h key child cap w) w.ascending w.nonnull)
        (c, p, run, first)

-- the branch of `next` for a Node48
abbrev pub from_index : (child_index : List ℕ) (child : List Ptr) → ℕ → Run (Ptr × ℕ)
from_index child_index child pos = do
  p ← next_used (256 - pos) pos child_index empty_marker
  if ltb p 256 then (do i ← at child_index p; c ← at child i; done (c, p + 1)) else done (0, p)

pub step_indexed :
    (h : Header) (child_index : List ℕ) (child : List Ptr) (b : ℕ)
    → IsIndexedNode h child_index child
    → b ≤ 256
    → (c : Ptr) × (p : ℕ) × (from_index child_index child b ≡ done (c, p))
      × FirstTo (indexed child_index child) b c p
step_indexed h child_index child b w le =
    let (p, run, from, until, before, last) =
      next_used_lem (256 - b) b child_index 48 (omega (arith, w.indices)) in
    let unused : (j : ℕ) → b ≤ j → j < p → indexed child_index child j ≡ 0 =
      λ j q r. let e : get_or child_index j 0 ≡ 48 = before j q r in rw e refl in
    elim (Bool-cases (ltb p 256)) [
      | inl inside ↦
          let i = get_or child_index p 0 in
          let used : i ≢ 48 = last (ground (arith, w.indices)) in
          let test : (i == 48) ≡ false = ground arith in
          let less : i < h.count = ground (arith, w.index p (ground arith)) in
          let index : at child_index p ≡ done i =
            at-get_or child_index p 0 (ground (arith, w.indices)) in
          let there : at child i ≡ done (get_or child i 0) =
            at-get_or child i 0 (omega (arith, w.slots, w.fits)) in
          (
            get_or child i 0,
            p + 1,
            rw (run, inside, index, there) refl,
            inr (w.nonnull i less, (p, from, ground arith, rw test refl, unused, refl)),
          )
      | inr behind ↦ (0, p, rw (run, behind) refl, inl (refl, λ k q lt. unused k q (ground arith)))
    ]

-- the branch of `next` for a Node256
abbrev pub from_slot : List Ptr → ℕ → Run (Ptr × ℕ)
from_slot child pos = do
  p ← next_used (256 - pos) pos child 0
  if ltb p 256 then (do c ← at child p; done (c, p + 1)) else done (0, p)

pub step_direct :
    (child : List Ptr) (b : ℕ)
    → length child ≡ 256
    → b ≤ 256
    → (c : Ptr) × (p : ℕ) × (from_slot child b ≡ done (c, p))
      × FirstTo (λ k. get_or child k 0) b c p
step_direct child b n le =
    let (p, run, from, until, before, last) = next_used_lem (256 - b) b child 0 (omega arith) in
    elim (Bool-cases (ltb p 256)) [
      | inl inside ↦
          let there : at child p ≡ done (get_or child p 0) = at-get_or child p 0 (ground arith) in
          (
            get_or child p 0,
            p + 1,
            rw (run, inside, there) refl,
            inr (last (ground arith), (p, from, ground arith, refl, before, refl)),
          )
      | inr behind ↦ (0, p, rw (run, behind) refl, inl (refl, λ k q lt. before k q (ground arith)))
    ]
