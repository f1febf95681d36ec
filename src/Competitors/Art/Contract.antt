-- ===== src/Competitors/Art/Contract.antt =====
-- What the types of nodes promise (src/competitors/art.hpp): when a node is well formed, the child
-- that `findChild` finds in it, and what an insertion of a child does.
use learned_secondary_index.Common.{
  ℕ, suc, ◌+◌, ◌≤◌, ◌<◌, ◌≡◌, ◌≢◌, refl, ◌∙◌, sym, ltb, ◌==◌, if◌then◌else◌, false, inl, inr, ◌⊎◌,
  List, ◌++◌, length, get_or, take, drop, arith,
}
use learned_secondary_index.Common.Run.{Run, done}
use learned_secondary_index.Common.Arrays.{at}
use learned_secondary_index.Common.ArrayLaws.{at-get_or, length-take, memcpy_lem, length-memcpy}
use learned_secondary_index.Competitors.Art.Node.{
  Ptr, max_prefix_length, Header, Node, node4, node16, node48, node256,
}
use learned_secondary_index.Competitors.Art.Children.{find_child, copy_prefix, incr_count}
use learned_secondary_index.Competitors.Art.Search.{child_at}
use learned_secondary_index.Competitors.Art.Sorted.{
  assoc, Ascending, NonNull, Holds-take, find_key-assoc, lowest_set-assoc, take-map,
}

-- A Node4 or Node16 with `cap` slots: the keys in use are ascending bytes, their children not null.
pub record IsSortedNode (cap : ℕ) (h : Header) (key : List ℕ) (child : List Ptr) : Type 0 where
  pub fits : h.count ≤ cap
  pub prefix : length h.prefix ≡ max_prefix_length
  pub keys : length key ≡ cap
  pub slots : length child ≡ cap
  pub ascending : Ascending (take h.count key)
  pub nonnull : NonNull (take h.count child)

-- A Node48: the slots in use are the first ones, every index is one of them or the marker, and no
-- two bytes have the same slot.
pub record IsIndexedNode (h : Header) (child_index : List ℕ) (child : List Ptr) : Type 0 where
  pub fits : h.count ≤ 48
  pub prefix : length h.prefix ≡ max_prefix_length
  pub indices : length child_index ≡ 256
  pub slots : length child ≡ 48
  pub index : (k : ℕ) → k < 256 → (get_or child_index k 0 ≡ 48) ⊎ (get_or child_index k 0 < h.count)
  pub own :
      (j k : ℕ)
      → j < 256
      → k < 256
      → get_or child_index j 0 ≡ get_or child_index k 0
      → get_or child_index j 0 < 48
      → j ≡ k
  pub nonnull : (i : ℕ) → i < h.count → get_or child i 0 ≢ 0
  pub free : (i : ℕ) → h.count ≤ i → i < 48 → get_or child i 0 ≡ 0

pub record IsDirectNode (h : Header) (child : List Ptr) : Type 0 where
  pub slots : length child ≡ 256

abbrev pub IsNode : Node → Type 0
IsNode (node4 h key child) = IsSortedNode 4 h key child
IsNode (node16 h key child) = IsSortedNode 16 h key child
IsNode (node48 h child_index child) = IsIndexedNode h child_index child
IsNode (node256 h child) = IsDirectNode h child

module _ (h : Header) (key : List ℕ) (child : List Ptr) where
  pub same_length :
      (cap : ℕ)
      → IsSortedNode cap h key child
      → length (take h.count key) ≡ length (take h.count child)
  same_length cap w =
      length-take h.count key (omega (arith, w.fits, w.keys))
      ∙ sym (length-take h.count child (omega (arith, w.fits, w.slots)))

  abbrev ks : List ℕ
  ks = take h.count key

  abbrev cs : List Ptr
  cs = take h.count child

  pub child_at-node4 :
      (b : ℕ) → IsSortedNode 4 h key child → child_at (node4 h key child) b ≡ done (assoc ks cs b)
  unfolding child_at find_child
  child_at-node4 b w =
      let n : length ks ≡ h.count = length-take h.count key (omega (arith, w.fits, w.keys)) in
      rw n at (
        find_key-assoc key child b 0 ks cs (same_length 4 w) (Holds-take key h.count)
          (Holds-take child h.count))

  pub child_at-node16 :
      (b : ℕ) → IsSortedNode 16 h key child → child_at (node16 h key child) b ≡ done (assoc ks cs b)
  unfolding child_at find_child
  child_at-node16 b w =
      rw (take-map h.count (λ k. k == b) key)
        (lowest_set-assoc child b 0 ks cs (same_length 16 w) (Holds-take child h.count))

-- the child of a byte in a Node48, and null for a byte without one
abbrev pub indexed : List ℕ → List Ptr → ℕ → Ptr
indexed child_index child k =
    if get_or child_index k 0 == 48 then 0 else get_or child (get_or child_index k 0) 0

pub child_at-node48 :
    (h : Header) (child_index : List ℕ) (child : List Ptr) (k : ℕ)
    → k < 256
    → IsIndexedNode h child_index child
    → child_at (node48 h child_index child) k ≡ done (indexed child_index child k)
unfolding child_at find_child
child_at-node48 h child_index child k lt w =
    let i = get_or child_index k 0 in
    let index : at child_index k ≡ done i = at-get_or child_index k 0 (omega (arith, w.indices)) in
    elim (w.index k lt) [
      | inl e ↦ rw (index, e) refl
      | inr less ↦
          let test : (i == 48) ≡ false = ground (arith, w.fits) in
          rw (index, test) (at-get_or child i 0 (omega (arith, w.slots, w.fits)))
    ]

-- the header's part of growth
pub copy_prefix_lem :
    (src dst : Header)
    → length src.prefix ≡ max_prefix_length
    → length dst.prefix ≡ max_prefix_length
    → (h : Header) × (copy_prefix src dst ≡ done h)
      × (h.count ≡ dst.count)
      × (length h.prefix ≡ max_prefix_length)
copy_prefix_lem src dst p q =
    let n : ℕ =
      if ltb src.prefix_length max_prefix_length then src.prefix_length else max_prefix_length in
    let le : n ≤ 17 = ground arith in
    let copied = memcpy_lem dst.prefix 0 src.prefix 0 n (omega arith) (omega arith) in
    let size = length-memcpy dst.prefix 0 src.prefix 0 n (omega arith) (omega arith) in
    (
      record dst {
        prefix_length = src.prefix_length;
        prefix = take 0 dst.prefix ++ (take n (drop 0 src.prefix) ++ drop (0 + n) dst.prefix);
      },
      rw copied refl,
      refl,
      size ∙ q,
    )

pub incr_lem : (h : Header) → h.count ≤ 256 → (incr_count h).count ≡ suc h.count
incr_lem h le = omega arith

-- what an insertion does to a node
abbrev pub Inserts : Node → (b : ℕ) → (c : Ptr) → Run Node → Type 0
Inserts node b c run =
    (node' : Node) × (run ≡ done node')
    × IsNode node'
    × ((k : ℕ)
        → k < 256
        → (v : Ptr) × (child_at node k ≡ done v)
          × (child_at node' k ≡ done (if b == k then c else v)))

module _ (b c : ℕ) (byte : b < 256) (ne : c ≢ 0) where
  -- a run that starts from a node with the same children
  pub same_children :
      (node node' : Node) (run : Run Node)
      → ((k : ℕ) → k < 256 → child_at node k ≡ child_at node' k)
      → Inserts node' b c run
      → Inserts node b c run
  same_children node node' run same (r, e, w, view) =
      (r, e, w, λ k lt. let (v, p, q) = view k lt in (v, same k lt ∙ p, q))
