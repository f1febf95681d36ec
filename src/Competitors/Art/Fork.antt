-- ===== src/Competitors/Art/Fork.antt =====
-- The new node that `insert` makes of two children, for keys that part there
-- (src/competitors/art.hpp).
use learned_secondary_index.Common.{
  ℕ, suc, ◌+◌, ◌-◌, ◌≤◌, ◌<◌, ◌≡◌, ◌≢◌, refl, ◌∙◌, sym, true, List, [], ◌∷◌, ◌++◌, length, get_or,
  take, drop, ltb, min, replicate, arith,
}
use learned_secondary_index.Common.Run.{Run, done}
use learned_secondary_index.Common.ArrayLaws.{
  get_or-append, get_or-take, get_or-drop, length-take, length-drop, memcpy_lem, length-memcpy,
  length-replicate,
}
use learned_secondary_index.Competitors.Art.Node.{
  Ptr, Node, node4, header, new_header, max_prefix_length,
}
use learned_secondary_index.Competitors.Art.Heap.{Nodes}
use learned_secondary_index.Competitors.Art.Search.{child_at}
use learned_secondary_index.Common.Arrays.{memcpy}
use learned_secondary_index.Competitors.Art.Children.{insert_child}
use learned_secondary_index.Competitors.Art.Insert.{fork}
use learned_secondary_index.Competitors.Art.Contract.{IsNode, child_at-node4}
use learned_secondary_index.Competitors.Art.Subtree.{byte, Each, key_of}
use learned_secondary_index.Competitors.Art.Footprint.{At, Slots, Keeps-refl}
use mathlib.Core.List.{append-nil}
use mathlib.Core.Path.{subst}
use learned_secondary_index.Competitors.Art.Add.{Slots-none, insert_child-Adds}

pub append-empty : {A : Type 0} (xs ys : List A) → [] ≡ xs ++ ys → (xs ≡ []) × (ys ≡ [])
append-empty [] ys e = (refl, sym e)
append-empty (x ∷ xs) ys e = absurd (ground (arith, e))

between : {A : Type 0} (xs ys zs : List A) → xs ≡ [] → zs ≡ [] → xs ++ (ys ++ zs) ≡ ys
between xs ys zs e f = rw (e, f) (append-nil ys)

path_get :
    (dst path : List ℕ) (from n i : ℕ)
    → from + n ≤ length path
    → i < n
    → get_or (take 0 dst ++ (take n (drop from path) ++ drop (0 + n) dst)) i 0
      ≡ get_or path (from + i) 0
path_get dst path from n i fits lt =
    let rest : length (drop from path) ≡ length path - from = length-drop from path in
    let size : length (take n (drop from path)) ≡ n =
      length-take n (drop from path) (omega arith) in
    let inside : ltb i (length (take n (drop from path))) ≡ true = ground arith in
    get_or-append (take n (drop from path)) (drop (0 + n) dst) i 0
    ∙ rw inside (get_or-take n (drop from path) i 0 lt ∙ get_or-drop from path i 0)

-- a Node4 without children
abbrev vacant : (bytes : ℕ) → (prefix : List ℕ) → Node
vacant bytes prefix =
    node4 (record new_header { prefix_length = bytes; prefix = prefix }) (replicate 4 0)
      (replicate 4 0)

vacant-IsNode :
    (bytes : ℕ) (prefix : List ℕ) → length prefix ≡ max_prefix_length → IsNode (vacant bytes prefix)
vacant-IsNode bytes prefix p = record {
  fits = omega arith;
  prefix = p;
  keys = refl;
  slots = refl;
  ascending = tt;
  nonnull = tt;
}

fork_run :
    (path : List ℕ) (from bytes b b' : ℕ) (c c' : Ptr) (prefix : List ℕ) (first node : Node)
    → bytes < 8
    → memcpy new_header.prefix 0 path from bytes ≡ done prefix
    → insert_child (vacant bytes prefix) b c ≡ done first
    → insert_child first b' c' ≡ done node
    → fork path from bytes b c b' c' ≡ done node
unfolding fork
fork_run path from bytes b b' c c' prefix first node few copied run run' =
    let n : min bytes 17 ≡ bytes = omega arith in rw (n, copied, run) run'

module _ (dataset : List ℕ) where
  -- a new node that parts the leaves `us` from the leaves `vs`
  abbrev pub Forks :
      (nodes : Nodes) (depth : ℕ) (path : List ℕ) (from bytes b' : ℕ) (us vs : List ℕ)
      (gs hs : List Ptr)
      → Run Node
      → Type 0
  Forks nodes depth path from bytes b' us vs gs hs run =
      (node : Node) × (run ≡ done node)
      × IsNode node
      × (length (header node).prefix ≡ max_prefix_length)
      × ((header node).prefix_length ≡ bytes)
      × ((i : ℕ) → i < bytes → get_or (header node).prefix i 0 ≡ get_or path (from + i) 0)
      × ((ls : List ℕ) × (rs : List ℕ) × (fl : List Ptr) × (fr : List Ptr) × (us ≡ ls ++ rs)
          × (gs ≡ fl ++ fr)
          × Each (λ t. byte (key_of nodes dataset t) depth < b') ls
          × Each (λ t. suc b' ≤ byte (key_of nodes dataset t) depth) rs
          × Slots dataset nodes depth node 0 (ls ++ (vs ++ rs)) (fl ++ (hs ++ fr)))

  pub fork_lem :
      (nodes : Nodes) (depth : ℕ) (path : List ℕ) (from bytes b b' : ℕ) (c c' : Ptr)
      (us vs : List ℕ) (gs hs : List Ptr)
      → from + bytes ≤ length path
      → bytes < 8
      → b < 256
      → b' < 256
      → b ≢ b'
      → c ≢ 0
      → c' ≢ 0
      → At dataset nodes (suc depth) c us gs
      → Each (λ t. byte (key_of nodes dataset t) depth ≡ b) us
      → At dataset nodes (suc depth) c' vs hs
      → Each (λ t. byte (key_of nodes dataset t) depth ≡ b') vs
      → Forks nodes depth path from bytes b' us vs gs hs (fork path from bytes b c b' c')
  fork_lem nodes depth path from bytes b b' c c' us vs gs hs fits few lt lt' differ ne ne' below own
        below' own' =
      let prefix =
        take 0 new_header.prefix
        ++ (take bytes (drop from path) ++ drop (0 + bytes) new_header.prefix) in
      let copied = memcpy_lem new_header.prefix 0 path from bytes (omega arith) fits in
      let size : length prefix ≡ 17 =
        length-memcpy new_header.prefix 0 path from bytes (omega arith) fits
        ∙ length-replicate {A = ℕ} 17 0 in
      let none : (k : ℕ) → k < 256 → child_at (vacant bytes prefix) k ≡ done 0 = λ k less.
        child_at-node4 (record new_header { prefix_length = bytes; prefix = prefix })
          (replicate 4 0) (replicate 4 0) k (vacant-IsNode bytes prefix size) in
      let (first, run, w, (l, p, same), others, (ls, rs, fl, fr, e, f, less, more, slots)) =
        insert_child-Adds dataset nodes nodes depth (vacant bytes prefix) b c [] us [] gs
          (vacant-IsNode bytes prefix size) size lt ne (none b lt)
          (Slots-none dataset nodes depth (vacant bytes prefix) 256 0 refl none) tt below own in
      let (no_left, no_right) = append-empty ls rs e in
      let (no_left', no_right') = append-empty fl fr f in
      let slots' : Slots dataset nodes depth first 0 us gs =
        subst (λ z. Slots dataset nodes depth first 0 z gs) (between ls us rs no_left no_right)
          (subst (λ z. Slots dataset nodes depth first 0 (ls ++ (us ++ rs)) z)
            (between fl gs fr no_left' no_right') slots) in
      let (node, run', w', (l', p', same'), _, parts) =
        insert_child-Adds dataset nodes nodes depth first b' c' us vs gs hs w p lt' ne'
          (others b' lt' (λ e. differ (sym e)) ∙ none b' lt') slots' (Keeps-refl dataset nodes gs)
          below' own' in
      (
        node,
        fork_run path from bytes b b' c c' prefix first node few copied run run',
        w',
        p',
        l' ∙ l,
        λ i small.
            same' i (omega arith) (omega (arith, l))
            ∙ same i (omega arith) small
            ∙ path_get new_header.prefix path from bytes i fits small,
        parts,
      )
