-- ===== src/Examples/Art.antt =====
-- The radix tree over a small range, and the results about it.
use learned_secondary_index.Common.{
  ◌⊎◌, ℕ, zero, suc, ◌≤◌, ◌<◌, ◌≡◌, refl, List, [], ◌∷◌, ◌++◌, get_elem?, some, true, false,
  if◌then◌else◌, arith,
}
use learned_secondary_index.Common.Run.{Run, done, out_of_bounds, ◌>>=◌}
use learned_secondary_index.Instances.Sort.{sort, sort-perm}
use learned_secondary_index.Competitors.Art.Node.{Node, node4, new_header}
use learned_secondary_index.Competitors.Art.Children
use learned_secondary_index.Competitors.Art.Contract.{Inserts, IsNode}
use learned_secondary_index.Competitors.Art.Successor.{GoesOn, bound_child-step}
use learned_secondary_index.Competitors.Art.Growth.{insert_child-child_at}
use learned_secondary_index.Competitors.Art.Search
use learned_secondary_index.Competitors.Art.Search.{child_at}
use learned_secondary_index.Competitors.Art.Heap
use learned_secondary_index.Competitors.Art.Prefix
use learned_secondary_index.Competitors.Art.Heap.{Tree, tree_ref, swap_bytes}
use learned_secondary_index.Competitors.Art.Iterator
use learned_secondary_index.Competitors.Art.Iterator.{Iterator}
use learned_secondary_index.Competitors.Art.Insert
use learned_secondary_index.Competitors.Art.Index
use learned_secondary_index.Competitors.Art.Index.{Art}
use learned_secondary_index.Competitors.Art.Single.{lookup_single}
use learned_secondary_index.Competitors.Art.Duplicates.{insert-duplicate}

-- a full Node4
abbrev full : Node
full = node4 (record new_header { count = 4 }) (2 ∷ 5 ∷ 7 ∷ 9 ∷ []) (3 ∷ 5 ∷ 7 ∷ 9 ∷ [])

full-IsNode : IsNode full
full-IsNode = record {
  fits = omega arith;
  prefix = refl;
  keys = refl;
  slots = refl;
  ascending = (
    omega arith,
    (omega arith, (omega arith, (omega arith, tt))),
    (
      omega arith,
      (omega arith, (omega arith, tt)),
      (omega arith, (omega arith, tt), (omega arith, tt, tt)),
    ),
  );
  nonnull = (omega arith, (omega arith, (omega arith, (omega arith, tt))));
}

full-free : child_at full 6 ≡ done 0
unfolding child_at Children.find_child
full-free = refl

insert_child-child_at_example : Inserts full 6 11 (Children.insert_child full 6 11)
insert_child-child_at_example =
    insert_child-child_at 6 11 (omega arith) (omega arith) full full-IsNode full-free

lookup_single_example :
    (index : Art) × (it : Iterator) × (Index.construct sort (1000 ∷ []) ≡ done index)
    × (Index.lookup index true 900 ≡ done it)
    × (((900 ≤ 1000)
          × (it.is_end ≡ false)
          × (get_elem? {A = ℕ} (1000 ∷ []) (Iterator.deref it) ≡ some 1000))
        ⊎ ((1000 < 900) × (it ≡ Index.end index)))
lookup_single_example = lookup_single sort sort-perm 1000 900 true (omega arith) (omega arith)

-- the tree after the first of two equal keys was inserted
abbrev leaf_tree : Tree
leaf_tree = record { root = 1; nodes = [] }

insert-duplicate_example :
    Insert.insert
      (70000 ∷ 70000 ∷ [])
      (swap_bytes 70000 ++ swap_bytes 1)
      1
      18
      leaf_tree
      1
      tree_ref
      0
    ≡ out_of_bounds
insert-duplicate_example =
    insert-duplicate (70000 ∷ 70000 ∷ []) 70000 1 (swap_bytes 1) 17 leaf_tree 1 tree_ref 0 refl refl

-- the displacements of the keys that are not smaller than `key`, as far as the iterator goes
values : (fuel : ℕ) → Art → Iterator → Run (List ℕ)
unfolding Iterator.post_next Index.end
values zero index it = done []
values (suc n) index it =
    let more = (do
      it' ← Iterator.post_next (Index.rounds index) index.tree.nodes it
      rest ← values n index it'
      done (Iterator.deref it ∷ rest)) in
    if it.is_end then done [] else more

from : ℕ → List ℕ → Run (List ℕ)
from key base = do
  index ← Index.construct sort base
  it ← Index.lookup index true key
  values 40 index it

in_order : from 15 (30 ∷ 10 ∷ 20 ∷ []) ≡ done (2 ∷ 0 ∷ [])
unfolding from values Index.construct Index.lookup Insert.insert Children.insert_child
    Iterator.post_next sort Search.bound Iterator.deref Heap.load_key Children.insert_node4
    Children.place_node4 Children.insert_sorted Prefix.prefix_mismatch Children.find_child
    Heap.read_ref Prefix.prefix_mismatch_within
in_order = refl

-- the destructor of an index of one key
single_destroyed : (Index.construct sort (42 ∷ []) >>= λ index. Index.destroy index) ≡ out_of_bounds
unfolding Index.construct Insert.insert sort Index.destroy
single_destroyed = refl

begin_of_single : (Index.construct sort (42 ∷ []) >>= λ index. Index.begin index) ≡ out_of_bounds
unfolding Index.construct Insert.insert sort Index.begin
begin_of_single = refl

bound_child-step_example : GoesOn full 6
bound_child-step_example = bound_child-step full 6 full-IsNode (omega arith)
