-- ===== src/Competitors/Art/SamePrefix.antt =====
-- An insertion of a child keeps the compressed path of a node, also when the node grows
-- (src/competitors/art.hpp).
use learned_secondary_index.Common.{
  ℕ, suc, ◌+◌, ◌%◌, ◌^◌, ◌≤◌, ◌<◌, ◌≡◌, refl, ap, ◌∙◌, sym, ltb, ◌==◌, if◌then◌else◌, Bool-cases,
  true, inl, inr, List, ◌++◌, length, get_or, take, drop, arith, replicate,
}
use learned_secondary_index.Common.Run.{Run, done, out_of_bounds, out_of_fuel, ◌>>=◌}
use learned_secondary_index.Common.Arrays.{at, write, memcpy}
use learned_secondary_index.Common.ArrayLaws.{
  memcpy_lem, length-memcpy, length-take, length-replicate, get_or-append, get_or-take,
}
use learned_secondary_index.Competitors.Art.Node.{
  Ptr, Header, Node, node4, node16, node48, node256, header, new_header, max_prefix_length,
}
use learned_secondary_index.Competitors.Art.Children.{
  insert_child, insert_node4, insert_node16, insert_node48, insert_node256, place_node4,
  place_node16, place_node48, grow_node4, grow_node16, grow_node48, spread_children, index_keys,
  insert_sorted, free_slot, copy_prefix,
}

abbrev pub SamePrefix : Header → Header → Type 0
SamePrefix h h' =
    (h'.prefix_length ≡ h.prefix_length)
    × (length h'.prefix ≡ max_prefix_length)
    × ((i : ℕ)
        → i < max_prefix_length
        → i < h.prefix_length
        → get_or h'.prefix i 0 ≡ get_or h.prefix i 0)

pub bind-done :
    {A B : Type 0} (r : Run A) (f : A → Run B) (y : B)
    → r >>= f ≡ done y
    → (x : A) × (r ≡ done x) × (f x ≡ done y)
bind-done (done x) f y e = (x, refl, e)
bind-done out_of_bounds f y e = absurd (ground (arith, e))
bind-done out_of_fuel f y e = absurd (ground (arith, e))

abbrev value_or : {A : Type 0} → A → Run A → A
value_or x (done y) = y
value_or x out_of_bounds = x
value_or x out_of_fuel = x

pub done_inj : {A : Type 0} (x y : A) → done x ≡ done y → x ≡ y
done_inj x y e = ap (value_or x) e

copied_get :
    (dst src : List ℕ) (n i : ℕ)
    → length src ≡ 17
    → n ≤ 17
    → i < n
    → get_or (take 0 dst ++ (take n (drop 0 src) ++ drop (0 + n) dst)) i 0 ≡ get_or src i 0
copied_get dst src n i p le lt =
    let size : length (take n src) ≡ n = length-take n src (omega arith) in
    let inside : ltb i (length (take n src)) ≡ true = ground arith in
    get_or-append (take n src) (drop (0 + n) dst) i 0 ∙ rw inside (get_or-take n src i 0 lt)

copy_prefix-SamePrefix :
    (src dst h : Header)
    → length src.prefix ≡ max_prefix_length
    → length dst.prefix ≡ max_prefix_length
    → copy_prefix src dst ≡ done h
    → SamePrefix src h
copy_prefix-SamePrefix src dst h p q e =
    let n : ℕ =
      if ltb src.prefix_length max_prefix_length then src.prefix_length else max_prefix_length in
    let le : n ≤ 17 = ground arith in
    let copied = memcpy_lem dst.prefix 0 src.prefix 0 n (omega arith) (omega arith) in
    let h0 : Header = record dst {
      prefix_length = src.prefix_length;
      prefix = take 0 dst.prefix ++ (take n (drop 0 src.prefix) ++ drop (0 + n) dst.prefix);
    } in
    let run : copy_prefix src dst ≡ done h0 = rw copied refl in
    rw (← done_inj h0 h (sym run ∙ e)) (
      refl,
      length-memcpy dst.prefix 0 src.prefix 0 n (omega arith) (omega arith) ∙ q,
      λ i small lt. copied_get dst.prefix src.prefix n i p le (ground arith),
    )

SamePrefix-trans : (f g h : Header) → SamePrefix f g → SamePrefix g h → SamePrefix f h
SamePrefix-trans f g h (l, n, same) (l', n', same') =
    (l' ∙ l, n', λ i small lt. same' i small (omega (arith, l)) ∙ same i small lt)

SamePrefix-refl : (h : Header) → length h.prefix ≡ max_prefix_length → SamePrefix h h
SamePrefix-refl h p = (refl, p, λ i small lt. refl)

abbrev Preserves : Header → Run Node → Type 0
Preserves h run = (node' : Node) → run ≡ done node' → SamePrefix h (header node')

Preserves-done : (h : Header) (node : Node) → SamePrefix h (header node) → Preserves h (done node)
Preserves-done h node same node' e = rw (← done_inj node node' e) same

Preserves-bind :
    {A : Type 0} (h : Header) (r : Run A) (f : A → Run Node)
    → ((x : A) → r ≡ done x → Preserves h (f x))
    → Preserves h (r >>= f)
Preserves-bind h r f next node' e =
    let (x, run, rest) = bind-done r f node' e in next x run node' rest

insert_node256-Preserves :
    (h : Header) (child : List Ptr) (b : ℕ) (c : Ptr)
    → length h.prefix ≡ max_prefix_length
    → Preserves h (insert_node256 h child b c)
unfolding insert_node256
insert_node256-Preserves h child b c p =
    Preserves-bind h (write child b c)
      (λ child'. done (node256 (record h { count = (h.count + 1) % 2 ^ 16 }) child'))
      (λ child' run.
        Preserves-done h (node256 (record h { count = (h.count + 1) % 2 ^ 16 }) child')
          (refl, p, λ i small lt. refl))

insert_node48-Preserves :
    (h : Header) (index : List ℕ) (child : List Ptr) (b : ℕ) (c : Ptr)
    → length h.prefix ≡ max_prefix_length
    → Preserves h (insert_node48 h index child b c)
unfolding insert_node48 place_node48 grow_node48
insert_node48-Preserves h index child b c p = elim (Bool-cases (ltb h.count 48)) [
  | inl room ↦ rw room (
      Preserves-bind h (at child h.count) _ (λ x e.
        Preserves-bind h (if x == 0 then done h.count else free_slot (suc (length child)) 0 child) _
          (λ pos e'. Preserves-bind h (write child pos c) _ (λ child' e''.
            Preserves-bind h (write index b pos) _
              (λ index' e3. Preserves-done h _ (refl, p, λ i small lt. refl))))))
  | inr full ↦ rw full (
      Preserves-bind h (spread_children 256 0 index child (replicate 256 0)) _ (λ filled e.
        Preserves-bind h (copy_prefix h (record new_header { count = h.count })) _
          (λ h' e' node' run.
            let same =
              copy_prefix-SamePrefix h (record new_header { count = h.count }) h' p
                (length-replicate {A = ℕ} 17 0) e' in
            SamePrefix-trans h h' (header node') same
              (insert_node256-Preserves h' filled b c same.1 node' run))))
]

insert_node16-Preserves :
    (h : Header) (key child : List ℕ) (b : ℕ) (c : Ptr)
    → length h.prefix ≡ max_prefix_length
    → Preserves h (insert_node16 h key child b c)
unfolding insert_node16 place_node16 grow_node16
insert_node16-Preserves h key child b c p = elim (Bool-cases (ltb h.count 16)) [
  | inl room ↦ rw room (
      Preserves-bind h (insert_sorted h key child b c) _
        (λ x e. Preserves-done h _ (refl, p, λ i small lt. refl)))
  | inr full ↦ rw full (
      Preserves-bind h (memcpy (replicate 48 0) 0 child 0 h.count) _ (λ child' e.
        Preserves-bind h (index_keys h.count 0 key (replicate 256 48)) _ (λ index e'.
          Preserves-bind h (copy_prefix h new_header) _ (λ h' e'' node' run.
            let (l, n, same) =
              copy_prefix-SamePrefix h new_header h' p (length-replicate {A = ℕ} 17 0) e'' in
            let g : Header = record h' { count = h.count } in
            SamePrefix-trans h g (header node') (l, n, same)
              (insert_node48-Preserves g index child' b c n node' run)))))
]

insert_node4-Preserves :
    (h : Header) (key child : List ℕ) (b : ℕ) (c : Ptr)
    → length h.prefix ≡ max_prefix_length
    → Preserves h (insert_node4 h key child b c)
unfolding insert_node4 place_node4 grow_node4
insert_node4-Preserves h key child b c p = elim (Bool-cases (ltb h.count 4)) [
  | inl room ↦ rw room (
      Preserves-bind h (insert_sorted h key child b c) _
        (λ x e. Preserves-done h _ (refl, p, λ i small lt. refl)))
  | inr full ↦ rw full (
      Preserves-bind h (copy_prefix h (record new_header { count = 4 })) _ (λ h' e.
        Preserves-bind h (memcpy (replicate 16 0) 0 key 0 4) _ (λ key' e'.
          Preserves-bind h (memcpy (replicate 16 0) 0 child 0 h.count) _ (λ child' e'' node' run.
            let same =
              copy_prefix-SamePrefix h (record new_header { count = 4 }) h' p
                (length-replicate {A = ℕ} 17 0) e in
            SamePrefix-trans h h' (header node') same
              (insert_node16-Preserves h' key' child' b c same.1 node' run)))))
]

pub insert_child-SamePrefix :
    (node : Node) (b : ℕ) (c : Ptr) (node' : Node)
    → length (header node).prefix ≡ max_prefix_length
    → insert_child node b c ≡ done node'
    → SamePrefix (header node) (header node')
unfolding insert_child
insert_child-SamePrefix (node4 h key child) b c node' p e =
    insert_node4-Preserves h key child b c p node' e
insert_child-SamePrefix (node16 h key child) b c node' p e =
    insert_node16-Preserves h key child b c p node' e
insert_child-SamePrefix (node48 h index child) b c node' p e =
    insert_node48-Preserves h index child b c p node' e
insert_child-SamePrefix (node256 h child) b c node' p e =
    insert_node256-Preserves h child b c p node' e
