-- ===== src/Common/ArrayLaws.antt =====
-- Laws of the arrays: what stands where after a write, a copy or a shift.
use Prim.Native.Nat.{ℕ, zero, suc, ◌+◌, ◌-◌, ◌<◌, ◌≤◌}
use mathlib.Core.Path.{◌≡◌, refl, ap, ◌∙◌}
use mathlib.Core.Bool.{true}
use mathlib.Core.Option.{some}
use mathlib.Core.List.{List, [], ◌∷◌, ◌++◌}
use native.Mathlib.Omega.{arith}
use learned_secondary_index.Common.Lists.{
  length, get_elem?, get_or, take, drop, replicate, length-append,
}
use learned_secondary_index.Common.Tests.{ltb, leb, ◌==◌, if◌then◌else◌}
use learned_secondary_index.Common.Run.{done}
use learned_secondary_index.Common.Arrays.{at, set, write, memmove, memcpy}

module _ {ℓ} {A : Type ℓ} where
  pub length-set :
      (array : List A) (index : ℕ) (new : A) → length (set array index new) ≡ length array
  length-set (old ∷ array) zero new = refl
  length-set (old ∷ array) (suc index) new = ap suc (length-set array index new)
  length-set [] index new = refl

  pub get_or-set :
      (a : List A) (i j : ℕ) (v d : A)
      → i < length a
      → get_or (set a i v) j d ≡ (if i == j then v else get_or a j d)
  get_or-set [] i j v d h = absurd (omega arith)
  get_or-set (x ∷ a) zero zero v d h = refl
  get_or-set (x ∷ a) zero (suc j) v d h = ground arith
  get_or-set (x ∷ a) (suc i) zero v d h = ground arith
  get_or-set (x ∷ a) (suc i) (suc j) v d h = ground (arith, get_or-set a i j v d (omega arith))

  pub get_elem?-set : (a : List A) (i : ℕ) (v : A) → i < length a → get_elem? (set a i v) i ≡ some v
  get_elem?-set [] i v h = absurd (omega arith)
  get_elem?-set (x ∷ a) zero v h = refl
  get_elem?-set (x ∷ a) (suc i) v h = get_elem?-set a i v (omega arith)

  pub get_elem?-set-before :
      (a : List A) (i j : ℕ) (v : A) → j < i → get_elem? (set a i v) j ≡ get_elem? a j
  get_elem?-set-before [] i j v h = refl
  get_elem?-set-before (x ∷ a) zero j v h = absurd (omega arith)
  get_elem?-set-before (x ∷ a) (suc i) zero v h = refl
  get_elem?-set-before (x ∷ a) (suc i) (suc j) v h = get_elem?-set-before a i j v (omega arith)

  pub at-get_or : (a : List A) (i : ℕ) (d : A) → i < length a → at a i ≡ done (get_or a i d)
  at-get_or [] i d h = absurd (omega arith)
  at-get_or (x ∷ a) zero d h = refl
  at-get_or (x ∷ a) (suc i) d h = at-get_or a i d (omega arith)

  pub get_elem?-append :
      (a b : List A) (i : ℕ) (x : A) → get_elem? a i ≡ some x → get_elem? (a ++ b) i ≡ some x
  get_elem?-append [] b i x e = absurd (ground arith)
  get_elem?-append (y ∷ a) b zero x e = e
  get_elem?-append (y ∷ a) b (suc i) x e = get_elem?-append a b i x e

  pub get_elem?-within : (a : List A) (i : ℕ) (x : A) → get_elem? a i ≡ some x → i < length a
  get_elem?-within [] i x e = absurd (ground arith)
  get_elem?-within (y ∷ a) zero x e = omega arith
  get_elem?-within (y ∷ a) (suc i) x e = omega (arith, get_elem?-within a i x e)

  pub get_or-beyond : (a : List A) (i : ℕ) (d : A) → length a ≤ i → get_or a i d ≡ d
  get_or-beyond [] i d h = refl
  get_or-beyond (x ∷ a) zero d h = absurd (omega arith)
  get_or-beyond (x ∷ a) (suc i) d h = get_or-beyond a i d (omega arith)

  pub write_lem : (a : List A) (i : ℕ) (v : A) → i < length a → write a i v ≡ done (set a i v)
  write_lem a i v h = ground arith

  pub length-take : (n : ℕ) (a : List A) → n ≤ length a → length (take n a) ≡ n
  length-take zero a h = refl
  length-take (suc n) [] h = absurd (omega arith)
  length-take (suc n) (x ∷ a) h = ap suc (length-take n a (omega arith))

  pub length-drop : (n : ℕ) (a : List A) → length (drop n a) ≡ length a - n
  length-drop zero a = omega arith
  length-drop (suc n) [] = omega arith
  length-drop (suc n) (x ∷ a) = omega (arith, length-drop n a)

  pub length-replicate : (n : ℕ) (a : A) → length (replicate n a) ≡ n
  length-replicate zero a = refl
  length-replicate (suc n) a = ap suc (length-replicate n a)

  pub get_or-replicate : (n i : ℕ) (a : A) → get_or (replicate n a) i a ≡ a
  get_or-replicate zero i a = refl
  get_or-replicate (suc n) zero a = refl
  get_or-replicate (suc n) (suc i) a = get_or-replicate n i a

  pub get_or-replicate_lt : (n i : ℕ) (a d : A) → i < n → get_or (replicate n a) i d ≡ a
  get_or-replicate_lt zero i a d h = absurd (omega arith)
  get_or-replicate_lt (suc n) zero a d h = refl
  get_or-replicate_lt (suc n) (suc i) a d h = get_or-replicate_lt n i a d (omega arith)

  pub take-append : (a b : List A) → take (length a) (a ++ b) ≡ a
  take-append [] b = refl
  take-append (x ∷ a) b = ap (◌∷◌ x) (take-append a b)

  pub get_or-append :
      (a b : List A) (i : ℕ) (d : A)
      → get_or (a ++ b) i d ≡ (if ltb i (length a) then get_or a i d else get_or b (i - length a) d)
  get_or-append [] b i d = ground arith
  get_or-append (x ∷ a) b zero d = ground arith
  get_or-append (x ∷ a) b (suc i) d = ground (arith, get_or-append a b i d)

  pub get_or-take :
      (n : ℕ) (a : List A) (i : ℕ) (d : A) → i < n → get_or (take n a) i d ≡ get_or a i d
  get_or-take zero a i d h = absurd (omega arith)
  get_or-take (suc n) [] i d h = refl
  get_or-take (suc n) (x ∷ a) zero d h = refl
  get_or-take (suc n) (x ∷ a) (suc i) d h = get_or-take n a i d (omega arith)

  pub get_or-drop :
      (n : ℕ) (a : List A) (i : ℕ) (d : A) → get_or (drop n a) i d ≡ get_or a (n + i) d
  get_or-drop zero a i d = ap (λ j. get_or a j d) (omega arith)
  get_or-drop (suc n) [] i d = refl
  get_or-drop (suc n) (x ∷ a) i d =
      let same : suc n + i ≡ suc (n + i) = omega arith in rw same (get_or-drop n a i d)

  -- a list with `x` before position `i`
  abbrev pub insert_at : ℕ → A → List A → List A
  insert_at zero x a = x ∷ a
  insert_at (suc i) x [] = x ∷ []
  insert_at (suc i) x (y ∷ a) = y ∷ insert_at i x a

  pub length-insert_at : (i : ℕ) (x : A) (a : List A) → length (insert_at i x a) ≡ suc (length a)
  length-insert_at zero x a = refl
  length-insert_at (suc i) x [] = refl
  length-insert_at (suc i) x (y ∷ a) = ap suc (length-insert_at i x a)

  -- the array after `memmove(a + pos + 1, a + pos, count - pos)`
  abbrev pub shifted : List A → (pos count : ℕ) → List A
  shifted a pos count = take (suc pos) a ++ (take (count - pos) (drop pos a) ++ drop (suc count) a)

  set-shifted :
      (a : List A) (pos count : ℕ) (x : A)
      → pos ≤ count
      → count < length a
      → set (shifted a pos count) pos x ≡ insert_at pos x (take count a) ++ drop (suc count) a
  set-shifted [] pos count x p q = absurd (omega arith)
  set-shifted (y ∷ a) zero count x p q =
      ap (λ n. x ∷ (take n (y ∷ a) ++ drop count a)) (omega arith)
  set-shifted (y ∷ a) (suc pos) zero x p q = absurd (omega arith)
  set-shifted (y ∷ a) (suc pos) (suc count) x p q =
      let e : suc count - suc pos ≡ count - pos = omega arith in
      rw e (ap (◌∷◌ y) (set-shifted a pos count x (omega arith) (omega arith)))

  pub memmove_lem :
      (a : List A) (pos count : ℕ)
      → pos ≤ count
      → count < length a
      → memmove a (pos + 1) pos (count - pos) ≡ done (shifted a pos count)
  memmove_lem a pos count p q =
      let e : pos + 1 + (count - pos) ≡ suc count = omega arith in
      let f : pos + 1 ≡ suc pos = omega arith in
      let within : leb (suc count) (length a) ≡ true = ground arith in
      let within' : leb (pos + (count - pos)) (length a) ≡ true = ground arith in
      rw (e, within, within', f) refl

  length-shifted :
      (a : List A) (pos count : ℕ)
      → pos ≤ count
      → count < length a
      → pos < length (shifted a pos count)
  length-shifted a pos count p q =
      let e : length (shifted a pos count)
          ≡ length (take (suc pos) a)
            + length (take (count - pos) (drop pos a) ++ drop (suc count) a) =
        length-append (take (suc pos) a) (take (count - pos) (drop pos a) ++ drop (suc count) a) in
      let first : length (take (suc pos) a) ≡ suc pos = length-take (suc pos) a (omega arith) in
      rw (e, first) (omega arith)

  pub write-shifted :
      (a : List A) (pos count : ℕ) (x : A)
      → pos ≤ count
      → count < length a
      → write (shifted a pos count) pos x
        ≡ done (insert_at pos x (take count a) ++ drop (suc count) a)
  write-shifted a pos count x p q =
      write_lem (shifted a pos count) pos x (length-shifted a pos count p q)
      ∙ ap done (set-shifted a pos count x p q)

  -- a copy within both arrays
  pub memcpy_lem :
      (a : List A) (dst : ℕ) (b : List A) (src n : ℕ)
      → dst + n ≤ length a
      → src + n ≤ length b
      → memcpy a dst b src n ≡ done (take dst a ++ (take n (drop src b) ++ drop (dst + n) a))
  memcpy_lem a dst b src n p q =
      let within : leb (dst + n) (length a) ≡ true = ground arith in
      let within' : leb (src + n) (length b) ≡ true = ground arith in rw (within, within') refl

  pub length-memcpy :
      (a : List A) (dst : ℕ) (b : List A) (src n : ℕ)
      → dst + n ≤ length a
      → src + n ≤ length b
      → length (take dst a ++ (take n (drop src b) ++ drop (dst + n) a)) ≡ length a
  length-memcpy a dst b src n p q =
      let outer = length-append (take dst a) (take n (drop src b) ++ drop (dst + n) a) in
      let inner = length-append (take n (drop src b)) (drop (dst + n) a) in
      let first : length (take dst a) ≡ dst = length-take dst a (omega arith) in
      let from : length (drop src b) ≡ length b - src = length-drop src b in
      let second : length (take n (drop src b)) ≡ n =
        length-take n (drop src b) (rw from (omega arith)) in
      let third : length (drop (dst + n) a) ≡ length a - (dst + n) = length-drop (dst + n) a in
      rw (outer, inner, first, second, third) (omega arith)
