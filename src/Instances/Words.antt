-- ===== src/Instances/Words.antt =====
-- An implementation of the packing interface that spends a whole word on each value.
use learned_secondary_index.Common.{
  ℕ, zero, suc, ◌+◌, ◌≡◌, refl, ◌∙◌, ◌==◌, Bool, true, false, ◌&&◌, some, List, [], ◌∷◌, ◌++◌,
  length, get_elem?, arith,
}
use learned_secondary_index.Bitpacking.{BitPacking}
use native.Mathlib.Nat.{zero-add, suc-add}

unfoldable pub words_eq : List ℕ → List ℕ → Bool
words_eq [] [] = true
words_eq (x ∷ xs) (y ∷ ys) = x == y && words_eq xs ys
words_eq _ _ = false

pub words_eq_refl : (xs : List ℕ) → words_eq xs xs ≡ true
unfolding words_eq
words_eq_refl [] = refl
words_eq_refl (x ∷ xs) = ground (arith, words_eq_refl xs)

get_elem?-append_left :
    (xs ys : List ℕ) (i : ℕ) {x : ℕ} → get_elem? xs i ≡ some x → get_elem? (xs ++ ys) i ≡ some x
get_elem?-append_left [] ys i e = ground arith
get_elem?-append_left (y ∷ xs) ys zero e = e
get_elem?-append_left (y ∷ xs) ys (suc i) e = get_elem?-append_left xs ys i e

get_elem?-append_right :
    (xs ys : List ℕ) (i : ℕ) → get_elem? (xs ++ ys) (length xs + i) ≡ get_elem? ys i
get_elem?-append_right [] ys i = rw zero-add
get_elem?-append_right (x ∷ xs) ys i = rw suc-add (get_elem?-append_right xs ys i)

-- the values stand in the buffer from the position on
abbrev pub Stored : List ℕ → ℕ → List ℕ → Type 0
Stored buffer p xs = (i x : ℕ) → get_elem? xs i ≡ some x → get_elem? buffer (p + i) ≡ some x

pub Stored-behind : (b xs : List ℕ) → Stored (b ++ xs) (length b) xs
Stored-behind b xs i x e = get_elem?-append_right b xs i ∙ e

pub Stored-append : (b : List ℕ) (p : ℕ) (xs ys : List ℕ) → Stored b p xs → Stored (b ++ ys) p xs
Stored-append b p xs ys s i x e = get_elem?-append_left b ys (p + i) (s i x e)

abbrev pub word_packing : BitPacking
unfolding words_eq
word_packing = record {
  Buffer = List ℕ;
  Bytes = List ℕ;
  Reader = List ℕ × ℕ;
  empty = [];
  pos = length;
  pos-empty = refl;
  max_bit_width = λ xs. 64;
  store_bit_packed = λ xs w b. b ++ xs;
  put_slop_bytes = λ b. b ++ 0 ∷ [];
  contents = λ b. b;
  byte_count = λ s. length s;
  bytes_eq = words_eq;
  no_bytes = [];
  no_reader = ([], 0);
  reader = λ w s p. (s, p);
  get = λ r i. get_elem? r.0 (r.1 + i);
  Written = Stored;
  store-Written = λ b xs all. Stored-behind b xs;
  store-keeps = λ b p w xs ys s. Stored-append b p xs ys s;
  get-Written = λ b p i x xs s e. Stored-append b p xs (0 ∷ []) s i x e;
  bytes_eq_refl = words_eq_refl;
}
