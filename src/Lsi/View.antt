-- ===== src/Lsi/View.antt =====
-- What an index that was fitted to a range holds: the keys in ascending order, each with the
-- displacement at which it stands in the range. The proofs about `lookup` rest on this view alone.
use learned_secondary_index.Common.{ℕ, ◌≤◌, ◌<◌, ◌≡◌, some, List, get_elem?, min, max}
use learned_secondary_index.Common.Word.{word}
use learned_secondary_index.Common.Run.{done}
use learned_secondary_index.Fingerprinter.{fingerprint}
use learned_secondary_index.PermVector.{PermVector, deserialize}
use learned_secondary_index.Config.{Config}

-- The vector `v` lists the range `base` in the order of its keys: at position i it stores the
-- displacement `perm i`, where the range holds `keys i`.
pub record Represents (c : Config) (v : PermVector c.packing) (base : List ℕ) (keys perm : ℕ → ℕ)
    : Type 0 where
  pub small : v.size < word
  pub entry :
      (i : ℕ)
      → i < v.size
      → deserialize c.packing c.hasher c.fingerprint_size v i
        ≡ done (record {
          index = perm i;
          fingerprint_bits = fingerprint c.hasher c.fingerprint_size (keys i);
        })
  pub in_base : (i : ℕ) → i < v.size → get_elem? base (perm i) ≡ some (keys i)
  pub sorted : (i j : ℕ) → i ≤ j → j < v.size → keys i ≤ keys j

-- `l` is the first of the `n` positions whose key is not below `key`, or `n`.
abbrev pub IsLowerBound : (keys : ℕ → ℕ) (n key l : ℕ) → Type 0
IsLowerBound keys n key l =
    (l ≤ n) × ((i : ℕ) → i < l → keys i < key) × ((i : ℕ) → l ≤ i → i < n → key ≤ keys i)

-- where a search of [start, stop) for a boundary at `l` ends
abbrev pub clamp : (start l stop : ℕ) → ℕ
clamp start l stop = max start (min l stop)
