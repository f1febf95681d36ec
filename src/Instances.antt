-- ===== src/Instances.antt =====
-- Small implementations of the library code that the model takes as parameters. They show that the
-- hypotheses about it can be met, and let the definitions run.
pub mod Keys
pub mod Words
pub mod Sort
pub mod Trees
use learned_secondary_index.Common.{ℕ, ◌+◌, ◌/◌, ◌%◌, ◌<◌, ◌≤◌, List, Bool, min, arith}
use learned_secondary_index.Common.Word.{word}
use learned_secondary_index.Fingerprinter.{Hasher}
use learned_secondary_index.Config.{Config, CdfModel}
use learned_secondary_index.Instances.Words.{word_packing}
use learned_secondary_index.Instances.Sort.{insertion_sort}

abbrev pub plain_hasher : Hasher
plain_hasher = record { hash = λ v. v % word; hash-lt = λ v. omega arith }

-- A line through the origin, cut off behind the range.
abbrev pub linear_model : CdfModel
linear_model = record {
  Model = ℕ;
  untrained = 0;
  train = λ keys n model. n;
  predict = λ model k. min (k / 10) (min model 1000);
  byte_size = λ model. 8;
}

abbrev pub sample_config : ℕ → Bool → Config
sample_config fingerprint_size force_linear_search = record {
  packing = word_packing;
  hasher = plain_hasher;
  std_sort = insertion_sort;
  cdf = linear_model;
  fingerprint_size = fingerprint_size;
  force_linear_search = force_linear_search;
}
