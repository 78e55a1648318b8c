-- ===== src/Tree/Records/Hint.antt =====
-- The size of a new mini page for an accepted record.
use bf_tree.Common.{ℕ, ◌+◌, ◌/◌, ◌≤◌, ◌<◌, ◌≡◌, arith}
use bf_tree.Tree.SizeClasses.{Sizes}
use bf_tree.Tree.Records.{accepted, insert_check}

-- What the tests of `insert` say of a record.
pub record IsAccepted (c : Sizes) (key_len value_len : ℕ) : Type 0 where
  pub some_key : 0 < key_len
  pub key_bound : key_len ≤ 2020
  pub key_in_fence : key_len ≤ c.max_fence_len / 2
  pub value_bound : value_len ≤ 16332
  pub at_most : key_len + value_len ≤ c.max_record_size
  pub at_least : c.min_record_size ≤ key_len + value_len

pub insert_check-IsAccepted :
    (c : Sizes) (key_len value_len : ℕ)
    → insert_check c key_len value_len ≡ accepted
    → IsAccepted c key_len value_len
unfolding insert_check
insert_check-IsAccepted c key_len value_len e = record {
  some_key = ground (arith, e);
  key_bound = ground (arith, e);
  key_in_fence = ground (arith, e);
  value_bound = ground (arith, e);
  at_most = ground (arith, e);
  at_least = ground (arith, e);
}

-- A size for a mini page that takes the record with its slot and the header of the page.
pub record IsHint (c : Sizes) (key_len value_len s : ℕ) : Type 0 where
  pub room : key_len + value_len + 8 + 32 ≤ s
  pub inside : s ≤ c.leaf_page_size
