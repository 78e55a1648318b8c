-- ===== src/Config/Tests.antt =====
-- A configuration with pages on disk, and one in which the longest key is as long as the greatest record.
use bf_tree.Common.{
  ℕ, suc, ◌+◌, ◌^◌, ◌≤◌, ◌/◌, ◌<◌, ◌≡◌, ◌⊎◌, refl, arith, List, [], ◌∷◌, none, some, true, false,
}
use bf_tree.CircularBuffer.MetaState.{MetaState}
use bf_tree.CircularBuffer.Buffer
use bf_tree.CircularBuffer.Buffer.{AllocMeta}
use bf_tree.Tree.SizeClasses
use bf_tree.Tree.SizeClasses.{Sizes, create_mem_page_size_classes}
use bf_tree.Tree.SizeClasses.Guarantees.{IsClasses, create_mem_page_size_classes-IsClasses}
use bf_tree.Tree.SizeClasses.Loop.{size_classes_from-ends}
use bf_tree.Config
use bf_tree.Config.{Config, validate, ok}
use bf_tree.Config.Accepted.{IsBuilt, validate-build}

abbrev on_disk : Sizes
on_disk = record {
  min_record_size = 48;
  max_record_size = 1952;
  leaf_page_size = 4096;
  max_fence_len = 64;
  cache_only = false;
}

abbrev on_disk_classes : List ℕ
on_disk_classes = 128 ∷ 192 ∷ 256 ∷ 512 ∷ 960 ∷ 1856 ∷ 2048 ∷ 4096 ∷ []

abbrev in_memory : Sizes
in_memory = record {
  min_record_size = 1544;
  max_record_size = 1544;
  leaf_page_size = 3136;
  max_fence_len = 64;
  cache_only = true;
}

on_disk-created : create_mem_page_size_classes on_disk ≡ some on_disk_classes
unfolding create_mem_page_size_classes SizeClasses.disk_limit SizeClasses.size_classes_from
    SizeClasses.push_greater SizeClasses.size_class
on_disk-created = refl

cache_only-created : create_mem_page_size_classes in_memory ≡ some (1536 ∷ 3136 ∷ [])
unfolding create_mem_page_size_classes SizeClasses.cache_only_limit SizeClasses.size_classes_from
    SizeClasses.push_greater SizeClasses.size_class
cache_only-created = refl

create_mem_page_size_classes-IsClasses_example : IsClasses on_disk on_disk_classes
create_mem_page_size_classes-IsClasses_example =
    create_mem_page_size_classes-IsClasses on_disk on_disk_classes on_disk-created

size_classes_from-ends_example :
    (SizeClasses.size_classes_from (2049 + 100) on_disk 2048 0 []
      ≡ SizeClasses.size_classes_from 2049 on_disk 2048 0 [])
    × ((e : ℕ)
        → SizeClasses.size_class on_disk e ≤ 2048
        → (2 ^ suc e < 2147483648) × (SizeClasses.size_class on_disk (suc e) < 131072))
size_classes_from-ends_example = size_classes_from-ends 100 on_disk 2048 (omega arith)

abbrev on_disk_config : Config
on_disk_config = record { sizes = on_disk; cb_size_byte = 8192 }

on_disk-valid : validate on_disk_config ≡ some ok
unfolding validate Config.validate_disk Config.validate_limit Config.validate_buffer
    Buffer.is_power_below
on_disk-valid = refl

abbrev no_pieces : ℕ → AllocMeta
no_pieces p = record { size = 0; state = MetaState.tombstone }

-- Keys as long as the greatest record.
abbrev long_keys : Config
long_keys = record on_disk_config {
  sizes = record on_disk { max_fence_len = 1024; max_record_size = 512 };
}

long_keys-valid : validate long_keys ≡ some ok
unfolding validate Config.validate_disk Config.validate_limit Config.validate_buffer
    Buffer.is_power_below
long_keys-valid = refl

long_keys-panics : create_mem_page_size_classes long_keys.sizes ≡ none
unfolding create_mem_page_size_classes
long_keys-panics = refl

validate-build_example :
    ((64 / 2 ≡ 1952) × (create_mem_page_size_classes on_disk ≡ none))
    ⊎ ((64 / 2 < 1952) × IsBuilt on_disk_config 7372 no_pieces)
validate-build_example = validate-build on_disk_config 7372 no_pieces on_disk-valid
