-- ===== src/Nodes/NodeMeta/Tests.antt =====
-- The theorems on node words at concrete words.
use bf_tree.Common.{◌≡◌, arith}
use bf_tree.Nodes.NodeMeta.{NodeMeta, meta_count_with_fence, set_value_count}
use bf_tree.Nodes.NodeMeta.Flags.{SameFlags, set_value_count_lem}

-- A base page with fences and three values.
abbrev sample : NodeMeta
sample = record { encoded = 0x8003; node_size = 4096; remaining_size = 100 }

set_value_count_lem_example :
    (meta_count_with_fence (set_value_count sample 7) ≡ 7)
    × SameFlags (set_value_count sample 7) sample
    × ((set_value_count sample 7).remaining_size ≡ 100)
set_value_count_lem_example = set_value_count_lem sample 7 (omega arith)
