-- ===== src/Config/Accepted.antt =====
-- What a tree gets of a configuration that `validate` accepts.
use bf_tree.Common.{
  ℕ, ◌+◌, ◌-◌, ◌*◌, ◌/◌, ◌%◌, ◌≤◌, ◌<◌, ◌≡◌, ◌≢◌, ◌⊎◌, refl, sym, subst, inl, inr, arith, List,
  Option, none, some, some-injective, bind-some, Option-cases, Bool, true, false, Bool-cases,
  if◌then◌else◌, not, ◌&&◌, ltb, leb, ◌==◌, ◌>>=◌, check,
}
use bf_tree.CircularBuffer.FreeList
use bf_tree.CircularBuffer.Buffer
use bf_tree.CircularBuffer.Buffer.{AllocMeta, CircularBuffer, is_layout, is_power_of_two}
use bf_tree.Tree.SizeClasses.{
  Sizes, max_mini_page_size, max_record_size_with_meta, checked_sub, is_multiple_of, whole_lines,
  page_unit, cache_only_limit, disk_limit, create_mem_page_size_classes, check_parameters,
}
use bf_tree.Tree.SizeClasses.Guarantees.{AreChecked, IsClasses, check_parameters-AreChecked}
use bf_tree.Tree.SizeClasses.Total.{create_mem_page_size_classes-some}
use bf_tree.Config.{
  Config, ConfigError, maximum_record_size, circular_buffer_size, Validity, ok, err, refuse_if,
  validate_buffer, validate_cache_only, validate_limit, validate_disk, validate_guarantees,
  validate, is_u64,
}

refuse_if-ok :
    (b : Bool) (e : ConfigError) (rest : Option Validity)
    → refuse_if b e rest ≡ some ok
    → (b ≡ false) × (rest ≡ some ok)
refuse_if-ok true e rest h = absurd (differ (some-injective _ _ h))
  where
    differ : err e ≢ ok
    differ k = cc
refuse_if-ok false e rest h = (refl, h)

-- What the tests of `validate` on the parameters say.
record IsPlausible (c : Config) : Type 0 where
  some_bytes : 1 < c.sizes.min_record_size
  least_first : c.sizes.min_record_size ≤ c.sizes.max_record_size
  some_fence : 0 < c.sizes.max_fence_len
  key_in_record : c.sizes.max_fence_len / 2 ≤ c.sizes.max_record_size
  leaf_bound : c.sizes.leaf_page_size ≤ 32768
  key_bound : c.sizes.max_fence_len / 2 ≤ 2020
  power : is_power_of_two c.cb_size_byte ≡ true
  record_bound : c.sizes.leaf_page_size / c.sizes.min_record_size ≤ 4096
  whole_pages : c.sizes.leaf_page_size % page_unit c.sizes ≡ 0
  guarantees : validate_guarantees c ≡ some ok

not-false : (b : Bool) → not b ≡ false → b ≡ true
not-false true h = refl
not-false false h = cc

whole_unit :
    (mode : Bool) (n : ℕ)
    → (not mode && not (n % 4096 == 0)) ≡ false
    → (mode && not (n % 64 == 0)) ≡ false
    → n % (if mode then 64 else 4096) ≡ 0
whole_unit true n a b = ground (arith, not-false (n % 64 == 0) b)
whole_unit false n a b = ground (arith, not-false (n % 4096 == 0) a)

validate-IsPlausible : (c : Config) → validate c ≡ some ok → IsPlausible c
unfolding validate
validate-IsPlausible c e =
    let (a1, e1) = refuse_if-ok (leb c.sizes.min_record_size 1) _ _ e in
    let (a2, e2) = refuse_if-ok (ltb c.sizes.max_record_size c.sizes.min_record_size) _ _ e1 in
    let (a3, e3) = refuse_if-ok (c.sizes.max_fence_len == 0) _ _ e2 in
    let (a4, e4) = refuse_if-ok (ltb c.sizes.max_record_size (c.sizes.max_fence_len / 2)) _ _ e3 in
    let (a5, e5) = refuse_if-ok (ltb 32768 c.sizes.leaf_page_size) _ _ e4 in
    let (a6, e6) = refuse_if-ok (ltb 2020 (c.sizes.max_fence_len / 2)) _ _ e5 in
    let (a7, e7) = refuse_if-ok (not (is_power_of_two c.cb_size_byte)) _ _ e6 in
    let (a8, e8) =
      refuse_if-ok (ltb 4096 (c.sizes.leaf_page_size / c.sizes.min_record_size)) _ _ e7 in
    let (a9, e9) =
      refuse_if-ok (not c.sizes.cache_only && not (is_multiple_of c.sizes.leaf_page_size 4096)) _ _
        e8 in
    let (a10, e10) =
      refuse_if-ok (c.sizes.cache_only && not (is_multiple_of c.sizes.leaf_page_size 64)) _ _ e9 in
    record {
      some_bytes = ground (arith, a1);
      least_first = ground (arith, a2);
      some_fence = ground (arith, a3);
      key_in_record = ground (arith, a4);
      leaf_bound = ground (arith, a5);
      key_bound = ground (arith, a6);
      power = not-false (is_power_of_two c.cb_size_byte) a7;
      record_bound = ground (arith, a8);
      whole_pages = whole_unit c.sizes.cache_only c.sizes.leaf_page_size a9 a10;
      guarantees = e10;
    }

-- A message is no acceptance.
message_err :
    (a b n : ℕ) (f : ℕ → ℕ) (e : ConfigError)
    → (checked_sub a n >>= λ x. checked_sub (f x) b >>= λ y. some (err e)) ≢ some ok
message_err a b n f e h =
    let (x, _, h1) = bind-some (checked_sub a n) _ h in
    let (y, _, h2) = bind-some (checked_sub (f x) b) _ h1 in differ (some-injective _ _ h2)
  where
    differ : err e ≢ ok
    differ k = cc

checked_sub_le : (a b : ℕ) → b ≤ a → checked_sub a b ≡ some (a - b)
checked_sub_le a b l = let t : leb b a ≡ true = ground (arith, l) in rw t refl

validate_cache_only-limit :
    (c : Config)
    → validate_cache_only c ≡ some ok
    → (limit : ℕ) × (cache_only_limit c.sizes ≡ some limit) × (validate_buffer c ≡ some ok)
unfolding validate_cache_only cache_only_limit
validate_cache_only-limit c e =
    let least = 2 * max_record_size_with_meta c.sizes + 32 in
    let (_, _, e1) = bind-some (check (is_u64 least)) _ e in
    elim (Bool-cases (ltb c.sizes.leaf_page_size least)) [
      | inl short ↦ absurd (message_err c.sizes.leaf_page_size 8 32 (λ a. a / 2) _ (rw short at e1))
      | inr long ↦
          let l : least ≤ c.sizes.leaf_page_size = ground (arith, long) in
          let t : leb least c.sizes.leaf_page_size ≡ true = ground (arith, l) in
          let s =
            checked_sub_le c.sizes.leaf_page_size (max_record_size_with_meta c.sizes)
              (omega (arith, l)) in
          (
            whole_lines (c.sizes.leaf_page_size - max_record_size_with_meta c.sizes),
            rw (s, t) refl,
            rw long at e1,
          )
    ]

disk_limit_of :
    (c : Sizes) (x y rest : ℕ)
    → checked_sub c.leaf_page_size (max_record_size_with_meta c) ≡ some x
    → checked_sub x c.max_fence_len ≡ some y
    → checked_sub y 16 ≡ some rest
    → leb (max_record_size_with_meta c + 32) (whole_lines rest) ≡ true
    → disk_limit c ≡ some (whole_lines rest)
unfolding disk_limit
disk_limit_of c x y rest s1 s2 s3 t = rw (s1, s2, s3, t) refl

validate_disk-limit :
    (c : Config)
    → validate_disk c ≡ some ok
    → (limit : ℕ) × (disk_limit c.sizes ≡ some limit) × (validate_buffer c ≡ some ok)
unfolding validate_disk validate_limit
validate_disk-limit c e =
    let least = max_record_size_with_meta c.sizes + 32 in
    let (a, _, e1) = bind-some (checked_sub c.sizes.leaf_page_size c.sizes.max_fence_len) _ e in
    let (room, _, e2) = bind-some (checked_sub a 16) _ e1 in
    let (_, e3) = refuse_if-ok (ltb room (max_record_size_with_meta c.sizes)) _ _ e2 in
    let (x, s1, e4) =
      bind-some (checked_sub c.sizes.leaf_page_size (max_record_size_with_meta c.sizes)) _ e3 in
    let (y, s2, e5) = bind-some (checked_sub x c.sizes.max_fence_len) _ e4 in
    let (rest, s3, e6) = bind-some (checked_sub y 16) _ e5 in
    elim (Bool-cases (ltb (whole_lines rest) least)) [
      | inl short ↦
          absurd (message_err (whole_lines rest) 8 32 (λ a. a) _ (when_short rest short e6))
      | inr long ↦
          let t : leb least (whole_lines rest) ≡ true = ground (arith, long) in
          (whole_lines rest, disk_limit_of c.sizes x y rest s1 s2 s3 t, after_limit rest long e6)
    ]
  where
    Limited : ℕ → Type 0
    Limited rest = validate_limit c (whole_lines rest) ≡ some ok

    when_short :
        (rest : ℕ)
        → ltb (whole_lines rest) (max_record_size_with_meta c.sizes + 32) ≡ true
        → Limited rest
        → (checked_sub (whole_lines rest) 32 >>= λ a.
            checked_sub a 8 >>= λ n. some (err maximum_record_size))
          ≡ some ok
    when_short rest t h = rw t at h

    after_limit :
        (rest : ℕ)
        → ltb (whole_lines rest) (max_record_size_with_meta c.sizes + 32) ≡ false
        → Limited rest
        → validate_buffer c ≡ some ok
    after_limit rest t h = rw t at h

validate_guarantees-limit :
    (c : Config)
    → validate_guarantees c ≡ some ok
    → (limit : ℕ) × (max_mini_page_size c.sizes ≡ some limit) × (validate_buffer c ≡ some ok)
validate_guarantees-limit c e0 =
    let (_, _, e) = bind-some (check (is_u64 (max_record_size_with_meta c.sizes))) _ e0 in
    elim (Bool-cases c.sizes.cache_only) [
      | inl mode ↦
          let (l, x, y) = validate_cache_only-limit c (
            subst (λ m. (if m then validate_cache_only c else validate_disk c) ≡ some ok) mode e) in
          (
            l,
            subst (λ m. (if m then cache_only_limit c.sizes else disk_limit c.sizes) ≡ some l)
                (sym mode) x,
            y,
          )
      | inr mode ↦
          let (l, x, y) = validate_disk-limit c (
            subst (λ m. (if m then validate_cache_only c else validate_disk c) ≡ some ok) mode e) in
          (
            l,
            subst (λ m. (if m then cache_only_limit c.sizes else disk_limit c.sizes) ≡ some l)
                (sym mode) x,
            y,
          )
    ]

validate_buffer-room :
    (c : Config) → validate_buffer c ≡ some ok → 2 * c.sizes.leaf_page_size ≤ c.cb_size_byte
unfolding validate_buffer
validate_buffer-room c e = by_mode c.sizes.cache_only (refuse_if-ok _ circular_buffer_size _ e).0
  where
    by_mode :
        (m : Bool)
        → ltb c.cb_size_byte (if m then 4 * c.sizes.leaf_page_size else 2 * c.sizes.leaf_page_size)
          ≡ false
        → 2 * c.sizes.leaf_page_size ≤ c.cb_size_byte
    by_mode true h =
        let l : 4 * c.sizes.leaf_page_size ≤ c.cb_size_byte = ground (arith, h) in omega (arith, l)
    by_mode false h = ground (arith, h)

buffer_of :
    (capacity leaf threshold : ℕ) (metas : ℕ → AllocMeta) (f : FreeList.FreeList)
    → is_power_of_two capacity ≡ true
    → leaf + 8 ≤ capacity
    → is_layout capacity ≡ true
    → (b : CircularBuffer) × (Buffer.new capacity leaf threshold metas f ≡ some b)
unfolding Buffer.new
buffer_of capacity leaf threshold metas f p l y =
    let t : leb (leaf + 8) capacity ≡ true = ground (arith, l) in
    (
      record {
        head_addr = 0;
        evicting_addr = 0;
        tail_addr = 0;
        capacity = capacity;
        copy_on_access_threshold = threshold;
        metas = metas;
        free_list = f;
      },
      rw (p, t, y) refl,
    )

create-checked :
    (s : Sizes) (classes : List ℕ) → create_mem_page_size_classes s ≡ some classes → AreChecked s
unfolding create_mem_page_size_classes
create-checked s classes e =
    let (_, p, _) = bind-some (check_parameters s) _ e in check_parameters-AreChecked s p

-- A capacity that no memory layout has is refused.
no_layout :
    (capacity leaf threshold : ℕ) (metas : ℕ → AllocMeta) (f : FreeList.FreeList)
    → is_layout capacity ≡ false
    → Buffer.new capacity leaf threshold metas f ≡ none
unfolding Buffer.new
no_layout capacity leaf threshold metas f y = elim (Bool-cases (is_power_of_two capacity)) [
  | inr odd ↦ rw odd refl
  | inl p ↦ elim (Bool-cases (leb (leaf + 8) capacity)) [
    | inr small ↦ rw (p, small) refl
    | inl large ↦ rw (p, large, y) refl
  ]
]

-- The size classes of a configuration, made without a panic, and the circular buffer, made so too unless its
-- size is more than a memory layout may have: then making it panics.
pub record IsBuilt (c : Config) (threshold : ℕ) (metas : ℕ → AllocMeta) : Type 0 where
  pub classes : List ℕ
  pub created : create_mem_page_size_classes c.sizes ≡ some classes
  pub guaranteed : IsClasses c.sizes classes
  pub buffer :
      ((c.cb_size_byte ≤ 9223372036854771712)
        × ((b : CircularBuffer) × (Buffer.new c.cb_size_byte c.sizes.leaf_page_size threshold metas
                (FreeList.new classes)
              ≡ some b)))
      ⊎ ((9223372036854771712 < c.cb_size_byte)
          × (Buffer.new c.cb_size_byte c.sizes.leaf_page_size threshold metas (FreeList.new classes)
              ≡ none))

-- A configuration that `validate` accepts has size classes with their guarantees and a circular buffer, made
-- without a panic, with two exceptions. If half of the fence length, the length of the longest key, is the
-- greatest size of a record, making the size classes panics; and if the buffer has more than
-- 9223372036854771712 bytes, which no memory layout of pages has, making the buffer panics.
pub validate-build :
    (c : Config) (threshold : ℕ) (metas : ℕ → AllocMeta)
    → validate c ≡ some ok
    → ((c.sizes.max_fence_len / 2 ≡ c.sizes.max_record_size)
        × (create_mem_page_size_classes c.sizes ≡ none))
      ⊎ ((c.sizes.max_fence_len / 2 < c.sizes.max_record_size) × IsBuilt c threshold metas)
validate-build c threshold metas e =
    let v = validate-IsPlausible c e in
    let (limit, l, b) = validate_guarantees-limit c v.guarantees in
    let room = validate_buffer-room c b in
    elim (Bool-cases (ltb (c.sizes.max_fence_len / 2) c.sizes.max_record_size)) [
      | inr same ↦
          let n : c.sizes.max_fence_len / 2 ≡ c.sizes.max_record_size =
            ground (arith, same, v.key_in_record) in
          inl (
            n,
            elim (Option-cases (create_mem_page_size_classes c.sizes)) [
              | inl panics ↦ panics
              | inr (classes, f) ↦
                  absurd (omega (arith, n, (create-checked c.sizes classes f).key_below_record))
            ],
          )
      | inl below ↦
          let k : c.sizes.max_fence_len / 2 < c.sizes.max_record_size = ground (arith, below) in
          let checked : AreChecked c.sizes = record {
            some_bytes = v.some_bytes;
            least_first = v.least_first;
            some_fence = v.some_fence;
            key_below_record = k;
            leaf_bound = v.leaf_bound;
            key_bound = v.key_bound;
            record_bound = v.record_bound;
            whole_pages = v.whole_pages;
          } in
          let (classes, f, g) = create_mem_page_size_classes-some c.sizes limit checked l in
          let grows = g.guarantees.grows in
          let room_ok : c.sizes.leaf_page_size + 8 ≤ c.cb_size_byte = omega (arith, grows, room) in
          inr (
            k,
            record {
              classes = classes;
              created = f;
              guaranteed = g;
              buffer = elim (Bool-cases (is_layout c.cb_size_byte)) [
                | inl y ↦ inl (
                  ground (arith, y),
                  buffer_of c.cb_size_byte c.sizes.leaf_page_size threshold metas
                      (FreeList.new classes) v.power room_ok y,
                )
                | inr n ↦ inr (
                  ground (arith, n),
                  no_layout c.cb_size_byte c.sizes.leaf_page_size threshold metas
                      (FreeList.new classes) n,
                )
              ];
            },
          )
    ]
