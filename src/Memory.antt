-- ===== src/Memory.antt =====
-- src/value.c: the allocator helpers. The caller's allocator and `malloc` are not part of the
-- library: each decides, from the number of requests made so far and the size, whether a request
-- is granted.
pub mod Growth
pub mod Frees
use bencode.Prelude.{ℕ, zero, suc, ◌+◌, ◌/◌, Bool, not, Option, none, some, if◌then◌else◌, ltb}
use bencode.Prelude.Int.{size_max}
use bencode.Prelude.Word.{mul64}
use bencode.Status.{Status, ok, err, invalid_arg, nomem}
use bencode.Exec.{Exec, pure, fail, fault, out_of_fuel}

-- What is known of the heap: how many requests were made, and how many blocks are live.
pub record Memory : Type 0 where
  pub requests : ℕ
  pub live : ℕ

abbrev pub Grants : Type 0
Grants = ℕ → ℕ → Bool

-- bencode_allocator: `alloc` is none where the pointer is NULL, and `has_free` is false where
-- `free` is NULL.
pub record Allocator : Type 0 where
  pub alloc : Option Grants
  pub has_free : Bool

-- The platform's `malloc`, and the allocator that a caller passes, if not NULL.
pub record Heap : Type 0 where
  pub malloc : Grants
  pub allocator : Option Allocator

abbrev check_table : Option Grants → Bool → Status
check_table none has_free = err invalid_arg
check_table (some g) has_free = if not has_free then err invalid_arg else ok tt

abbrev check : Option Allocator → Status
check none = ok tt
check (some a) = check_table a.alloc a.has_free

-- bencode_allocator_check
unfoldable pub allocator_check : Heap → Status
allocator_check h = check h.allocator

abbrev pub custom : Option Allocator → Option Grants
custom none = none
custom (some a) = a.alloc

abbrev pub or_malloc : Option Grants → Grants → Grants
or_malloc none malloc = malloc
or_malloc (some g) malloc = g

-- `if (a != NULL && a->alloc != NULL) { return a->alloc(size, a->user); } return malloc(size);`
abbrev pub grants : Heap → Grants
grants h = or_malloc (custom h.allocator) h.malloc

abbrev pub book : Bool → Memory → Memory
book granted m = record { requests = m.requests + 1; live = if granted then suc m.live else m.live }

-- bencode_alloc: whether the result is not NULL.
unfoldable pub alloc : Heap → ℕ → Exec Memory Bool
alloc h size m = let granted = grants h m.requests size in pure granted (book granted m)

abbrev release : ℕ → Exec Memory (Unit {0})
release zero m = fault m
release (suc n) m = pure tt (record m { live = n })

-- bencode_free of a pointer that is not NULL. With no live block this frees what is not allocated.
unfoldable pub free : Exec Memory (Unit {0})
free m = release m.live m

-- bencode_free: NULL is ignored.
unfoldable pub free_if : Bool → Exec Memory (Unit {0})
unfolding free
free_if present = if present then free else pure tt

-- The loops of grow_array and of alloc_sink_append: the capacity is doubled while it is short.
unfoldable pub double_while : {S : Type 0} → (ℕ → Bool) → ℕ → ℕ → Exec S ℕ
double_while short zero new_cap s = out_of_fuel
double_while short (suc f) new_cap s =
    let more = double_while short f (mul64 new_cap 2) s in
    if short new_cap
    then if ltb (size_max / 2) new_cap then fail nomem s else more
    else pure new_cap s

-- A capacity that is not 0 can be doubled 64 times at most.
abbrev pub growth_fuel : ℕ
growth_fuel = 65

-- One block for an array or a key that is not empty.
abbrev pub block : ℕ → ℕ
block size = if ltb 0 size then 1 else 0
