-- ===== src/Value/Free.antt =====
-- bencode_value_free releases exactly the blocks that a tree owns.
use bencode.Prelude.{ℕ, suc, ◌+◌, ◌≡◌, subst, if◌then◌else◌, ltb, length, arith}
use bencode.Exec.{Exec, pure, ◌>>◌}
use bencode.Memory.{Memory, block, free}
use bencode.Memory.Frees.{memory, Frees, Frees-nothing, Frees-free, Frees-free_if, Frees-then}
use bencode.Value.{
  Value, Elements, Fields, int_value, string_value, list_value, dict_value, no_elements, element,
  no_fields, field, blocks, blocks_elements, blocks_fields,
}
use bencode.Value.Build.{value_free, free_elements, free_fields}

Frees-node : (n : ℕ) {a : Exec Memory (Unit {0})} → Frees n a → Frees (suc n) (a >> free)
Frees-node n {a} fa =
    let e : n + 1 ≡ suc n = omega arith in
    subst (λ k. Frees k (a >> free)) e (Frees-then n 1 fa Frees-free)

Frees-container :
    (n k : ℕ) {a b : Exec Memory (Unit {0})}
    → Frees n a
    → Frees k b
    → Frees (suc (n + k)) (a >> (b >> free))
Frees-container n k {a} {b} fa fb =
    let e : n + suc k ≡ suc (n + k) = omega arith in
    subst (λ m. Frees m (a >> (b >> free))) e (Frees-then n (suc k) fa (Frees-node k fb))

mutual
  unfolding value_free blocks

  pub Frees-value_free : (v : Value) → Frees (blocks v) (value_free v)
  Frees-value_free (int_value i) = Frees-free
  Frees-value_free (string_value bs owned) =
      Frees-node (if owned then 1 else 0) (Frees-free_if owned)
  Frees-value_free (list_value xs capacity) =
      Frees-container (blocks_elements xs) (block capacity) (free_elements-Frees xs)
        (Frees-free_if (ltb 0 capacity))
  Frees-value_free (dict_value fs capacity) =
      Frees-container (blocks_fields fs) (block capacity) (free_fields-Frees fs)
        (Frees-free_if (ltb 0 capacity))

  free_elements-Frees : (xs : Elements) → Frees (blocks_elements xs) (free_elements xs)
  free_elements-Frees no_elements = Frees-nothing
  free_elements-Frees (element v xs) =
      Frees-then (blocks v) (blocks_elements xs) (Frees-value_free v) (free_elements-Frees xs)

  free_fields-Frees : (fs : Fields) → Frees (blocks_fields fs) (free_fields fs)
  free_fields-Frees no_fields = Frees-nothing
  free_fields-Frees (field k v fs) =
      Frees-then (block (length k)) (blocks v + blocks_fields fs) (Frees-free_if (ltb 0 (length k)))
        (Frees-then (blocks v) (blocks_fields fs) (Frees-value_free v) (free_fields-Frees fs))

-- A tree that is released gives back exactly the blocks that it owns, whatever else is live.
pub value_free-Frees :
    (v : Value) (requests others : ℕ)
    → value_free v (memory requests (blocks v + others)) ≡ pure tt (memory requests others)
value_free-Frees v = (Frees-value_free v).frees
