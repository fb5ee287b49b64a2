-- ===== src/Dom/Change.antt =====
-- A call on the innermost open container.
use bencode.Prelude.{◌≡◌, refl, Option, some, List}
use bencode.Status.{Error}
use bencode.Exec.{Run, Exec, pure, and_then}
use bencode.Exec.Ensures.{Ensures, returns, raises}
use bencode.Memory.{Memory}
use bencode.Value.{Value}
use bencode.Dom.{DomState, DomFrame, rewrap, on_memory, set_root, change}
use bencode.Dom.Contexts.{Context, plug, position, update-plug}

abbrev pub dom : Option Value → List DomFrame → Memory → DomState
dom root frames m = record { root = root; frames = frames; memory = m }

module _ {A : Type 0} {P : A → Memory → Type 0} {E : Error → Memory → Type 0} where
  pub on_memory-Ensures :
      (root : Option Value) (frames : List DomFrame) (m : Memory) (action : Exec Memory A)
      → Ensures P E (action m)
      → Ensures
          (λ a t. (n : Memory) × P a n × (t ≡ dom root frames n))
          (λ e t. (n : Memory) × E e n × (t ≡ dom root frames n))
          (on_memory action (dom root frames m))
  on_memory-Ensures root frames m action h = go _ h
    where
      go :
          (r : Run Memory A)
          → Ensures P E r
          → Ensures
              (λ a t. (n : Memory) × P a n × (t ≡ dom root frames n))
              (λ e t. (n : Memory) × E e n × (t ≡ dom root frames n))
              (rewrap (dom root frames m) r)
      go r (returns {s = n} p) = returns (n, p, refl)
      go r (raises {s = n} q) = raises (n, q, refl)

module _ {P : Value → Memory → Type 0} {E : Error → Memory → Type 0} where
  pub change-Ensures :
      (cs : List Context) (c : Value) (g : Value → Exec Memory Value) (frames : List DomFrame)
      (m : Memory)
      → Ensures P E (g c m)
      → Ensures
          (λ _ t. (w : Value) × (n : Memory) × P w n × (t ≡ dom (some (plug cs w)) frames n))
          (λ e t. (n : Memory) × E e n × (t ≡ dom (some (plug cs c)) frames n))
          (change (position cs) g (dom (some (plug cs c)) frames m))
  change-Ensures cs c g frames m h = rw (update-plug cs g c m) (go _ h)
    where
      go :
          (r : Run Memory Value)
          → Ensures P E r
          → Ensures
              (λ _ t. (w : Value) × (n : Memory) × P w n × (t ≡ dom (some (plug cs w)) frames n))
              (λ e t. (n : Memory) × E e n × (t ≡ dom (some (plug cs c)) frames n))
              (and_then
                (rewrap (dom (some (plug cs c)) frames m) (and_then r (λ w. pure (plug cs w))))
                set_root)
      go r (returns {a} {s = n} p) = returns (a, n, p, refl)
      go r (raises {s = n} q) = raises (n, q, refl)
