-- ===== src/Cli/Print/Prints.antt =====
-- Actions that append given bytes to an output, or fail.
use bencode.Prelude.{
  ℕ, ◌≡◌, ◌∙◌, sym, ap, refl, Bytes, Bool, true, false, [], ◌∷◌, ◌++◌, append_assoc, append-nil,
}
use bencode.Status.{ok}
use bencode.Exec.{Exec, returned, pure, ◌>>=◌, ◌>>◌}
use bencode.Exec.Ensures
use bencode.Exec.Ensures.{Ensures, returns, raises}
use bencode.Memory.{Memory}
use bencode.Cli.{Platform, World, world, succeed, call}

-- A call that reports no error has appended the bytes.
abbrev pub Appends : {S : Type 0} → (S → Bytes) → Bytes → (S → Bool × S) → Type 0
Appends {S} contents bs f = (s : S) → (f s).0 ≡ true → contents (f s).1 ≡ contents s ++ bs

-- The output calls, on the stream `out`, which is `stdout` for `puts`.
pub record Outputs {F S : Type 0} (os : Platform F S) (out : F) (contents : S → Bytes)
    : Type 0 where
  pub fputc : (c : ℕ) → Appends contents (c ∷ []) (os.fputc c out)
  pub fputs : (bs : Bytes) → Appends contents bs (os.fputs bs out)
  pub puts : (bs : Bytes) → Appends contents (bs ++ b'\n' ∷ []) (os.puts bs)
  pub fflush : Appends contents [] (os.fflush out)
  pub fprintf : (bs : Bytes) → Appends contents bs (os.fprintf out bs)

module _ {S : Type 0} (contents : S → Bytes) where
  abbrev pub Wrote : Bytes → Memory → S → World S → Type 0
  Wrote bs m s w = (w.memory ≡ m) × (contents w.outside ≡ contents s ++ bs)

  pub record Prints (bs : Bytes) (a : Exec (World S) (Unit {0})) : Type 0 where
    pub prints :
        (m : Memory) (s : S) → Ensures (λ _ w. Wrote bs m s w) (λ _ w. w.memory ≡ m) (a (world m s))

  pub Prints-nothing : Prints [] (pure tt)
  Prints-nothing = record { prints = λ m s. returns (refl, sym (append-nil (contents s))) }

  call-Ensures :
      (bs : Bytes) (m : Memory) (s : S) (o : Bool × S)
      → (o.0 ≡ true → contents o.1 ≡ contents s ++ bs)
      → Ensures (λ _ w. Wrote bs m s w) (λ _ w. w.memory ≡ m) (succeed m o)
  call-Ensures bs m s (true, t) e = returns (refl, e refl)
  call-Ensures bs m s (false, t) e = raises refl

  pub Prints-call : {bs : Bytes} {f : S → Bool × S} → Appends contents bs f → Prints bs (call f)
  Prints-call {bs} {f} h = record { prints = λ m s. call-Ensures bs m s (f s) (h s) }

  pub Prints-then :
      {xs ys : Bytes} {a b : Exec (World S) (Unit {0})}
      → Prints xs a
      → Prints ys b
      → Prints (xs ++ ys) (a >> b)
  Prints-then {xs} {ys} {b = b} pa pb = record {
    prints = λ m s.
        Ensures.bind {k = λ _. b} (pa.prints m s)
          (λ _ w (same, wrote).
            Ensures.mono (pb.prints w.memory w.outside)
              (λ _ u (kept, more).
                (kept ∙ same, more ∙ ap (λ c. c ++ ys) wrote ∙ append_assoc (contents s) xs ys))
              (λ _ _ kept. kept ∙ same))
          (λ _ _ q. q);
  }

  -- A call that only reads.
  pub Prints-read :
      {A : Type 0} {bs : Bytes} (a : Exec (World S) A) (k : A → Exec (World S) (Unit {0})) (x : A)
      → ((m : Memory) (s : S) → a (world m s) ≡ returned (ok x) (world m s))
      → Prints bs (k x)
      → Prints bs (a >>= k)
  Prints-read a k x e p = record { prints = λ m s. rw (e m s) (p.prints m s) }
