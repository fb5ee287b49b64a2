-- ===== src/Sax/Events.antt =====
-- The callbacks that a value asks for, in order, up to the first that does not return BENCODE_OK.
use mathlib.Core.Path.{fun_ext}
use bencode.Prelude.{
  Bytes, append-nil, ◌≡◌, ◌∙◌, append_assoc, refl, sym, ap, Option, List, [], ◌∷◌, ◌++◌,
}
use bencode.Status.{ok, err, Status}
use bencode.Grammar.{Event, text, spell}
use bencode.Grammar.Spelling.{spell-append}
use bencode.Sax.State.{Callbacks, fire, Aborts}

module _ {U : Type 0} where
  abbrev pub unless_aborted : Status × U → (U → Status × U) → Status × U
  unless_aborted (ok _, u) k = k u
  unless_aborted (err x, u) k = (err x, u)

module _ {U : Type 0} (cb : Option (Callbacks U)) where
  unfoldable pub deliver : List Event → U → Status × U
  deliver [] u = (ok tt, u)
  deliver (e ∷ es) u = unless_aborted (fire cb e u) (deliver es)

  pub deliver-cons :
      (e : Event) (es : List Event) (u : U) {v : U}
      → fire cb e u ≡ (ok tt, v)
      → deliver (e ∷ es) u ≡ deliver es v
  unfolding deliver
  deliver-cons e es u h = ap (λ (o : Status × U). unless_aborted o (deliver es)) h

  deliver-append_at :
      (fs : List Event) (o : Status × U) (k : U → Status × U)
      → unless_aborted (unless_aborted o k) (deliver fs)
        ≡ unless_aborted o (λ u. unless_aborted (k u) (deliver fs))
  deliver-append_at fs (ok _, u) k = refl
  deliver-append_at fs (err x, u) k = refl

  pub deliver-append :
      (es fs : List Event) (u : U)
      → deliver (es ++ fs) u ≡ unless_aborted (deliver es u) (deliver fs)
  unfolding deliver
  deliver-append [] fs u = refl
  deliver-append (e ∷ es) fs u =
      rw (fun_ext (deliver-append es fs)) (sym (deliver-append_at fs (fire cb e u) (deliver es)))

  pub deliver_then :
      (es fs : List Event) (u : U) {v : U}
      → deliver es u ≡ (ok tt, v)
      → deliver (es ++ fs) u ≡ deliver fs v
  deliver_then es fs u h = rw (deliver-append es fs u, h)

  pub deliver_one :
      (e : Event) (u : U) {v : U} → fire cb e u ≡ (ok tt, v) → deliver (e ∷ []) u ≡ (ok tt, v)
  unfolding deliver
  deliver_one e u h = rw h

  -- The callbacks were called for the first of these events only, or for all; the input begins
  -- with the bytes of these, and what the callbacks left is `v`.
  abbrev pub Breaks : Bytes → List Event → U → U → Type 0
  Breaks input whole u v =
      (es : List Event) × (more : List Event) × (rest : Bytes) × (whole ≡ es ++ more)
      × (input ≡ spell es ++ rest)
      × (st : Status) × (deliver es u ≡ (st, v))

  pub Breaks-none : (input : Bytes) (whole : List Event) {u v : U} → v ≡ u → Breaks input whole u v
  unfolding deliver
  Breaks-none input whole e = ([], whole, input, refl, refl, ok tt, ap (λ x. (ok tt, x)) (sym e))

  spell_one :
      (e : Event) {input : Bytes} (rest : Bytes)
      → input ≡ text e ++ rest
      → input ≡ spell (e ∷ []) ++ rest
  spell_one e rest read = read ∙ ap (λ x. x ++ rest) (sym (append-nil (text e)))

  pub Breaks-first :
      (e : Event) (fs : List Event) (u v : U) {input : Bytes} (rest : Bytes)
      → input ≡ text e ++ rest
      → Aborts cb e u v
      → Breaks input (e ∷ fs) u v
  unfolding deliver
  Breaks-first e fs u v rest read (x, h) = (
    e ∷ [],
    fs,
    rest,
    refl,
    spell_one e rest read,
    err x,
    ap (λ (o : Status × U). unless_aborted o (deliver [])) h,
  )

  pub Breaks-after :
      (es fs : List Event) (u v : U) {w : U} {input : Bytes} (rest : Bytes)
      → input ≡ spell es ++ rest
      → deliver es u ≡ (ok tt, v)
      → Breaks rest fs v w
      → Breaks input (es ++ fs) u w
  Breaks-after es fs u v rest read h (gs, more, end, e, read_on, st, f) = (
    es ++ gs,
    more,
    end,
    ap (λ x. es ++ x) e ∙ sym (append_assoc es gs more),
    read
        ∙ ap (λ x. spell es ++ x) read_on
        ∙ sym (append_assoc (spell es) (spell gs) end)
        ∙ ap (λ x. x ++ end) (sym (spell-append es gs)),
    st,
    deliver_then es gs u h ∙ f,
  )

  pub Breaks-next :
      (e : Event) (fs : List Event) (u v : U) {w : U} {input : Bytes} (rest : Bytes)
      → input ≡ text e ++ rest
      → fire cb e u ≡ (ok tt, v)
      → Breaks rest fs v w
      → Breaks input (e ∷ fs) u w
  Breaks-next e fs u v rest read h b =
      Breaks-after (e ∷ []) fs u v rest (spell_one e rest read) (deliver_one e u h) b

  pub Breaks-within :
      (input : Bytes) (es fs : List Event) (u v : U)
      → Breaks input es u v
      → Breaks input (es ++ fs) u v
  Breaks-within input es fs u v (gs, more, rest, e, read, st, f) =
      (gs, more ++ fs, rest, ap (λ x. x ++ fs) e ∙ append_assoc gs more fs, read, st, f)
