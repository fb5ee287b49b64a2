-- ===== src/Dom/Leads.antt =====
-- What the callbacks for a sequence of events lead to: a state of the builder, or an error.
use bencode.Prelude.{◌≡◌, refl, true, false, some, List, [], ◌∷◌, ◌++◌}
use bencode.Status.{Error, Status, ok, err}
use bencode.Grammar.{
  Event, on_int, on_string, on_list_begin, on_list_end, on_dict_begin, on_dict_end,
}
use bencode.Exec.{Exec, Run, returned}
use bencode.Exec.Ensures.{Ensures, returns, raises}
use bencode.Memory.{Heap}
use bencode.Sax.State.{fire}
use bencode.Sax.Events.{deliver}
use bencode.Dom.{DomState}
use bencode.Dom.Callbacks.{
  DomUser, building, outcome, dom_callbacks, dom_on_int, dom_on_string, open_container,
  close_container,
}

pub data Leads (P : DomState → Type 0) (E : Error → DomState → Type 0)
    : Status × DomUser → Type 0 where
  goes : {s : DomState} → P s → Leads P E (ok tt, building s)
  stops : {e : Error} {s : DomState} → E e s → Leads P E (err e, building s)

-- The callback for an event.
unfoldable pub action_of : Heap → Event → Exec DomState (Unit {0})
action_of h (on_int i) = dom_on_int h i
action_of h (on_string bs) = dom_on_string h bs
action_of h on_list_begin = open_container h false
action_of h on_list_end = close_container h
action_of h on_dict_begin = open_container h true
action_of h on_dict_end = close_container h

fire_action :
    (h : Heap) (e : Event) (s : DomState)
    → fire (some (dom_callbacks h)) e (building s) ≡ outcome (action_of h e s)
unfolding dom_callbacks action_of
fire_action h (on_int i) s = refl
fire_action h (on_string bs) s = refl
fire_action h on_list_begin s = refl
fire_action h on_list_end s = refl
fire_action h on_dict_begin s = refl
fire_action h on_dict_end s = refl

-- The callbacks for events in order, from a state: `G` holds in front of each, `P` at the end, and
-- `E` behind one that failed.
pub data Runs (h : Heap) (G : DomState → Type 0) (E : Error → DomState → Type 0)
    (P : DomState → Type 0) : List Event → DomState → Type 0 where
  done : {s : DomState} → P s → Runs h G E P [] s
  next :
      {e : Event} {es : List Event} {s t : DomState}
      → G s
      → action_of h e s ≡ returned (ok tt) t
      → Runs h G E P es t
      → Runs h G E P (e ∷ es) s
  stop :
      {e : Event} {es : List Event} {s t : DomState} {x : Error}
      → G s
      → action_of h e s ≡ returned (err x) t
      → E x t
      → Runs h G E P (e ∷ es) s

module _ (h : Heap) {G : DomState → Type 0} {E : Error → DomState → Type 0} where
  pub mono_Runs :
      {P Q : DomState → Type 0} {es : List Event} {s : DomState}
      → Runs h G E P es s
      → ((t : DomState) → P t → Q t)
      → Runs h G E Q es s
  mono_Runs (done p) f = done (f _ p)
  mono_Runs (next g e r) f = next g e (mono_Runs r f)
  mono_Runs (stop g e q) f = stop g e q

  -- One event, and then the others.
  pub cons_Runs :
      {P Q : DomState → Type 0} (e : Event) (es : List Event) (s : DomState)
      → G s
      → Ensures (λ _ t. P t) E (action_of h e s)
      → ((t : DomState) → P t → Runs h G E Q es t)
      → Runs h G E Q (e ∷ es) s
  cons_Runs {P} {Q} e es s safe first rest = go (action_of h e s) refl first
    where
      go :
          (r : Run DomState (Unit {0}))
          → action_of h e s ≡ r
          → Ensures (λ _ t. P t) E r
          → Runs h G E Q (e ∷ es) s
      go r same (returns p) = next safe same (rest _ p)
      go r same (raises q) = stop safe same q

  -- The events of one value, and then the others.
  pub append_Runs :
      {P Q : DomState → Type 0} {es : List Event} {s : DomState} (fs : List Event)
      → Runs h G E P es s
      → ((t : DomState) → P t → Runs h G E Q fs t)
      → Runs h G E Q (es ++ fs) s
  append_Runs fs (done p) rest = rest _ p
  append_Runs fs (next g e r) rest = next g e (append_Runs fs r rest)
  append_Runs fs (stop g e q) rest = stop g e q

  -- What the callbacks lead to in the end.
  pub Runs-Leads :
      {P : DomState → Type 0} {es : List Event} {s : DomState}
      → Runs h G E P es s
      → Leads P E (deliver (some (dom_callbacks h)) es (building s))
  unfolding deliver
  Runs-Leads (done p) = goes p
  Runs-Leads {es = x ∷ es} {s} (next g e r) = rw (fire_action h x s, e) (Runs-Leads r)
  Runs-Leads {es = x ∷ es} {s} (stop g e q) = rw (fire_action h x s, e) (stops q)

  -- What holds in front of all callbacks also holds where they break off.
  pub Runs-prefix :
      {P : DomState → Type 0} (es more : List Event) (s : DomState)
      → ((t : DomState) → P t → G t)
      → ((x : Error) (t : DomState) → E x t → G t)
      → Runs h G E P (es ++ more) s
      → (t : DomState) × ((deliver (some (dom_callbacks h)) es (building s)).1 ≡ building t) × G t
  unfolding deliver
  Runs-prefix [] more s keep failed (done p) = (s, refl, keep s p)
  Runs-prefix [] more s keep failed (next g e r) = (s, refl, g)
  Runs-prefix [] more s keep failed (stop g e q) = (s, refl, g)
  Runs-prefix (x ∷ es) more s keep failed (next {t} g e r) =
      rw (fire_action h x s, e) (Runs-prefix es more t keep failed r)
  Runs-prefix (x ∷ es) more s keep failed (stop {t} {x = y} g e q) =
      rw (fire_action h x s, e) (t, refl, failed y t q)
