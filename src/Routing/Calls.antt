-- ===== src/Routing/Calls.antt =====
-- The calls of handlers that a world records, and plans of calls that are made in part or whole.
use falcon_instrument_hub.Prelude.{
  ◌≡◌, refl, sym, Bool, true, false, List, [], ◌∷◌, ◌++◌, append_assoc, append-nil, comparable_nat,
  comparable_string, All, Result, ok, err, is_ok, and_then,
}
use falcon_instrument_hub.Prelude.Floats.{Floats}
use falcon_instrument_hub.Ports.{Vocabulary, InstrumentPort, Quantity, comparable_port}
use falcon_instrument_hub.Routing.{Router}

-- A call of a handler: its `Set` of this port to this value, or its `Get` of this port.
pub data Call (V : Vocabulary) (F : Floats) : Type 0 where
  write : InstrumentPort V → Quantity F → Call V F
  read : InstrumentPort V → Call V F

module _ {V : Vocabulary} {F : Floats} {Metadata W E : Type 0} (calls : W → List (Call V F)) where
  -- The world records each `Set` and each `Get` of the router's handlers.
  abbrev pub Records : Router V F Metadata W E → Type 0
  Records r =
      All
        (λ h.
          (port : InstrumentPort V) (value : Quantity F) (w : W)
          → calls (h.set port value r.ports w).1 ≡ calls w ++ write port value ∷ [])
        r.setters
      × All
          (λ h.
            (port : InstrumentPort V) (w : W)
            → calls (h.get port r.ports r.instrument_metadata w).1 ≡ calls w ++ read port ∷ [])
          r.getters

module _ {V : Vocabulary} {F : Floats} {W : Type 0} (calls : W → List (Call V F)) where
  -- From one world to the other, an initial part of the planned calls was made, and the whole
  -- of them where the plan succeeded.
  abbrev pub Performs : List (Call V F) → W → Bool → W → Type 0
  Performs planned w success w' =
      (made left : List (Call V F)) × (planned ≡ made ++ left)
      × (calls w' ≡ calls w ++ made)
      × (success ≡ true → left ≡ [])

  pub Performs-skip : (planned : List (Call V F)) (w : W) → Performs planned w false w
  Performs-skip planned w = ([], planned, refl, sym (append-nil (calls w)), λ h. cc)

  pub Performs-nil : (w : W) → Performs [] w true w
  Performs-nil w = ([], [], refl, sym (append-nil (calls w)), λ h. refl)

  pub Performs-one :
      (c : Call V F) (w w' : W) (b : Bool) → calls w' ≡ calls w ++ c ∷ [] → Performs (c ∷ []) w b w'
  Performs-one c w w' b h = (c ∷ [], [], refl, h, λ s. refl)

  pub Performs-append :
      (p q : List (Call V F)) (w w' w'' : W) (b : Bool)
      → Performs p w true w'
      → Performs q w' b w''
      → Performs (p ++ q) w b w''
  Performs-append p q w w' w'' b (made, left, e, c, s) (made', left', e', c', s') = (
    made ++ made',
    left',
    cc (e, s refl, e', append-nil made, append_assoc made made' left'),
    cc (c', c, append_assoc (calls w) made made'),
    s',
  )

  pub Performs-stop :
      (p q : List (Call V F)) (w w' : W) → Performs p w false w' → Performs (p ++ q) w false w'
  Performs-stop p q w w' (made, left, e, c, s) =
      (made, left ++ q, cc (e, append_assoc made left q), c, λ h. cc)

  pub and_then-Performs :
      {A B D : Type 0} (p q : List (Call V F)) (w : W) (x : Result D A × W)
      (k : A → W → Result D B × W)
      → Performs p w (is_ok x.0) x.1
      → ((a : A) (w' : W) → Performs q w' (is_ok (k a w').0) (k a w').1)
      → Performs (p ++ q) w (is_ok (and_then x k).0) (and_then x k).1
  and_then-Performs p q w (ok a, w') k h j =
      Performs-append p q w w' (k a w').1 (is_ok (k a w').0) h (j a w')
  and_then-Performs p q w (err e, w') k h j = Performs-stop p q w w' h
