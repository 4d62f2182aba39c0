-- ===== src/Routing/Handlers.antt =====
-- Which of the registered handlers a port goes to.
use falcon_instrument_hub.Prelude.{
  ◌≡◌, refl, true, comparable_nat, comparable_string, All, err, wrap,
}
use falcon_instrument_hub.Prelude.Floats.{Floats}
use falcon_instrument_hub.Prelude.First.{First, find-First, find_missing}
use falcon_instrument_hub.Ports.{Vocabulary, InstrumentPort, Quantity}
use falcon_instrument_hub.Routing.{
  Router, SetterHandler, GetterHandler, from_handler, no_setter, set_port, get_port, set_with,
  get_with,
}

module _ {V : Vocabulary} {F : Floats} {Metadata W E : Type 0} where
  abbrev pub CanSet :
      InstrumentPort V
      → Quantity F
      → Router V F Metadata W E
      → SetterHandler V F Metadata W E
      → Type 0
  CanSet port value r h = h.can_set port value r.ports r.script_dir ≡ true

  abbrev pub CanGet :
      InstrumentPort V → Router V F Metadata W E → GetterHandler V F Metadata W E → Type 0
  CanGet port r h = h.can_get port r.instrument_metadata r.ports r.script_dir ≡ true

  -- A write goes to the first registered handler that can set the port, whose error and world are
  -- the router's.
  set_port-First :
      (port : InstrumentPort V) (value : Quantity F) (r : Router V F Metadata W E) (w : W)
      (h : SetterHandler V F Metadata W E)
      → First (CanSet port value r) r.setters h
      → set_port port value r w
        ≡ (wrap from_handler (h.set port value r.ports w).0, (h.set port value r.ports w).1)
  unfolding set_port
  set_port-First port value r w h f =
      rw
        (
          (find-First (λ h. h.can_set port value r.ports r.script_dir) (λ h. (λ e. e, λ e. e))
                r.setters h).1
              f,
          set_with,
        )
        refl

  -- A write of a port that no registered handler can set fails without a call.
  pub set_port_missing :
      (port : InstrumentPort V) (value : Quantity F) (r : Router V F Metadata W E) (w : W)
      → All (λ h. ¬ CanSet port value r h) r.setters
      → set_port port value r w ≡ (err (no_setter port), w)
  unfolding set_port
  set_port_missing port value r w a =
      rw
        (
          (find_missing (λ h. h.can_set port value r.ports r.script_dir) (λ h. (λ e. e, λ e. e))
                r.setters).1
              a,
          set_with,
        )
        refl

  -- A read goes to the first registered handler that can get the port, whose value, error and
  -- world are the router's.
  get_port-First :
      (port : InstrumentPort V) (r : Router V F Metadata W E) (w : W)
      (h : GetterHandler V F Metadata W E)
      → First (CanGet port r) r.getters h
      → get_port port r w ≡ (
        wrap from_handler (h.get port r.ports r.instrument_metadata w).0,
        (h.get port r.ports r.instrument_metadata w).1,
      )
  unfolding get_port
  get_port-First port r w h f =
      rw
        (
          (find-First (λ h. h.can_get port r.instrument_metadata r.ports r.script_dir)
                (λ h. (λ e. e, λ e. e)) r.getters h).1
              f,
          get_with,
        )
        refl
