-- ===== src/Catalog/Adding.antt =====
-- runtime/internal/config/connections.go, addPort and addIOPort: what a port that was added leaves of
-- the library.
use falcon_instrument_hub.Prelude.{
  ℕ, String, ◌≡◌, refl, sym, subst, ◌∙◌, inl, inr, Bool, true, false, not, some, if◌then◌else◌,
  Bool-cases, ◌==◌, comparable_nat, comparable_string, ==_iff, ==_refl, Result, ok, err, guard,
  bind_ok,
}
use falcon_instrument_hub.Prelude.Int.{ℤ}
use falcon_instrument_hub.Prelude.Maps.{
  Distinct, insert-Distinct, insert, lookup, lookup-insert, has, has_of_lookup,
}
use falcon_instrument_hub.Ports.{Vocabulary}
use falcon_instrument_hub.Catalog.{
  Constants, PortEntry, PortLibrary, IoType, IoRole, add_port, add_io_port, io_entry, io_label,
  parse_io_role, port_attributes, symbol_to_unit, no_name, no_suffix, duplicate_port,
}

free :
    {E A : Type 0}
    → (b : Bool) (e : E) (x m : A) → ◌≡◌ {A = Result E A} (if b then err e else ok x) (ok m)
    → (b ≡ false) × (m ≡ x)
free true e x m h = cc h
free false e x m h = (refl, cc h)

module _ {V : Vocabulary} where
  -- Every entry of the first library is in the second, and no name occurs twice.
  abbrev pub Keeps : PortLibrary V → PortLibrary V → Type 0
  Keeps l m =
      ((name : String) (e : PortEntry V) → lookup name l ≡ some e → lookup name m ≡ some e)
      × (Distinct l → Distinct m)

  pub Keeps-same : (l m : PortLibrary V) → l ≡ m → Keeps l m
  Keeps-same l m h = (λ name e f. rw (sym h) f, λ d. rw (sym h) d)

  pub Keeps-Keeps : (l m n : PortLibrary V) → Keeps l m → Keeps m n → Keeps l n
  Keeps-Keeps l m n (k, d) (k', d') = (λ name e f. k' name e (k name e f), λ x. d' (d x))

  add_port_new :
      (l m : PortLibrary V) (name : String) (entry : PortEntry V)
      → add_port l name entry ≡ ok m
      → (has name l ≡ false) × (m ≡ insert name entry l)
  unfolding add_port
  add_port_new l m name entry h = free (has name l) (duplicate_port name) (insert name entry l) m h

  add_port_entries :
      (l m : PortLibrary V) (name : String) (entry : PortEntry V) (j : String) (e : PortEntry V)
      → add_port l name entry ≡ ok m
      → lookup j l ≡ some e
      → lookup j m ≡ some e
  add_port_entries l m name entry j e h found =
      let (absent, same) = add_port_new l m name entry h in
      elim (Bool-cases (name == j)) [
        | inl t ↦
            let other : has j l ≡ false =
              subst (λ z. has z l ≡ false) ((==_iff name j).0 t) absent in
            cc (other, has_of_lookup j e l found)
        | inr f ↦ rw same (lookup-insert name j entry l ∙ rw f found)
      ]

  pub add_port-Keeps :
      (l m : PortLibrary V) (name : String) (entry : PortEntry V)
      → add_port l name entry ≡ ok m
      → Keeps l m
  add_port-Keeps l m name entry h = (
    λ j e found. add_port_entries l m name entry j e h found,
    λ d. subst Distinct (sym (add_port_new l m name entry h).1) (insert-Distinct name entry l d),
  )

  add_port_found :
      (l m : PortLibrary V) (name : String) (entry : PortEntry V)
      → add_port l name entry ≡ ok m
      → lookup name m ≡ some entry
  add_port_found l m name entry h =
      let (absent, same) = add_port_new l m name entry h in
      rw same (lookup-insert name name entry l ∙ rw (==_refl name) refl)

module _ {V : Vocabulary} (C : Constants V) where
  pub add_io_port_ok :
      (l m : PortLibrary V) (instrument : String) (type : V.Instrument) (name group : String)
      (channel : ℤ) (io : IoType) (transformed : String)
      → add_io_port C l instrument type name group channel io transformed ≡ ok m
      → Keeps l m
        × (role : IoRole) × (unit : ℕ) × (parse_io_role io.role ≡ ok role)
        × (lookup name m
            ≡ some (io_entry C instrument type group channel io (port_attributes C role) unit))
  unfolding add_io_port
  add_io_port_ok l m instrument type name group channel io transformed h =
      let (u, _, h1) =
        bind_ok (guard (not (io_label group io == "")) (if group == "" then no_name else no_suffix))
          _ m h in
      let (role, hr, h2) = bind_ok (parse_io_role io.role) _ m h1 in
      let (unit, _, h3) =
        bind_ok (symbol_to_unit C (if transformed == "" then io.unit else transformed)) _ m h2 in
      (add_port-Keeps l m name _ h3, role, unit, hr, add_port_found l m name _ h3)
