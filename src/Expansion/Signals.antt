-- ===== src/Expansion/Signals.antt =====
-- runtime/internal/config/connections.go, BuildPortLibrary: the port of a signal on a channel.
use falcon_instrument_hub.Prelude.{
  get_elem?-All, ℕ, zero, suc, ◌≤◌, String, ◌≡◌, refl, sym, ap, subst, ◌∙◌, ◌⊎◌, inl, inr, some,
  List, arith, if◌then◌else◌, Bool-cases, ◌==◌, comparable_nat, comparable_string, ==_iff,
  get_elem?, All, Result, ok, ok_injective,
}
use Prim.Native.String.{◌++◌ as ◌+++◌}
use falcon_instrument_hub.Prelude.Int.{ℤ, pos, negsuc}
use falcon_instrument_hub.Prelude.Maps.{lookup}
use falcon_instrument_hub.Ports.{Vocabulary}
use falcon_instrument_hub.Traits.{Kinds}
use falcon_instrument_hub.Catalog.{
  Constants, PortLibrary, PortEntry, IoType, IoRole, ChannelGroup, CatalogError, channels, up_from,
  width, succ_int, parse_io_role, port_attributes, io_entry, input, output, inout, trigger_in,
  trigger_out, clock_in, clock_out, setting_role,
}
use falcon_instrument_hub.Expansion.{Instrument, channel_port_name, build_port_library}
use falcon_instrument_hub.Expansion.Complete.{IsListed, build_port_library-IsExpanded}

-- The order of the integers.
abbrev pub AtMost : ℤ → ℤ → Type 0
AtMost (pos a) (pos b) = a ≤ b
AtMost (negsuc a) (pos b) = Unit
AtMost (pos a) (negsuc b) = ⊥
AtMost (negsuc a) (negsuc b) = b ≤ a

width_succ :
    (c d : ℤ)
    → AtMost c d
    → (c ≡ d) ⊎ (AtMost (succ_int c) d × (width c d ≡ suc (width (succ_int c) d)))
unfolding succ_int width
width_succ (pos a) (pos b) h = ground arith
width_succ (negsuc zero) (pos b) h = inr (omega arith, omega arith)
width_succ (negsuc (suc a)) (pos b) h = inr (tt, omega arith)
width_succ (pos a) (negsuc b) h = absurd h
width_succ (negsuc zero) (negsuc b) h = inl (ap negsuc (omega arith))
width_succ (negsuc (suc a)) (negsuc b) h = ground arith

width_positive : (c d : ℤ) → AtMost c d → 1 ≤ width c d
unfolding width
width_positive (pos a) (pos b) h = omega arith
width_positive (negsuc a) (pos b) h = omega arith
width_positive (pos a) (negsuc b) h = absurd h
width_positive (negsuc a) (negsuc b) h = omega arith

width_within : (c d e : ℤ) → AtMost c d → AtMost d e → width c d ≤ width c e
unfolding width
width_within (pos a) (pos b) (pos n) h k = omega arith
width_within (pos a) (pos b) (negsuc n) h k = absurd k
width_within (pos a) (negsuc b) e h k = absurd h
width_within (negsuc a) (pos b) (pos n) h k = omega arith
width_within (negsuc a) (pos b) (negsuc n) h k = absurd k
width_within (negsuc a) (negsuc b) (pos n) h k = omega arith
width_within (negsuc a) (negsuc b) (negsuc n) h k = omega arith

-- What holds of all channels holds of each integer between the bounds.
up_from-All :
    (P : ℤ → Type 0) (n : ℕ) (c d : ℤ) → AtMost c d → width c d ≤ n → All P (up_from c n) → P d
unfolding up_from
up_from-All P zero c d m le all =
    let positive : 1 ≤ width c d = width_positive c d m in absurd (omega arith)
up_from-All P (suc n) c d m le all = elim (width_succ c d m) [
  | inl e ↦ subst P e all.0
  | inr (m', w) ↦ up_from-All P n (succ_int c) d m' (omega arith) all.1
]

-- The text of a role in an instrument's API.
abbrev pub role_name : IoRole → String
role_name input = "input"
role_name output = "output"
role_name inout = "inout"
role_name trigger_in = "trigger-in"
role_name trigger_out = "trigger-out"
role_name clock_in = "clock-in"
role_name clock_out = "clock-out"
role_name setting_role = "setting"

role_name_step :
    (s t : String) (role r : IoRole) (rest : Result CatalogError IoRole)
    → role_name role ≡ t
    → (rest ≡ ok r → role_name r ≡ s)
    → (if s == t then ok role else rest) ≡ ok r
    → role_name r ≡ s
role_name_step s t role r rest n later h = elim (Bool-cases (s == t)) [
  | inl e ↦
      let k : ok role ≡ ok r = rw e at h in
      ap role_name (sym (ok_injective role r k)) ∙ n ∙ sym ((==_iff s t).0 e)
  | inr e ↦ later (rw e at h)
]

parse_io_role-role_name : (s : String) (r : IoRole) → parse_io_role s ≡ ok r → role_name r ≡ s
unfolding parse_io_role
parse_io_role-role_name s r = role_name_step s "input" input r _ refl (
    role_name_step s "output" output r _ refl (
      role_name_step s "inout" inout r _ refl (
        role_name_step s "trigger-in" trigger_in r _ refl (
          role_name_step s "trigger-out" trigger_out r _ refl (
            role_name_step s "clock-in" clock_in r _ refl (
              role_name_step s "clock-out" clock_out r _ refl
                (role_name_step s "setting" setting_role r _ refl (λ h. cc h))))))))

module _ {V : Vocabulary} (C : Constants V) where
  -- What the instrument takes in is measured, and what it gives out is a knob.
  abbrev kind_of : IoRole → V.PortType
  kind_of setting_role = C.setting
  kind_of input = C.meter
  kind_of trigger_in = C.meter
  kind_of clock_in = C.meter
  kind_of _ = C.knob

  abbrev access_of : IoRole → V.Access
  access_of setting_role = C.read_write
  access_of inout = C.read_write
  access_of output = C.write
  access_of trigger_out = C.write
  access_of clock_out = C.write
  access_of _ = C.read

  port_attributes-kind_of :
      (r : IoRole) → ((port_attributes C r).0 ≡ kind_of r) × ((port_attributes C r).1 ≡ access_of r)
  unfolding port_attributes
  port_attributes-kind_of input = (refl, refl)
  port_attributes-kind_of output = (refl, refl)
  port_attributes-kind_of inout = (refl, refl)
  port_attributes-kind_of trigger_in = (refl, refl)
  port_attributes-kind_of trigger_out = (refl, refl)
  port_attributes-kind_of clock_in = (refl, refl)
  port_attributes-kind_of clock_out = (refl, refl)
  port_attributes-kind_of setting_role = (refl, refl)

  -- The port of a signal on a channel.
  pub record IsPortOf (i : Instrument V) (group : ChannelGroup) (channel : ℤ) (io : IoType)
      (port : PortEntry V) : Type 0 where
    instrument : (port.instrument_name ≡ i.name) × (port.instrument_type ≡ i.type)
    place : (port.channel_group ≡ group.name) × (port.channel ≡ channel)
    description : port.description ≡ io.description
    signal :
        (r : IoRole) × (io.role ≡ role_name r)
        × (port.role ≡ kind_of r)
        × (port.access ≡ access_of r)

  IsListed-IsPortOf :
      (i : Instrument V) (l : PortLibrary V) (group : ChannelGroup) (channel : ℤ) (io : IoType)
      → IsListed C i l group channel io
      → (port : PortEntry V) × (lookup
            (i.name
              +++ ("." +++ (group.name +++ ("." +++ (C.decimal channel +++ ("." +++ io.suffix))))))
            l
          ≡ some port)
        × IsPortOf i group channel io port
  unfolding channel_port_name io_entry
  IsListed-IsPortOf i l group channel io (role, unit, parsed, found) =
      let (k, a) = port_attributes-kind_of role in
      (
        io_entry C i.name i.type group.name channel io (port_attributes C role) unit,
        found,
        record {
          instrument = (refl, refl);
          place = (refl, refl);
          description = refl;
          signal = (role, sym (parse_io_role-role_name io.role role parsed), k, a);
        },
      )

module _ {V : Vocabulary} (C : Constants V) (K : Kinds V) where
  -- A library that BuildPortLibrary returns has a port for each signal of a channel group of an
  -- instrument on each channel from the group's least to its greatest one, both included. It is under
  -- the name made of the instrument, the group, the channel and the suffix, and has the instrument,
  -- the group, the channel and the description; signals into the instrument are meters that are read,
  -- signals out of it knobs that are written, a signal both ways is a knob, and a setting a setting.
  pub build_port_library-IsPortOf :
      (is : List (Instrument V)) (m : PortLibrary V)
      → build_port_library C K is ≡ ok m
      → (a b k : ℕ) (i : Instrument V) (group : ChannelGroup) (io : IoType) (channel : ℤ)
      → get_elem? is a ≡ some i
      → get_elem? i.channel_groups b ≡ some group
      → get_elem? group.io_types k ≡ some io
      → AtMost group.channel_parameter.min channel
      → AtMost channel group.channel_parameter.max
      → (port : PortEntry V) × (lookup
            (i.name
              +++ ("." +++ (group.name +++ ("." +++ (C.decimal channel +++ ("." +++ io.suffix))))))
            m
          ≡ some port)
        × IsPortOf C i group channel io port
  unfolding channels
  build_port_library-IsPortOf is m h a b k i group io channel hi hg hio least greatest =
      let groups = get_elem?-All _ is a i (build_port_library-IsExpanded C K is m h) hi in
      let ios =
        up_from-All _ _ group.channel_parameter.min channel least
          (width_within group.channel_parameter.min channel group.channel_parameter.max least
            greatest)
          (get_elem?-All _ i.channel_groups b group groups hg) in
      IsListed-IsPortOf C i m group channel io
        (get_elem?-All (IsListed C i m group channel) group.io_types k io ios hio)
