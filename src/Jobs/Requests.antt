-- ===== src/Jobs/Requests.antt =====
-- Building a job request, and reading a job's results.
use falcon_instrument_hub.Prelude.{
  String, ◌≡◌, refl, sym, ap, ◌∙◌, ◌≢◌, ◌↔◌, Option, none, some, List, [], ◌∷◌, ◌++◌, map,
  append_assoc, append-nil, map-append, if◌then◌else◌, ◌==◌, comparable_nat, comparable_string, All,
  Result, ok, err,
}
use falcon_instrument_hub.Prelude.Floats.{Floats}
use falcon_instrument_hub.Prelude.Maps.{lookup, insert, lookup-insert}
use falcon_instrument_hub.Values.{
  Value, Wire, EncodeError, LuaType, to_grpc, from_grpc, lua_type, data_buffer, s,
}
use falcon_instrument_hub.Jobs.{
  MeasureVariable, JobRequest, Param, add_variable, add_encoded, add_typed, add_variables,
  build_measure_job_request, return_value, retyped, decoded,
}

module _ {F : Floats} where
  -- The type that the daemon's manifest has for a value: an array's type beside that of its elements,
  -- and none in particular for nil and for maps.
  pub manifest_type : Value F → Option LuaType
  manifest_type Value.nil = some LuaType.unspecified
  manifest_type (Value.mixed_map v) = some LuaType.unspecified
  manifest_type (Value.int64 v) = some LuaType.int64_type
  manifest_type (Value.float64 v) = some LuaType.double_type
  manifest_type (Value.bool v) = some LuaType.bool_type
  manifest_type (Value.string v) = some LuaType.string_type
  manifest_type (Value.data_buffer v) = some LuaType.data_buffer_type
  manifest_type (Value.call_stack v) = some LuaType.call_stack_type
  manifest_type (Value.instrument_domain v) = some LuaType.domain_type
  manifest_type (Value.instrument_target v) = some LuaType.target_type
  manifest_type (Value.int64_array v) = some LuaType.int64_array_type
  manifest_type (Value.double_array v) = some LuaType.double_array_type
  manifest_type (Value.bool_array v) = some LuaType.bool_array_type
  manifest_type (Value.string_array v) = some LuaType.string_array_type
  manifest_type (Value.data_buffer_array v) = some LuaType.data_buffer_array_type
  manifest_type (Value.call_stack_array v) = some LuaType.call_stack_array_type
  manifest_type (Value.instrument_domain_array v) = some LuaType.domain_array_type
  manifest_type (Value.instrument_target_array v) = some LuaType.target_array_type
  manifest_type _ = none

  lua_type-manifest_type : (v : Value F) → lua_type F v ≡ manifest_type v
  unfolding lua_type manifest_type
  lua_type-manifest_type Value.nil = refl
  lua_type-manifest_type (Value.bool v) = refl
  lua_type-manifest_type (Value.int v) = refl
  lua_type-manifest_type (Value.int8 v) = refl
  lua_type-manifest_type (Value.int16 v) = refl
  lua_type-manifest_type (Value.int32 v) = refl
  lua_type-manifest_type (Value.int64 v) = refl
  lua_type-manifest_type (Value.uint v) = refl
  lua_type-manifest_type (Value.uint8 v) = refl
  lua_type-manifest_type (Value.uint16 v) = refl
  lua_type-manifest_type (Value.uint32 v) = refl
  lua_type-manifest_type (Value.uint64 v) = refl
  lua_type-manifest_type (Value.float32 v) = refl
  lua_type-manifest_type (Value.float64 v) = refl
  lua_type-manifest_type (Value.string v) = refl
  lua_type-manifest_type (Value.data_buffer v) = refl
  lua_type-manifest_type (Value.call_stack v) = refl
  lua_type-manifest_type (Value.instrument_target v) = refl
  lua_type-manifest_type (Value.instrument_domain v) = refl
  lua_type-manifest_type (Value.int64_array v) = refl
  lua_type-manifest_type (Value.double_array v) = refl
  lua_type-manifest_type (Value.bool_array v) = refl
  lua_type-manifest_type (Value.string_array v) = refl
  lua_type-manifest_type (Value.data_buffer_array v) = refl
  lua_type-manifest_type (Value.call_stack_array v) = refl
  lua_type-manifest_type (Value.instrument_target_array v) = refl
  lua_type-manifest_type (Value.instrument_domain_array v) = refl
  lua_type-manifest_type (Value.mixed_map v) = refl
  lua_type-manifest_type Value.other = refl

  -- A value that the server takes: it can be encoded, and its Lua type is known.
  pub record Sendable (v : MeasureVariable F) : Type 0 where
    pub wire : Wire F
    pub type : LuaType
    pub encodes : to_grpc v.value ≡ ok wire
    pub typed : lua_type F v.value ≡ some type

  unfoldable pub AllSendable : List (MeasureVariable F) → Type 0
  AllSendable vs = All Sendable vs

  -- The names and types of the variables, and of a request's parameters.
  abbrev pub declared : List (MeasureVariable F) → List (String × Option LuaType)
  declared vs = map (λ v. (v.name, manifest_type v.value)) vs

  abbrev pub declarations : JobRequest F → List (String × Option LuaType)
  declarations r = map (λ p. (p.0, some p.1)) r.parameters

  pub extended : MeasureVariable F → Wire F → LuaType → JobRequest F → JobRequest F
  extended v w t req = record req {
    globals = insert v.name w req.globals;
    parameters = req.parameters ++ (v.name, t) ∷ [];
  }

  pub add_accepted :
      (v : MeasureVariable F) (req : JobRequest F) (e : Sendable v)
      → add_variable v req ≡ some (ok (extended v e.wire e.type req))
  unfolding add_variable add_encoded add_typed extended
  add_accepted v req e = rw (e.encodes, add_encoded) (rw (e.typed, add_typed))

  wire_of : Result EncodeError (Wire F) → Option (Wire F) → Option (Wire F)
  wire_of (ok w) d = some w
  wire_of (err e) d = d

  -- The wire form of the last variable of that name, or `d` if there is none.
  pub last_wire : String → List (MeasureVariable F) → Option (Wire F) → Option (Wire F)
  unfolding wire_of
  last_wire k [] d = d
  last_wire k (v ∷ vs) d = last_wire k vs (if v.name == k then wire_of (to_grpc v.value) d else d)

  -- What the loop leaves unchanged or adds, from any request on.
  record Extends (vs : List (MeasureVariable F)) (req r : JobRequest F) : Type 0 where
    path : r.script_path ≡ req.script_path
    parameters : declarations r ≡ declarations req ++ declared vs
    globals : (k : String) → lookup k r.globals ≡ last_wire k vs (lookup k req.globals)

  declarations-extended :
      (v : MeasureVariable F) (e : Sendable v) (req : JobRequest F)
      (ns : List (String × Option LuaType))
      → declarations (extended v e.wire e.type req) ++ ns
        ≡ declarations req ++ (v.name, manifest_type v.value) ∷ ns
  unfolding extended
  declarations-extended v e req ns =
      let same : manifest_type v.value ≡ some e.type =
        sym (lua_type-manifest_type v.value) ∙ e.typed in
      rw same (simp (map-append, append_assoc))

  globals-extended :
      (v : MeasureVariable F) (req : JobRequest F) (e : Sendable v) (k : String)
      → lookup k (extended v e.wire e.type req).globals ≡ (
          if v.name == k
          then wire_of (to_grpc v.value) (lookup k req.globals)
          else lookup k req.globals)
  unfolding extended wire_of
  globals-extended v req e k = rw (e.encodes, wire_of) (lookup-insert v.name k e.wire req.globals)

  add_variables_lem :
      (vs : List (MeasureVariable F)) (req : JobRequest F)
      → All Sendable vs
      → (r : JobRequest F) × (add_variables vs req ≡ some (ok r)) × Extends vs req r
  unfolding add_variables last_wire
  add_variables_lem [] req a =
      (req, refl, record { path = refl; parameters = sym (append-nil _); globals = λ k. refl })
  add_variables_lem (v ∷ vs) req (e, a) =
      let (r, q, x) = add_variables_lem vs (extended v e.wire e.type req) a in
      (
        r,
        rw (add_accepted v req e, add_variables) q,
        record {
          path = x.path ∙ unfold extended in refl;
          parameters = x.parameters ∙ declarations-extended v e req (declared vs);
          globals = λ k. x.globals k ∙ ap (last_wire k vs) (globals-extended v req e k);
        },
      )

  -- A list of variables that the server takes makes a request for the given script. Its parameters
  -- are the variables in their order, each with the manifest's type of its value; each global has
  -- the value of the last variable of its name, and no other global is set.
  pub build_measure_job_request-sendable :
      (path : String) (vs : List (MeasureVariable F))
      → AllSendable vs
      → (r : JobRequest F) × (build_measure_job_request path vs ≡ some (ok r))
        × (r.script_path ≡ path)
        × (declarations r ≡ declared vs)
        × ((k : String) → lookup k r.globals ≡ last_wire k vs none)
  unfolding build_measure_job_request AllSendable lookup
  build_measure_job_request-sendable path vs a =
      let (r, q, x) =
        add_variables_lem vs (record { script_path = path; globals = []; parameters = [] }) a in
      (r, q, x.path, x.parameters, x.globals)

  from_grpc-buffer : (w : Wire F) (id : String) → from_grpc w ≢ data_buffer id
  unfolding from_grpc
  from_grpc-buffer (Wire.is_nil v) id = λ h. cc
  from_grpc-buffer (Wire.b v) id = λ h. cc
  from_grpc-buffer (Wire.i v) id = λ h. cc
  from_grpc-buffer (Wire.d v) id = λ h. cc
  from_grpc-buffer (Wire.s v) id = λ h. cc
  from_grpc-buffer (Wire.i_array v) id = λ h. cc
  from_grpc-buffer (Wire.d_array v) id = λ h. cc
  from_grpc-buffer (Wire.b_array v) id = λ h. cc
  from_grpc-buffer (Wire.s_array v) id = λ h. cc
  from_grpc-buffer (Wire.db_array v) id = λ h. cc
  from_grpc-buffer (Wire.cs_array v) id = λ h. cc
  from_grpc-buffer (Wire.t_array v) id = λ h. cc
  from_grpc-buffer (Wire.dn_array v) id = λ h. cc
  from_grpc-buffer (Wire.m_map v) id = λ h. cc

  decoded-buffer : (o : Option (Wire F)) (id : String) → decoded o ≢ data_buffer id
  unfolding decoded
  decoded-buffer none id = λ h. cc
  decoded-buffer (some w) id = from_grpc-buffer w id

  decoded-text : (o : Option (Wire F)) (id : String) → decoded o ≡ Value.string id → o ≡ some (s id)
  unfolding decoded from_grpc
  decoded-text none id h = cc
  decoded-text (some (Wire.is_nil v)) id h = cc
  decoded-text (some (Wire.b v)) id h = cc
  decoded-text (some (Wire.i v)) id h = cc
  decoded-text (some (Wire.d v)) id h = cc
  decoded-text (some (Wire.s v)) id h = cc
  decoded-text (some (Wire.i_array v)) id h = cc
  decoded-text (some (Wire.d_array v)) id h = cc
  decoded-text (some (Wire.b_array v)) id h = cc
  decoded-text (some (Wire.s_array v)) id h = cc
  decoded-text (some (Wire.db_array v)) id h = cc
  decoded-text (some (Wire.cs_array v)) id h = cc
  decoded-text (some (Wire.t_array v)) id h = cc
  decoded-text (some (Wire.dn_array v)) id h = cc
  decoded-text (some (Wire.m_map v)) id h = cc

  retyped-inverse :
      (t : LuaType) (v : Value F) (id : String)
      → v ≢ data_buffer id
      → retyped t v ≡ data_buffer id
      → (t ≡ LuaType.data_buffer_type) × (v ≡ Value.string id)
  unfolding retyped
  retyped-inverse LuaType.data_buffer_type (Value.string x) id n h = (refl, cc)
  retyped-inverse LuaType.data_buffer_type _ id n h = absurd (n h)
  retyped-inverse _ v id n h = absurd (n h)

  -- A return value is a buffer reference exactly if the script server declared it as a data buffer
  -- and sent its ID as text.
  pub return_value-buffer :
      (p : Param F) (id : String)
      → ((return_value p).value ≡ data_buffer id)
        ↔ ((p.type ≡ LuaType.data_buffer_type) × (p.value ≡ some (s id)))
  unfolding return_value
  return_value-buffer p id = (there, back)
    where
      there :
          (return_value p).value ≡ data_buffer id
          → (p.type ≡ LuaType.data_buffer_type) × (p.value ≡ some (s id))
      there h =
          let (t, v) = retyped-inverse p.type (decoded p.value) id (decoded-buffer p.value id) h in
          (t, decoded-text p.value id v)

      back :
          (p.type ≡ LuaType.data_buffer_type) × (p.value ≡ some (s id))
          → (return_value p).value ≡ data_buffer id
      back (t, v) = unfold decoded retyped from_grpc in (rw (t, v))
