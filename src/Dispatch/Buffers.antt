-- ===== src/Dispatch/Buffers.antt =====
-- What a measurement registers, and under whose name.
use falcon_instrument_hub.Prelude.{
  String, ◌≡◌, ◌⊎◌, false, List, [], ◌∷◌, ◌++◌, map, comparable_nat, comparable_string, All, Result,
  ok, is_ok,
}
use falcon_instrument_hub.Prelude.Floats.{Floats}
use falcon_instrument_hub.Values.{Value, data_buffer, data_buffer_array}
use falcon_instrument_hub.Jobs.{CallResult, ReturnValue}
use falcon_instrument_hub.Dispatch.{Action, DispatchError}
use falcon_instrument_hub.Dispatch.Programs.{Runs}

module _ {F : Floats} where
  -- The buffers that a value refers to: the one that it names, or those that its array lists.
  mentioned : Value F → List String
  mentioned (data_buffer id) = id ∷ []
  mentioned (data_buffer_array ids) = ids
  mentioned _ = []

  -- The buffer IDs in the returned values of a measurement, in their order.
  pub return_refs : List (ReturnValue F) → List String
  unfolding mentioned
  return_refs [] = []
  return_refs (r ∷ rs) = mentioned r.value ++ return_refs rs

  pub call_refs : List (CallResult F) → List String
  call_refs [] = []
  call_refs (c ∷ cs) = return_refs c.returns ++ call_refs cs

-- The registrations of buffers on behalf of one requestor.
unfoldable pub claims : String → List String → List (String × String)
claims requestor ids = map (λ id. (requestor, id)) ids

-- Every registration names this requestor.
abbrev pub OwnedBy : String → List (String × String) → Type 0
OwnedBy requestor t = All (λ e. e.0 ≡ requestor) t

module _ {F : Floats} {Failure : Type 0} {B : Type 0} (requestor : String) where
  -- A run of "register `ids`, then `rest`": either a registration failed, or all were made and the
  -- run goes on as one of `rest`.
  abbrev Splits :
      List String
      → Action F Failure B
      → List (String × String)
      → Result (DispatchError Failure) B
      → Type 0
  Splits ids rest t r =
      ((is_ok r ≡ false) × OwnedBy requestor t)
      ⊎ ((u : List (String × String)) × (t ≡ claims requestor ids ++ u) × Runs rest u r)

module _ {F : Floats} {Failure : Type 0} where
  -- What a run of a measurement for `requestor` may have registered when it ends with `r`.
  pub Claims :
      String
      → List (String × String)
      → Result (DispatchError Failure) (List (CallResult F))
      → Type 0
  Claims requestor t r =
      OwnedBy requestor t
      × ((cs : List (CallResult F)) → r ≡ ok cs → t ≡ claims requestor (call_refs cs))
