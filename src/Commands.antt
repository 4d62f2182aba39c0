-- ===== src/Commands.antt =====
-- runtime/internal/handlers/measure/measure_command_handler.go, handlers/setting/setting_handler.go
-- and handlers/settingguard/settingguard.go: what a MEASURE_COMMAND and a SETTING_COMMAND message
-- does. A deferred call stands after the work it waits for; log lines are left out.
pub mod Flags
pub mod Guarding
pub mod Examples
use Prim.Native.String.{◌++◌ as ◌+++◌}
use falcon_instrument_hub.Prelude.{
  ℕ, zero, suc, ◌+◌, ◌-◌, ◌*◌, ◌/◌, ◌%◌, ◌^◌, ◌≤◌, ◌<◌, String, ◌≡◌, refl, sym, ap, subst, fun_ext,
  ◌∙◌, ◌≢◌, ◌↔◌, ◌⊎◌, inl, inr, Bool, true, false, not, ◌&&◌, ◌||◌, Option, none, some, List, [],
  ◌∷◌, ◌++◌, map, append_assoc, append-nil, map-append, arith, ltb, leb, if◌then◌else◌, ltb→lt,
  leb→le, Bool-cases, Option-cases, Comparable, ◌==◌, comparable_nat, comparable_string, ==_iff,
  ==_refl, length, get_elem?, set, replicate, length-append, length-map, All, sum, product, Result,
  ok, err, ◌>>=◌, ◌>>◌, wrap, guard, is_ok, Result-cases, and_then, nat_same, nat_same_iff, bind_ok,
  wrap_ok, and_then_ok, guard_ok, ok_injective,
}
use falcon_instrument_hub.Prelude.Int.{ℤ}

-- What the handlers share: the manager's busy flag, the write guard, and the rest.
pub record HandlerState (W : Type 0) : Type 0 where
  pub busy : Bool
  pub writes_locked : Bool
  pub world : W

-- api.MeasureCommand and api.SettingCommand
pub record Command : Type 0 where
  pub request : String
  pub timestamp : ℤ
  pub hash : ℤ

module _ (W Raw Request Response Falcon E : Type 0) where
  -- The calls of a handler: the JSON and Falcon conversions, the router, which sees the guard, and
  -- the publications. `render` is strconv.FormatInt in base 10.
  pub record HandlerServices : Type 0 where
    pub unmarshal : String → Result E Command
    pub from_json : String → Result E Raw
    pub from_falcon : Raw → Result E Request
    pub route : Request → Bool → W → Result E Response × W
    pub new_falcon : Response → Result E Falcon
    pub to_json : Falcon → Result E String
    pub marshal_response : Command → String → Result E String
    pub response_subject : ℤ → String
    pub render : ℤ → String
    pub stream_publish : String → String → W → Result E (Unit {0}) × W
    pub publish : String → String → W → Result E (Unit {0}) × W

module _ {W : Type 0} where
  unfoldable pub set_is_busy : Bool → HandlerState W → HandlerState W
  set_is_busy b s = record s { busy = b }

  unfoldable pub lock_writes : HandlerState W → HandlerState W
  lock_writes s = record s { writes_locked = true }

  unfoldable pub unlock_writes : HandlerState W → HandlerState W
  unlock_writes s = record s { writes_locked = false }

module _ {W Raw Request Response Falcon E : Type 0}
    (S : HandlerServices W Raw Request Response Falcon E) where
  -- Publish of the answer; its error is only logged.
  published : String → Result E String → HandlerState W → HandlerState W
  published subject (err e) s = s
  published subject (ok json) s = record s { world = (S.publish subject json s.world).1 }

  -- publishMeasurementResponse: the data goes to the stream first, and the answer only names it.
  streamed : Command → String → Result E (Unit {0}) × W → HandlerState W → HandlerState W
  unfolding published
  streamed cmd measure_subject (err e, w) s = record s { world = w }
  streamed cmd measure_subject (ok u, w) s =
      published (S.response_subject cmd.timestamp) (S.marshal_response cmd measure_subject)
        (record s { world = w })

  pub publish_measurement_response : Command → String → HandlerState W → HandlerState W
  unfolding streamed
  publish_measurement_response cmd json s =
      let measure_subject = "FALCON.MEASURE_DATA." +++ S.render cmd.timestamp in
      streamed cmd measure_subject (S.stream_publish measure_subject json s.world) s

  -- publishSettingmentResponse
  pub publish_setting_response : Command → String → HandlerState W → HandlerState W
  unfolding published
  publish_setting_response cmd json s =
      published (S.response_subject cmd.timestamp) (S.marshal_response cmd json) s

  -- What follows the router's answer: the conversions, then the publication.
  answered :
      (Command → String → HandlerState W → HandlerState W)
      → Command
      → Result E Response
      → HandlerState W
      → HandlerState W
  answered publication cmd x s = elim (x >>= λ r. (S.new_falcon r >>= λ f. S.to_json f)) [
    | err e ↦ s
    | ok json ↦ publication cmd json s
  ]

  routed :
      (Command → String → HandlerState W → HandlerState W)
      → Command
      → Request
      → HandlerState W
      → HandlerState W
  unfolding answered
  routed publication cmd req s =
      let x = S.route req s.writes_locked s.world in
      answered publication cmd x.0 (record s { world = x.1 })

  -- The request's conversions, and then what the handler does with it.
  parsed : Command → (Request → HandlerState W → HandlerState W) → HandlerState W → HandlerState W
  parsed cmd work s = elim (S.from_json cmd.request >>= λ raw. S.from_falcon raw) [
    | err e ↦ s
    | ok req ↦ work req s
  ]

  -- The command is read, an empty one is ignored, and the flag is set for as long as it is handled.
  pub received :
      (Command → Request → HandlerState W → HandlerState W)
      → Result E Command
      → HandlerState W
      → HandlerState W
  unfolding parsed set_is_busy
  received work (err e) s = s
  received work (ok cmd) s =
      let handled = set_is_busy false (parsed cmd (work cmd) (set_is_busy true s)) in
      if cmd.request == "" then s else handled

  -- The measure handler's part under the guard.
  guarded : Command → Request → HandlerState W → HandlerState W
  unfolding routed publish_measurement_response lock_writes unlock_writes
  guarded cmd req s = unlock_writes (routed publish_measurement_response cmd req (lock_writes s))

  -- handleMessage of the measure command handler.
  unfoldable pub handle_measure_message : String → HandlerState W → HandlerState W
  unfolding received guarded
  handle_measure_message msg s = received guarded (S.unmarshal msg) s

  -- handleMessage of the setting command handler.
  unfoldable pub handle_setting_message : String → HandlerState W → HandlerState W
  unfolding received routed publish_setting_response
  handle_setting_message msg s = received (routed publish_setting_response) (S.unmarshal msg) s
