-- ===== src/Commands/Flags.antt =====
-- The busy flag and the write guard before, during and after a message.
use falcon_instrument_hub.Prelude.{
  String, ◌≡◌, refl, ◌∙◌, inl, inr, Bool, true, false, Bool-cases, ◌==◌, comparable_nat,
  comparable_string, Result, ok, err, ◌>>=◌, Result-cases,
}
use falcon_instrument_hub.Commands.{
  HandlerState, Command, HandlerServices, set_is_busy, unlock_writes, published,
  publish_setting_response, answered, routed, parsed, received, guarded, handle_measure_message,
  handle_setting_message,
}

module _ {W Raw Request Response Falcon E : Type 0}
    (S : HandlerServices W Raw Request Response Falcon E) where
  parsed-between :
      (P Q : HandlerState W → Type 0) (cmd : Command)
      (work : Request → HandlerState W → HandlerState W) (s : HandlerState W)
      → ((t : HandlerState W) → P t → Q t)
      → ((req : Request) (t : HandlerState W) → P t → Q (work req t))
      → P s
      → Q (parsed S cmd work s)
  unfolding parsed
  parsed-between P Q cmd work s pq w h =
      elim (Result-cases (S.from_json cmd.request >>= λ raw. S.from_falcon raw)) [
        | inl (req, e) ↦ rw (e, parsed) (w req s h)
        | inr (x, e) ↦ rw (e, parsed) (pq s h)
      ]

  -- What holds before a message and what holds after its work, where the busy flag has no part in
  -- either.
  pub received-between :
      (P Q : HandlerState W → Type 0) (work : Command → Request → HandlerState W → HandlerState W)
      (x : Result E Command) (s : HandlerState W)
      → ((b : Bool) (t : HandlerState W) → P t → P (set_is_busy b t))
      → ((b : Bool) (t : HandlerState W) → Q t → Q (set_is_busy b t))
      → ((t : HandlerState W) → P t → Q t)
      → ((cmd : Command) (req : Request) (t : HandlerState W) → P t → Q (work cmd req t))
      → P s
      → Q (received S work x s)
  unfolding received
  received-between P Q work (err e) s p q pq w h = pq s h
  received-between P Q work (ok cmd) s p q pq w h = elim (Bool-cases (cmd.request == "")) [
    | inl e ↦ rw e (pq s h)
    | inr e ↦
        rw e (
          q false _
            (parsed-between P Q cmd (work cmd) (set_is_busy true s) pq (w cmd) (p true s h)))
  ]

  received_busy :
      (work : Command → Request → HandlerState W → HandlerState W) (x : Result E Command)
      (s : HandlerState W)
      → s.busy ≡ false
      → (received S work x s).busy ≡ false
  unfolding received set_is_busy
  received_busy work (err e) s h = h
  received_busy work (ok cmd) s h = elim (Bool-cases (cmd.request == "")) [
    | inl e ↦ rw e h
    | inr e ↦ rw e refl
  ]

  published_lock :
      (subject : String) (x : Result E String) (s : HandlerState W)
      → (published S subject x s).writes_locked ≡ s.writes_locked
  unfolding published
  published_lock subject (err e) s = refl
  published_lock subject (ok json) s = refl

  routed_lock :
      (cmd : Command) (req : Request) (s : HandlerState W)
      → (routed S (publish_setting_response S) cmd req s).writes_locked ≡ s.writes_locked
  unfolding routed answered publish_setting_response
  routed_lock cmd req s =
      elim (Result-cases
        ((S.route req s.writes_locked s.world).0 >>= λ r. (S.new_falcon r >>= λ f. S.to_json f))) [
          | inl (json, e) ↦ rw (e, answered) (published_lock _ _ _)
          | inr (x, e) ↦ rw (e, answered) refl
        ]

  -- A MEASURE_COMMAND that arrives when the hub is not busy and writes are free leaves it so, on
  -- every path: the deferred calls undo the flag and the lock.
  pub handle_measure_message_frees :
      (msg : String) (s : HandlerState W)
      → s.busy ≡ false
      → s.writes_locked ≡ false
      → ((handle_measure_message S msg s).busy ≡ false)
        × ((handle_measure_message S msg s).writes_locked ≡ false)
  unfolding handle_measure_message
  handle_measure_message_frees msg s b l = (
    received_busy (guarded S) (S.unmarshal msg) s b,
    received-between (λ t. t.writes_locked ≡ false) (λ t. t.writes_locked ≡ false) (guarded S)
        (S.unmarshal msg) s (λ b t h. unfold set_is_busy in h) (λ b t h. unfold set_is_busy in h)
        (λ t h. h) (λ cmd req t h. unfold guarded unlock_writes in refl) l,
  )

  -- A SETTING_COMMAND that arrives when the hub is not busy leaves it so, and never changes the
  -- write guard.
  handle_setting_message_frees :
      (msg : String) (s : HandlerState W)
      → s.busy ≡ false
      → ((handle_setting_message S msg s).busy ≡ false)
        × ((handle_setting_message S msg s).writes_locked ≡ s.writes_locked)
  unfolding handle_setting_message
  handle_setting_message_frees msg s b = (
    received_busy (routed S (publish_setting_response S)) (S.unmarshal msg) s b,
    received-between (λ t. t.writes_locked ≡ s.writes_locked)
        (λ t. t.writes_locked ≡ s.writes_locked) (routed S (publish_setting_response S))
        (S.unmarshal msg) s (λ b t h. unfold set_is_busy in h) (λ b t h. unfold set_is_busy in h)
        (λ t h. h) (λ cmd req t h. routed_lock cmd req t ∙ h) refl,
  )
