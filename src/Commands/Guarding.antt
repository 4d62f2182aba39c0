-- ===== src/Commands/Guarding.antt =====
-- The write guard while the measurement router runs.
use falcon_instrument_hub.Prelude.{
  String, ◌≡◌, refl, ap, ◌∙◌, ◌⊎◌, inl, inr, Bool, true, List, [], ◌∷◌, ◌++◌, comparable_nat,
  comparable_string, Result, ok, err, ◌>>=◌, Result-cases,
}
use falcon_instrument_hub.Commands.{
  HandlerState, Command, HandlerServices, set_is_busy, lock_writes, unlock_writes, published,
  streamed, publish_measurement_response, answered, routed, guarded, handle_measure_message,
}
use falcon_instrument_hub.Commands.Flags.{received-between}

module _ {W Raw Request Response Falcon E : Type 0}
    (S : HandlerServices W Raw Request Response Falcon E) (seen : W → List Bool) where
  -- The world records the guard at each call of the router, and at no publication.
  abbrev pub Witnesses : Type 0
  Witnesses =
      ((req : Request) (b : Bool) (w : W) → seen (S.route req b w).1 ≡ seen w ++ b ∷ [])
      × ((subject json : String) (w : W) → seen (S.stream_publish subject json w).1 ≡ seen w)
      × ((subject json : String) (w : W) → seen (S.publish subject json w).1 ≡ seen w)

  published_seen :
      (subject : String) (x : Result E String) (s : HandlerState W)
      → Witnesses
      → seen (published S subject x s).world ≡ seen s.world
  unfolding published
  published_seen subject (err e) s c = refl
  published_seen subject (ok json) s c = c.2 subject json s.world

  streamed_seen :
      (cmd : Command) (subject : String) (x : Result E (Unit {0}) × W) (s : HandlerState W)
      → Witnesses
      → seen (streamed S cmd subject x s).world ≡ seen x.1
  unfolding streamed
  streamed_seen cmd subject (err e, w) s c = refl
  streamed_seen cmd subject (ok u, w) s c =
      published_seen (S.response_subject cmd.timestamp) (S.marshal_response cmd subject)
        (record s { world = w }) c

  publish_seen :
      (cmd : Command) (json : String) (s : HandlerState W)
      → Witnesses
      → seen (publish_measurement_response S cmd json s).world ≡ seen s.world
  unfolding publish_measurement_response
  publish_seen cmd json s c = streamed_seen cmd _ _ s c ∙ c.1 _ json s.world

  routed_seen :
      (cmd : Command) (req : Request) (s : HandlerState W)
      → Witnesses
      → seen (routed S (publish_measurement_response S) cmd req s).world
        ≡ seen s.world ++ s.writes_locked ∷ []
  unfolding routed
  routed_seen cmd req s c =
      elim (Result-cases
        ((S.route req s.writes_locked s.world).0 >>= λ r. (S.new_falcon r >>= λ f. S.to_json f))) [
          | inl (json, e) ↦
              rw (e, answered) (publish_seen cmd json _ c ∙ c.0 req s.writes_locked s.world)
          | inr (x, e) ↦ rw (e, answered) (c.0 req s.writes_locked s.world)
        ]

  -- A MEASURE_COMMAND calls the measurement router at most once, and with the write guard locked.
  pub handle_measure_message_locks :
      (msg : String) (s : HandlerState W)
      → Witnesses
      → (seen (handle_measure_message S msg s).world ≡ seen s.world)
        ⊎ (seen (handle_measure_message S msg s).world ≡ seen s.world ++ true ∷ [])
  unfolding handle_measure_message
  handle_measure_message_locks msg s c =
      received-between S (λ t. seen t.world ≡ seen s.world)
        (λ t. (seen t.world ≡ seen s.world) ⊎ (seen t.world ≡ seen s.world ++ true ∷ []))
        (guarded S) (S.unmarshal msg) s (λ b t h. unfold set_is_busy in h)
        (λ b t h. unfold set_is_busy in h) (λ t h. inl h)
        (λ cmd req t h.
          unfold guarded unlock_writes lock_writes in
          inr (routed_seen cmd req (lock_writes t) c ∙ ap (λ l. l ++ true ∷ []) h))
        refl
