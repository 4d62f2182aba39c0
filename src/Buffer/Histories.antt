-- ===== src/Buffer/Histories.antt =====
-- Runs of the manager's methods, as the hub makes them.
use falcon_instrument_hub.Prelude.{
  ℕ, String, ◌≡◌, false, if◌then◌else◌, comparable_nat, comparable_string,
}
use falcon_instrument_hub.Prelude.Maps.{lookup, has}
use falcon_instrument_hub.Prelude.Floats.{Floats}
use falcon_instrument_hub.Buffer.Shared.{Library, Counting}
use falcon_instrument_hub.Buffer.{
  Hub, new_data_buffer_manager, register_buffer, consume_samples, release_buffer, release_requestor,
}
use falcon_instrument_hub.Buffer.Ledger.{
  Inv, register_buffer-Inv, consume_samples-Inv, release_buffer-Inv,
}
use falcon_instrument_hub.Buffer.Owners.{release_requestor-Inv}

module _ {F : Floats} (L : Library F) where
  -- A history of method calls that starts at `m`; the library never hands out an id for a new
  -- buffer while the hub still tracks one of that id.
  pub data History (m : Hub L) : Hub L → Type 0 where
    start : History m m
    registers :
        {n : Hub L} (requestor id : String) (now : ℕ)
        → History m n
        → has id n.buffers ≡ false
        → History m (register_buffer L requestor id now n).1
    consumes :
        {n : Hub L} (requestor id : String)
        → History m n
        → History m (consume_samples L requestor id n).1
    releases : {n : Hub L} (id : String) → History m n → History m (release_buffer L id n).1
    releases_requestor :
        {n : Hub L} (requestor : String)
        → History m n
        → History m (release_requestor L requestor n).1

module _ {F : Floats} {L : Library F} (C : Counting L) where
  pub History-Inv : {m n : Hub L} → Inv C m → History L m n → Inv C n
  History-Inv v start = v
  History-Inv v (registers {n = n} requestor id now h free) =
      register_buffer-Inv C requestor id now n (History-Inv v h) free
  History-Inv v (consumes {n = n} requestor id h) =
      consume_samples-Inv C requestor id n (History-Inv v h)
  History-Inv v (releases {n = n} id h) = release_buffer-Inv C id n (History-Inv v h)
  History-Inv v (releases_requestor {n = n} requestor h) =
      release_requestor-Inv C requestor n (History-Inv v h)

  pub new-Inv :
      (w : L.World) → ((j : String) → C.refs w j ≡ 0) → Inv C (new_data_buffer_manager L w)
  unfolding has lookup
  new-Inv w h = record { distinct = tt; keyed = tt; balanced = h }

  -- Start a manager in a world where the hub holds no reference, and run any history of calls in
  -- which RegisterBuffer is never called with an id that is still tracked. Then the hub holds one
  -- reference to each tracked buffer and none to any other, whatever calls failed on the way.
  pub refs-History :
      (w : L.World) (m : Hub L)
      → ((j : String) → C.refs w j ≡ 0)
      → History L (new_data_buffer_manager L w) m
      → (j : String) → C.refs m.world j ≡ (if has j m.buffers then 1 else 0)
  refs-History w m h run j = (History-Inv (new-Inv w h) run).balanced j
