-- ===== src/Buffer/Examples.antt =====
-- A library that counts references in a function, and the theorems at runs over it.
use falcon_instrument_hub.Prelude.{
  ℕ, ◌+◌, ◌-◌, ◌%◌, ◌^◌, ◌<◌, String, ◌≡◌, refl, ◌≢◌, true, false, [], ◌∷◌, arith, if◌then◌else◌,
  ◌==◌, comparable_nat, comparable_string, ==_iff, length, sum, ok, err, is_ok,
}
use falcon_instrument_hub.Prelude.Int.{ℤ, pos}
use falcon_instrument_hub.Prelude.Floats.{Floats}
use falcon_instrument_hub.Buffer.Shared.{Library, BufferMetadata, float64, unsupported, Counting}
use falcon_instrument_hub.Buffer.{
  stats, list_buffers, length, total_bytes, false, true, Hub, new_data_buffer_manager,
}
use falcon_instrument_hub.Prelude.Maps.{lookup, insert, has}
use falcon_instrument_hub.Buffer.{
  register_buffer, consume_samples, release_buffer, release_requestor, buffers_for_requestor,
  unsupported_type,
}
use falcon_instrument_hub.Buffer.Ledger.{Inv}
use falcon_instrument_hub.Buffer.Owners.{buffers_for_requestor-release_requestor}
use falcon_instrument_hub.Buffer.Consume.{
  owns, consume_samples_foreign, consume_samples-releases, consume_samples-eq-ok,
}
use falcon_instrument_hub.Buffer.Claims.{register_twice_leaks}
use falcon_instrument_hub.Buffer.Sizes.{byte_sizes, stats-list_buffers}
use falcon_instrument_hub.Buffer.Histories.{
  History, History-Inv, new-Inv, refs-History, start, registers, consumes,
}

abbrev pub integers : Floats
integers = record {
  Float32 = ℤ;
  Float64 = ℤ;
  widen = λ x. x;
  of_int = λ x. x;
  add = λ x y. x;
  div = λ x y. x;
  is_nan = λ x. false;
  is_inf = λ x. false;
}

abbrev pub sheet : BufferMetadata
sheet = record {
  buffer_id = "b";
  instrument_name = "dmm";
  command_id = "c";
  type = float64;
  element_count = 2;
  byte_size = 16;
  timestamp_ms = 0;
  global_ref_count = 1;
}

-- The buffer "" does not exist, "bad" has an unsupported type, and "locked" cannot be released by
-- the script server.
abbrev pub counted : Library integers
counted = record {
  World = String → ℕ;
  Handle = String;
  Failure = String;
  get_buffer = λ id w.
      if id == "" then (err "no buffer", w) else (ok id, λ j. w j + (if id == j then 1 else 0));
  get_metadata = λ id w. (ok sheet, w);
  release_buffer = λ id w j. w j - (if id == j then 1 else 0);
  server_release = λ id w. if id == "locked" then (err "locked", w) else (ok tt, w);
  data_buffer_type = λ h w. if h == "bad" then unsupported 9 else float64;
  float32_slice = λ h w. [];
  float64_slice = λ h w. pos 3 ∷ pos 4 ∷ [];
  int32_slice = λ h w. [];
  int64_slice = λ h w. [];
  uint32_slice = λ h w. [];
  uint64_slice = λ h w. [];
  uint8_slice = λ h w. [];
}

counted-get-ok :
    (k j : String) (w : String → ℕ) (h : String)
    → (counted.get_buffer k w).0 ≡ ok h
    → (counted.get_buffer k w).1 j ≡ w j + (if k == j then 1 else 0)
counted-get-ok k j w h e = ground arith

counted-get-err :
    (k j : String) (w : String → ℕ) (e : String)
    → (counted.get_buffer k w).0 ≡ err e
    → (counted.get_buffer k w).1 j ≡ w j
counted-get-err k j w e h = ground arith

counted-server : (k j : String) (w : String → ℕ) → (counted.server_release k w).1 j ≡ w j
counted-server k j w = ground arith

counted-release :
    (k j : String) (w : String → ℕ)
    → 0 < w k
    → counted.release_buffer k w j + (if k == j then 1 else 0) ≡ w j
counted-release k j w h = ground (arith, ==_iff k j)

abbrev counts : Counting counted
counts = record {
  refs = λ w j. w j;
  get-ok = counted-get-ok;
  get-err = counted-get-err;
  metadata-keeps = λ k j w. refl;
  server-keeps = counted-server;
  release-drops = counted-release;
}

abbrev pub empty_hub : Hub counted
empty_hub = new_data_buffer_manager counted (λ _. 0)

-- "a" belongs to the measurement m1, "bad" to m2, and "locked" could not be registered.
abbrev two_buffers : Hub counted
unfolding register_buffer insert
two_buffers =
    (register_buffer counted "m2" "bad" 6 (register_buffer counted "m1" "a" 5 empty_hub).1).1

abbrev two_history : History counted empty_hub two_buffers
unfolding register_buffer insert has
two_history = registers "m2" "bad" 6 (registers "m1" "a" 5 start refl) refl

two_buffers-Inv : Inv counts two_buffers
unfolding register_buffer insert has
two_buffers-Inv = History-Inv counts (new-Inv counts (λ _. 0) (λ j. refl)) two_history

locked_is_undone : (register_buffer counted "m1" "locked" 5 empty_hub).1.world "locked" ≡ 0
unfolding register_buffer
locked_is_undone = refl

refs-History_example :
    (consume_samples counted "m2" "bad" two_buffers).1.world "bad"
    ≡ (if has "bad" (consume_samples counted "m2" "bad" two_buffers).1.buffers then 1 else 0)
unfolding register_buffer insert has
refs-History_example =
    refs-History counts (λ _. 0) (consume_samples counted "m2" "bad" two_buffers).1 (λ j. refl)
      (consumes "m2" "bad" two_history) "bad"

consume_samples_foreign_example :
    (is_ok (consume_samples counted "m1" "bad" two_buffers).0 ≡ false)
    × ((consume_samples counted "m1" "bad" two_buffers).1 ≡ two_buffers)
unfolding register_buffer insert owns lookup
consume_samples_foreign_example = consume_samples_foreign counted "m1" "bad" two_buffers refl

consume_bad :
    (consume_samples counted "m2" "bad" two_buffers).0 ≡ err (unsupported_type (unsupported 9))
unfolding register_buffer insert consume_samples lookup
consume_bad = refl

consume_samples-eq-ok_example :
    (owns counted "m1" "a" two_buffers ≡ true) × (0 < length (pos 3 ∷ pos 4 ∷ []))
unfolding register_buffer insert consume_samples lookup
consume_samples-eq-ok_example =
    consume_samples-eq-ok counted "m1" "a" two_buffers (pos 3 ∷ pos 4 ∷ []) refl

consume_samples-releases_example :
    (has "bad" (consume_samples counted "m2" "bad" two_buffers).1.buffers ≡ false)
    × ((consume_samples counted "m2" "bad" two_buffers).1.world "bad" ≡ 0)
    × ((j : String)
        → j ≢ "bad"
        → lookup j (consume_samples counted "m2" "bad" two_buffers).1.buffers
          ≡ lookup j two_buffers.buffers)
unfolding register_buffer insert owns lookup
consume_samples-releases_example =
    consume_samples-releases counts "m2" "bad" two_buffers two_buffers-Inv refl

register_twice_leaks_example :
    (has "a"
        (release_buffer counted "a" (register_buffer counted "m3" "a" 9 two_buffers).1).1.buffers
      ≡ false)
    × ((release_buffer counted "a" (register_buffer counted "m3" "a" 9 two_buffers).1).1.world "a"
        ≡ 1)
unfolding register_buffer insert has
register_twice_leaks_example =
    register_twice_leaks counts "m3" "a" 9 two_buffers
      (register_buffer counted "m3" "a" 9 two_buffers).1 two_buffers-Inv refl refl

buffers_for_requestor-release_requestor_example :
    buffers_for_requestor counted "m1" (release_requestor counted "m2" two_buffers).1
    ≡ buffers_for_requestor counted "m1" two_buffers
buffers_for_requestor-release_requestor_example =
    buffers_for_requestor-release_requestor counted "m2" "m1" two_buffers

stats-list_buffers_example :
    (total_bytes counted two_buffers
      ≡ sum (byte_sizes counted (list_buffers counted two_buffers)) % 2 ^ 64)
    × (stats counted two_buffers ≡ record {
      buffer_count = length (list_buffers counted two_buffers);
      total_bytes = total_bytes counted two_buffers;
    })
stats-list_buffers_example = stats-list_buffers counted two_buffers
