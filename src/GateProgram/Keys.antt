-- ===== src/GateProgram/Keys.antt =====
-- From the keys to the gate.
use pigate.Prelude.{
  ℕ, ◌≡◌, refl, ap, ◌∙◌, String, Bool, true, false, Option, some, List, [], ◌∷◌, ◌++◌, arith,
  returns, string_eq, int_eq, ◌==◌, if◌then◌else◌, length, inl, inr, ℤ, Option-cases, none,
}
use pigate.Database.Models
use pigate.Database.Models.{Time, Credential}
use pigate.Database.Sql.{call}
use pigate.Database.Table.{find}
use pigate.Database.Credentials.{Tables, code_of, select_credential}
use pigate.Database.Credentials.Quiet.{calm}
use pigate.Database.Sqlite
use pigate.Database.Sqlite.{AccessRow, group_of, access_time}
use pigate.Messenger.Client.{Client}
use pigate.Gate.Controller.{GateController, temp_open, lock_open}
use pigate.Gate.Access.{validate_credential, is_lock_code, open_gate}
use pigate.Gate.Access.Local.{local_manager, verdict, access_time-ne-nil}
use pigate.Gate.Keypad.Frame.Laws.{bit}
use pigate.Gate.Keypad.Reader.{
  Reader, Event, edge_d0, edge_d1, takes_bit, run, step, enqueue_bit, receive_bit, join,
}
use pigate.Gate.Keypad.Reader.Draining.{receive_bit-bit_ch}
use pigate.Gate.Keypad.Reader.Typing.{Press, name_of, press, press_all, press_five, sent_code}
use pigate.GateProgram.{Program, drop, on_code, on_codes, hear}

-- The edge of a bit.
abbrev pub edge : Bool → Event
edge true = edge_d1
edge false = edge_d0

-- The pulses of a key, each read at its time.
abbrev pub pulses : Press → List Event
pulses p =
    edge p.bits.0
    ∷ takes_bit p.times.0
    ∷ edge p.bits.1
    ∷ takes_bit p.times.1
    ∷ edge p.bits.2
    ∷ takes_bit p.times.2
    ∷ edge p.bits.3
    ∷ takes_bit p.times.3
    ∷ []

abbrev pub all_pulses : List Press → List Event
all_pulses [] = []
all_pulses (p ∷ ps) = pulses p ++ all_pulses ps

pub record IsReady (k : Reader) : Type 0 where
  pub empty : k.bit_ch ≡ []
  pub running : k.stopped ≡ false

step-edge :
    (b : Bool) (at : ℕ) (k : Reader)
    → IsReady k
    → step (takes_bit at) (step (edge b) k) ≡ receive_bit at (bit b) k
unfolding step enqueue_bit
step-edge true at k r = ground (arith, r.empty, r.running)
step-edge false at k r = ground (arith, r.empty, r.running)

receive_bit-IsReady : (at : ℕ) (b : ℤ) (k : Reader) → IsReady k → IsReady (receive_bit at b k)
receive_bit-IsReady at b k r =
    let (same_ch, same_stop) = receive_bit-bit_ch at b k in
    record { empty = same_ch ∙ r.empty; running = same_stop ∙ r.running }

press-IsReady : (p : Press) (k : Reader) → IsReady k → IsReady (press p k)
unfolding press
press-IsReady p k r = receive_bit-IsReady p.times.3 (bit p.bits.3) _ (
    receive_bit-IsReady p.times.2 (bit p.bits.2) _ (
      receive_bit-IsReady p.times.1 (bit p.bits.1) _
        (receive_bit-IsReady p.times.0 (bit p.bits.0) k r)))

run_none : (k : Reader) → run [] k ≡ k
unfolding run
run_none k = refl

run_append : (es fs : List Event) (k : Reader) → run (es ++ fs) k ≡ run fs (run es k)
unfolding run
run_append [] fs k = refl
run_append (e ∷ es) fs k = run_append es fs (step e k)

run-edge :
    (b : Bool) (at : ℕ) (es : List Event) (k : Reader)
    → IsReady k
    → run (edge b ∷ takes_bit at ∷ es) k ≡ run es (receive_bit at (bit b) k)
unfolding run
run-edge b at es k r = ap (λ j. run es j) (step-edge b at k r)

run-pulses : (p : Press) (k : Reader) → IsReady k → run (pulses p) k ≡ press p k
unfolding press
run-pulses p k r =
    let r1 = receive_bit-IsReady p.times.0 (bit p.bits.0) k r in
    let r2 = receive_bit-IsReady p.times.1 (bit p.bits.1) _ r1 in
    let r3 = receive_bit-IsReady p.times.2 (bit p.bits.2) _ r2 in
    run-edge p.bits.0 p.times.0 _ k r
    ∙ run-edge p.bits.1 p.times.1 _ _ r1
    ∙ run-edge p.bits.2 p.times.2 _ _ r2
    ∙ run-edge p.bits.3 p.times.3 _ _ r3
    ∙ run_none _

run-all_pulses : (ps : List Press) (k : Reader) → IsReady k → run (all_pulses ps) k ≡ press_all ps k
unfolding press_all
run-all_pulses [] k r = run_none k
run-all_pulses (p ∷ ps) k r =
    run_append (pulses p) (all_pulses ps) k
    ∙ ap (λ j. run (all_pulses ps) j) (run-pulses p k r)
    ∙ run-all_pulses ps (press p k) (press-IsReady p k r)

drop-append : (xs : List String) (x : String) → drop (xs ++ x ∷ []) (length xs) ≡ x ∷ []
drop-append [] x = refl
drop-append (y ∷ xs) x = drop-append xs x

-- What a code does to the gate, from the row of `credentials` with this code.
abbrev pub admitted :
    Time → ℕ → List AccessRow → Option Credential → GateController → GateController
admitted now instant rows none g = g
admitted now instant rows (some c) g =
    if verdict now (some c) rows
    then if c.open_mode == Models.lock_open then lock_open g else temp_open instant g
    else g

open_gate_quiet :
    (code : String) (now : Time) (instant : ℕ) (g : GateController) (t : Tables AccessRow)
    → open_gate local_manager code now instant g (calm t)
      ≡ (returns (admitted now instant t.access_times (find code_of code t.credentials) g), calm t)
unfolding open_gate validate_credential verdict is_lock_code Sqlite.get_credential
    Sqlite.get_access_time call select_credential
open_gate_quiet code now instant g t = elim (Option-cases (find code_of code t.credentials)) [
  | inl missing ↦ ground arith
  | inr (c, found) ↦
      ground (arith, access_time-ne-nil (find group_of c.access_group t.access_times))
]

module _ (client : Client) where
  -- From a program whose reader is idle and not stopped, and whose local database has no failing
  -- call: five keys, each as four pulses that are taken before the next ones come and with no
  -- time-out between them, become one code of their five characters, and the gate is opened for
  -- a while, or for good where the credential of the code is of the mode `lock_open`, if the code
  -- is valid; otherwise the gate stays as it is. The databases and the broker are not touched.
  pub hear-all_pulses :
      (a b c d e : Press) (now : Time) (instant : ℕ) (t : Tables AccessRow) (p : Program client)
      → IsReady p.reader
      → p.reader.key_bits ≡ []
      → p.reader.keys ≡ []
      → p.sides.near ≡ calm t
      → let names = name_of a ∷ name_of b ∷ name_of c ∷ name_of d ∷ name_of e ∷ [] in
        hear client (all_pulses (a ∷ b ∷ c ∷ d ∷ e ∷ [])) now instant p
        ≡ returns (record p {
          reader = sent_code names p.reader;
          gate =
              admitted now instant t.access_times (find code_of (join names) t.credentials) p.gate;
        })
  unfolding hear on_codes on_code
  hear-all_pulses a b c d e now instant t p ready no_bits no_keys quiet =
      let names = name_of a ∷ name_of b ∷ name_of c ∷ name_of d ∷ name_of e ∷ [] in
      rw
        (
          run-all_pulses (a ∷ b ∷ c ∷ d ∷ e ∷ []) p.reader ready,
          press_five a b c d e p.reader no_bits no_keys,
          drop-append p.reader.received (join names),
          quiet,
          on_codes,
          open_gate_quiet (join names) now instant p.gate t,
        )
        refl
