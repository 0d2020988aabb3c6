-- ===== src/EndToEnd/Typing.antt =====
-- From client/hybrid_run.py through daemon/src/main.cpp to the keyboard of the guest in qemu/dev-hid.c: the
-- keys that are typed, by snapshots.
use quic_keys.Common.{
  last_or, ◌+◌, ℕ, ◌≤◌, ◌≢◌, false, List, [], ◌∷◌, ◌++◌, some, map, map-append, ◌≡◌, refl, sym, ap,
  ap₂, ◌∙◌, arith, Bytes, All, length, take, take_all, ==_iff, ==_refl,
}
use quic_keys.Report.{report_of}
use quic_keys.KeySet.{mem, Distinct}
use quic_keys.HidSocket.{Kernel}
use quic_keys.Snapshot.Bitmap.{pressed_keys-Distinct}
use quic_keys.Stream.{receive_all}
use quic_keys.Stream.Framing
use quic_keys.Stream.Framing.{concat}
use quic_keys.Keyboard.{Keyboard}
use quic_keys.Daemon.{Config, Daemon, Event, snapshot_message, step, run}
use quic_keys.Daemon.Streams.{snapshot_receiver, run-append}
use quic_keys.Daemon.Snapshots.{
  run_sends, run_sends-append, snapshot-sends, run_sends-states, SendSucceeds,
}
use quic_keys.Device.{UsbHidState, read_all}
use quic_keys.Device.Apply.{padded}
use quic_keys.Device.Ingest.{Holds}
use quic_keys.Client.{workload_events, state_machine, Round, quic_snapshot_sender}
use quic_keys.Client.Outbox.{OutboxMove, outbox_run, new_outbox, drain, calls_of, IsIncreasing}
use quic_keys.Client.Healing.{
  AllKeyboard, state_machine-All, last_or-records, length-round, sender_heals,
}
use quic_keys.Client.Workload.{workload-one_key}
use quic_keys.EndToEnd.{Emitted, bytes_of, guest_shows_last}

-- A list without repetitions is that of the at most one key that it has the members of.
same_small :
    (xs ys : List ℕ) → length ys ≤ 1 → Distinct xs → ((u : ℕ) → mem u xs ≡ mem u ys) → xs ≡ ys
unfolding mem
same_small [] [] h d same = refl
same_small (x ∷ xs) [] h d same = absurd (ground (arith, same x, ==_refl x))
same_small [] (y ∷ []) h d same = absurd (ground (arith, same y, ==_refl y))
same_small (x ∷ []) (y ∷ []) h d same =
    let e : x ≡ y = (==_iff x y).0 (ground (arith, same x, ==_refl x)) in rw e refl
same_small (x ∷ x' ∷ xs) (y ∷ []) h d same =
    absurd (ground (arith, same x, same x', ==_refl x, ==_refl x', ==_iff x y, ==_iff x' y, d))
same_small xs (y ∷ y' ∷ ys) h d same = absurd (omega arith)

keyboard-nonzero : (us : List ℕ) → AllKeyboard us → All (λ u. u ≢ 0) us
keyboard-nonzero [] h = tt
keyboard-nonzero (u ∷ us) (h, hs) = (λ z. ground (arith, h, z), keyboard-nonzero us hs)

-- A state as a report shows it.
shown_state : Keyboard → Emitted
shown_state k = record { pressed = k.pressed; modifiers = k.modifiers }

map-shown_state :
    (ks : List Keyboard)
    → map bytes_of (map shown_state ks)
      ≡ map (λ (k : Keyboard). (report_of k.pressed k.modifiers).bytes) ks
unfolding shown_state
map-shown_state [] = refl
map-shown_state (k ∷ ks) =
    ap (λ t. (report_of k.pressed k.modifiers).bytes ∷ t) (map-shown_state ks)

-- All that events and a last snapshot send.
snapshots_shown :
    (c : Config) (os : Kernel) (now_ns fd n : ℕ) (earlier : List Event) (message : Bytes)
    (d : Daemon)
    → length message ≡ 52
    → All SendSucceeds earlier
    → os.send_result ≡ some n
    → d.hid.fd ≡ some fd
    → let events = earlier ++ snapshot_message os now_ns message ∷ [] in
      let k = (run c events d).keyboard in
      (es : List Emitted) × (run_sends c events d ≡ map bytes_of (es ++ shown_state k ∷ []))
      × Distinct k.pressed
unfolding run_sends run shown_state
snapshots_shown c os now_ns fd n earlier message d whole succeed sent at_fd =
    let (ks, reports, still) = run_sends-states c earlier d fd succeed at_fd in
    let last = snapshot_message os now_ns message in
    let d' = run c earlier d in
    let (report, still', keys) = snapshot-sends c os now_ns fd n sent message d' whole still in
    let final = (step c last d').daemon.keyboard in
    let sends_all : run_sends c (earlier ++ last ∷ []) d
        ≡ map bytes_of (map shown_state ks ++ shown_state final ∷ []) =
      run_sends-append c earlier (last ∷ []) d
      ∙ ap₂ (λ (x y : List Bytes). x ++ y) reports (ap (λ t. t ++ []) report)
      ∙ ap (λ t. t ++ bytes_of (shown_state final) ∷ []) (sym (map-shown_state ks))
      ∙ sym (map-append bytes_of (map shown_state ks) (shown_state final ∷ [])) in
    let runs = run-append c earlier (last ∷ []) d in
    rw runs (map shown_state ks, sends_all, rw keys (pressed_keys-Distinct message))

-- Suppose that the client's last snapshot is not lost and is of the keys held after the first `k` events of the
-- workload, that each snapshot is to be sent later than those before it, and that the bytes which leave the
-- outbox reach `stream_cb` in any pieces; the daemon may handle any other events before the last message of
-- that stream (other snapshots, edges, monitor rounds, at any readings of the clock) and may hold any keys
-- before, but its socket is connected and every `send` succeeds. The guest's keyboard, whose buffer is empty and
-- whose array has room for six keys, reads what was sent up to then in any pieces. Then its modifiers are 0,
-- its array is the keys that the client held (one key or none) padded with zeros, and its count is their
-- number.
pub guest_shows_client :
    (c : Config) (os : Kernel) (fd n now_ns t_ms send_at : ℕ) (text : Bytes) (times key_delay k : ℕ)
    (rounds : List Round) (moves : List OutboxMove) (events : List (List Bytes))
    (earlier : List Event) (d : Daemon) (key_size : ℕ) (reads : List Bytes) (us : UsbHidState)
    → let held = state_machine (take k (workload_events text times key_delay)) [] in
      let last : Round = record { pressed = held; t_ms = t_ms; lost = false; send_at = send_at } in
      calls_of moves ≡ quic_snapshot_sender 0 (rounds ++ last ∷ [])
      → IsIncreasing 0 (quic_snapshot_sender 0 (rounds ++ last ∷ []))
      → Framing.bytes_of events ≡ concat (drain (outbox_run moves new_outbox)).sent
      → All SendSucceeds earlier
      → os.send_result ≡ some n
      → d.hid.fd ≡ some fd
      → 6 ≤ key_size
      → Holds us []
      → let message = last_or (receive_all snapshot_receiver events []).messages [] in
        concat reads ≡ concat (run_sends c (earlier ++ snapshot_message os now_ns message ∷ []) d)
        → let hs = (read_all key_size reads us).hid in
          (hs.modifiers ≡ 0) × (hs.key ≡ padded key_size held) × (hs.keys ≡ length held)
unfolding shown_state
guest_shows_client c os fd n now_ns t_ms send_at text times key_delay k rounds moves events earlier
      d key_size reads us calls inc stream succeed sent at_fd room empty same =
    let typed = take k (workload_events text times key_delay) in
    let held = state_machine typed [] in
    let few = (workload-one_key text times key_delay k).0 in
    let last : Round = record { pressed = held; t_ms = t_ms; lost = false; send_at = send_at } in
    let message = last_or (receive_all snapshot_receiver events []).messages [] in
    let whole : length message ≡ 52 =
      rw (last_or-records rounds last moves events refl calls inc stream)
        (length-round (length rounds + 0) last) in
    let (keys, mods) =
      sender_heals c os now_ns t_ms send_at rounds typed moves events earlier d calls inc stream in
    let (es, reports, distinct) =
      snapshots_shown c os now_ns fd n earlier message d whole succeed sent at_fd in
    let d' = run c (earlier ++ snapshot_message os now_ns message ∷ []) d in
    let pressed : d'.keyboard.pressed ≡ held =
      same_small d'.keyboard.pressed held few distinct keys in
    let known : All (λ u. u ≢ 0) held = keyboard-nonzero held (state_machine-All typed [] tt) in
    let (m, key, number) =
      guest_shows_last key_size es (shown_state d'.keyboard) reads us room empty
        (same ∙ ap concat reports) (rw pressed known) in
    let short = take_all 6 held (omega (arith, few)) in
    (m ∙ mods, key ∙ rw (pressed, short) refl, number ∙ rw (pressed, short) refl)
