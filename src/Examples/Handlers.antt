-- ===== src/Examples/Handlers.antt =====
-- The theorems on the handlers: a snapshot, datagrams in time and out of time, a late start.
use quic_keys.Common.{ℕ, ◌/◌, ◌%◌, ◌&&◌, ◌≡◌, [], ◌∷◌, refl, arith, Bytes, codes, some}
use quic_keys.KeySet.{mem}
use quic_keys.Report.{report_of}
use quic_keys.Wire.{byte_at}
use quic_keys.Snapshot.{build_snapshot, is_keyboard_usage, test_bit}
use quic_keys.HidSocket.{send_called}
use quic_keys.Udp.{parse_datagram, Datagram, is_separator}
use quic_keys.Udp.Messages.{build_edge_msg, parse_datagram-build}
use quic_keys.Keyboard
use quic_keys.Keyboard.{edge_set, udp_edge, mark_up, quic_edge}
use quic_keys.Keyboard.Invariant.{IsValid}
use quic_keys.Daemon.{
  udp, edge_message, monitor, start, stamp, step, run, handle_snapshot, handle_udp,
}
use quic_keys.Daemon.Deadlines.{drop_outcome, handle_udp-ahead}
use quic_keys.Daemon.Validity.{sections, step-sections, run-start-IsValid}
use quic_keys.Daemon.Reports.{snapshot_heals}
use quic_keys.Examples.{config, willing, exhausted, broken, typing, desk, bits}

-- "t=5000000 down a"
abbrev press : Datagram
press = record { t_ns = 5000000; cmd = codes "down"; key = codes "a" }

abbrev press_text : Bytes
press_text = build_edge_msg (codes "down") (codes "a") 5000000

-- An edge of the reliable stream: sequence 1, sent at 90 ms, `a` down, shift held.
abbrev reliable_press : Bytes
reliable_press = 0 ∷ 0 ∷ 0 ∷ 1 ∷ 0 ∷ 0 ∷ 0 ∷ 0 ∷ 0 ∷ 0 ∷ 0 ∷ 90 ∷ 0 ∷ 4 ∷ 1 ∷ 2 ∷ []

snapshot_heals_example :
    let o = handle_snapshot willing 9000000 (build_snapshot 2 bits 1 7 8) (run config [] desk) in
    ((u : ℕ)
      → mem u o.daemon.keyboard.pressed
        ≡ (is_keyboard_usage u && test_bit (byte_at bits (u / 8)) (u % 8)))
    × (o.daemon.keyboard.modifiers ≡ 2 % 256)
    × (o.calls
        ≡ send_called 4
            (report_of o.daemon.keyboard.pressed o.daemon.keyboard.modifiers).bytes
            (some 8)
          ∷ [])
snapshot_heals_example =
    snapshot_heals config [] desk willing 9000000 2 1 7 8 bits 4 8 (omega arith) (omega arith) refl
      (unfold run in refl) refl

run-start-IsValid_example :
    IsValid
      (run config
        (udp willing willing 1 1 press_text
          ∷ edge_message broken 2 reliable_press
          ∷ monitor exhausted 3
          ∷ [])
        (start (codes "/tmp/hidra.kbd") 0)).keyboard
run-start-IsValid_example = run-start-IsValid config (codes "/tmp/hidra.kbd") 0 (
    udp willing willing 1 1 press_text
    ∷ edge_message broken 2 reliable_press
    ∷ monitor exhausted 3
    ∷ [])

step-sections_example :
    (step config (edge_message willing 95000000 reliable_press) desk).daemon.keyboard
    ≡ Keyboard.run config.limits
        (sections config (edge_message willing 95000000 reliable_press))
        typing
step-sections_example = step-sections config (edge_message willing 95000000 reliable_press) desk

press-read : parse_datagram press_text ≡ some press
unfolding is_separator
press-read =
    parse_datagram-build (codes "down") (codes "a") 5000000
      ((λ h. cc), (refl, (refl, (refl, (refl, tt))))) ((λ h. cc), (refl, tt)) (omega arith)

handle_udp-ahead_example :
    handle_udp config willing willing 4999999 0 press_text desk ≡ drop_outcome 4999999 press desk
handle_udp-ahead_example =
    handle_udp-ahead config willing willing 4999999 0 press_text press desk 100 press-read refl
      (omega arith) (omega arith) (omega arith) (unfold stamp in omega arith)
      (unfold stamp in omega arith) (unfold stamp in omega arith)
