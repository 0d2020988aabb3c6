-- ===== src/Examples/Datagrams.antt =====
-- The theorems on texts: datagrams and the command line.
use quic_keys.Common.{◌≡◌, [], ◌∷◌, refl, arith, same_bytes, codes, some}
use quic_keys.Udp.{is_separator, parse_datagram}
use quic_keys.Udp.Messages.{build_edge_msg, parse_datagram-build}
use quic_keys.Args.{branch_of, defaults, parse_args}
use quic_keys.Args.Options.{
  listens, watches, speaks, unknown, command_line, set_options, parse_args-command_line,
}

parse_datagram-build_example :
    parse_datagram (build_edge_msg (codes "up") (codes "ENTER") 1234567890123)
    ≡ some (record { t_ns = 1234567890123; cmd = codes "up"; key = codes "ENTER" })
unfolding is_separator
parse_datagram-build_example =
    parse_datagram-build (codes "up") (codes "ENTER") 1234567890123 ((λ h. cc), (refl, (refl, tt)))
      ((λ h. cc), (refl, (refl, (refl, (refl, (refl, tt)))))) (omega arith)

parse_args-command_line_example :
    parse_args
      (command_line (
        listens (codes "10.0.0.1") 5000
        ∷ unknown (codes "--other")
        ∷ watches 250
        ∷ speaks
        ∷ watches 90
        ∷ []))
      defaults
    ≡ some (
        set_options
          (listens (codes "10.0.0.1") 5000
            ∷ unknown (codes "--other")
            ∷ watches 250
            ∷ speaks
            ∷ watches 90
            ∷ [])
          defaults)
parse_args-command_line_example =
    parse_args-command_line
      (listens (codes "10.0.0.1") 5000
        ∷ unknown (codes "--other")
        ∷ watches 250
        ∷ speaks
        ∷ watches 90
        ∷ [])
      defaults
      (
        ((refl, (refl, (refl, (refl, (refl, (refl, (refl, (refl, tt)))))))), omega arith),
        (unfold branch_of same_bytes in refl, (omega arith, (tt, (omega arith, tt)))),
      )
