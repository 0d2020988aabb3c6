-- ===== src/Examples/Records.antt =====
-- The theorems on the records of the QUIC streams.
use quic_keys.Common.{◌≡◌, true, [], ◌∷◌, arith}
use quic_keys.Stream.{receive_all, deliver}
use quic_keys.Stream.Framing.{receive_all-deliver}

-- Two bytes wait; three events bring seven more, in records of four.
receive_all-deliver_example :
    receive_all
      (record { has_callback = true; record_size = 4 })
      (((3 ∷ []) ∷ []) ∷ ([] ∷ (4 ∷ 5 ∷ 6 ∷ []) ∷ []) ∷ ((7 ∷ []) ∷ (8 ∷ 9 ∷ []) ∷ []) ∷ [])
      (1 ∷ 2 ∷ [])
    ≡ deliver 4 (1 ∷ 2 ∷ 3 ∷ 4 ∷ 5 ∷ 6 ∷ 7 ∷ 8 ∷ 9 ∷ [])
receive_all-deliver_example =
    receive_all-deliver 4
      (((3 ∷ []) ∷ []) ∷ ([] ∷ (4 ∷ 5 ∷ 6 ∷ []) ∷ []) ∷ ((7 ∷ []) ∷ (8 ∷ 9 ∷ []) ∷ []) ∷ [])
      (1 ∷ 2 ∷ []) (omega arith) (omega arith)
