-- ===== src/Client/Clearing.antt =====
-- The snapshots of client/quic_snapshots.py in the stream and the snapshot callback of daemon/src/main.cpp.
use quic_keys.Common.{
  ℕ, ◌+◌, ◌/◌, ◌%◌, false, List, [], ◌∷◌, ◌++◌, length, map, replicate, ◌≡◌, refl, ap, ◌∙◌, arith,
  Bytes, All,
}
use quic_keys.KeySet.{mem}
use quic_keys.HidSocket.{Kernel}
use quic_keys.Snapshot.{build_snapshot}
use quic_keys.Snapshot.RoundTrip.{built_length}
use quic_keys.Snapshot.Bitmap.{test_bit-zero}
use quic_keys.Stream.{receive_all}
use quic_keys.Stream.Framing.{concat, bytes_of}
use quic_keys.Daemon.{Config, Daemon, snapshot_message, run}
use quic_keys.Daemon.Streams.{snapshot_receiver, stream_heals}
use quic_keys.Client.Bitmap.{get_or-zeros}
use quic_keys.Client.Scripts.{empty_snapshots}

empty-sizes : (seq : ℕ) (ts : List ℕ) → All (λ m. length m ≡ 52) (empty_snapshots seq ts)
unfolding empty_snapshots
empty-sizes seq [] = tt
empty-sizes seq (t ∷ ts) = (built_length 0 1 seq t (replicate 32 0), empty-sizes (seq + 1) ts)

empty-append :
    (seq : ℕ) (ts : List ℕ) (t : ℕ)
    → empty_snapshots seq (ts ++ t ∷ [])
      ≡ empty_snapshots seq ts ++ build_snapshot 0 (replicate 32 0) 1 (length ts + seq) t ∷ []
unfolding empty_snapshots build_snapshot
empty-append seq [] t = let first : 0 + seq ≡ seq = omega arith in rw first refl
empty-append seq (s ∷ ts) t =
    let one_more : length ts + (seq + 1) ≡ length (s ∷ ts) + seq = omega arith in
    ap (λ ms. build_snapshot 0 (replicate 32 0) 1 seq s ∷ ms)
      (empty-append (seq + 1) ts t ∙ rw one_more refl)

-- However many snapshots it sends, one at least, and however their bytes are split over RECEIVE events: the
-- daemon then holds no key and no modifiers.
pub empty_snapshots-clear :
    (c : Config) (os : Kernel) (now_ns t_ms : ℕ) (ts : List ℕ) (events : List (List Bytes))
    (d : Daemon)
    → bytes_of events ≡ concat (empty_snapshots 0 (ts ++ t_ms ∷ []))
    → let records = (receive_all snapshot_receiver events []).messages in
      let k = (run c (map (snapshot_message os now_ns) records) d).keyboard in
      ((u : ℕ) → mem u k.pressed ≡ false) × (k.modifiers ≡ 0)
empty_snapshots-clear c os now_ns t_ms ts events d same =
    let (keys, mods) =
      stream_heals c os now_ns 0 1 (length ts + 0) t_ms (replicate 32 0) events
        (empty_snapshots 0 ts) d (omega arith) (omega arith) refl (empty-sizes 0 ts)
        (same ∙ ap concat (empty-append 0 ts t_ms)) in
    (λ u. keys u ∙ ground (arith, get_or-zeros 32 (u / 8), test_bit-zero (u % 8)), mods)
