-- ===== src/Client/Edges.antt =====
-- One edge of a client, written by client/hybrid_run.py or client/client.py, in the UDP loop of
-- daemon/src/main.cpp.
use quic_keys.Common.{
  ℕ, ◌+◌, ◌*◌, ◌^◌, ◌≤◌, ◌<◌, true, false, List, some, ◌≡◌, ◌≢◌, ◌⊎◌, inl, inr, refl, sym, arith,
  Bytes, codes, ◌==◌, same_bytes, u64_mod, Bool-cases, ==_iff,
}
use quic_keys.Common.Int.{pos}
use quic_keys.KeySet.{mem}
use quic_keys.KeySet.Laws.{mem-insert, mem-erase}
use quic_keys.HidSocket.{Kernel}
use quic_keys.Keyboard.{udp_edge, mark_up}
use quic_keys.Keyboard.Edges.{mem-edge_set}
use quic_keys.Udp.{is_separator, usage_of, Datagram, parse_datagram}
use quic_keys.Udp.Tokens.{IsToken}
use quic_keys.Daemon.{Config, Daemon, udp, step, stamp}
use quic_keys.Daemon.Deadlines.{handle_udp-unknown, handle_udp-on_time}
use quic_keys.Client.{KeyEvent, usage_for_key, key_of_char, set_key}
use quic_keys.Client.Keys.{usage_for_key-usage_of}

-- An event of a key that is known: a command of the client, and the key of a character.
pub record IsKeyEvent (e : KeyEvent) : Type 0 where
  pub command : (e.cmd ≡ codes "down") ⊎ (e.cmd ≡ codes "up") ⊎ (e.cmd ≡ codes "mup")
  pub ch : ℕ
  pub named : e.key ≡ key_of_char ch
  pub known : usage_for_key (key_of_char ch) ≢ 0
  pub typed : ch ≢ b' '

pub key-IsToken :
    (ch : ℕ) → usage_for_key (key_of_char ch) ≢ 0 → ch ≢ b' ' → IsToken (key_of_char ch)
unfolding usage_for_key key_of_char is_separator
key-IsToken ch known typed = elim (Bool-cases (ch == b'\n')) [
  | inl e ↦ rw e (unfold is_separator in ((λ h. cc), (refl, (refl, (refl, (refl, (refl, tt)))))))
  | inr e ↦ rw e ((λ h. cc), (ground (arith, known), tt))
]

pub cmd-IsToken : (e : KeyEvent) → IsKeyEvent e → IsToken e.cmd
unfolding is_separator
cmd-IsToken e k = elim k.command [
  | inl h ↦ rw h ((λ h. cc), (refl, (refl, (refl, (refl, tt)))))
  | inr (inl h) ↦ rw h ((λ h. cc), (refl, (refl, tt)))
  | inr (inr h) ↦ rw h ((λ h. cc), (refl, (refl, (refl, tt))))
]

pub key-usage : (e : KeyEvent) → IsKeyEvent e → usage_of e.key ≡ usage_for_key e.key
key-usage e k = rw k.named (sym (usage_for_key-usage_of k.ch k.typed))

-- The commands of the clients.
abbrev pub IsCommand : Bytes → Type 0
IsCommand cmd = (cmd ≡ codes "down") ⊎ (cmd ≡ codes "up") ⊎ (cmd ≡ codes "mup")

module _ (c : Config) (limit : ℕ) (deadline : c.deadline_ms ≡ pos limit)
    (small : limit < 2 ^ 31) where
  -- A datagram that is not late, with a client's command, does what the command says to the key that it
  -- names, if it names one.
  pub datagram-mem :
      (os os' : Kernel) (now_ns now : ℕ) (received : Bytes) (m : Datagram) (d : Daemon) (p : List ℕ)
      → IsCommand m.cmd
      → parse_datagram received ≡ some m
      → now_ns < u64_mod
      → stamp now_ns m ≤ now_ns
      → now_ns ≤ stamp now_ns m + limit * 1000000
      → ((u : ℕ) → mem u d.keyboard.pressed ≡ mem u p)
      → (u : ℕ)
      → mem u (step c (udp os os' now_ns now received) d).daemon.keyboard.pressed
        ≡ mem u (set_key (usage_of m.key) m.cmd p)
  unfolding step udp_edge mark_up same_bytes set_key
  datagram-mem os os' now_ns now received m d p command parsed range past recent same u =
      let v : ℕ = usage_of m.key in
      let kept = mem-edge_set u v in
      elim (Bool-cases (v == 0)) [
        | inl z ↦
            rw (handle_udp-unknown c os os' now_ns now received m d parsed ((==_iff v 0).0 z), z)
              (ground (arith, same u))
        | inr k ↦
            let known : v ≢ 0 = λ z. ground (arith, k, z) in
            rw
              (handle_udp-on_time c os os' now_ns now received m d limit parsed deadline small range
                past recent known)
              (elim command [
                | inl e ↦
                    rw e (
                      ground (arith, kept true d.keyboard.pressed, mem-insert u v p, same u, known))
                | inr (inl e) ↦
                    rw e (
                      ground (arith, kept false d.keyboard.pressed, mem-erase u v p, same u, known))
                | inr (inr e) ↦ rw e (same u)
              ])
      ]
