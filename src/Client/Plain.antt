-- ===== src/Client/Plain.antt =====
-- The datagrams of client/client.py in the UDP loop of daemon/src/main.cpp.
use quic_keys.Common.{
  Bool, not, ◌&&◌, same_bytes, ℕ, ◌^◌, ◌<◌, List, [], ◌∷◌, some, map, ◌≡◌, inl, inr, refl, sym, ap,
  ◌∙◌, arith, Bytes, All, codes, ◌==◌, if◌then◌else◌, u64_mod, Bool-cases, if_keeps, subst,
}
use quic_keys.Common.Int.{pos}
use quic_keys.KeySet.{mem}
use quic_keys.KeySet.Laws.{mem-insert, mem-erase}
use quic_keys.Udp.{is_separator, usage_of, Datagram, parse_datagram}
use quic_keys.Daemon.{Config, Daemon, udp, step, run, stamp}
use quic_keys.Udp.Plain.{IsPlain, parse_datagram-plain, parse_datagram-bare, usage_of_separator}
use quic_keys.Client.{KeyEvent, key_of_char, set_key}
use quic_keys.Client.Edges.{datagram-mem}
use quic_keys.Client.Delivery.{Meeting, arrivals}
use quic_keys.Client.Held.{hid_usage, held_after, none_held, usage_of-hid_usage}
use quic_keys.Client.Scripts.{typed_text, build_plain_msg, Shot, send_udp}

-- An event of a script: a press or a release of a character's key.
record IsTyped (e : KeyEvent) : Type 0 where
  command : IsPlain e.cmd
  ch : ℕ
  named : e.key ≡ key_of_char ch

typed_text-IsTyped : (txt : Bytes) → All IsTyped (typed_text txt)
unfolding typed_text
typed_text-IsTyped [] = tt
typed_text-IsTyped (ch ∷ txt) = (
  record { command = inl refl; ch = ch; named = refl },
  (record { command = inr refl; ch = ch; named = refl }, typed_text-IsTyped txt),
)

-- The key name that the daemon reads: nothing, where the character separates words.
key_read : ℕ → Bytes
key_read ch = if ch == b'\n' then codes "ENTER" else if is_separator ch then [] else ch ∷ []

key_read-usage : (ch : ℕ) → usage_of (key_read ch) ≡ usage_of (key_of_char ch)
unfolding key_read key_of_char
key_read-usage ch = elim (Bool-cases (ch == b'\n')) [
  | inl e ↦ rw e refl
  | inr e ↦ elim (Bool-cases (is_separator ch)) [
    | inl s ↦ rw (e, s) (sym (usage_of_separator ch s (λ h. ground (arith, e, h))))
    | inr s ↦ rw (e, s) refl
  ]
]

plain-parsed :
    (cmd : Bytes) (ch : ℕ)
    → IsPlain cmd
    → parse_datagram (build_plain_msg cmd (key_of_char ch))
      ≡ some (record { t_ns = 0; cmd = cmd; key = key_read ch })
unfolding build_plain_msg key_read key_of_char
plain-parsed cmd ch h = elim (Bool-cases (ch == b'\n')) [
  | inl e ↦ rw e (
      parse_datagram-plain cmd (codes "ENTER") h
        (unfold is_separator in ((λ h. cc), (refl, (refl, (refl, (refl, (refl, tt))))))))
  | inr e ↦ elim (Bool-cases (is_separator ch)) [
    | inl s ↦ rw (e, s) (parse_datagram-bare cmd ch h s)
    | inr s ↦ rw (e, s) (parse_datagram-plain cmd (ch ∷ []) h ((λ h. cc), (s, tt)))
  ]
]

-- A shot with what its datagram meets at the daemon.
pub record Met : Type 0 where
  pub shot : Shot
  pub meeting : Meeting

abbrev pub shots : List Met → List Shot
shots ms = map (λ (m : Met). m.shot) ms

abbrev pub events_of : List Met → List KeyEvent
events_of ms = map (λ (m : Met). m.shot.event) ms

-- Those that are not lost.
pub kept : List Met → List Met
kept [] = []
kept (m ∷ ms) = if m.shot.lost then kept ms else m ∷ kept ms

abbrev pub meetings_of : List Met → List Meeting
meetings_of ms = map (λ (m : Met). m.meeting) ms

-- What events do to a set of keys, with the usages that the daemon knows.
typed : List KeyEvent → List ℕ → List ℕ
typed [] held = held
typed (e ∷ es) held = typed es (set_key (usage_of e.key) e.cmd held)

sends-kept :
    (ms : List Met)
    → send_udp (shots ms)
      ≡ map (λ (m : Met). build_plain_msg m.shot.event.cmd m.shot.event.key) (kept ms)
unfolding send_udp kept build_plain_msg
sends-kept [] = refl
sends-kept (m ∷ ms) = elim (Bool-cases m.shot.lost) [
  | inl l ↦ rw l (sends-kept ms)
  | inr l ↦ rw l (ap (λ t. build_plain_msg m.shot.event.cmd m.shot.event.key ∷ t) (sends-kept ms))
]

-- The daemon's clock has 64 bits.
abbrev pub AllInRange : List Met → Type 0
AllInRange = All (λ (m : Met). m.meeting.now_ns < u64_mod)

kept-All {ℓ} : (P : Met → Type ℓ) (ms : List Met) → All P ms → All P (kept ms)
unfolding kept
kept-All P [] h = tt
kept-All P (m ∷ ms) (h, hs) =
    if_keeps (All P) m.shot.lost _ _ (kept-All P ms hs) (h, kept-All P ms hs)

IsTyped-events_of :
    (ms : List Met) → All IsTyped (events_of ms) → All (λ (m : Met). IsTyped m.shot.event) ms
IsTyped-events_of [] h = tt
IsTyped-events_of (m ∷ ms) (h, hs) = (h, IsTyped-events_of ms hs)

-- The changes that events of a script stand for.
unfoldable pub changes_of_events : List KeyEvent → List (ℕ × Bool)
changes_of_events [] = []
changes_of_events (e ∷ es) =
    (hid_usage e.key, same_bytes e.cmd (codes "down")) ∷ changes_of_events es

set_key-held :
    (u : ℕ) (cmd : Bytes) (held : List ℕ) (f : ℕ → Bool) (j : ℕ)
    → IsPlain cmd
    → mem j held ≡ f j
    → mem j (set_key u cmd held)
      ≡ (if not (u == 0) && j == u then same_bytes cmd (codes "down") else f j)
unfolding set_key same_bytes
set_key-held u cmd held f j (inl e) same = rw e (ground (arith, mem-insert j u held, same))
set_key-held u cmd held f j (inr e) same = rw e (ground (arith, mem-erase j u held, same))

typed-held :
    (ms : List Met) (held : List ℕ) (f : ℕ → Bool)
    → All (λ (m : Met). IsTyped m.shot.event) ms
    → ((j : ℕ) → mem j held ≡ f j)
    → (u : ℕ)
    → mem u (typed (events_of ms) held) ≡ held_after (changes_of_events (events_of ms)) f u
unfolding typed changes_of_events held_after
typed-held [] held f h same u = same u
typed-held (m ∷ ms) held f (t, h) same u =
    let e = m.shot.event in
    let usage : usage_of e.key ≡ hid_usage e.key = rw t.named (usage_of-hid_usage t.ch) in
    ap (λ v. mem u (typed (events_of ms) (set_key v e.cmd held))) usage
    ∙ typed-held ms (set_key (hid_usage e.key) e.cmd held) _ h
        (λ j. set_key-held (hid_usage e.key) e.cmd held f j t.command (same j)) u

module _ (c : Config) (limit : ℕ) (deadline : c.deadline_ms ≡ pos limit)
    (small : limit < 2 ^ 31) where
  shot-mem :
      (m : Met) (d : Daemon) (held : List ℕ)
      → m.meeting.now_ns < u64_mod
      → IsTyped m.shot.event
      → ((u : ℕ) → mem u d.keyboard.pressed ≡ mem u held)
      → (u : ℕ)
      → mem u
          (step c
            (udp m.meeting.os m.meeting.os' m.meeting.now_ns m.meeting.now
              (build_plain_msg m.shot.event.cmd m.shot.event.key))
            d).daemon.keyboard.pressed
        ≡ mem u (set_key (usage_of m.shot.event.key) m.shot.event.cmd held)
  unfolding stamp
  shot-mem m d held range t same u =
      let e = m.shot.event in
      let read : Datagram = record { t_ns = 0; cmd = e.cmd; key = key_read t.ch } in
      let parsed = plain-parsed e.cmd t.ch t.command in
      rw t.named (
        datagram-mem c limit deadline small m.meeting.os m.meeting.os' m.meeting.now_ns
          m.meeting.now (build_plain_msg e.cmd (key_of_char t.ch)) read d held
          (elim t.command [ inl h ↦ inl h | inr h ↦ inr (inl h) ]) parsed range (omega arith)
          (omega arith) same u
        ∙ rw (key_read-usage t.ch) refl)

  shots-mem :
      (ms : List Met) (d : Daemon) (held : List ℕ)
      → AllInRange ms
      → All (λ (m : Met). IsTyped m.shot.event) ms
      → ((u : ℕ) → mem u d.keyboard.pressed ≡ mem u held)
      → (u : ℕ)
      → mem u
          (run c
            (arrivals
              (meetings_of ms)
              (map (λ (m : Met). build_plain_msg m.shot.event.cmd m.shot.event.key) ms))
            d).keyboard.pressed
        ≡ mem u (typed (events_of ms) held)
  unfolding run arrivals typed
  shots-mem [] d held h t same u = same u
  shots-mem (m ∷ ms) d held (h, hs) (t, ts) same u =
      shots-mem ms _ (set_key (usage_of m.shot.event.key) m.shot.event.cmd held) hs ts
        (shot-mem m d held h t same) u

  datagrams-mem :
      (txt : Bytes) (ms : List Met) (d : Daemon)
      → events_of ms ≡ typed_text txt
      → AllInRange ms
      → d.keyboard.pressed ≡ []
      → (u : ℕ)
      → mem u (run c (arrivals (meetings_of (kept ms)) (send_udp (shots ms))) d).keyboard.pressed
        ≡ mem u (typed (events_of (kept ms)) [])
  datagrams-mem txt ms d script range none_held u =
      let known =
        IsTyped-events_of ms (subst (All IsTyped) (sym script) (typed_text-IsTyped txt)) in
      rw (sends-kept ms) (
        shots-mem (kept ms) d [] (kept-All _ ms range) (kept-All _ ms known)
          (λ u'. ap (mem u') none_held) u)

  -- The UDP path without time stamps: whatever ASCII text is typed and whichever datagrams are lost, if the
  -- others come in their order to a daemon that holds no key at first and handles nothing else in between (no
  -- snapshot, no record, no monitor round), it holds exactly the keys of the events that were not lost, however
  -- late they come and whatever the deadline: each event presses the key that the HID usage tables give to its
  -- letter, or to Enter, if its command is "down", and releases it otherwise; any other key
  -- changes nothing.
  pub send_udp-mem :
      (txt : Bytes) (ms : List Met) (d : Daemon)
      → events_of ms ≡ typed_text txt
      → AllInRange ms
      → d.keyboard.pressed ≡ []
      → (u : ℕ)
      → mem u (run c (arrivals (meetings_of (kept ms)) (send_udp (shots ms))) d).keyboard.pressed
        ≡ held_after (changes_of_events (events_of (kept ms))) none_held u
  unfolding mem
  send_udp-mem txt ms d script range none_down u =
      let known =
        IsTyped-events_of ms (subst (All IsTyped) (sym script) (typed_text-IsTyped txt)) in
      datagrams-mem txt ms d script range none_down u
      ∙ typed-held (kept ms) [] none_held (kept-All _ ms known) (λ j. refl) u
