-- ===== src/Scripts/Log/Lines.antt =====
-- What the patterns of scripts/run_report_experiments.py find in each kind of line of
-- daemon/src/main.cpp.
use quic_keys.Common.{
  ℕ, true, List, [], ◌∷◌, ◌++◌, Option, none, some, Bytes, codes, ◌≡◌, refl, ap, ◌∙◌, arith,
  append-nil, append_assoc,
}
use quic_keys.Udp.Numbers.{is_digit, put_decimal, put_decimal-IsDigits}
use quic_keys.Keyboard.{heal, stuck, watchdog}
use quic_keys.Daemon.{Line, about, dropped_udp, dropped_quic, latency_udp, latency_quic}
use quic_keys.Scripts.Regex.{
  RegexItem, literal, literals, skipped, captured, is_white, is_number, is_break, leading, behind,
  match_at, re_search, with_group,
}
use quic_keys.Scripts.Log.{Doubles, print_line, print_log, re_lat, re_heal, re_wd, re_stuck}
use quic_keys.Scripts.Log.Fields.{
  IsPrint, is_calm, all_calm, all_calm-append, all_calm-decimal, re_search-tagged, captured-append,
  captured-print,
}

-- The names that a line repeats from a datagram have no bracket and no line's end.
abbrev pub IsCalmLine : Line → Type 0
IsCalmLine (about log) = Unit
IsCalmLine (dropped_udp ns cmd key) = (all_calm cmd ≡ true) × (all_calm key ≡ true)
IsCalmLine (dropped_quic ms usage) = Unit
IsCalmLine (latency_udp ns cmd key) = (all_calm cmd ≡ true) × (all_calm key ≡ true)
IsCalmLine (latency_quic ms seq usage) = Unit

calm_parts :
    (s m t : Bytes)
    → all_calm s ≡ true
    → all_calm m ≡ true
    → all_calm t ≡ true
    → all_calm (s ++ m ++ t) ≡ true
calm_parts s m t hs hm ht =
    ground (arith, all_calm-append (s ++ m) t, all_calm-append s m, hs, hm, ht)

calm_names :
    (t cmd key : Bytes)
    → all_calm t ≡ true
    → all_calm cmd ≡ true
    → all_calm key ≡ true
    → all_calm (t ++ codes " cmd=" ++ cmd ++ codes " key=" ++ key) ≡ true
unfolding all_calm is_calm is_break
calm_names t cmd key ht hc hk =
    calm_parts (t ++ codes " cmd=" ++ cmd) (codes " key=") key
      (calm_parts t (codes " cmd=") cmd ht refl hc) refl hk

module _ (f : Doubles) (plain_ns plain_ms : ℕ → Bytes)
    (ns_printed : (n : ℕ) → IsPrint (f.of_ns n) (plain_ns n))
    (ms_printed : (n : ℕ) → IsPrint (f.of_ms n) (plain_ms n)) where
  -- Behind its first bracket a line is calm.
  pub body-calm :
      (l : Line)
      → IsCalmLine l
      → (body : Bytes) × (print_line f l ≡ b'[' ∷ body) × (all_calm body ≡ true)
  unfolding print_line print_log all_calm is_calm is_break
  body-calm (about (heal u ns)) h = (
    _,
    refl,
    calm_parts (put_decimal u) _ (f.of_ns ns) (all_calm-decimal u) refl ((ns_printed ns).calm),
  )
  body-calm (about (stuck u ns)) h = (
    _,
    refl,
    calm_parts (put_decimal u) _ (f.of_ns ns) (all_calm-decimal u) refl ((ns_printed ns).calm),
  )
  body-calm (about (watchdog u ns)) h = (
    _,
    refl,
    calm_parts (put_decimal u) _ (f.of_ns ns) (all_calm-decimal u) refl ((ns_printed ns).calm),
  )
  body-calm (dropped_udp ns cmd key) (hc, hk) =
      (_, refl, calm_names (f.of_ns ns) cmd key ((ns_printed ns).calm) hc hk)
  body-calm (dropped_quic ms usage) h = (
    _,
    refl,
    calm_parts (f.of_ms ms) _ (put_decimal usage) ((ms_printed ms).calm) refl
        (all_calm-decimal usage),
  )
  body-calm (latency_udp ns cmd key) (hc, hk) =
      (_, refl, calm_names (f.of_ns ns) cmd key ((ns_printed ns).calm) hc hk)
  body-calm (latency_quic ms seq usage) h = (
    _,
    refl,
    calm_parts (f.of_ms ms ++ codes " cmd=quic_edge seq=" ++ put_decimal seq) _ (put_decimal usage)
        (calm_parts (f.of_ms ms) _ (put_decimal seq) ((ms_printed ms).calm) refl
          (all_calm-decimal seq))
        refl (all_calm-decimal usage),
  )

  -- Such a pattern is tried at the beginning of a line only.
  tried :
      (r : List RegexItem) (l : Line)
      → IsCalmLine l
      → re_search (literal b'[' ∷ r) (print_line f l) ≡ match_at (literal b'[' ∷ r) (print_line f l)
  tried r l h = let (body, e, calm) = body-calm l h in rw e (re_search-tagged r body calm)

  -- The key and the time of a line, behind its tag.
  key_and_time :
      (u ns : ℕ) (time : Bytes) (r : List RegexItem)
      → match_at r (time ++ f.of_ns ns) ≡ match_at (captured is_number ∷ []) (f.of_ns ns)
      → leading is_digit (time ++ f.of_ns ns) ≡ []
      → match_at (captured is_digit ∷ r) (put_decimal u ++ time ++ f.of_ns ns)
        ≡ some (put_decimal u ∷ plain_ns ns ∷ [])
  unfolding with_group leading
  key_and_time u ns time r rest stop =
      let (digits, some_digit) = put_decimal-IsDigits u in
      let last = captured-print (f.of_ns ns) (plain_ns ns) [] (ns_printed ns) refl in
      let whole : match_at (captured is_number ∷ []) (f.of_ns ns) ≡ some (plain_ns ns ∷ []) =
        rw append-nil at last in
      let key =
        captured-append is_digit r (put_decimal u) (time ++ f.of_ns ns) digits some_digit stop in
      rw append_assoc (key ∙ ap (with_group (put_decimal u)) (rest ∙ whole))

  -- The groups that a pattern should find in a line.
  abbrev pub lat_groups : Line → Option (List Bytes)
  lat_groups (about log) = none
  lat_groups (dropped_udp ns cmd key) = none
  lat_groups (dropped_quic ms usage) = none
  lat_groups (latency_udp ns cmd key) = some (plain_ns ns ∷ [])
  lat_groups (latency_quic ms seq usage) = some (plain_ms ms ∷ [])

  abbrev pub heal_groups : Line → Option (List Bytes)
  heal_groups (about (heal u ns)) = some (put_decimal u ∷ plain_ns ns ∷ [])
  heal_groups l = none

  abbrev pub wd_groups : Line → Option (List Bytes)
  wd_groups (about (watchdog u ns)) = some (put_decimal u ∷ plain_ns ns ∷ [])
  wd_groups l = none

  abbrev pub stuck_groups : Line → Option (List Bytes)
  stuck_groups (about (stuck u ns)) = some (put_decimal u ∷ plain_ns ns ∷ [])
  stuck_groups l = none

  match-lat : (l : Line) → match_at re_lat (print_line f l) ≡ lat_groups l
  unfolding print_line print_log literals match_at leading behind is_white is_number
  match-lat (about (heal u ns)) = refl
  match-lat (about (stuck u ns)) = refl
  match-lat (about (watchdog u ns)) = refl
  match-lat (dropped_udp ns cmd key) = refl
  match-lat (dropped_quic ms usage) = refl
  match-lat (latency_udp ns cmd key) =
      rw (append_assoc, append_assoc, append_assoc)
        (captured-print (f.of_ns ns) (plain_ns ns) _ (ns_printed ns) refl)
  match-lat (latency_quic ms seq usage) =
      rw (append_assoc, append_assoc, append_assoc)
        (captured-print (f.of_ms ms) (plain_ms ms) _ (ms_printed ms) refl)

  match-heal : (l : Line) → match_at re_heal (print_line f l) ≡ heal_groups l
  unfolding print_line print_log literals match_at leading behind is_white is_digit
  match-heal (about (heal u ns)) =
      key_and_time u ns (codes " heal_ms=")
        (skipped is_white ∷ literals (codes "heal_ms=") ++ captured is_number ∷ []) refl refl
  match-heal (about (stuck u ns)) = refl
  match-heal (about (watchdog u ns)) = refl
  match-heal (dropped_udp ns cmd key) = refl
  match-heal (dropped_quic ms usage) = refl
  match-heal (latency_udp ns cmd key) = refl
  match-heal (latency_quic ms seq usage) = refl

  match-wd : (l : Line) → match_at re_wd (print_line f l) ≡ wd_groups l
  unfolding print_line print_log literals match_at leading behind is_white is_digit
  match-wd (about (heal u ns)) = refl
  match-wd (about (stuck u ns)) = refl
  match-wd (about (watchdog u ns)) =
      key_and_time u ns (codes " age_ms=")
        (skipped is_white ∷ literals (codes "age_ms=") ++ captured is_number ∷ []) refl refl
  match-wd (dropped_udp ns cmd key) = refl
  match-wd (dropped_quic ms usage) = refl
  match-wd (latency_udp ns cmd key) = refl
  match-wd (latency_quic ms seq usage) = refl

  match-stuck : (l : Line) → match_at re_stuck (print_line f l) ≡ stuck_groups l
  unfolding print_line print_log literals match_at leading behind is_white is_digit
  match-stuck (about (heal u ns)) = refl
  match-stuck (about (stuck u ns)) =
      key_and_time u ns (codes " age_ms=")
        (skipped is_white ∷ literals (codes "age_ms=") ++ captured is_number ∷ []) refl refl
  match-stuck (about (watchdog u ns)) = refl
  match-stuck (dropped_udp ns cmd key) = refl
  match-stuck (dropped_quic ms usage) = refl
  match-stuck (latency_udp ns cmd key) = refl
  match-stuck (latency_quic ms seq usage) = refl

  pub search-lat : (l : Line) → IsCalmLine l → re_search re_lat (print_line f l) ≡ lat_groups l
  search-lat l h = unfold literals in tried _ l h ∙ match-lat l

  pub search-heal : (l : Line) → IsCalmLine l → re_search re_heal (print_line f l) ≡ heal_groups l
  search-heal l h = unfold literals in tried _ l h ∙ match-heal l

  pub search-wd : (l : Line) → IsCalmLine l → re_search re_wd (print_line f l) ≡ wd_groups l
  search-wd l h = unfold literals in tried _ l h ∙ match-wd l

  pub search-stuck :
      (l : Line) → IsCalmLine l → re_search re_stuck (print_line f l) ≡ stuck_groups l
  search-stuck l h = unfold literals in tried _ l h ∙ match-stuck l
