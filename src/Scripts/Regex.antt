-- ===== src/Scripts/Regex.antt =====
-- Python's `re` and `str.splitlines` as the scripts use them, on ASCII text: a pattern is a sequence of
-- characters and of classes with `+`. In the scripts' patterns no item can begin with a character of the
-- class before it, so that a class takes all that it can and never gives any back.
use quic_keys.Common.{
  ℕ, Bool, true, false, ◌&&◌, ◌||◌, List, [], ◌∷◌, ◌++◌, Option, none, some, ◌≡◌, ◌≢◌, refl, arith,
  Bytes, leb, ◌==◌, if◌then◌else◌, All,
}

pub data RegexItem : Type 0 where
  literal : ℕ → RegexItem
  skipped : (ℕ → Bool) → RegexItem
  captured : (ℕ → Bool) → RegexItem
  captured_one : (ℕ → Bool) → RegexItem

unfoldable pub literals : Bytes → List RegexItem
literals [] = []
literals (c ∷ s) = literal c ∷ literals s

-- `\s`
unfoldable pub is_white : ℕ → Bool
is_white c = leb 9 c && leb c 13 || (leb 28 c && leb c 32)

-- `[0-9.]`
unfoldable pub is_number : ℕ → Bool
is_number c = leb b'0' c && leb c b'9' || c == b'.'

-- The characters of a class at the beginning of a text, and the text behind them.
unfoldable pub leading : (ℕ → Bool) → Bytes → Bytes
leading p [] = []
leading p (c ∷ s) = if p c then c ∷ leading p s else []

unfoldable pub behind : (ℕ → Bool) → Bytes → Bytes
behind p [] = []
behind p (c ∷ s) = if p c then behind p s else c ∷ s

unfoldable pub with_group : Bytes → Option (List Bytes) → Option (List Bytes)
with_group g none = none
with_group g (some gs) = some (g ∷ gs)

-- At the beginning of the text: the groups.
unfoldable pub match_at : List RegexItem → Bytes → Option (List Bytes)
unfolding leading behind with_group
match_at [] s = some []
match_at (literal c ∷ r) [] = none
match_at (literal c ∷ r) (x ∷ s) = let more = match_at r s in if x == c then more else none
match_at (skipped p ∷ r) [] = none
match_at (skipped p ∷ r) (x ∷ s) = let more = match_at r (behind p s) in if p x then more else none
match_at (captured p ∷ r) [] = none
match_at (captured p ∷ r) (x ∷ s) =
    let more = with_group (x ∷ leading p s) (match_at r (behind p s)) in if p x then more else none
match_at (captured_one p ∷ r) [] = none
match_at (captured_one p ∷ r) (x ∷ s) =
    let more = with_group (x ∷ []) (match_at r s) in if p x then more else none

abbrev or_later : Option (List Bytes) → Option (List Bytes) → Option (List Bytes)
or_later none o = o
or_later (some gs) o = some gs

-- `search`: the leftmost place.
unfoldable pub re_search : List RegexItem → Bytes → Option (List Bytes)
re_search r [] = match_at r []
re_search r (x ∷ s) = or_later (match_at r (x ∷ s)) (re_search r s)

-- A character at which a line ends.
unfoldable pub is_break : ℕ → Bool
is_break c = leb 10 c && leb c 13 || (leb 28 c && leb c 30)

-- A character in front of the first line.
unfoldable pub prepend : ℕ → List Bytes → List Bytes
prepend x [] = (x ∷ []) ∷ []
prepend x (line ∷ lines) = (x ∷ line) ∷ lines

-- `splitlines()`, of a text whose line ends were made `\n` when the file was read.
unfoldable pub splitlines : Bytes → List Bytes
unfolding prepend
splitlines [] = []
splitlines (x ∷ s) = let lines = splitlines s in if is_break x then [] ∷ lines else prepend x lines

-- Characters of the class before one that is not.
pub leading-append :
    (p : ℕ → Bool) (s t : Bytes)
    → All (λ c. p c ≡ true) s
    → leading p t ≡ []
    → leading p (s ++ t) ≡ s
unfolding leading
leading-append p [] t h stop = stop
leading-append p (c ∷ s) t (hc, h) stop = rw (hc, leading-append p s t h stop) refl

pub behind-append :
    (p : ℕ → Bool) (s t : Bytes)
    → All (λ c. p c ≡ true) s
    → leading p t ≡ []
    → behind p (s ++ t) ≡ t
unfolding leading behind
behind-append p [] [] h stop = refl
behind-append p [] (c ∷ t) h stop = ground arith
behind-append p (c ∷ s) t (hc, h) stop = rw (hc, behind-append p s t h stop) refl

-- A pattern that begins with a character is not found in a text without it.
pub re_search-absent :
    (c : ℕ) (r : List RegexItem) (s : Bytes)
    → All (λ x. x ≢ c) s
    → re_search (literal c ∷ r) s ≡ none
unfolding re_search match_at
re_search-absent c r [] h = refl
re_search-absent c r (x ∷ s) (hx, h) = ground (arith, hx, re_search-absent c r s h)

-- Nor does it begin inside a part of a text without it.
pub re_search-skip :
    (c : ℕ) (r : List RegexItem) (s t : Bytes)
    → All (λ x. x ≢ c) s
    → re_search (literal c ∷ r) (s ++ t) ≡ re_search (literal c ∷ r) t
unfolding re_search match_at
re_search-skip c r [] t h = refl
re_search-skip c r (x ∷ s) t (hx, h) = ground (arith, hx, re_search-skip c r s t h)

-- Lines that are put one behind the other, each with its end, are found again.
pub splitlines-line :
    (line s : Bytes)
    → All (λ c. is_break c ≡ false) line
    → splitlines (line ++ b'\n' ∷ s) ≡ line ∷ splitlines s
unfolding splitlines prepend is_break
splitlines-line [] s h = refl
splitlines-line (x ∷ line) s (hx, h) = rw (splitlines-line line s h) (ground (arith, hx))
