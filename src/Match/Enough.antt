-- ===== src/Match/Enough.antt =====
-- libscpi/src/utils.c: the loops of matchCommand.
use scpi_parser.Base.{
  ℕ, zero, suc, ◌<◌, ◌≤◌, ◌≡◌, refl, Bool, true, false, some, List, [], ◌∷◌, ◌==◌, if◌then◌else◌,
  length, length-drop, get_or, drop, Bytes, ℤ, arith,
}
use scpi_parser.Pattern.{pattern_separator_pos}
use scpi_parser.Match.{Matching, Step, finish, next, matched, unmatched, match_level, match_levels}

-- A round that does not finish leaves less than `n` bytes of the pattern.
abbrev Shrinks : ℕ → Step → Type 0
Shrinks n (finish r numbers) = 0 ≤ n
Shrinks n (next m) = length m.pattern < n

Shrinks-le : {k n : ℕ} (s : Step) → k ≤ n → Shrinks k s → Shrinks n s
Shrinks-le (finish r numbers) l h = omega arith
Shrinks-le (next m) l h = omega arith

-- A character of a meaning is there.
present : (p : Bytes) (c : ℕ) → 0 < c → (get_or p 0 0 == c) ≡ true → 0 < length p
present [] c h e = ground arith
present (b ∷ p) c h e = omega arith

dropped :
    (p : Bytes) (n c : ℕ) → 0 < c → (get_or p 0 0 == c) ≡ true → length (drop (suc n) p) < length p
dropped p n c h e = omega (arith, length-drop (suc n) p, present p c h e)

matched-Shrinks : (m : Matching) → Shrinks (length m.pattern) (matched m)
unfolding matched
matched-Shrinks m = ground (
  arith,
  dropped m.pattern 0 b':' (omega arith),
  dropped m.pattern 1 b'[' (omega arith),
  dropped m.pattern 1 b']' (omega arith),
  dropped m.pattern 2 b']' (omega arith),
)

unmatched-Shrinks : (m : Matching) → Shrinks (length m.pattern) (unmatched m)
unfolding unmatched
unmatched-Shrinks m =
    ground (arith, dropped m.pattern 1 b']' (omega arith), dropped m.pattern 2 b']' (omega arith))

less_left : (n : ℕ) (p : Bytes) → length (drop n p) ≤ length p
less_left n p = omega (arith, length-drop n p)

either-Shrinks :
    (same : Bool) (n : ℕ) (a b : Matching)
    → length a.pattern ≤ n
    → length b.pattern ≤ n
    → Shrinks n (if same then matched a else unmatched b)
either-Shrinks true n a b h k = Shrinks-le (matched a) h (matched-Shrinks a)
either-Shrinks false n a b h k = Shrinks-le (unmatched b) k (unmatched-Shrinks b)

match_level-Shrinks :
    (strtol : Bytes → ℕ × ℤ) (default : ℤ) (m : Matching)
    → Shrinks (length m.pattern) (match_level strtol default m)
unfolding match_level
match_level-Shrinks strtol default m =
    either-Shrinks _ (length m.pattern) _ _
      (less_left (pattern_separator_pos m.pattern m.pattern_len) m.pattern)
      (less_left (pattern_separator_pos m.pattern m.pattern_len) m.pattern)

-- The loop of matchCommand over the levels ends within as many rounds as the pattern has
-- characters, and one more, for every pattern and command.
pub match_levels_enough :
    (fuel : ℕ) (strtol : Bytes → ℕ × ℤ) (default : ℤ) (m : Matching)
    → length m.pattern < fuel
    → (r : Bool × List ℤ) × (match_levels fuel strtol default m ≡ some r)
unfolding match_levels
match_levels_enough zero strtol default m h = absurd (omega arith)
match_levels_enough (suc fuel) strtol default m h =
    ended (match_level strtol default m) (match_level-Shrinks strtol default m)
      (λ m' k. match_levels_enough fuel strtol default m' (omega arith))
  where
    ended :
        (s : Step)
        → Shrinks (length m.pattern) s
        → ((m' : Matching)
            → length m'.pattern < length m.pattern
            → (r : Bool × List ℤ) × (match_levels fuel strtol default m' ≡ some r))
        → (r : Bool × List ℤ) × (elim s [
          | finish result numbers ↦ some (result, numbers)
          | next m' ↦ match_levels fuel strtol default m'
        ]
            ≡ some r)
    ended (finish result numbers) k again = ((result, numbers), refl)
    ended (next m') k again = again m' k
