-- ===== src/Dispatch/Compose.antt =====
-- libscpi/src/utils.c: composeCompoundCommand, which writes the path of the header before in front
-- of a header.
use scpi_parser.Base.{
  ℕ, zero, suc, ◌+◌, ◌-◌, ◌≤◌, ◌≡◌, refl, sym, ap, ap₂, ◌∙◌, inl, inr, Bool, true, false,
  Bool-cases, ◌||◌, [], ◌∷◌, ◌++◌, ◌==◌, ==_iff, ltb, if◌then◌else◌, length, length-take,
  length-drop, get_or, get_or-drop, get_or-take, take, drop, take-append_more, Bytes, arith,
}
use scpi_parser.Lexer.{Token, token}
use scpi_parser.Session.{copy_to}
use scpi_parser.Dispatch.Copy.{drop-copy_to, drop-copy_to_behind, length-copy_to}
use scpi_parser.Dispatch.{last_colon, compose_compound_command}

-- The bytes of a token.
abbrev pub text : Bytes → Token → Bytes
text memory t = take t.len (drop t.ptr memory)

-- The bytes up to the last colon, with it.
abbrev pub up_to_colon : Bytes → Bytes
up_to_colon [] = []
up_to_colon (c ∷ cs) =
    let rest = up_to_colon cs in if c == b':' || ltb 0 (length rest) then c ∷ rest else []

-- What a header takes over from the header before it.
abbrev pub inherited : Bytes → Bytes → Bytes
inherited prev current =
    if (length current == 0) || (length prev == 0)
    then []
    else if (get_or current 0 0 == b'*')
        || (get_or current 0 0 == b':')
        || (get_or prev 0 0 == b'*')
    then []
    else up_to_colon prev

pub last_colon-le : (prev : Bytes) (n : ℕ) → last_colon prev n ≤ n
unfolding last_colon
last_colon-le prev zero = omega arith
last_colon-le prev (suc n) = elim (Bool-cases (get_or prev n 0 == b':')) [
  | inl h ↦ rw h (omega arith)
  | inr h ↦ rw h (omega (arith, last_colon-le prev n))
]

positive : (n : ℕ) → ltb 0 (suc n) ≡ true
positive n = ground arith

last_colon-cons :
    (c : ℕ) (cs : Bytes) (n : ℕ)
    → last_colon (c ∷ cs) (suc n)
      ≡ (if ltb 0 (last_colon cs n) then suc (last_colon cs n) else if c == b':' then 1 else 0)
unfolding last_colon
last_colon-cons c cs zero = refl
last_colon-cons c cs (suc n) = elim (Bool-cases (get_or cs n 0 == b':')) [
  | inl h ↦ rw (h, positive n) refl
  | inr h ↦ rw (h) (last_colon-cons c cs n)
]

last_colon-zero : (cs : Bytes) → last_colon cs 0 ≡ 0
unfolding last_colon
last_colon-zero cs = refl

-- The loop finds the path of a header.
data FindsPath (cs : Bytes) (n : ℕ) : Type 0 where
  at_colon :
      take (last_colon cs n) cs ≡ up_to_colon (take n cs)
      → length (up_to_colon (take n cs)) ≡ last_colon cs n
      → FindsPath cs n

FindsPath-cons : (c : ℕ) (cs : Bytes) (n : ℕ) → FindsPath cs n → FindsPath (c ∷ cs) (suc n)
FindsPath-cons c cs n (at_colon e l) = elim (Bool-cases (ltb 0 (last_colon cs n))) [
  | inl p ↦ elim (Bool-cases (c == b':')) [
    | inl q ↦
        at_colon (rw (last_colon-cons c cs n, p, q) (ap (λ k. c ∷ k) e))
          (rw (last_colon-cons c cs n, p, q) (ap suc l))
    | inr q ↦
        at_colon (rw (last_colon-cons c cs n, p, q, l, p) (ap (λ k. c ∷ k) e))
          (rw (last_colon-cons c cs n, p, q, l, p) (ap suc l))
  ]
  | inr p ↦ elim (Bool-cases (c == b':')) [
    | inl q ↦
        at_colon
          (rw (last_colon-cons c cs n, p, q)
            (ap (λ k. c ∷ k) (ap (λ k. take k cs) (sym (none_found p)) ∙ e)))
          (rw (last_colon-cons c cs n, p, q) (ap suc (l ∙ none_found p)))
    | inr q ↦
        at_colon (rw (last_colon-cons c cs n, p, q, l, p) refl)
          (rw (last_colon-cons c cs n, p, q, l, p) refl)
  ]
]
  where
    none_found : ltb 0 (last_colon cs n) ≡ false → last_colon cs n ≡ 0
    none_found p = ground arith

FindsPath-all : (cs : Bytes) (n : ℕ) → n ≤ length cs → FindsPath cs n
FindsPath-all cs zero h = at_colon (rw (last_colon-zero cs) refl) (rw (last_colon-zero cs) refl)
FindsPath-all [] (suc n) h = absurd (omega arith)
FindsPath-all (c ∷ cs) (suc n) h = FindsPath-cons c cs n (FindsPath-all cs n (omega arith))

-- The outcome: the header with what it inherits in front, and the memory from where the header began
-- as it was.
pub record Composed (prev current : Token) (memory : Bytes) (r : Bool × Token × Bytes)
    : Type 0 where
  pub text_eq :
      text r.2 r.1 ≡ inherited (text memory prev) (text memory current) ++ text memory current
  pub end_eq : r.1.ptr + r.1.len ≡ current.ptr + current.len
  pub from_prev : prev.ptr ≤ r.1.ptr
  pub behind_eq : drop current.ptr r.2 ≡ drop current.ptr memory
  pub length_eq : length r.2 ≡ length memory

plus_zero : (n : ℕ) → n + 0 ≡ n
plus_zero n = omega arith

first_of :
    (memory : Bytes) (t : Token)
    → (t.len == 0) ≡ false
    → get_or (text memory t) 0 0 ≡ get_or memory t.ptr 0
first_of memory t z =
    get_or-take t.len 0 (drop t.ptr memory) 0 (ground arith)
    ∙ get_or-drop t.ptr 0 memory 0
    ∙ ap (λ k. get_or memory k 0) (plus_zero t.ptr)

module _ (prev current : Token) (memory : Bytes) (before : prev.ptr + prev.len ≤ current.ptr)
    (inside : current.ptr + current.len ≤ length memory) where
  unchanged :
      (b : Bool)
      → inherited (text memory prev) (text memory current) ≡ []
      → Composed prev current memory (b, current, memory)
  unchanged b e = record {
    text_eq = ap (λ p. p ++ text memory current) (sym e);
    end_eq = refl;
    from_prev = omega arith;
    behind_eq = refl;
    length_eq = refl;
  }

  abbrev i : ℕ
  i = last_colon (drop prev.ptr memory) prev.len

  abbrev moved : Bytes
  moved = take i (drop prev.ptr memory)

  i_le : i ≤ prev.len
  i_le = last_colon-le (drop prev.ptr memory) prev.len

  length-moved : length moved ≡ i
  length-moved =
      omega (arith, i_le, length-take i (drop prev.ptr memory), length-drop prev.ptr memory)

  fits : current.ptr - i + length moved ≤ length memory
  fits = omega (arith, length-moved, i_le)

  place : current.ptr - i + length moved ≡ current.ptr
  place = omega (arith, length-moved, i_le)

  longer : current.len + i ≡ length moved + current.len
  longer = omega (arith, length-moved)

  enough : prev.len ≤ length (drop prev.ptr memory)
  enough = omega (arith, length-drop prev.ptr memory)

  path : FindsPath (drop prev.ptr memory) prev.len → moved ≡ up_to_colon (text memory prev)
  path (at_colon e l) = e

  length-current : length (text memory current) ≡ current.len
  length-current =
      omega
        (arith, length-take current.len (drop current.ptr memory), length-drop current.ptr memory)

  length-prev : length (text memory prev) ≡ prev.len
  length-prev =
      omega (arith, length-take prev.len (drop prev.ptr memory), length-drop prev.ptr memory)

  inherits :
      inherited (text memory prev) (text memory current) ≡ up_to_colon (text memory prev)
      → Composed prev current memory (
        true,
        token current.type (current.ptr - i) (current.len + i),
        copy_to (current.ptr - i) moved memory,
      )
  inherits e = record {
    text_eq =
        ap (take (current.len + i)) (drop-copy_to (current.ptr - i) moved memory fits)
        ∙ ap₂ (λ k n. take k (moved ++ drop n memory)) longer place
        ∙ take-append_more current.len moved (drop current.ptr memory)
        ∙ ap (λ w. w ++ text memory current)
            (path (FindsPath-all (drop prev.ptr memory) prev.len enough) ∙ sym e);
    end_eq = omega (arith, i_le);
    from_prev = omega (arith, i_le);
    behind_eq =
        ap (λ k. drop k (copy_to (current.ptr - i) moved memory)) (sym place)
        ∙ drop-copy_to_behind (current.ptr - i) moved memory fits
        ∙ ap (λ k. drop k memory) place;
    length_eq = length-copy_to (current.ptr - i) moved memory fits;
  }

  none_inherited : (i == 0) ≡ true → up_to_colon (text memory prev) ≡ []
  none_inherited v =
      sym (path (FindsPath-all (drop prev.ptr memory) prev.len enough))
      ∙ ap (λ k. take k (drop prev.ptr memory)) ((==_iff i 0).0 v)

  -- Of a header in memory behind the header before it, the header that is run is the text of the
  -- path that it inherits, followed by its own text: nothing, if it starts with a star or a colon,
  -- or if the header before starts with a star, and else the header before up to its last colon.
  -- It begins no earlier than the header before and ends where it ended, and no byte from there on
  -- is changed.
  pub compose_compound_command-Composed :
      Composed prev current memory (compose_compound_command prev current memory)
  unfolding compose_compound_command
  compose_compound_command-Composed = elim (Bool-cases (current.len == 0)) [
    | inl z ↦ rw z (unchanged false (rw (length-current, z) refl))
    | inr z ↦ elim (Bool-cases (prev.len == 0)) [
      | inl y ↦ rw (z, y) (unchanged true (rw (length-current, length-prev, z, y) refl))
      | inr y ↦ elim (Bool-cases (first == b'*' || first == b':')) [
        | inl x ↦ rw (z, y, x) (unchanged true (rw (kept z y, x) refl))
        | inr x ↦ elim (Bool-cases (get_or memory prev.ptr 0 == b'*')) [
          | inl w ↦ rw (z, y, x, w) (unchanged true (rw (kept z y, x, w) refl))
          | inr w ↦ elim (Bool-cases (i == 0)) [
            | inl v ↦ rw (z, y, x, w, v) (unchanged true (rw (kept z y, x, w) (none_inherited v)))
            | inr v ↦ rw (z, y, x, w, v) (inherits (rw (kept z y, x, w) refl))
          ]
        ]
      ]
    ]
  ]
    where
      first : ℕ
      first = get_or memory current.ptr 0

      kept :
          (current.len == 0) ≡ false
          → (prev.len == 0) ≡ false
          → inherited (text memory prev) (text memory current) ≡ (
              if first == b'*' || first == b':' || get_or memory prev.ptr 0 == b'*'
              then []
              else up_to_colon (text memory prev))
      kept z y =
          rw (length-current, length-prev, z, y, first_of memory current z, first_of memory prev y)
            refl
