-- ===== src/Glob/Matches.antt =====
-- What a pattern of src/pattern/glob_pattern.cpp means, and that `match_impl` decides it.
use serverlink.Prelude.{
  ℕ, ◌≡◌, ◌↔◌, ◌≤◌, ◌==◌, ==_iff, leb, ◌&&◌, ◌||◌, refl, Bool, true, false, List, [], ◌∷◌, Bytes,
  arith, Bool-cases, inl, inr,
}
use mathlib.Core.Path.{subst}
use serverlink.Glob.{
  Segment, literal, star, question, char_class, accepts, has_char, in_ranges, try_all, step,
  match_impl,
}

-- The characters that a class names: those it lists and those within one of its ranges.
pub data Named : Bytes → List (ℕ × ℕ) → ℕ → Type 0 where
  char_here : {chars : Bytes} {ranges : List (ℕ × ℕ)} (c : ℕ) → Named (c ∷ chars) ranges c
  char_later :
      {chars : Bytes} {ranges : List (ℕ × ℕ)} {c : ℕ} (x : ℕ)
      → Named chars ranges c
      → Named (x ∷ chars) ranges c
  range_here :
      {chars : Bytes} {ranges : List (ℕ × ℕ)} {c : ℕ} (a b : ℕ)
      → a ≤ c
      → c ≤ b
      → Named chars ((a, b) ∷ ranges) c
  range_later :
      {chars : Bytes} {ranges : List (ℕ × ℕ)} {c : ℕ} (a b : ℕ)
      → Named chars ranges c
      → Named chars ((a, b) ∷ ranges) c

-- The characters that a segment stands for: a literal for itself, `?` for any, a class for those that it
-- names, or for all others where it is negated. A star stands for texts.
abbrev pub Stands : Segment → ℕ → Type 0
Stands (literal x) c = c ≡ x
Stands star c = ⊥
Stands question c = Unit
Stands (char_class chars ranges true) c = ¬ Named chars ranges c
Stands (char_class chars ranges false) c = Named chars ranges c

-- A star stands for any text, each other segment for one character.
pub data Matches : List Segment → Bytes → Type 0 where
  end : Matches [] []
  skip : {p : List Segment} {s : Bytes} → Matches p s → Matches (star ∷ p) s
  more : {p : List Segment} {c : ℕ} {s : Bytes} → Matches (star ∷ p) s → Matches (star ∷ p) (c ∷ s)
  char :
      {x : Segment} {p : List Segment} {c : ℕ} {s : Bytes}
      → Stands x c
      → Matches p s
      → Matches (x ∷ p) (c ∷ s)

ranges-Named :
    (chars : Bytes) (ranges : List (ℕ × ℕ)) (c : ℕ)
    → in_ranges ranges c ≡ true
    → Named chars ranges c
ranges-Named chars [] c e = cc
ranges-Named chars ((a, b) ∷ ranges) c e = elim (Bool-cases (leb a c && leb c b)) [
  | inl k ↦ range_here a b (ground (arith, k)) (ground (arith, k))
  | inr k ↦ range_later a b (ranges-Named chars ranges c (rw k at e))
]

sound_class :
    (chars : Bytes) (ranges : List (ℕ × ℕ)) (c : ℕ)
    → (has_char chars c || in_ranges ranges c) ≡ true
    → Named chars ranges c
sound_class [] ranges c e = ranges-Named [] ranges c e
sound_class (x ∷ chars) ranges c e = elim (Bool-cases (c == x)) [
  | inl k ↦ subst (λ y. Named (y ∷ chars) ranges c) ((==_iff c x).0 k) (char_here c)
  | inr k ↦ char_later x (sound_class chars ranges c (rw k at e))
]

complete_class :
    {chars : Bytes} {ranges : List (ℕ × ℕ)} {c : ℕ}
    → Named chars ranges c
    → (has_char chars c || in_ranges ranges c) ≡ true
complete_class (char_here c) = rw ((==_iff c c).1 refl) refl
complete_class {c = c} (char_later {chars} {ranges} x n) =
    ground (arith, complete_class n, Bool-cases (c == x))
complete_class {c = c} (range_here {chars} {ranges} a b l r) =
    ground (arith, l, r, Bool-cases (has_char chars c))
complete_class {c = c} (range_later {chars} {ranges} a b n) =
    ground (arith, complete_class n, Bool-cases (has_char chars c), Bool-cases (leb a c && leb c b))

sound_char : (x : Segment) (c : ℕ) → accepts x c ≡ true → Stands x c
sound_char (literal x) c e = (==_iff c x).0 e
sound_char star c e = cc
sound_char question c e = tt
sound_char (char_class chars ranges true) c e = λ n. ground (arith, complete_class n, e)
sound_char (char_class chars ranges false) c e = sound_class chars ranges c e

complete_char : (x : Segment) (c : ℕ) → Stands x c → accepts x c ≡ true
complete_char (literal x) c e = (==_iff c x).1 e
complete_char star c e = absurd e
complete_char question c e = refl
complete_char (char_class chars ranges true) c e =
    elim (Bool-cases (has_char chars c || in_ranges ranges c)) [
      | inl k ↦ absurd (e (sound_class chars ranges c k))
      | inr k ↦ rw k refl
    ]
complete_char (char_class chars ranges false) c e = complete_class e

try_all-Matches :
    (p : List Segment) (s : Bytes)
    → ((t : Bytes) → match_impl p t ≡ true → Matches p t)
    → try_all (match_impl p) s ≡ true
    → Matches (star ∷ p) s
unfolding try_all
try_all-Matches p [] h e = skip (h [] e)
try_all-Matches p (c ∷ s) h e = elim (Bool-cases (match_impl p (c ∷ s))) [
  | inl found ↦ skip (h (c ∷ s) found)
  | inr next ↦ more (try_all-Matches p s h (rw next at e))
]

step-Matches :
    (x : Segment) (p : List Segment) (s : Bytes)
    → ((t : Bytes) → match_impl p t ≡ true → Matches p t)
    → step x (match_impl p) s ≡ true
    → Matches (x ∷ p) s
step-Matches x p [] h e = cc
step-Matches x p (c ∷ s) h e = elim (Bool-cases (accepts x c)) [
  | inl a ↦ char (sound_char x c a) (h s (rw a at e))
  | inr a ↦ cc (rw a at e)
]

sound : (p : List Segment) (s : Bytes) → match_impl p s ≡ true → Matches p s
unfolding match_impl
sound [] [] e = end
sound [] (c ∷ s) e = cc
sound (star ∷ p) s e = try_all-Matches p s (sound p) e
sound (literal x ∷ p) s e = step-Matches (literal x) p s (sound p) e
sound (question ∷ p) s e = step-Matches question p s (sound p) e
sound (char_class a b n ∷ p) s e = step-Matches (char_class a b n) p s (sound p) e

try_now : (f : Bytes → Bool) (s : Bytes) → f s ≡ true → try_all f s ≡ true
unfolding try_all
try_now f [] h = h
try_now f (c ∷ s) h = rw h refl

try_later : (f : Bytes → Bool) (c : ℕ) (s : Bytes) → try_all f s ≡ true → try_all f (c ∷ s) ≡ true
unfolding try_all
try_later f c s h = ground arith

accepted :
    (x : Segment) (p : List Segment) (c : ℕ) (s : Bytes)
    → accepts x c ≡ true
    → match_impl p s ≡ true
    → match_impl (x ∷ p) (c ∷ s) ≡ true
unfolding match_impl
accepted (literal x) p c s a h = rw a h
accepted star p c s a h = cc
accepted question p c s a h = h
accepted (char_class y z n) p c s a h = rw a h

complete : {p : List Segment} {s : Bytes} → Matches p s → match_impl p s ≡ true
unfolding match_impl
complete end = refl
complete (skip {p} {s} m) = try_now (match_impl p) s (complete m)
complete (more {p} {c} {s} m) = try_later (match_impl p) c s (complete m)
complete (char {x} {p} {c} {s} a m) = accepted x p c s (complete_char x c a) (complete m)

-- The matcher says yes exactly where the pattern means the text.
pub match_impl_iff : (p : List Segment) (s : Bytes) → (match_impl p s ≡ true) ↔ Matches p s
match_impl_iff p s = (sound p s, complete)
