-- ===== src/Glob/Escape.antt =====
-- Compiling patterns (src/pattern/glob_pattern.cpp): escaped text matches itself only, and the loop has
-- fuel enough.
use serverlink.Prelude.{
  ℕ, zero, suc, ◌≤◌, ◌≡◌, ◌↔◌, refl, ap, arith, Bool, true, false, some, List, [], ◌∷◌, ◌++◌, Bytes,
  bytes_beq, bytes_beq_iff, length, Option-cases, inl, inr,
}
use serverlink.Glob.{
  Segment, literal, class_loop, parse_char_class, escaped, next_segment, push, compile_loop,
  compile, match_impl, match,
}

-- Every character behind a backslash.
abbrev pub escape : Bytes → Bytes
escape [] = []
escape (c ∷ cs) = b'\\' ∷ (c ∷ escape cs)

abbrev literals : Bytes → List Segment
literals [] = []
literals (c ∷ cs) = literal c ∷ literals cs

compile_loop-escape :
    (f : ℕ) (s : Bytes) → length (escape s) ≤ f → compile_loop f (escape s) ≡ some (literals s)
unfolding compile_loop
compile_loop-escape zero [] h = refl
compile_loop-escape (suc f) [] h = refl
compile_loop-escape zero (c ∷ cs) h = absurd (omega arith)
compile_loop-escape (suc f) (c ∷ cs) h =
    ap (push (literal c)) (compile_loop-escape f cs (omega arith))

match-literals : (s t : Bytes) → match_impl (literals s) t ≡ bytes_beq t s
unfolding match_impl
match-literals [] [] = refl
match-literals [] (c ∷ t) = refl
match-literals (x ∷ s) [] = refl
match-literals (x ∷ s) (c ∷ t) = ground (arith, match-literals s t)

-- A text with every character escaped is a valid pattern, and it matches that text and no other.
pub match-escape : (s t : Bytes) → (match (compile (escape s)) t ≡ true) ↔ (t ≡ s)
unfolding match compile
match-escape s t =
    rw (compile_loop-escape (length (escape s)) s (omega arith), match-literals s t)
      (bytes_beq_iff t s)

class_loop-le :
    (n : Bool) (chars : Bytes) (ranges : List (ℕ × ℕ)) (s rest : Bytes) (x : Segment)
    → class_loop n chars ranges s ≡ some (x, rest)
    → length rest ≤ length s
unfolding class_loop
class_loop-le n chars ranges [] rest x h = cc
class_loop-le n chars ranges (c ∷ []) rest x h = ground arith
class_loop-le n chars ranges (c ∷ (d ∷ [])) rest x h =
    ground (arith, class_loop-le n (chars ++ c ∷ []) ranges (d ∷ []) rest x)
class_loop-le n chars ranges (c ∷ (d ∷ (e ∷ s))) rest x h = ground (
  arith,
  class_loop-le n (chars ++ c ∷ []) ranges (d ∷ (e ∷ s)) rest x,
  class_loop-le n chars (ranges ++ (c, e) ∷ []) s rest x,
)

parse_char_class-le :
    (s rest : Bytes) (x : Segment) → parse_char_class s ≡ some (x, rest) → length rest ≤ length s
unfolding parse_char_class
parse_char_class-le [] rest x h = cc
parse_char_class-le (c ∷ s) rest x h =
    ground (arith, class_loop-le true [] [] s rest x, class_loop-le false [] [] (c ∷ s) rest x)

escaped-le :
    (c : ℕ) (s rest : Bytes) (x : Segment) → escaped c s ≡ some (x, rest) → length rest ≤ length s
escaped-le c [] rest x h = ground arith
escaped-le c (d ∷ s) rest x h = ground arith

next_segment-le :
    (c : ℕ) (s rest : Bytes) (x : Segment)
    → next_segment c s ≡ some (x, rest)
    → length rest ≤ length s
unfolding next_segment
next_segment-le c s rest x h = ground (arith, parse_char_class-le s rest x, escaped-le c s rest x)

-- With more fuel than the length of the pattern the result of compiling is the same, so that `none`
-- stands for an invalid pattern and never for a loop that was cut short.
pub compile_loop_enough :
    (f g : ℕ) (s : Bytes) → length s ≤ f → length s ≤ g → compile_loop f s ≡ compile_loop g s
unfolding compile_loop
compile_loop_enough zero zero s h k = refl
compile_loop_enough zero (suc g) [] h k = refl
compile_loop_enough (suc f) zero [] h k = refl
compile_loop_enough (suc f) (suc g) [] h k = refl
compile_loop_enough zero (suc g) (c ∷ s) h k = absurd (omega arith)
compile_loop_enough (suc f) zero (c ∷ s) h k = absurd (omega arith)
compile_loop_enough (suc f) (suc g) (c ∷ s) h k = elim (Option-cases (next_segment c s)) [
  | inl e ↦ rw (compile_loop, e) refl
  | inr ((x, rest), e) ↦
      rw (compile_loop, e)
        (ap (push x) (
          compile_loop_enough f g rest (omega (arith, next_segment-le c s rest x e))
            (omega (arith, next_segment-le c s rest x e))))
]
