-- ===== src/Salsa/Laws.antt =====
-- The scrambler can be undone: it loses nothing of its state.
use testunion.Common.{
  ℕ, ◌+◌, ◌<◌, ◌≡◌, ◌≢◌, refl, sym, ◌∙◌, ap, arith, List, [], ◌∷◌, ◌++◌, bit_xor, u32, length,
  get_or, length-set, get_or-set_self, get_or-set_ne, set-set, set-get_or, All,
}
use testunion.Bits.{bit_xor_cancel}
use testunion.Salsa.{rotate, Line, quarter_line, scrambler_lines, run_lines, salsa_scrambler}

-- A line reads two words other than the one it changes, all within the block.
pub record IsProper (l : Line) : Type 0 where
  pub left_differs : l.target ≢ l.left
  pub right_differs : l.target ≢ l.right
  pub within : l.target < 16

-- A line done twice gives the block back.
quarter_line_twice :
    (x : List ℕ) (l : Line) → length x ≡ 16 → IsProper l → quarter_line (quarter_line x l) l ≡ x
unfolding quarter_line
quarter_line_twice x l len p =
    let word = get_or x l.target 0 in
    let key = rotate (u32 (get_or x l.left 0 + get_or x l.right 0)) l.shift in
    let v = bit_xor word key in
    rw (
      get_or-set_self x l.target v 0 (omega (arith, p.within)),
      get_or-set_ne x l.target l.left v 0 p.left_differs,
      get_or-set_ne x l.target l.right v 0 p.right_differs,
      set-set x l.target v (bit_xor v key),
      bit_xor_cancel word key,
      set-get_or x l.target 0,
    )

length-quarter_line : (x : List ℕ) (l : Line) → length (quarter_line x l) ≡ length x
unfolding quarter_line
length-quarter_line x l = length-set x l.target _

run_lines-append :
    (x : List ℕ) (ks ls : List Line) → run_lines x (ks ++ ls) ≡ run_lines (run_lines x ks) ls
unfolding run_lines
run_lines-append x [] ls = refl
run_lines-append x (k ∷ ks) ls = run_lines-append (quarter_line x k) ks ls

pub length-run_lines : (x : List ℕ) (ls : List Line) → length (run_lines x ls) ≡ length x
unfolding run_lines
length-run_lines x [] = refl
length-run_lines x (l ∷ ls) = length-run_lines (quarter_line x l) ls ∙ length-quarter_line x l

-- The lines in the opposite order.
abbrev pub backwards : List Line → List Line
backwards [] = []
backwards (l ∷ ls) = backwards ls ++ (l ∷ [])

run_lines-backwards :
    (x : List ℕ) (ls : List Line)
    → length x ≡ 16
    → All IsProper ls
    → run_lines (run_lines x ls) (backwards ls) ≡ x
unfolding run_lines
run_lines-backwards x [] len p = refl
run_lines-backwards x (l ∷ ls) len p =
    let ih = run_lines-backwards (quarter_line x l) ls (length-quarter_line x l ∙ len) p.1 in
    run_lines-append (run_lines x (l ∷ ls)) (backwards ls) (l ∷ [])
    ∙ ap (λ t. quarter_line t l) ih
    ∙ quarter_line_twice x l len p.0

lines-IsProper : All IsProper scrambler_lines
lines-IsProper = omega arith

-- For any block of 16 words, the scrambler is undone by its sixteen lines in the opposite order.
pub unscramble :
    (x : List ℕ) → length x ≡ 16 → run_lines (salsa_scrambler x).0 (backwards scrambler_lines) ≡ x
unfolding salsa_scrambler
unscramble x len = run_lines-backwards x scrambler_lines len lines-IsProper

-- Two blocks of 16 words with the same output were the same, so no state is lost from round to
-- round.
salsa_scrambler-injective :
    (x y : List ℕ)
    → length x ≡ 16
    → length y ≡ 16
    → (salsa_scrambler x).0 ≡ (salsa_scrambler y).0
    → x ≡ y
salsa_scrambler-injective x y hx hy e =
    sym (unscramble x hx) ∙ ap (λ t. run_lines t (backwards scrambler_lines)) e ∙ unscramble y hy
