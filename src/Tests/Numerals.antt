-- ===== src/Tests/Numerals.antt =====
-- Numbers as texts that are counted.
use Prim.Native.String.{String, [], ◌∷◌}
use cream_bots.Prelude.{ℕ, zero, suc, ◌≡◌, refl, ap, ◌∙◌, Result, ok}
use cream_bots.Prelude.Int.{ℤ, pos, negsuc}

ones : ℕ → String
ones zero = []
ones (suc n) = "1" ∷ ones n

size : String → ℕ
size [] = zero
size (c ∷ s) = suc (size s)

double : ℕ → ℕ
double zero = zero
double (suc n) = suc (suc (double n))

further : ℤ → ℤ
further (pos n) = pos (suc n)
further (negsuc n) = negsuc (suc n)

int_of : ℕ → ℤ
unfolding further
int_of zero = pos zero
int_of (suc zero) = negsuc zero
int_of (suc (suc n)) = further (int_of n)

unfoldable pub text_of_int : ℤ → String
unfolding ones double
text_of_int (pos n) = ones (double n)
text_of_int (negsuc n) = ones (suc (double n))

unfoldable pub int_of_text : String → Result ℤ
unfolding size int_of
int_of_text s = ok (int_of (size s))

size-ones : (n : ℕ) → size (ones n) ≡ n
unfolding ones size
size-ones zero = refl
size-ones (suc n) = ap suc (size-ones n)

int_of-even : (n : ℕ) → int_of (double n) ≡ pos n
unfolding int_of double further
int_of-even zero = refl
int_of-even (suc n) = ap further (int_of-even n)

int_of-odd : (n : ℕ) → int_of (suc (double n)) ≡ negsuc n
unfolding int_of double further
int_of-odd zero = refl
int_of-odd (suc n) = ap further (int_of-odd n)

pub int_of_text-text_of_int : (i : ℤ) → int_of_text (text_of_int i) ≡ ok i
unfolding int_of_text text_of_int
int_of_text-text_of_int (pos n) =
    ap (λ k. ok (int_of k)) (size-ones (double n)) ∙ ap ok (int_of-even n)
int_of_text-text_of_int (negsuc n) =
    ap (λ k. ok (int_of k)) (size-ones (suc (double n))) ∙ ap ok (int_of-odd n)
