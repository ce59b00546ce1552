-- ===== src/Logging/Tail.antt =====
-- The last lines of a log.
use mathlib.Core.List.{append_assoc, append-nil}
use taskweave.Base.{
  ℕ, zero, suc, ◌+◌, ◌-◌, ◌≤◌, String, List, [], ◌∷◌, ◌++◌, length, length-append, length-drop,
  drop, ◌≡◌, refl, sym, ap, ◌∙◌, arith,
}
use taskweave.Logging.{slide, deque_of, tail}

drop-append : (k : ℕ) (xs ys : List String) → k ≤ length xs → drop k xs ++ ys ≡ drop k (xs ++ ys)
drop-append zero xs ys h = refl
drop-append (suc k) [] ys h = absurd (omega (arith, h))
drop-append (suc k) (x ∷ xs) ys h = drop-append k xs ys (omega (arith, h))

drop-nil : (k : ℕ) → drop {A = String} k [] ≡ []
drop-nil zero = refl
drop-nil (suc k) = refl

drop-drop : (a b : ℕ) (xs : List String) → drop a (drop b xs) ≡ drop (a + b) xs
drop-drop a zero xs = ap (λ n. drop n xs) (omega arith)
drop-drop a (suc b) [] = drop-nil a ∙ sym (drop-nil (a + suc b))
drop-drop a (suc b) (x ∷ xs) =
    let later : suc (a + b) ≡ a + suc b = omega arith in
    drop-drop a b xs ∙ ap (λ n. drop n (x ∷ xs)) later

deque_of-eq :
    (n : ℕ) (window lines : List String)
    → length window ≤ n
    → deque_of n window lines ≡ drop (length (window ++ lines) - n) (window ++ lines)
deque_of-eq n window [] h =
    let all : 0 ≡ length window - n = omega (arith, h) in
    rw (append-nil window) (ap (λ k. drop k window) all)
deque_of-eq n window (line ∷ lines) h =
    let longer = window ++ line ∷ [] in
    let k = length longer - n in
    let all = window ++ line ∷ lines in
    let whole = length-append window (line ∷ lines) in
    let one = length-append window (line ∷ []) in
    deque_of-eq n (slide n window line) lines (omega (arith, length-drop k longer))
    ∙ ap (λ ls. drop (length ls - n) ls)
        (drop-append k longer lines (omega arith)
          ∙ ap (drop k) (append_assoc window (line ∷ []) lines))
    ∙ drop-drop (length (drop k all) - n) k all
    ∙ ap (λ m. drop m all) (omega (arith, length-drop k all, whole, one, h))

-- The tail of a log is its last n lines, all of them where there are fewer.
pub tail-eq : (n : ℕ) (lines : List String) → tail n lines ≡ drop (length lines - n) lines
tail-eq n lines = deque_of-eq n [] lines (omega arith)
