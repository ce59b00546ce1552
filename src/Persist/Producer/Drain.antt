-- ===== src/Persist/Producer/Drain.antt =====
-- The last messages that a forced stop keeps.
use native.Mathlib.Nat.{add-zero, add-suc}
use mathlib.Core.List.{append-nil, append_assoc}
use taskweave.Base.{
  ℕ, zero, suc, ◌+◌, ◌-◌, ◌≤◌, String, Option, List, [], ◌∷◌, ◌++◌, map, length, length-map,
  length-append, drop, length-drop, ◌≡◌, refl, sym, ap, ◌∙◌, arith,
}
use taskweave.Persist.Producer.{push_last, last_resort, drain}

drop-nil : (n : ℕ) → drop {A = String} n [] ≡ []
drop-nil zero = refl
drop-nil (suc n) = refl

drop-drop : (n m : ℕ) (xs : List String) → drop n (drop m xs) ≡ drop (n + m) xs
drop-drop n zero xs = rw add-zero
drop-drop n (suc m) [] = drop-nil n ∙ sym (drop-nil (n + suc m))
drop-drop n (suc m) (x ∷ xs) = rw add-suc (drop-drop n m xs)

drop-append_le : (n : ℕ) (xs ys : List String) → n ≤ length xs → drop n (xs ++ ys) ≡ drop n xs ++ ys
drop-append_le zero xs ys h = refl
drop-append_le (suc n) [] ys h = absurd (omega arith)
drop-append_le (suc n) (x ∷ xs) ys h = drop-append_le n xs ys (omega arith)

-- The bounded deque holds the last `keep` of all that was appended.
push_last-drop :
    (keep : ℕ) (seen : List String) (line : String)
    → push_last keep (drop (length seen - keep) seen) line
      ≡ drop (length (seen ++ line ∷ []) - keep) (seen ++ line ∷ [])
unfolding push_last
push_last-drop keep seen line =
    let a = length seen - keep in
    let b = length (drop a seen) + 1 - keep in
    let offset : b + a ≡ length (seen ++ line ∷ []) - keep =
      omega (arith, length-drop a seen, length-append seen (line ∷ [])) in
    ap (drop b) (sym (drop-append_le a seen (line ∷ []) (omega arith)))
    ∙ (drop-drop b a (seen ++ line ∷ []) ∙ ap (λ k. drop k (seen ++ line ∷ [])) offset)

drain-drop :
    (keep : ℕ) (seen : List String) (q : List (Option String))
    → drain keep (drop (length seen - keep) seen) q
      ≡ drop (length (seen ++ map last_resort q) - keep) (seen ++ map last_resort q)
unfolding drain
drain-drop keep seen [] = rw append-nil
drain-drop keep seen (m ∷ q) =
    ap (λ kept. drain keep kept q) (push_last-drop keep seen (last_resort m))
    ∙ (rw append_assoc at (drain-drop keep (seen ++ last_resort m ∷ []) q))

-- A drain returns the last `keep` messages of the queue in their order, each with its label.
pub drain-eq-last :
    (keep : ℕ) (q : List (Option String))
    → drain keep [] q ≡ drop (length q - keep) (map last_resort q)
drain-eq-last keep q =
    ap (λ kept. drain keep kept q) (sym (drop-nil (0 - keep)))
    ∙ (drain-drop keep [] q
        ∙ ap (λ n. drop (n - keep) (map last_resort q)) (length-map last_resort q))
