-- ===== src/Base/Rotation.antt =====
-- Files that are written in turn, each with a batch of lines: what is left of the batches when a file is
-- written again. A file is the list of what was written to it.
use mathlib.Core.Path.{fun_ext}
use mathlib.Core.List.{append-nil, append_assoc, flatten}
use Prim.Native.Nat.{ℕ, suc, ◌+◌, ◌≤◌, ◌<◌}
use mathlib.Core.Path.{◌≡◌, sym, ap, subst}
use mathlib.Core.Logic.{◌≢◌, ◌⊎◌, inl, inr}
use mathlib.Core.List.{List, [], ◌∷◌, ◌++◌}
use native.Mathlib.Omega.{arith}
use taskweave.Base.Tests.{◌==◌, if◌then◌else◌}
use taskweave.Base.Lists.{length, length-append}

module _ {A : Type 0} where
  abbrev pub put_file : (ℕ → List A) → ℕ → List A → ℕ → List A
  put_file files i lines j = if i == j then lines else files j

  pub put_file-put_file :
      (f : ℕ → List A) (i : ℕ) (a b : List A) → put_file (put_file f i a) i b ≡ put_file f i b
  put_file-put_file f i a b = fun_ext λ j. ground arith

  pub put_file_at : (f : ℕ → List A) (i : ℕ) (a : List A) → put_file f i a i ≡ a
  put_file_at f i a = ground arith

  -- An emptied file that is written to.
  pub put_file_refilled :
      (f : ℕ → List A) (i : ℕ) (b : List A)
      → put_file (put_file f i []) i (put_file f i [] i ++ b) ≡ put_file f i b
  put_file_refilled f i b = fun_ext λ j. ground arith

  pub put_file-append-nil : (f : ℕ → List A) (i : ℕ) → put_file f i (f i ++ []) ≡ f
  put_file-append-nil f i = fun_ext λ j. ground (arith, append-nil (f i))

  -- Every batch has `m` lines.
  abbrev pub AllFull : ℕ → List (List A) → Type 0
  AllFull m [] = Unit
  AllFull m (b ∷ bs) = (length b ≡ m) × AllFull m bs

  -- Each batch, the first of them written as number `n` and the k-th into the file `slot k`, either has
  -- `max_files` batches behind it or is the content of its file.
  abbrev pub AllKept : ℕ → (ℕ → ℕ) → (ℕ → List A) → ℕ → List (List A) → Type 0
  AllKept max_files slot files n [] = Unit
  AllKept max_files slot files n (b ∷ bs) =
      ((max_files ≤ length bs) ⊎ (files (slot n) ≡ b)) × AllKept max_files slot files (suc n) bs

  pub flatten-snoc : (bs : List (List A)) (b : List A) → flatten (bs ++ b ∷ []) ≡ flatten bs ++ b
  unfolding flatten
  flatten-snoc [] b = append-nil b
  flatten-snoc (c ∷ bs) b = simp (flatten-snoc bs b, append_assoc)

  pub AllFull-snoc :
      (m : ℕ) (bs : List (List A)) (b : List A)
      → AllFull m bs
      → length b ≡ m
      → AllFull m (bs ++ b ∷ [])
  AllFull-snoc m [] b h e = (e, tt)
  AllFull-snoc m (c ∷ bs) b h e = (h.0, AllFull-snoc m bs b h.1 e)

  -- Files that are fewer than `max_files` apart have different names.
  module _ (max_files : ℕ) (slot : ℕ → ℕ)
      (apart : (k d : ℕ) → 0 < d → d < max_files → slot (d + k) ≢ slot k)
      (some_file : 0 < max_files) (files : ℕ → List A) (b : List A) where
    pub AllKept-snoc :
        (n : ℕ) (bs : List (List A))
        → AllKept max_files slot files n bs
        → AllKept max_files slot (put_file files (slot (length bs + n)) b) n (bs ++ b ∷ [])
    AllKept-snoc n [] h =
        let first : slot (0 + n) ≡ slot n = ap slot (omega arith) in
        (inr (ground (arith, first)), tt)
    AllKept-snoc n (c ∷ bs) h =
        let later : suc (length bs) + n ≡ length bs + suc n = omega arith in
        let other = apart n (suc (length bs)) in
        (
          elim (h.0) [
            | inl old ↦ inl (omega (arith, length-append bs (b ∷ [])))
            | inr here ↦ ground (arith, length-append bs (b ∷ []), other)
          ],
          subst (λ k. AllKept max_files slot (put_file files (slot k) b) (suc n) (bs ++ b ∷ []))
              (sym later) (AllKept-snoc (suc n) bs h.1),
        )
