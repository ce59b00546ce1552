-- ===== src/Output/Chunks.antt =====
-- Which lines are read.
use mathlib.Core.List.{append_assoc}
use taskweave.Base.{
  ℕ, ◌==◌, Bool, true, false, if◌then◌else◌, List, [], ◌∷◌, ◌++◌, Outcome, done, raised, Stmt,
  resume, skip, for_each, for_each-append, ◌>>◌, ◌≡◌, refl, sym, ap, ◌∙◌, arith, Bool-cases, ◌⊎◌,
  inl, inr,
}
use taskweave.Output.{
  Text, newline, carriage_return, is_empty, unix_char, to_newlines, push, split_lines, read_line,
  read_chunks, read_subprocess_output,
}

abbrev pub concat : List Text → Text
concat [] = []
concat (text ∷ texts) = text ++ concat texts

-- Every text ends with the end of a line.
abbrev pub AllEnded : List Text → Type 0
AllEnded [] = Unit
AllEnded (text ∷ texts) =
    ((line : Text) × (end : ℕ) × (text ≡ line ++ end ∷ [])
      × ((end ≡ newline) ⊎ (end ≡ carriage_return)))
    × AllEnded texts

abbrev pub AllNonempty : List Text → Type 0
AllNonempty [] = Unit
AllNonempty (text ∷ texts) = (is_empty text ≡ false) × AllNonempty texts

-- The lines of each text for itself.
abbrev pub chunk_lines : List Text → List Text
chunk_lines [] = []
chunk_lines (text ∷ texts) = split_lines (to_newlines text) ++ chunk_lines texts

push-append :
    (c : ℕ) (a b : Text) (lines : List Text)
    → split_lines a ≡ lines
    → push c (lines ++ split_lines b) ≡ push c lines ++ split_lines b
push-append c a b (line ∷ lines) e = refl
push-append c [] b [] e = ground (arith, e)
push-append c (d ∷ a) b [] e = absurd (nonempty d a (Bool-cases (d == newline)) (split_lines a) e)
  where
    nonempty :
        (d : ℕ) (a : Text)
        → ((d == newline) ≡ true) ⊎ ((d == newline) ≡ false)
        → (lines : List Text) → (if d == newline then [] ∷ lines else push d lines) ≡ []
        → ⊥
    nonempty d a (inl yes') lines e = ground (arith, e, yes')
    nonempty d a (inr no') [] e = ground (arith, e, no')
    nonempty d a (inr no') (line ∷ lines) e = ground (arith, e, no')

split_lines-newline : (a b : Text) → split_lines (a ++ newline ∷ b) ≡ split_lines a ++ split_lines b
split_lines-newline [] b = refl
split_lines-newline (c ∷ a) b =
    ground (arith, split_lines-newline a b, push-append c a b (split_lines a) refl)

map-append : (a b : Text) → to_newlines (a ++ b) ≡ to_newlines a ++ to_newlines b
map-append [] b = refl
map-append (c ∷ a) b = ap (λ t. unix_char c ∷ t) (map-append a b)

-- The lines of a text that goes on after the end of a line.
split_lines-ended :
    (line : Text) (end : ℕ) (text : Text)
    → unix_char end ≡ newline
    → split_lines (to_newlines ((line ++ end ∷ []) ++ text))
      ≡ split_lines (to_newlines line) ++ split_lines (to_newlines text)
split_lines-ended line end text e =
    ap (λ t. split_lines (to_newlines t)) (append_assoc line (end ∷ []) text)
    ∙ ap split_lines (map-append line (end ∷ text))
    ∙ ap (λ c. split_lines (to_newlines line ++ c ∷ to_newlines text)) e
    ∙ split_lines-newline (to_newlines line) (to_newlines text)

unix_char-newline : (end : ℕ) → (end ≡ newline) ⊎ (end ≡ carriage_return) → unix_char end ≡ newline
unix_char-newline end (inl e) = ap unix_char e
unix_char-newline end (inr e) = ap unix_char e

split_lines-end :
    (line : Text) (end : ℕ)
    → unix_char end ≡ newline
    → split_lines (to_newlines (line ++ end ∷ [])) ≡ split_lines (to_newlines line) ++ [] ∷ []
split_lines-end line end e =
    ap split_lines (map-append line (end ∷ []))
    ∙ ap (λ c. split_lines (to_newlines line ++ c ∷ [])) e
    ∙ split_lines-newline (to_newlines line) []

is_empty-end : (line : Text) (end : ℕ) → is_empty (line ++ end ∷ []) ≡ false
is_empty-end [] end = refl
is_empty-end (c ∷ line) end = refl

resume-skip : {W : Type 0} (r : Outcome (Unit {0})) (w : W) → resume r w (λ _. skip) ≡ (r, w)
resume-skip (done u) w = refl
resume-skip (raised e) w = refl

module _ {W : Type 0} (is_space : ℕ → Bool) (on_line : Text → Stmt W Unit) where
  abbrev read_lines : List Text → Stmt W Unit
  read_lines lines = for_each lines (read_line is_space on_line)

  -- The last, empty line of a chunk is not read.
  read_lines-end :
      (line : Text) (end : ℕ) (w : W)
      → unix_char end ≡ newline
      → read_lines (split_lines (to_newlines (line ++ end ∷ []))) w
        ≡ read_lines (split_lines (to_newlines line)) w
  unfolding read_line
  read_lines-end line end w e =
      let lines = split_lines (to_newlines line) in
      ap (λ ls. read_lines ls w) (split_lines-end line end e)
      ∙ for_each-append lines ([] ∷ []) (read_line is_space on_line) w
      ∙ resume-skip (read_lines lines w).0 (read_lines lines w).1

  -- When each answer of the stream ends with the end of a line, `read_subprocess_output` reads the
  -- lines of the whole text, one after the other: each that is not blank is stripped and goes to the
  -- producer. A line may end by either of the two characters.
  pub reads_whole :
      (chunks : List Text) (w : W)
      → AllEnded chunks
      → read_subprocess_output is_space on_line (chunks ++ [] ∷ []) w
        ≡ for_each (split_lines (to_newlines (concat chunks))) (read_line is_space on_line) w
  unfolding read_subprocess_output read_chunks read_line
  reads_whole [] w ended = refl
  reads_whole (chunk ∷ chunks) w ((line, end, e, last), ended) =
      let ends = unix_char-newline end last in
      let lines = split_lines (to_newlines line) in
      let after = read_subprocess_output is_space on_line (chunks ++ [] ∷ []) in
      let more = split_lines (to_newlines (concat chunks)) in
      ap (λ c. read_subprocess_output is_space on_line (c ∷ chunks ++ [] ∷ []) w) e
      ∙ ap
          (λ b.
            (if b
                then skip
                else (read_lines (split_lines (to_newlines (line ++ end ∷ []))) >> after))
              w)
          (is_empty-end line end)
      ∙ ap (λ out. resume out.0 out.1 (λ _. after)) (read_lines-end line end w ends)
      ∙ (λ i.
          resume (read_lines lines w).0 (read_lines lines w).1
            (λ _ w'. reads_whole chunks w' ended i))
      ∙ sym (for_each-append lines more (read_line is_space on_line) w)
      ∙ sym (ap (λ ls. read_lines ls w) (split_lines-ended line end (concat chunks) ends))
      ∙ ap (λ c. read_lines (split_lines (to_newlines (c ++ concat chunks))) w) (sym e)

  -- In general the text between two answers is cut: for answers that are not empty, the lines that are
  -- read are those of each answer for itself, so that a line which goes on in the next one is read as
  -- two.
  pub reads_each :
      (chunks : List Text) (w : W)
      → AllNonempty chunks
      → read_subprocess_output is_space on_line (chunks ++ [] ∷ []) w
        ≡ for_each (chunk_lines chunks) (read_line is_space on_line) w
  unfolding read_subprocess_output read_chunks
  reads_each [] w full = refl
  reads_each (chunk ∷ chunks) w (e, full) =
      let lines = split_lines (to_newlines chunk) in
      let after = read_subprocess_output is_space on_line (chunks ++ [] ∷ []) in
      ap (λ b. (if b then skip else read_lines lines >> after) w) e
      ∙ (λ i.
          resume (read_lines lines w).0 (read_lines lines w).1
            (λ _ w'. reads_each chunks w' full i))
      ∙ sym (for_each-append lines (chunk_lines chunks) (read_line is_space on_line) w)
