-- ===== src/Output/Examples.antt =====
-- Concrete inputs of the theorems on the reading of output.
use taskweave.Base.{
  String, false, if◌then◌else◌, inl, inr, ℕ, ◌==◌, Bool, List, [], ◌∷◌, ◌++◌, Stmt, update,
  for_each, ◌≡◌, refl,
}
use taskweave.Output.{
  is_empty, Text, newline, carriage_return, to_newlines, split_lines, read_line,
  read_subprocess_output,
}
use taskweave.Output.Chunks.{concat, reads_whole}
use taskweave.Output.Events.{Reader, queue_line, Queues, output_queued}

abbrev is_space : ℕ → Bool
is_space c = c == 32

abbrev put : Text → Stmt (List Text) Unit
put line = update λ lines. lines ++ line ∷ []

-- Two answers that end with a line, and two that cut one.
abbrev whole : List Text
whole = (97 ∷ 32 ∷ newline ∷ 98 ∷ newline ∷ []) ∷ (32 ∷ carriage_return ∷ []) ∷ []

abbrev cut : List Text
cut = (97 ∷ newline ∷ 98 ∷ []) ∷ (99 ∷ newline ∷ []) ∷ []

cut_in_two :
    (read_subprocess_output is_space put (cut ++ [] ∷ []) []).1
    ≡ (97 ∷ []) ∷ (98 ∷ []) ∷ (99 ∷ []) ∷ []
unfolding read_subprocess_output
cut_in_two = refl

reads_whole_example :
    read_subprocess_output is_space put (whole ++ [] ∷ []) []
    ≡ for_each (split_lines (to_newlines (concat whole))) (read_line is_space put) []
reads_whole_example = reads_whole is_space put whole [] (
  (97 ∷ 32 ∷ newline ∷ 98 ∷ [], newline, refl, inl refl),
  ((32 ∷ [], carriage_return, refl, inr refl), tt),
)

abbrev name_line : Text → String
name_line line = if is_empty line then "" else "line"

abbrev thread : Reader
thread = record { counters = record { objects = 5; readings = 0 }; print_queue = [] }

output_queued_example :
    Queues
      (λ n. n)
      false
      "fetch"
      name_line
      is_space
      (split_lines (to_newlines (concat whole)))
      thread
      (read_subprocess_output is_space
        (queue_line (λ n. n) false "fetch" name_line is_space)
        (whole ++ [] ∷ [])
        thread)
output_queued_example =
    output_queued (λ n. n) false "fetch" name_line is_space whole thread
      (
        (97 ∷ 32 ∷ newline ∷ 98 ∷ [], newline, refl, inl refl),
        ((32 ∷ [], carriage_return, refl, inr refl), tt),
      )
