-- ===== src/Output.antt =====
-- How the output of a process becomes lines: `read_subprocess_output` of
-- src/taskweave/workers/basic_worker.py and `_poll_stdout` of
-- src/taskweave/workers/subprocess_manager.py. A text is the list of its characters' code points. What
-- Python's text stream answers is the argument: the answers of `read(256)`, of which the first empty one
-- is the end, or its lines. `is_space` says which characters `str.strip` takes away, and `on_line` is
-- what becomes of a line: the producer's event is put into the queue, or given to the heart beat.
pub mod Chunks
pub mod Logger
pub mod Events
mod Examples
use taskweave.Base.{
  ℕ, ◌==◌, Bool, true, false, if◌then◌else◌, ◌&&◌, List, [], ◌∷◌, ◌++◌, map, Stmt, skip, for_each,
  ◌>>=◌, ◌>>◌,
}

abbrev pub Text : Type 0
Text = List ℕ

abbrev pub newline : ℕ
newline = 10

abbrev pub carriage_return : ℕ
carriage_return = 13

abbrev pub is_empty : Text → Bool
is_empty [] = true
is_empty (c ∷ text) = false

-- `.replace('\r', '\n')`
abbrev pub unix_char : ℕ → ℕ
unix_char c = if c == carriage_return then newline else c

abbrev pub to_newlines : Text → Text
to_newlines = map unix_char

abbrev pub push : ℕ → List Text → List Text
push c [] = (c ∷ []) ∷ []
push c (line ∷ lines) = (c ∷ line) ∷ lines

-- `.split('\n')`
abbrev pub split_lines : Text → List Text
split_lines [] = [] ∷ []
split_lines (c ∷ text) =
    let lines = split_lines text in if c == newline then [] ∷ lines else push c lines

module _ (is_space : ℕ → Bool) where
  abbrev pub lstrip : Text → Text
  lstrip [] = []
  lstrip (c ∷ text) = let rest = lstrip text in if is_space c then rest else c ∷ text

  abbrev pub rstrip : Text → Text
  rstrip [] = []
  rstrip (c ∷ text) = let rest = rstrip text in if is_empty rest && is_space c then [] else c ∷ rest

  abbrev pub strip : Text → Text
  strip text = rstrip (lstrip text)

  module _ {W : Type 0} (on_line : Text → Stmt W Unit) where
    -- `if line.strip(): …`
    unfoldable pub read_line : Text → Stmt W Unit
    read_line line = if is_empty (strip line) then skip else on_line (strip line)

    -- The loop of `read_subprocess_output`, from the buffer and the answers that are left.
    unfoldable pub read_chunks : Text → List Text → Stmt W Unit
    unfolding read_line
    read_chunks buffer [] = skip
    read_chunks buffer (chunk ∷ chunks) =
        let rest = read_chunks [] chunks in
        if is_empty chunk
        then skip
        else for_each (split_lines (to_newlines (buffer ++ chunk))) read_line >> rest

    unfoldable pub read_subprocess_output : List Text → Stmt W Unit
    unfolding read_chunks
    read_subprocess_output chunks = read_chunks [] chunks

    unfoldable pub poll_stdout : List Text → Stmt W Unit
    poll_stdout lines = for_each lines (λ line. on_line (rstrip line))
