-- ===== src/Persist/Runner/Frames.antt =====
-- What the consumer's operations keep on every disk, working or not.
use taskweave.Base.{
  ℕ, ◌≤◌, ◌<◌, String, Bool, true, Option, none, some, List, [], ◌∷◌, ◌++◌, Outcome, done, raised,
  Keeps, >>-Keeps, catch-Keeps, for_each-Keeps, ◌≡◌, refl, sym, subst, ◌⊎◌, arith, leb, length,
  Bool-cases, inl, inr,
}
use taskweave.Exceptions.{Exception, os_error}
use taskweave.Persist.Runner.{
  Runner, next_index, disk_call, create_handle, write_to, handle_write, write_buffer, rotate,
  append, loop_body, loop, loop_after, on_append_error,
}

-- The runner names only files 1 to `max_files`, and the file `j` has this content.
pub record InRange (max_files j : ℕ) (content : List String) (r : Runner) : Type 0 where
  pub limit : r.max_files ≡ max_files
  pub index_pos : 0 < r.file_index
  pub index_le : r.file_index ≤ max_files
  pub opened : (r.handle ≡ none) ⊎ ((i : ℕ) × (r.handle ≡ some i) × (0 < i) × (i ≤ max_files))
  pub untouched : r.files j ≡ content

module _ (disk : ℕ → Bool) (max_files j : ℕ) (content : List String)
    (outside : (j ≡ 0) ⊎ (max_files < j)) where
  abbrev Fits : Runner → Type 0
  Fits = InRange max_files j content

  disk_call-InRange : Keeps Fits (disk_call disk)
  unfolding disk_call
  disk_call-InRange r h = ground arith

  create_handle-InRange : Keeps Fits (create_handle disk)
  unfolding create_handle
  create_handle-InRange = >>-Keeps Fits (disk_call disk) _ disk_call-InRange (λ r h. record {
    limit = h.limit;
    index_pos = h.index_pos;
    index_le = h.index_le;
    opened = inr (r.file_index, refl, h.index_pos, h.index_le);
    untouched = ground arith;
  })

  write_to-InRange :
      (i : ℕ) (line : String) → 0 < i → i ≤ max_files → Keeps Fits (write_to disk (some i) line)
  unfolding write_to
  write_to-InRange i line positive le =
      >>-Keeps Fits (disk_call disk) _ disk_call-InRange (λ r h. ground arith)

  handle_write-InRange : (line : String) → Keeps Fits (handle_write disk line)
  unfolding handle_write
  handle_write-InRange line r h = elim (h.opened) [
    | inl closed ↦ subst (λ o. Fits (write_to disk o line r).1) (sym closed) h
    | inr (i, open_at, positive, le) ↦
        subst (λ o. Fits (write_to disk o line r).1) (sym open_at)
          (write_to-InRange i line positive le r h)
  ]

  write_buffer-InRange : Keeps Fits (write_buffer disk)
  unfolding write_buffer
  write_buffer-InRange r = for_each-Keeps Fits r.buffer (handle_write disk) handle_write-InRange r

  with_buffer : (b : List String) (r : Runner) → Fits r → Fits (record r { buffer = b })
  with_buffer b r h = record {
    limit = h.limit;
    index_pos = h.index_pos;
    index_le = h.index_le;
    opened = h.opened;
    untouched = h.untouched;
  }

  next_index-InRange :
      0 < max_files
      → (r : Runner) → Fits r
      → Fits (record r { buffer = []; file_index = next_index r.max_files r.file_index })
  unfolding next_index
  next_index-InRange some_file r h = record {
    limit = h.limit;
    index_pos = ground arith;
    index_le = ground arith;
    opened = h.opened;
    untouched = h.untouched;
  }

  -- A rotation, on any disk, with any of its calls failing.
  rotate-InRange : 0 < max_files → Keeps Fits (rotate disk)
  unfolding rotate
  rotate-InRange some_file r h =
      >>-Keeps Fits (disk_call disk) _ disk_call-InRange
        (>>-Keeps Fits (create_handle disk) _ create_handle-InRange (
          >>-Keeps Fits (write_buffer disk) _ write_buffer-InRange (
            >>-Keeps Fits (disk_call disk) _ disk_call-InRange
              (λ r h. next_index-InRange some_file r h))))
        (record r { handle = none })
        (record {
          limit = h.limit;
          index_pos = h.index_pos;
          index_le = h.index_le;
          opened = inl refl;
          untouched = h.untouched;
        })

  pub append-InRange : 0 < max_files → (line : String) → Keeps Fits (append disk line)
  unfolding append
  append-InRange some_file line r h =
      elim (Bool-cases (leb r.max_lines (length (r.buffer ++ line ∷ [])))) [
        | inl full ↦ rw full (
            rotate-InRange some_file (record r { buffer = r.buffer ++ line ∷ [] })
              (with_buffer (r.buffer ++ line ∷ []) r h))
        | inr short ↦ rw short (with_buffer (r.buffer ++ line ∷ []) r h)
      ]

  with_thread :
      (q : List (Option String)) (died ended : Bool) (r : Runner)
      → Fits r
      → Fits (record r { queue = q; thread_died = died; thread_ended = ended })
  with_thread q died ended r h = record {
    limit = h.limit;
    index_pos = h.index_pos;
    index_le = h.index_le;
    opened = h.opened;
    untouched = h.untouched;
  }

  on_append_error-InRange : (e : Exception) → Keeps Fits (on_append_error disk e)
  unfolding on_append_error
  on_append_error-InRange os_error r h = with_thread r.queue true r.thread_ended r h
  on_append_error-InRange _ r h = h

  loop_body-InRange : 0 < max_files → (line : String) → Keeps Fits (loop_body disk line)
  unfolding loop_body
  loop_body-InRange some_file line =
      catch-Keeps Fits (append disk line) (on_append_error disk) (append-InRange some_file line)
        on_append_error-InRange

  loop_after-InRange :
      (o : Outcome Unit) (next : Runner → Outcome Unit × Runner)
      → ((r : Runner) → Fits r → Fits (next r).1)
      → (r : Runner) → Fits r
      → Fits (loop_after disk o r next).1
  loop_after-InRange (done _) next keeps r h = keeps r h
  loop_after-InRange (raised e) next keeps r h = with_thread r.queue r.thread_died true r h

  -- Whatever the disk does, the consumer names and writes only files 1 to `max_files`, over any
  -- queue: every other file keeps its content.
  pub loop-InRange : 0 < max_files → (q : List (Option String)) → Keeps Fits (loop disk q)
  unfolding loop
  loop-InRange some_file [] r h = with_thread [] r.thread_died r.thread_ended r h
  loop-InRange some_file (none ∷ q) r h = with_thread q r.thread_died true r h
  loop-InRange some_file (some line ∷ q) r h =
      let r' = record r { queue = q } in
      loop_after-InRange (loop_body disk line r').0 (loop disk q) (loop-InRange some_file q)
        (loop_body disk line r').1
        (loop_body-InRange some_file line r' (with_thread q r.thread_died r.thread_ended r h))
