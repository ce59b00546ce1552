-- ===== src/Persist/Runner/Retention.antt =====
-- What the rotating files hold after the consumer has read any list of lines, as long as the disk
-- works.
use mathlib.Core.List.{append-nil, append_assoc, flatten}
use taskweave.Base.{
  put_file, AllFull, AllKept, flatten-snoc, AllFull-snoc, AllKept-snoc, ℕ, suc, ◌+◌, ◌<◌, String,
  Bool, true, if◌then◌else◌, leb, Option, some, List, [], ◌∷◌, ◌++◌, map, length, length-append,
  catch-done, Outcome, done, ◌≡◌, inl, inr, Bool-cases, refl, sym, subst, ap, ◌∙◌, arith,
}
use taskweave.Persist.Runner.{
  Runner, next_index, append, loop_body, loop, loop_after, on_append_error,
}
use taskweave.Persist.Runner.Slots.{slot, slot_ne}
use taskweave.Persist.Runner.Healthy.{append_healthy}

-- The lines seen so far are the batches in order, then the buffer, which is not full.
pub record Retains (seen : List String) (r : Runner) : Type 0 where
  pub batches : List (List String)
  pub whole : flatten batches ++ r.buffer ≡ seen
  pub full : AllFull r.max_lines batches
  pub short : length r.buffer < r.max_lines
  pub index : r.file_index ≡ slot r.max_files (length batches)
  pub kept : AllKept r.max_files (slot r.max_files) r.files 0 batches

-- The runner after one more line.
abbrev fed : Runner → String → Runner
fed r line =
    if leb r.max_lines (length (r.buffer ++ line ∷ []))
    then record r {
      handle = some r.file_index;
      files = put_file r.files r.file_index (r.buffer ++ line ∷ []);
      disk_calls = r.disk_calls + 3 + length (r.buffer ++ line ∷ []);
      buffer = [];
      file_index = next_index r.max_files r.file_index;
    }
    else record r { buffer = r.buffer ++ line ∷ [] }

fed-Retains :
    (seen : List String) (r : Runner) (line : String)
    → 0 < r.max_files
    → Retains seen r
    → Retains (seen ++ line ∷ []) (fed r line)
unfolding slot
fed-Retains seen r line some_file h =
    elim (Bool-cases (leb r.max_lines (length (r.buffer ++ line ∷ [])))) [
      | inl is_full ↦ rw is_full (record {
        batches = h.batches ++ (r.buffer ++ line ∷ []) ∷ [];
        whole = simp (append-nil, flatten-snoc, ← append_assoc, h.whole);
        full =
            AllFull-snoc r.max_lines h.batches (r.buffer ++ line ∷ []) h.full
              (ground (arith, longer));
        short = omega arith;
        index = ap (next_index r.max_files) h.index ∙ ap (slot r.max_files) (sym one_more);
        kept =
            subst
              (λ i.
                AllKept r.max_files (slot r.max_files) (put_file r.files i (r.buffer ++ line ∷ []))
                  0 (h.batches ++ (r.buffer ++ line ∷ []) ∷ []))
              here
              (AllKept-snoc r.max_files (slot r.max_files) (slot_ne r.max_files some_file) some_file
                r.files (r.buffer ++ line ∷ []) 0 h.batches h.kept);
      })
      | inr not_full ↦ rw not_full (record {
        batches = h.batches;
        whole = rw (← append_assoc, h.whole);
        full = h.full;
        short = ground arith;
        index = h.index;
        kept = h.kept;
      })
    ]
  where
    longer : length (r.buffer ++ line ∷ []) ≡ length r.buffer + 1
    longer = length-append r.buffer (line ∷ [])

    one_more : length (h.batches ++ (r.buffer ++ line ∷ []) ∷ []) ≡ suc (length h.batches)
    one_more = omega (arith, length-append h.batches ((r.buffer ++ line ∷ []) ∷ []))

    here : slot r.max_files (length h.batches + 0) ≡ r.file_index
    here = ap (slot r.max_files) (omega arith) ∙ sym h.index

-- The parts of the runner that a working consumer leaves alone.
abbrev pub SameThread : Runner → Runner → Type 0
SameThread r r' =
    (r'.max_lines ≡ r.max_lines)
    × (r'.max_files ≡ r.max_files)
    × (r'.thread_died ≡ r.thread_died)
    × (r'.thread_ended ≡ r.thread_ended)
    × (r'.errors ≡ r.errors)
    × (r'.stop_event ≡ r.stop_event)

module _ (disk : ℕ → Bool) (healthy : (n : ℕ) → disk n ≡ true) where
  loop_body_healthy : (line : String) (r : Runner) → loop_body disk line r ≡ (done tt, fed r line)
  unfolding loop_body
  loop_body_healthy line r =
      catch-done (append disk line) (on_append_error disk) (append_healthy disk healthy line r)

  loop-some_healthy :
      (line : String) (q : List (Option String)) (r : Runner)
      → loop disk (some line ∷ q) r ≡ loop disk q (fed (record r { queue = q }) line)
  unfolding loop
  loop-some_healthy line q r =
      let e = loop_body_healthy line (record r { queue = q }) in
      λ i. loop_after disk (e i).0 (e i).1 (loop disk q)

  fed-SameThread :
      (line : String) (q : List (Option String)) (r : Runner)
      → SameThread r (fed (record r { queue = q }) line)
  fed-SameThread line q r = ground arith

  -- The consumer has gone through lines, and `seen` is what it has seen in all.
  abbrev pub Consumed : List String → Runner → Outcome Unit × Runner → Type 0
  Consumed seen r out =
      (out.0 ≡ done tt) × Retains seen (out.1) × SameThread r (out.1) × (out.1.queue ≡ [])

  with_queue :
      {seen : List String} {r : Runner} (q : List (Option String))
      → Retains seen r
      → Retains seen (record r { queue = q })
  with_queue q h = record {
    batches = h.batches;
    whole = h.whole;
    full = h.full;
    short = h.short;
    index = h.index;
    kept = h.kept;
  }

  -- With a working disk the consumer appends every queued line. What it has seen is then the
  -- written batches in their order followed by the buffer; each batch is full, the buffer is not;
  -- and each of the last `max_files` batches is the content of its file.
  pub loop-Retains :
      (lines seen : List String) (r : Runner)
      → 0 < r.max_files
      → Retains seen r
      → Consumed (seen ++ lines) r (loop disk (map some lines) r)
  unfolding loop
  loop-Retains [] seen r some_file h =
      (refl, rw (append-nil seen) (with_queue [] h), (refl, refl, refl, refl, refl, refl), refl)
  loop-Retains (line ∷ lines) seen r some_file h =
      let q : List (Option String) = map some lines in
      let r' = fed (record r { queue = q }) line in
      let same = fed-SameThread line q r in
      let next = fed-Retains seen (record r { queue = q }) line some_file (with_queue q h) in
      let (ok, rest, same', empty) =
        loop-Retains lines (seen ++ line ∷ []) r' (rw (same.1) some_file) next in
      subst (Consumed (seen ++ line ∷ lines) r) (sym (loop-some_healthy line q r)) (
        ok,
        rw (append_assoc seen (line ∷ []) lines) at rest,
        (
          same'.0 ∙ same.0,
          same'.1 ∙ same.1,
          same'.2 ∙ same.2,
          same'.3 ∙ same.3,
          same'.4 ∙ same.4,
          same'.5 ∙ same.5,
        ),
        empty,
      )
