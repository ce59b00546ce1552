-- ===== src/Output/Logger/Closing.antt =====
-- What a WorkerLogger leaves in its files when it is closed.
use mathlib.Core.List.{flatten}
use taskweave.Base.{
  ℕ, ◌+◌, ◌<◌, String, Bool, none, List, [], ◌∷◌, ◌++◌, length, put_file, AllFull, AllKept,
  AllKept-snoc, done, >>-done, ◌>>◌, ◌≡◌, refl, sym, ap, subst, ◌∙◌, arith,
}
use taskweave.Output.Logger.{event, progress, summary, WorkerLogger, init, close}
use taskweave.Output.Logger.Runs.{slot, slot_ne, shut, end_rotation, close-run}
use taskweave.Output.Logger.Accounting.{lines_of, Records, push_each, push_each-Pushed, init-Pushed}

module _ (is_event : String → Bool) where
  -- The batches, and after them what was left when the logger was closed, if anything.
  abbrev pub with_rest : List (List String) → List String → List (List String)
  with_rest batches [] = batches
  with_rest batches (line ∷ lines) = batches ++ (line ∷ lines) ∷ []

  -- A closed logger that had been given these lines.
  pub record Logged (lines : List String) (l : WorkerLogger) : Type 0 where
    pub batches : List (List String)
    pub rest : List String
    pub whole : flatten batches ++ rest ≡ lines_of is_event event lines
    pub full : AllFull l.max_lines batches
    pub short : length rest < l.max_lines
    pub kept : AllKept l.max_files (slot l.max_files) l.events 0 (with_rest batches rest)
    pub summaries : l.summary_file ≡ lines_of is_event summary lines
    pub progresses : l.progress_file ≡ lines_of is_event progress lines
    pub emptied : (l.event_buffer ≡ []) × (l.progress_buffer ≡ [])
    pub closed : l.event_handle ≡ none

  end-Logged :
      (lines b : List String) (l : WorkerLogger)
      → l.event_buffer ≡ b
      → 0 < l.max_files
      → Records is_event lines l
      → Logged lines (shut (end_rotation b l))
  end-Logged lines [] l e h r = record {
    batches = r.batches;
    rest = [];
    whole = rw e at r.whole;
    full = r.full;
    short = omega (arith, r.short);
    kept = r.kept;
    summaries = r.summaries;
    progresses = simp (r.unwritten, r.progresses);
    emptied = (e, refl);
    closed = refl;
  }
  end-Logged lines (x ∷ b) l e h r =
      let here : slot l.max_files (length r.batches + 0) ≡ slot l.max_files l.file_index =
        ap (slot l.max_files) (omega (arith, r.index)) in
      record {
        batches = r.batches;
        rest = x ∷ b;
        whole = rw e at r.whole;
        full = r.full;
        short = rw e at r.short;
        kept =
            subst
              (λ i.
                AllKept l.max_files (slot l.max_files) (put_file l.events i l.event_buffer) 0
                  (r.batches ++ (x ∷ b) ∷ []))
              here
              (subst
                (λ b.
                  AllKept l.max_files (slot l.max_files)
                    (put_file l.events (slot l.max_files (length r.batches + 0)) l.event_buffer) 0
                    (r.batches ++ b ∷ []))
                e
                (AllKept-snoc l.max_files (slot l.max_files) (slot_ne l.max_files) h l.events
                  l.event_buffer 0 r.batches r.kept));
        summaries = r.summaries;
        progresses = simp (r.unwritten, r.progresses);
        emptied = (refl, refl);
        closed = refl;
      }

  -- A logger that is made with positive bounds, given any lines and closed, does not raise, and then
  -- its files hold what they were given: the summary and the progress log all lines of their category,
  -- and of the events, cut into full batches and a shorter rest, the last `max_files` of those that were
  -- written are the contents of their event logs. Its buffers are empty.
  pub life-Logged :
      (max_lines max_files : ℕ) (lines : List String) (l : WorkerLogger)
      → 0 < max_lines
      → 0 < max_files
      → let out = (init max_lines max_files >> push_each is_event lines >> close) l in
        (out.0 ≡ done tt) × Logged lines out.1
  life-Logged max_lines max_files lines l a h =
      let (made, fresh, some_file) = init-Pushed is_event max_lines max_files l a h in
      let l1 = (init max_lines max_files l).1 in
      let (ok, r, some_file') = push_each-Pushed is_event [] lines l1 some_file fresh in
      let l2 = (push_each is_event lines l1).1 in
      let pushed : (init max_lines max_files >> push_each is_event lines) l ≡ (done tt, l2) =
        >>-done (init max_lines max_files) (push_each is_event lines) (λ i. (made i, l1))
        ∙ (λ i. (ok i, l2)) in
      let ended =
        >>-done (λ l. (init max_lines max_files >> push_each is_event lines) l) close pushed
        ∙ close-run l2 some_file' (r.still_open.1) in
      subst (λ out. (out.0 ≡ done tt) × Logged lines out.1) (sym ended)
        (refl, end-Logged lines l2.event_buffer l2 refl some_file' r)
