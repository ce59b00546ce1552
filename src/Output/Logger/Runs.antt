-- ===== src/Output/Logger/Runs.antt =====
-- What the single operations of a WorkerLogger do.
use native.Mathlib.Nat.{mul-le-mul_left, div-add-mod}
use mathlib.Core.List.{append-nil, append_assoc}
use taskweave.Base.{
  ℕ, ◌+◌, ◌*◌, ◌/◌, ◌%◌, ◌≤◌, ◌<◌, leb, String, true, false, if◌then◌else◌, none, some, List, [],
  ◌∷◌, ◌++◌, put_file, put_file-put_file, put_file_at, put_file_refilled, put_file-append-nil, done,
  Stmt, for_each, >>-done, ◌>>◌, update, ◌≡◌, ◌≢◌, refl, sym, ◌∙◌, Bool-cases, ◌⊎◌, inl, inr, arith,
}
use taskweave.Output.Logger.{
  Category, event, progress, summary, WorkerLogger, open_event_file, write_event, write_progress,
  rotate, push_event, rotate_rest, close,
}

-- The number of the event log that the k-th batch is written to, from 0.
abbrev pub slot : ℕ → ℕ → ℕ
slot max_files k = (k + 1) % max_files

multiple_apart : (m p q r d : ℕ) → 0 < d → d < m → m * p + r ≡ m * q + r + d → ⊥
multiple_apart m p q r d positive less e = elim (order p q) [
  | inl h ↦ omega (arith, mul-le-mul_left m h)
  | inr h ↦ omega (arith, mul-le-mul_left m h)
]
  where
    order : (p q : ℕ) → (p ≤ q) ⊎ (q + 1 ≤ p)
    order p q = ground arith

pub slot_ne : (m : ℕ) (k d : ℕ) → 0 < d → d < m → slot m (d + k) ≢ slot m k
slot_ne m k d positive less same =
    multiple_apart m ((d + k + 1) / m) ((k + 1) / m) (slot m k) d positive less
      (omega (arith, div-add-mod (d + k + 1) m, div-add-mod (k + 1) m, same))

for_each-write_event :
    (ls : List String) (i : ℕ) (l : WorkerLogger)
    → l.event_handle ≡ some i
    → for_each ls write_event l
      ≡ (done tt, record l { events = put_file l.events i (l.events i ++ ls) })
unfolding write_event
for_each-write_event [] i l e =
    λ k. (done tt, record l { events = sym (put_file-append-nil l.events i) k })
for_each-write_event (x ∷ ls) i l e =
    let l' = record l { events = put_file l.events i (l.events i ++ x ∷ []) } in
    let wrote : for_each (x ∷ ls) write_event l ≡ for_each ls write_event l' = rw e refl in
    let more = for_each-write_event ls i l' e in
    wrote ∙ (simp (put_file-put_file, put_file_at, append_assoc) at more)

pub open_event_file-run :
    (l : WorkerLogger)
    → 0 < l.max_files
    → open_event_file l ≡ (
      done tt,
      record l {
        event_handle = some (l.file_index % l.max_files);
        events = put_file l.events (l.file_index % l.max_files) [];
      },
    )
unfolding open_event_file
open_event_file-run l h = ground (arith, h)

-- The logger after a rotation.
abbrev pub rotated : WorkerLogger → WorkerLogger
rotated l =
    let i = slot l.max_files l.file_index in
    record l {
      file_index = l.file_index + 1;
      event_handle = some i;
      events = put_file l.events i l.event_buffer;
      event_buffer = [];
      event_count = 0;
    }

rotate-run : (l : WorkerLogger) → 0 < l.max_files → rotate l ≡ (done tt, rotated l)
unfolding rotate
rotate-run l h =
    let i = slot l.max_files l.file_index in
    let l1 = record l { event_handle = none; file_index = l.file_index + 1 } in
    let l2 = record l1 { event_handle = some i; events = put_file l.events i [] } in
    >>-done open_event_file (write_events >> finish) (open_event_file-run l1 h)
    ∙ >>-done write_events finish {w = l2} (for_each-write_event l.event_buffer i l2 refl)
    ∙ (λ k.
        (done tt, record (rotated l) { events = put_file_refilled l.events i l.event_buffer k }))
  where
    write_events : Stmt WorkerLogger Unit
    write_events l = for_each l.event_buffer write_event l

    finish : Stmt WorkerLogger Unit
    finish = update λ l. record l { event_buffer = []; event_count = 0 }

-- The logger after one more event.
abbrev pub fed : WorkerLogger → String → WorkerLogger
fed l line =
    let l' = record l {
      event_buffer = l.event_buffer ++ line ∷ [];
      event_count = l.event_count + 1;
    } in
    if leb l.max_lines (l.event_count + 1) then rotated l' else l'

pub push_event-run :
    (line : String) (l : WorkerLogger) → 0 < l.max_files → push_event line l ≡ (done tt, fed l line)
unfolding push_event
push_event-run line l h =
    let l' = record l {
      event_buffer = l.event_buffer ++ line ∷ [];
      event_count = l.event_count + 1;
    } in
    elim (Bool-cases (leb l.max_lines (l.event_count + 1))) [
      | inl now ↦ rw now (rotate-run l' h)
      | inr later ↦ rw later refl
    ]

-- The logger after one more line of a category.
abbrev pub after : Category → WorkerLogger → String → WorkerLogger
after event l line = fed l line
after progress l line = record l { progress_buffer = l.progress_buffer ++ line ∷ [] }
after summary l line = record l { summary_file = l.summary_file ++ line ∷ [] }

for_each-write_progress :
    (ls : List String) (l : WorkerLogger)
    → l.progress_open ≡ true
    → for_each ls write_progress l ≡ (done tt, record l { progress_file = l.progress_file ++ ls })
unfolding write_progress
for_each-write_progress [] l e =
    λ k. (done tt, record l { progress_file = sym (append-nil l.progress_file) k })
for_each-write_progress (x ∷ ls) l e =
    let l' = record l { progress_file = l.progress_file ++ x ∷ [] } in
    let wrote : for_each (x ∷ ls) write_progress l ≡ for_each ls write_progress l' = rw e refl in
    let more = for_each-write_progress ls l' e in wrote ∙ (simp append_assoc at more)

-- What `close` does after its rotation.
abbrev pub shut : WorkerLogger → WorkerLogger
shut l = record l {
  progress_file = l.progress_file ++ l.progress_buffer;
  progress_buffer = [];
  summary_open = false;
  progress_open = false;
  event_handle = none;
}

abbrev pub end_rotation : List String → WorkerLogger → WorkerLogger
end_rotation [] l = l
end_rotation (line ∷ lines) l = rotated l

finish : Stmt WorkerLogger Unit
finish = update λ l. record l {
  progress_buffer = [];
  summary_open = false;
  progress_open = false;
  event_handle = none;
}

write_progresses : Stmt WorkerLogger Unit
write_progresses l = for_each l.progress_buffer write_progress l

rotate_rest-run :
    (b : List String) (l : WorkerLogger)
    → 0 < l.max_files
    → rotate_rest b l ≡ (done tt, end_rotation b l)
rotate_rest-run [] l h = refl
rotate_rest-run (line ∷ b) l h = rotate-run l h

end_rotation-open :
    (b : List String) (l : WorkerLogger) → (end_rotation b l).progress_open ≡ l.progress_open
end_rotation-open [] l = refl
end_rotation-open (line ∷ b) l = refl

pub close-run :
    (l : WorkerLogger)
    → 0 < l.max_files
    → l.progress_open ≡ true
    → close l ≡ (done tt, shut (end_rotation l.event_buffer l))
unfolding close finish write_progresses
close-run l h e =
    let l' = end_rotation l.event_buffer l in
    >>-done (λ l. rotate_rest l.event_buffer l) (write_progresses >> finish) {w = l}
      (rotate_rest-run l.event_buffer l h)
    ∙ >>-done write_progresses finish {w = l'}
        (for_each-write_progress l'.progress_buffer l' (end_rotation-open l.event_buffer l ∙ e))
