-- ===== src/Persist/Runner/Healthy.antt =====
-- Single operations of the consumer, as long as the disk works.
use native.Mathlib.Nat.{add-zero}
use mathlib.Core.List.{append_assoc}
use taskweave.Base.{
  put_file, put_file-put_file, put_file_at, put_file_refilled, put_file-append-nil, ℕ, suc, ◌+◌,
  String, Bool, true, if◌then◌else◌, leb, some, List, [], ◌∷◌, ◌++◌, length, for_each, done,
  >>-done, Bool-cases, inl, inr, ◌≡◌, refl, sym, ◌∙◌, arith,
}
use taskweave.Persist.Runner.{
  Runner, next_index, disk_call, create_handle, handle_write, write_buffer, rotate, append,
}

module _ (disk : ℕ → Bool) (healthy : (n : ℕ) → disk n ≡ true) where
  handle_write_healthy :
      (line : String) (i : ℕ) (r : Runner)
      → r.handle ≡ some i
      → handle_write disk line r ≡ (
        done tt,
        record r {
          files = put_file r.files i (r.files i ++ line ∷ []);
          disk_calls = r.disk_calls + 1;
        },
      )
  unfolding handle_write
  handle_write_healthy line i r e = ground (arith, healthy r.disk_calls)

  for_each-handle_write :
      (ls : List String) (i : ℕ) (r : Runner)
      → r.handle ≡ some i
      → for_each ls (handle_write disk) r ≡ (
        done tt,
        record r {
          files = put_file r.files i (r.files i ++ ls);
          disk_calls = r.disk_calls + length ls;
        },
      )
  unfolding handle_write
  for_each-handle_write [] i r e = λ k. (
    done tt,
    record r {
      files = sym (put_file-append-nil r.files i) k;
      disk_calls = sym (add-zero r.disk_calls) k;
    },
  )
  for_each-handle_write (l ∷ ls) i r e =
      let r' = record r {
        files = put_file r.files i (r.files i ++ l ∷ []);
        disk_calls = r.disk_calls + 1;
      } in
      let wrote : for_each (l ∷ ls) (handle_write disk) r ≡ for_each ls (handle_write disk) r' =
        rw (handle_write_healthy l i r e) in
      let more = for_each-handle_write ls i r' e in
      let counted : r.disk_calls + 1 + length ls ≡ r.disk_calls + suc (length ls) = omega arith in
      wrote ∙ (simp (put_file-put_file, put_file_at, append_assoc, counted) at more)

  disk_call_healthy :
      (r : Runner) → disk_call disk r ≡ (done tt, record r { disk_calls = r.disk_calls + 1 })
  unfolding disk_call
  disk_call_healthy r = ground (arith, healthy r.disk_calls)

  create_handle_healthy :
      (r : Runner)
      → create_handle disk r ≡ (
        done tt,
        record r {
          handle = some r.file_index;
          files = put_file r.files r.file_index [];
          disk_calls = r.disk_calls + 1;
        },
      )
  unfolding create_handle
  create_handle_healthy r = ground (arith, healthy r.disk_calls)

  -- A rotation writes the buffer to the file of the present index, which is emptied first.
  pub rotate_healthy :
      (r : Runner)
      → rotate disk r ≡ (
        done tt,
        record r {
          handle = some r.file_index;
          files = put_file r.files r.file_index r.buffer;
          disk_calls = r.disk_calls + 3 + length r.buffer;
          buffer = [];
          file_index = next_index r.max_files r.file_index;
        },
      )
  unfolding rotate
  rotate_healthy r =
      >>-done (disk_call disk) _ (disk_call_healthy _)
      ∙ (>>-done (create_handle disk) _ (create_handle_healthy _)
          ∙ (>>-done (write_buffer disk) _ (for_each-handle_write r.buffer r.file_index _ refl)
              ∙ (>>-done (disk_call disk) _ (disk_call_healthy _) ∙ λ k. (
                done tt,
                record r {
                  handle = some r.file_index;
                  files = put_file_refilled r.files r.file_index r.buffer k;
                  disk_calls = counted k;
                  buffer = [];
                  file_index = next_index r.max_files r.file_index;
                },
              ))))
    where
      counted : r.disk_calls + 1 + 1 + length r.buffer + 1 ≡ r.disk_calls + 3 + length r.buffer
      counted = omega arith

  -- One appended line: it waits in the buffer, or completes it and is written with it.
  pub append_healthy :
      (line : String) (r : Runner)
      → append disk line r ≡ (
        done tt,
        if leb r.max_lines (length (r.buffer ++ line ∷ []))
            then record r {
              handle = some r.file_index;
              files = put_file r.files r.file_index (r.buffer ++ line ∷ []);
              disk_calls = r.disk_calls + 3 + length (r.buffer ++ line ∷ []);
              buffer = [];
              file_index = next_index r.max_files r.file_index;
            }
            else record r { buffer = r.buffer ++ line ∷ [] },
      )
  unfolding append
  append_healthy line r = elim (Bool-cases (leb r.max_lines (length (r.buffer ++ line ∷ [])))) [
    | inl full ↦ rw full (rotate_healthy (record r { buffer = r.buffer ++ line ∷ [] }))
    | inr short ↦ rw short
  ]
