-- ===== src/Persist/Runner/Slots.antt =====
-- The indices that the rotation goes through: 1, 2, …, max_files, 1, ….
use taskweave.Base.{ℕ, zero, suc, ◌+◌, ◌-◌, ◌≤◌, ◌<◌, if◌then◌else◌, leb, ◌≡◌, ◌≢◌, arith}
use taskweave.Persist.Runner.{next_index}

-- The index of the k-th file that is written, from 0.
unfoldable pub slot : ℕ → ℕ → ℕ
slot max_files zero = 1
slot max_files (suc k) = next_index max_files (slot max_files k)

module _ (max_files : ℕ) (some_file : 0 < max_files) where
  pub slot_bounds : (k : ℕ) → (1 ≤ slot max_files k) × (slot max_files k ≤ max_files)
  unfolding slot next_index
  slot_bounds zero = omega arith
  slot_bounds (suc k) = ground (arith, slot_bounds k)

  slot_shift :
      (k d : ℕ)
      → d < max_files
      → slot max_files (d + k) ≡ (
          if leb (slot max_files k + d) max_files
          then slot max_files k + d
          else slot max_files k + d - max_files)
  unfolding slot next_index
  slot_shift k zero h = ground (arith, slot_bounds k)
  slot_shift k (suc d) h =
      let shifted : suc d + k ≡ suc (d + k) = omega arith in
      rw shifted (ground (arith, slot_shift k d (omega arith), slot_bounds k))

  -- Files that are fewer than `max_files` apart have different names.
  pub slot_ne : (k d : ℕ) → 0 < d → d < max_files → slot max_files (d + k) ≢ slot max_files k
  slot_ne k d positive h = ground (arith, slot_shift k d h, slot_bounds k)
