-- ===== src/Paging/Checked.antt =====
-- `CheckMemoryPointer` of kernel/source/memory/memory.c against a check of each address.
use star_struck.Base.{ℕ, ◌<◌, ◌≤◌, ◌≡◌, true, false, ℤ}
use star_struck.Threads.Syscalls.{success, ipc_eacces}
use star_struck.Paging.State.{Mmu}
use star_struck.Paging.Readable.{may_read}

-- A code for the addresses from `start` to `end`: by the formats of the entries, user mode may read all of
-- them in the domains of both processes, or one of them it may not.
pub data Answers (s : Mmu) (pid domain_pid start end : ℕ) : ℤ → Type 0 where
  granted :
      {code : ℤ}
      → code ≡ success
      → ((a : ℕ) → start ≤ a → a < end → may_read s pid domain_pid a ≡ true)
      → Answers s pid domain_pid start end code
  refused :
      {code : ℤ}
      → code ≡ ipc_eacces
      → (a : ℕ) → start ≤ a
      → a < end
      → may_read s pid domain_pid a ≡ false
      → Answers s pid domain_pid start end code
