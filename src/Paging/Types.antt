-- ===== src/Paging/Types.antt =====
-- The type of access that `CheckMemoryPointer` of kernel/source/memory/memory.c is given.
use star_struck.Base.{
  ℕ, zero, suc, ◌≡◌, refl, sym, ◌∙◌, ap, ◌&&◌, ltb, ◌==◌, if◌then◌else◌, ℤ, Option, none, some, Run,
  ok, eq_int, add_u32, arith,
}
use mathlib.Core.Path.{ap₂, fun_ext}
use star_struck.Threads.Syscalls.{success, ipc_eacces}
use star_struck.Paging.State.{Mmu, entry_address}
use star_struck.Paging.Check.{
  permissions, has_domain_access, is_permitted, check_memory_block, next_block, check_loop,
  check_fuel, check_memory_pointer,
}
use star_struck.Paging.Block.{verdict, check-verdict}

is_permitted-type : (type1 type2 value : ℕ) → is_permitted type1 value ≡ is_permitted type2 value
unfolding is_permitted
is_permitted-type type1 type2 value = ground arith

verdict-type :
    (s : Mmu) (entry type1 type2 pid domain_pid : ℕ) (block : Option (ℕ × ℕ))
    → verdict s entry block type1 pid domain_pid ≡ verdict s entry block type2 pid domain_pid
verdict-type s entry type1 type2 pid domain_pid none = refl
verdict-type s entry type1 type2 pid domain_pid (some (size, value)) =
    ap
      (λ p.
        if has_domain_access s entry pid domain_pid && p
        then (success, size)
        else (ipc_eacces, size))
      (is_permitted-type type1 type2 value)

check_memory_block-type :
    (s : Mmu) (a type1 type2 pid domain_pid : ℕ)
    → check_memory_block s a type1 pid domain_pid ≡ check_memory_block s a type2 pid domain_pid
check_memory_block-type s a type1 type2 pid domain_pid =
    let entry = s.words (entry_address s a) in
    check-verdict s a type1 pid domain_pid
    ∙ verdict-type s entry type1 type2 pid domain_pid (permissions s a)
    ∙ sym (check-verdict s a type2 pid domain_pid)

check_loop-type :
    (fuel : ℕ) (s : Mmu) (type1 type2 pid domain_pid start end : ℕ)
    → check_loop fuel s type1 pid domain_pid start end
      ≡ check_loop fuel s type2 pid domain_pid start end
unfolding check_loop
check_loop-type zero s type1 type2 pid domain_pid start end = refl
check_loop-type (suc fuel) s type1 type2 pid domain_pid start end =
    let block = check_memory_block-type s start type1 type2 pid domain_pid in
    let next = λ (b : ℤ × ℕ). next_block start b.1 in
    ap₂
      (λ (b : ℤ × ℕ) (rest : ℤ × ℕ → Run ℤ).
        if ltb start end then (if eq_int b.0 success then rest b else ok b.0) else ok success)
      block (fun_ext (λ b. check_loop-type fuel s type1 type2 pid domain_pid (next b) end))

-- `CheckMemoryPointer` gives the same result for a read and a write, and for every other type of access.
pub check_memory_pointer-type :
    (s : Mmu) (ptr size type1 type2 pid domain_pid : ℕ)
    → check_memory_pointer s ptr size type1 pid domain_pid
      ≡ check_memory_pointer s ptr size type2 pid domain_pid
unfolding check_memory_pointer
check_memory_pointer-type s ptr size type1 type2 pid domain_pid =
    ap (λ r. if pid == 0 then ok success else r)
      (check_loop-type check_fuel s type1 type2 pid domain_pid ptr (add_u32 ptr size))
