-- ===== src/Paging/Block.antt =====
-- The check of one block of memory, in kernel/source/memory/memory.c.
use star_struck.Base.{
  ℕ, ◌+◌, ◌*◌, ◌/◌, ◌%◌, ◌<◌, ◌≤◌, ◌≡◌, refl, sym, ◌∙◌, ap, Bool, Bool-cases, ◌==◌, ◌&&◌,
  if◌then◌else◌, ◌⊎◌, inl, inr, ℤ, Option, none, some, add_u32, eq_int, arith,
}
use mathlib.Core.Path.{subst, ap₂}
use mathlib.Core.Option.{some-injective}
use star_struck.Threads.Syscalls.{success, ipc_eacces}
use star_struck.Paging.State.{
  Mmu, entry_address, page_type, section_page, course_page, course_section, course_entry,
  page_entry, course_page_entry_value, without_low, shl_u32,
}
use star_struck.Paging.Check.{
  block_of, permissions, has_domain_access, is_permitted, check_memory_block,
}

-- Whether one address may be accessed.
abbrev pub is_accessible : Mmu → ℕ → ℕ → ℕ → ℕ → Bool
is_accessible s type pid domain_pid a =
    eq_int (check_memory_block s a type pid domain_pid).0 success

-- A block is a page, or a section, for which the second level entry does not matter.
pub block_of-size :
    (entry page size value : ℕ)
    → block_of entry page ≡ some (size, value)
    → (size ≡ 0x1000) ⊎ ((size ≡ 0x100000) × ((p : ℕ) → block_of entry p ≡ some (size, value)))
unfolding block_of
block_of-size entry page size value e = elim (Bool-cases (page_type entry == course_page)) [
  | inl course ↦ elim (Bool-cases (page % 4 == course_section)) [
    | inl mapped ↦
        let same : some (0x1000, shl_u32 page 0x1A) ≡ some (size, value) =
          rw (course, mapped) at e in
        inl (sym (ap (λ r. r.0) (some-injective (0x1000, shl_u32 page 0x1A) (size, value) same)))
    | inr missing ↦
        let same : ◌≡◌ {A = Option (ℕ × ℕ)} none (some (size, value)) = rw (course, missing) at e in
        cc
  ]
  | inr other ↦ elim (Bool-cases (page_type entry == section_page)) [
    | inl section ↦
        let same : some (0x100000, shl_u32 entry 0x14) ≡ some (size, value) =
          rw (other, section) at e in
        inr (
          sym (ap (λ r. r.0) (some-injective (0x100000, shl_u32 entry 0x14) (size, value) same)),
          λ p. rw (other, section) same,
        )
    | inr missing ↦
        let same : ◌≡◌ {A = Option (ℕ × ℕ)} none (some (size, value)) = rw (other, missing) at e in
        cc
  ]
]

-- The check, from what the entries give, and from the numbers of the entries.
abbrev pub verdict : Mmu → ℕ → Option (ℕ × ℕ) → ℕ → ℕ → ℕ → ℤ × ℕ
verdict s entry block type pid domain_pid = elim block [
  | none ↦ (ipc_eacces, 0)
  | some (size, value) ↦
      if has_domain_access s entry pid domain_pid && is_permitted type value
      then (success, size)
      else (ipc_eacces, size)
]

abbrev checked_at : Mmu → ℕ → ℕ → ℕ → ℕ → ℕ → ℤ × ℕ
checked_at s first second type pid domain_pid =
    let entry = s.words (add_u32 s.table (4 * first)) in
    let page = s.words (add_u32 (4 * second) (without_low 10 entry)) in
    verdict s entry (block_of entry page) type pid domain_pid

-- All addresses of a block are checked like its first.
pub check_memory_block-same :
    (s : Mmu) (a b size value type pid domain_pid : ℕ)
    → permissions s a ≡ some (size, value)
    → a ≤ b
    → b < (a + size) / size * size
    → check_memory_block s b type pid domain_pid ≡ check_memory_block s a type pid domain_pid
unfolding check_memory_block
check_memory_block-same s a b size value type pid domain_pid e le lt =
    let entry = s.words (entry_address s a) in
    elim (block_of-size entry (course_entry s entry a) size value e) [
      | inl small ↦
          let near : b < (a + 0x1000) / 0x1000 * 0x1000 =
            subst (λ z. b < (a + z) / z * z) small lt in
          let first : page_entry b ≡ page_entry a = omega (arith, le, near) in
          let second : course_page_entry_value b ≡ course_page_entry_value a =
            omega (arith, le, near) in
          ap₂ (λ p c. checked_at s p c type pid domain_pid) first second
      | inr (big, all) ↦
          let near : b < (a + 0x100000) / 0x100000 * 0x100000 =
            subst (λ z. b < (a + z) / z * z) big lt in
          let first : page_entry b ≡ page_entry a = omega (arith, le, near) in
          let other = all (course_entry s entry b) in
          ap (λ p. checked_at s p (course_page_entry_value b) type pid domain_pid) first
          ∙ ap (λ o. verdict s entry o type pid domain_pid) (other ∙ sym e)
    ]

pub check-verdict :
    (s : Mmu) (a type pid domain_pid : ℕ)
    → check_memory_block s a type pid domain_pid
      ≡ verdict s (s.words (entry_address s a)) (permissions s a) type pid domain_pid
unfolding check_memory_block
check-verdict s a type pid domain_pid = refl

pub is_block_size :
    {A : Type 0} (size : ℕ)
    → (size ≡ 0x1000) ⊎ ((size ≡ 0x100000) × A)
    → (size ≡ 0x1000) ⊎ (size ≡ 0x100000)
is_block_size size (inl e) = inl e
is_block_size size (inr e) = inr e.0

pub verdict-cases :
    (s : Mmu) (entry : ℕ) (block : Option (ℕ × ℕ)) (type pid domain_pid : ℕ)
    → ((size : ℕ) × (value : ℕ) × (block ≡ some (size, value))
        × (verdict s entry block type pid domain_pid ≡ (success, size)))
      ⊎ ((size : ℕ) × (verdict s entry block type pid domain_pid ≡ (ipc_eacces, size)))
verdict-cases s entry none type pid domain_pid = inr (0, refl)
verdict-cases s entry (some (size, value)) type pid domain_pid =
    elim (Bool-cases (has_domain_access s entry pid domain_pid && is_permitted type value)) [
      | inl e ↦ inl (size, value, refl, rw e refl)
      | inr e ↦ inr (size, rw e refl)
    ]
