-- ===== src/Paging/Readable.antt =====
-- Which addresses processes may read: the tables of kernel/source/memory/memory.c by the processor's
-- formats of their entries, not by the shifts of `CheckMemoryBlock`.
use star_struck.Base.{
  ℕ, ◌+◌, ◌*◌, ◌/◌, ◌%◌, ◌^◌, ◌<◌, ◌≡◌, refl, ◌∙◌, ap, ap₂, leb, ◌==◌, ◌&&◌, ◌||◌, Bool, true,
  false, Bool-cases, inl, inr, if◌then◌else◌, none, some, sub_u32, ltb, eq_int, arith,
}
use star_struck.Threads.Syscalls.{success}
use star_struck.Paging.State.{
  Mmu, entry_address, course_entry, page_type, shl_u32, course_page_entry_value, course_page,
  course_section, section_page,
}
use star_struck.Paging.Check.{block_of, has_domain_access, is_permitted}
use star_struck.Paging.Block.{is_accessible, check-verdict, verdict}

-- The `n` bits of a word from bit `low` on.
abbrev bits : ℕ → ℕ → ℕ → ℕ
bits low n w = w / 2 ^ low % 2 ^ n

-- The entry of the first table for an address, and the entry of the second, to which the first leads.
abbrev first_entry : Mmu → ℕ → ℕ
first_entry s a = s.words ((s.table + 4 * (a / 2 ^ 20)) % 2 ^ 32)

abbrev second_entry : Mmu → ℕ → ℕ
second_entry s a = s.words ((4 * bits 12 8 a + first_entry s a / 2 ^ 10 * 2 ^ 10) % 2 ^ 32)

-- The access permissions that let user mode read are 2, for reading, and 3, for writing too.
abbrev lets_users_read : ℕ → Bool
lets_users_read access = leb 2 access

-- The domain of the entry is that of a client in the process's word.
abbrev is_client : Mmu → ℕ → ℕ → Bool
is_client s entry pid = s.domain_access_control pid / 2 ^ (bits 5 4 entry * 2) % 4 == 1

-- A section has the bits 1 and 4 set of 0, 1 and 4, and its permissions in the bits 10 and 11.
abbrev section_lets_read : ℕ → Bool
section_lets_read entry =
    ((bits 4 1 entry == 1) && (bits 0 2 entry == 2)) && lets_users_read (bits 10 2 entry)

-- A table has the bits 0 and 4 set; a page in it has bit 1 set of 0 and 1, and its permissions in the bits
-- 4 and 5.
abbrev page_lets_read : ℕ → ℕ → Bool
page_lets_read entry page =
    ((bits 4 1 entry == 1) && (bits 0 2 entry == 1))
    && (bits 0 2 page == 2)
    && lets_users_read (bits 4 2 page)

-- User mode may read the address, in the domains of both processes.
unfoldable pub may_read : Mmu → ℕ → ℕ → ℕ → Bool
may_read s pid domain_pid a =
    let entry = first_entry s a in
    (is_client s entry pid && is_client s entry domain_pid)
    && (section_lets_read entry || page_lets_read entry (second_entry s a))

has_domain_access-is_client :
    (s : Mmu) (entry pid domain_pid : ℕ)
    → has_domain_access s entry pid domain_pid
      ≡ (is_client s entry pid && is_client s entry domain_pid)
unfolding has_domain_access
has_domain_access-is_client s entry pid domain_pid =
    let e : shl_u32 entry 0x17 / 2 ^ 0x1C * 2 ≡ bits 5 4 entry * 2 = omega arith in rw e refl

-- The test of `CheckMemoryBlock` on the highest two bits.
permitted_value :
    (type access : ℕ)
    → access < 4
    → (((type == 4) && (access == 3)) || ltb (sub_u32 access 2) 2) ≡ lets_users_read access
permitted_value type access small = ground arith

is_permitted-section :
    (type entry : ℕ) → is_permitted type (shl_u32 entry 0x14) ≡ lets_users_read (bits 10 2 entry)
unfolding is_permitted
is_permitted-section type entry =
    let e : shl_u32 entry 0x14 / 2 ^ 0x1E ≡ bits 10 2 entry = omega arith in
    ap (λ (v : ℕ). ((type == 4) && (v == 3)) || ltb (sub_u32 v 2) 2) e
    ∙ permitted_value type (bits 10 2 entry) (omega arith)

is_permitted-page :
    (type page : ℕ) → is_permitted type (shl_u32 page 0x1A) ≡ lets_users_read (bits 4 2 page)
unfolding is_permitted
is_permitted-page type page =
    let e : shl_u32 page 0x1A / 2 ^ 0x1E ≡ bits 4 2 page = omega arith in
    ap (λ (v : ℕ). ((type == 4) && (v == 3)) || ltb (sub_u32 v 2) 2) e
    ∙ permitted_value type (bits 4 2 page) (omega arith)

verdict_code :
    (s : Mmu) (entry size value type pid domain_pid : ℕ)
    → eq_int (verdict s entry (some (size, value)) type pid domain_pid).0 success
      ≡ (has_domain_access s entry pid domain_pid && is_permitted type value)
verdict_code s entry size value type pid domain_pid =
    elim (Bool-cases (has_domain_access s entry pid domain_pid && is_permitted type value)) [
      | inl e ↦ rw e refl
      | inr e ↦ rw e refl
    ]

exclusive :
    (t k m : ℕ) (u v : Bool)
    → k < 4
    → (if t * 16 + k == course_page
        then (m == course_section) && u
        else (t * 16 + k == section_page) && v)
      ≡ ((((t == 1) && (k == 2)) && v) || (((t == 1) && (k == 1)) && (m == 2) && u))
exclusive t k m true true small = ground (arith, small)
exclusive t k m true false small = ground (arith, small)
exclusive t k m false true small = ground (arith, small)
exclusive t k m false false small = ground (arith, small)

and_false : (b : Bool) → false ≡ (b && false)
and_false true = refl
and_false false = refl

module _ (s : Mmu) (entry page type pid domain_pid : ℕ) where
  clients : Bool
  clients = is_client s entry pid && is_client s entry domain_pid

  -- The verdict, where the kinds of the entries are known.
  verdict_kinds :
      (table mapped section : Bool)
      → eq_int
          (verdict s entry
            (if table
              then (if mapped then some (0x1000, shl_u32 page 0x1A) else none)
              else if section
              then some (0x100000, shl_u32 entry 0x14)
              else none)
            type
            pid
            domain_pid).0
          success
        ≡ (clients
            && (if table
                then mapped && lets_users_read (bits 4 2 page)
                else section && lets_users_read (bits 10 2 entry)))
  unfolding clients
  verdict_kinds true true section =
      verdict_code s entry 0x1000 (shl_u32 page 0x1A) type pid domain_pid
      ∙ ap₂ ◌&&◌ (has_domain_access-is_client s entry pid domain_pid) (is_permitted-page type page)
  verdict_kinds true false section = and_false clients
  verdict_kinds false mapped true =
      verdict_code s entry 0x100000 (shl_u32 entry 0x14) type pid domain_pid
      ∙ ap₂ ◌&&◌ (has_domain_access-is_client s entry pid domain_pid)
          (is_permitted-section type entry)
  verdict_kinds false mapped false = and_false clients

  -- No entry is both a table and a section.
  entry_kinds :
      (if page_type entry == course_page
        then (page % 4 == course_section) && lets_users_read (bits 4 2 page)
        else (page_type entry == section_page) && lets_users_read (bits 10 2 entry))
      ≡ (section_lets_read entry || page_lets_read entry page)
  entry_kinds =
      let low : entry % 4 ≡ bits 0 2 entry = omega arith in
      let mapped : page % 4 ≡ bits 0 2 page = omega arith in
      ap₂
        (λ (k m : ℕ).
          if bits 4 1 entry * 16 + k == course_page
          then (m == course_section) && lets_users_read (bits 4 2 page)
          else (bits 4 1 entry * 16 + k == section_page) && lets_users_read (bits 10 2 entry))
        low mapped
      ∙ exclusive (bits 4 1 entry) (bits 0 2 entry) (bits 0 2 page)
          (lets_users_read (bits 4 2 page)) (lets_users_read (bits 10 2 entry)) (omega arith)

  verdict-bits :
      eq_int (verdict s entry (block_of entry page) type pid domain_pid).0 success
      ≡ (clients && (section_lets_read entry || page_lets_read entry page))
  unfolding block_of
  verdict-bits =
      verdict_kinds (page_type entry == course_page) (page % 4 == course_section)
        (page_type entry == section_page)
      ∙ ap (λ (b : Bool). clients && b) entry_kinds

-- The verdict of `CheckMemoryBlock` on an address is that of the formats.
pub is_accessible-may_read :
    (s : Mmu) (type pid domain_pid a : ℕ)
    → is_accessible s type pid domain_pid a ≡ may_read s pid domain_pid a
unfolding may_read clients
is_accessible-may_read s type pid domain_pid a =
    let entry = s.words (entry_address s a) in
    let page = course_entry s entry a in
    let second : course_page_entry_value a ≡ bits 12 8 a = omega arith in
    ap (λ r. eq_int r.0 success) (check-verdict s a type pid domain_pid)
    ∙ verdict-bits s entry page type pid domain_pid
    ∙ ap
        (λ (i : ℕ).
          (is_client s entry pid && is_client s entry domain_pid)
          && (section_lets_read entry
              || page_lets_read entry (s.words ((4 * i + entry / 2 ^ 10 * 2 ^ 10) % 2 ^ 32))))
        second
