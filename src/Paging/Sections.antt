-- ===== src/Paging/Sections.antt =====
-- `MapMemory` of kernel/source/memory/memory.c on sections of a megabyte, and the translation of the
-- addresses that it maps.
use star_struck.Base.{
  ℕ, zero, suc, ◌+◌, ◌-◌, ◌*◌, ◌%◌, ◌^◌, ◌<◌, ◌≤◌, ◌≡◌, refl, sym, ◌∙◌, ap, true, false, Bool-cases,
  ltb, ltb→lt, ◌==◌, inl, inr, List, [], ◌∷◌, ok, add_u32, update, arith,
}
use mathlib.Core.Path.{subst}
use star_struck.Threads.Syscalls.{success}
use star_struck.Paging.State.{
  MemorySection, Operation, Mmu, operate, set_word, entry_address, page_type, section_page,
  without_low,
}
use star_struck.Paging.Cache.{dc_flush_range}
use star_struck.Paging.Map.{
  operate_all, section_entry, map_memory_as_section, advance, is_for_section, map_loop,
}
use star_struck.Paging.Check.{translated}
use star_struck.Paging.Entry.{section_entry-fields}

operate_all-words :
    (os : List Operation) (s : Mmu)
    → ((operate_all os s).words ≡ s.words) × ((operate_all os s).table ≡ s.table)
operate_all-words [] s = (refl, refl)
operate_all-words (o ∷ os) s = operate_all-words os (operate o s)

map_memory_as_section-words :
    (m : MemorySection) (s : Mmu)
    → ((map_memory_as_section m s).1.words
        ≡ update s.words (entry_address s m.virtual_address) (section_entry m))
      × ((map_memory_as_section m s).1.table ≡ s.table)
unfolding map_memory_as_section
map_memory_as_section-words m s =
    let page = entry_address s m.virtual_address in
    operate_all-words (dc_flush_range page 4) (set_word page (section_entry m) s)

-- An address whose entry is that of a section.
translated-section :
    (g : Mmu) (v q : ℕ) (m : MemorySection)
    → g.words (entry_address g v) ≡ section_entry m
    → m.physical_address ≡ q * 2 ^ 20
    → q < 2 ^ 12
    → m.domain < 16
    → translated g v ≡ v % 2 ^ 20 + q * 2 ^ 20
unfolding translated
translated-section g v q m at physical small domain =
    let (type, address) = section_entry-fields m q physical small domain in
    let is_section : (page_type (g.words (entry_address g v)) == section_page) ≡ true =
      rw (at, type) refl in
    let high : without_low 20 (g.words (entry_address g v)) ≡ q * 2 ^ 20 =
      ap (without_low 20) at ∙ address ∙ physical in
    rw (is_section, high) refl

-- `n` sections of a megabyte, from section `p` of the addresses on to section `q` of the memory.
pub record IsSections (m : MemorySection) (p q n : ℕ) : Type 0 where
  pub from : m.virtual_address ≡ p * 2 ^ 20 % 2 ^ 32
  pub to : m.physical_address ≡ q * 2 ^ 20 % 2 ^ 32
  pub many : m.size ≡ n * 2 ^ 20
  pub addresses : p + n ≤ 2 ^ 12
  pub room : q + n ≤ 2 ^ 12
  pub few : n < 2 ^ 12
  pub domains : m.domain < 16

advance-IsSections :
    (m : MemorySection) (p q n : ℕ)
    → IsSections m p q (suc n)
    → IsSections (advance 0x100000 m) (p + 1) (q + 1) n
advance-IsSections m p q n h = record {
  from = omega (arith, h.from, h.addresses);
  to = omega (arith, h.to, h.room);
  many = omega (arith, h.many, h.few);
  addresses = omega (arith, h.addresses);
  room = omega (arith, h.room);
  few = omega (arith, h.few);
  domains = h.domains;
}

-- A section at the front is mapped as one.
map_loop-section :
    (fuel : ℕ) (m : MemorySection) (s : Mmu) (p q n : ℕ)
    → IsSections m p q (suc n)
    → map_loop (suc fuel) m s ≡ map_loop fuel (advance 0x100000 m) (map_memory_as_section m s).1
unfolding map_loop map_memory_as_section
map_loop-section fuel m s p q n h =
    let some : (m.size == 0) ≡ false = ground arith in
    let section : is_for_section m ≡ true = ground arith in rw (some, section) refl

-- What is mapped: section `p` and the `n - 1` behind it go to section `q` and those behind it, and the
-- entries before stay.
pub record Mapped (s g : Mmu) (p q n : ℕ) : Type 0 where
  pub same : g.table ≡ s.table
  pub keeps :
      (i : ℕ) → i < p → g.words (add_u32 s.table (4 * i)) ≡ s.words (add_u32 s.table (4 * i))
  pub maps :
      (v : ℕ)
      → p * 2 ^ 20 ≤ v
      → v < (p + n) * 2 ^ 20
      → translated g v ≡ q * 2 ^ 20 + (v - p * 2 ^ 20)

update_same : (f : ℕ → ℕ) (a w : ℕ) → update f a w a ≡ w
update_same f a w = ground arith

update_other : (f : ℕ → ℕ) (a b w : ℕ) → a < b → update f b w a ≡ f a
update_other f a b w lt = ground arith

Mapped-cons :
    (m : MemorySection) (s g : Mmu) (p q n : ℕ)
    → IsSections m p q (suc n)
    → s.table + 2 ^ 14 ≤ 2 ^ 32
    → Mapped (map_memory_as_section m s).1 g (p + 1) (q + 1) n
    → Mapped s g p q (suc n)
Mapped-cons m s g p q n h space rest =
    let (words, table) = map_memory_as_section-words m s in
    let s1 = (map_memory_as_section m s).1 in
    let here : entry_address s m.virtual_address ≡ s.table + 4 * p =
      omega (arith, h.from, h.addresses, space) in
    let entry = section_entry m in
    let kept = λ (i : ℕ) (lt : i < p + 1).
      ap (λ t. g.words (add_u32 t (4 * i))) (sym table)
      ∙ rest.keeps i lt
      ∙ ap (λ t. s1.words (add_u32 t (4 * i))) table
      ∙ ap (λ f. f (add_u32 s.table (4 * i))) words
      ∙ ap (λ a. update s.words a entry (add_u32 s.table (4 * i))) here in
    let first : g.words (s.table + 4 * p) ≡ entry =
      subst (λ a. g.words a ≡ update s.words (s.table + 4 * p) entry a)
        (omega (arith, space, h.addresses)) (kept p (omega arith))
      ∙ update_same s.words (s.table + 4 * p) entry in
    record {
      same = rest.same ∙ table;
      keeps = λ i lt.
          kept i (omega (arith, lt))
          ∙ update_other s.words (add_u32 s.table (4 * i)) (s.table + 4 * p) entry
              (omega (arith, lt, space, h.addresses));
      maps = λ v low high. elim (Bool-cases (ltb v ((p + 1) * 2 ^ 20))) [
        | inl before ↦
            let at : entry_address g v ≡ s.table + 4 * p = omega (
              arith,
              rest.same,
              table,
              low,
              ltb→lt v ((p + 1) * 2 ^ 20) before,
              space,
              h.addresses,
            ) in
            translated-section g v q m (ap g.words at ∙ first) (omega (arith, h.to, h.room))
              (omega (arith, h.room)) h.domains
            ∙ omega (arith, low, ltb→lt v ((p + 1) * 2 ^ 20) before)
        | inr behind ↦
            let above : (p + 1) * 2 ^ 20 ≤ v = ground arith in
            rest.maps v above (omega (arith, high)) ∙ omega (arith, above)
      ];
    }

pub map_loop-Mapped :
    (n fuel : ℕ) (m : MemorySection) (s : Mmu) (p q : ℕ)
    → n < fuel
    → IsSections m p q n
    → s.table + 2 ^ 14 ≤ 2 ^ 32
    → (g : Mmu) × (map_loop fuel m s ≡ ok (success, g)) × Mapped s g p q n
unfolding map_loop
map_loop-Mapped n zero m s p q lt h space = absurd (omega (arith, lt))
map_loop-Mapped zero (suc fuel) m s p q lt h space =
    let done : (m.size == 0) ≡ true = ground arith in
    (
      s,
      rw done refl,
      record {
        same = refl;
        keeps = λ i small. refl;
        maps = λ v low high. absurd (omega (arith, low, high));
      },
    )
map_loop-Mapped (suc n) (suc fuel) m s p q lt h space =
    let s1 = (map_memory_as_section m s).1 in
    let table = (map_memory_as_section-words m s).1 in
    let (g, runs, rest) =
      map_loop-Mapped n fuel (advance 0x100000 m) s1 (p + 1) (q + 1) (omega (arith, lt))
        (advance-IsSections m p q n h) (omega (arith, table, space)) in
    (g, map_loop-section fuel m s p q n h ∙ runs, Mapped-cons m s g p q n h space rest)
