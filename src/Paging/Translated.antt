-- ===== src/Paging/Translated.antt =====
-- The translation of what `MapMemory` of kernel/source/memory/memory.c has mapped as sections.
use star_struck.Base.{
  ℕ, ◌+◌, ◌-◌, ◌*◌, ◌^◌, ◌<◌, ◌≤◌, ◌≡◌, refl, ◌∙◌, ap, [], ◌∷◌, ok, ◌>>=◌, some, arith,
}
use star_struck.Threads.Syscalls.{success}
use star_struck.Paging.State.{MemorySection, Mmu, flush_memory, invalidate_tlb}
use star_struck.Paging.Map.{operate_all, map_loop, map_fuel, map_memory}
use star_struck.Paging.Check.{translated, unmirrored, virtual_to_physical}
use star_struck.Paging.Sections.{IsSections, map_loop-Mapped}

map_fuel-rounds : map_fuel ≡ 2 ^ 20 + 1
unfolding map_fuel
map_fuel-rounds = refl

-- The end of `MapMemory`, behind its loop.
finish : Mmu → Mmu
finish = operate_all (flush_memory ∷ invalidate_tlb ∷ [])

map_memory-loop :
    (m : MemorySection) (s g : Mmu)
    → map_loop map_fuel m s ≡ ok (success, g)
    → map_memory (some m) s ≡ ok (success, finish g)
unfolding map_memory finish
map_memory-loop m s g e =
    ap (λ r. r >>= (λ x. ok (x.0, operate_all (flush_memory ∷ invalidate_tlb ∷ []) x.1))) e

virtual_to_physical-finish :
    (g : Mmu) (v : ℕ) → virtual_to_physical (finish g) v ≡ unmirrored (translated g v)
unfolding finish virtual_to_physical translated
virtual_to_physical-finish g v = refl

-- `MapMemory` of `n` aligned megabytes ends and returns 0, and every address of the section is then
-- translated to the address that is as far behind the section's physical address, with the mirror of
-- the SRAM taken out.
pub map_memory-translated :
    (m : MemorySection) (s : Mmu) (p q n v : ℕ)
    → IsSections m p q n
    → s.table + 2 ^ 14 ≤ 2 ^ 32
    → p * 2 ^ 20 ≤ v
    → v < (p + n) * 2 ^ 20
    → (g : Mmu) × (map_memory (some m) s ≡ ok (success, g))
      × (virtual_to_physical g v ≡ unmirrored (q * 2 ^ 20 + (v - p * 2 ^ 20)))
map_memory-translated m s p q n v h space low high =
    let (g, runs, mapped) =
      map_loop-Mapped n map_fuel m s p q (omega (arith, map_fuel-rounds, h.few)) h space in
    (
      finish g,
      map_memory-loop m s g runs,
      virtual_to_physical-finish g v ∙ ap unmirrored (mapped.maps v low high),
    )
