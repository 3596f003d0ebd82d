-- ===== src/Paging/Entry.antt =====
-- The first level entry of a section in kernel/source/memory/memory.c, by its fields.
use star_struck.Base.{
  ℕ, ◌+◌, ◌*◌, ◌/◌, ◌%◌, ◌^◌, ◌<◌, ◌≡◌, refl, sym, ◌∙◌, ap, Bool-cases, ◌==◌, if◌then◌else◌, inl,
  inr, bit_or, bit_or_insert, arith,
}
use star_struck.Paging.State.{
  MemorySection, section_page, writeback_cache, page_type, without_low, page_domain,
}
use star_struck.Paging.Map.{section_entry}

-- A field of an address above 20 bits, of access rights, of a domain, and the bits of a section.
fields-sum :
    (base q a d : ℕ)
    → base < 2 ^ 5
    → q * 2 ^ 20 < 2 ^ 32
    → a < 4
    → d < 16
    → bit_or (bit_or (bit_or base (q * 2 ^ 20)) (a * 2 ^ 10)) (d * 2 ^ 5)
      ≡ q * 2 ^ 20 + a * 2 ^ 10 + d * 2 ^ 5 + base
fields-sum base q a d small high rights domain =
    let one = bit_or_insert 12 20 0 q base (omega (arith, high)) (omega (arith, small)) in
    let two =
      bit_or_insert 2 10 (q * 2 ^ 8) a base (omega (arith, rights)) (omega (arith, small)) in
    let three =
      bit_or_insert 5 5 (q * 2 ^ 10 + a) d base (omega (arith, domain)) (omega (arith, small)) in
    let low : base ≡ 0 * 2 ^ 12 * 2 ^ 20 + base = omega arith in
    let high_field = ap (λ t. bit_or t (q * 2 ^ 20)) low ∙ one in
    let shifted : (0 * 2 ^ 12 + q) * 2 ^ 20 + base ≡ q * 2 ^ 8 * 2 ^ 2 * 2 ^ 10 + base =
      omega arith in
    let rights_field = ap (λ t. bit_or t (a * 2 ^ 10)) (high_field ∙ shifted) ∙ two in
    let both : (q * 2 ^ 8 * 2 ^ 2 + a) * 2 ^ 10 + base ≡ (q * 2 ^ 10 + a) * 2 ^ 5 * 2 ^ 5 + base =
      omega arith in
    ap (λ t. bit_or t (d * 2 ^ 5)) (rights_field ∙ both) ∙ three ∙ omega arith

section_bits :
    (m : MemorySection)
    → (base : ℕ) × (base < 2 ^ 5)
      × (base / 16 % 2 * 16 + base % 4 ≡ section_page)
      × ((if m.is_cached == 0 then section_page else bit_or section_page writeback_cache) ≡ base)
section_bits m = elim (Bool-cases (m.is_cached == 0)) [
  | inl e ↦ (0x12, omega arith, refl, rw e refl)
  | inr e ↦ (0x1E, omega arith, refl, rw e refl)
]

-- The lowest bits of an entry give its type, and the highest its address.
sum-fields :
    (entry q a d base : ℕ)
    → entry ≡ q * 2 ^ 20 + a * 2 ^ 10 + d * 2 ^ 5 + base
    → base < 2 ^ 5
    → base / 16 % 2 * 16 + base % 4 ≡ section_page
    → a < 4
    → d < 16
    → (page_type entry ≡ section_page) × (without_low 20 entry ≡ q * 2 ^ 20)
sum-fields entry q a d base e small kind rights domain =
    omega (arith, e, small, kind, rights, domain)

-- The entry of a section has the section's type and its physical address.
pub section_entry-fields :
    (m : MemorySection) (q : ℕ)
    → m.physical_address ≡ q * 2 ^ 20
    → q < 2 ^ 12
    → m.domain < 16
    → (page_type (section_entry m) ≡ section_page)
      × (without_low 20 (section_entry m) ≡ m.physical_address)
unfolding section_entry
section_entry-fields m q at small domain =
    let (base, room, kind, e) = section_bits m in
    let a = m.access_rights % 4 in
    let address : without_low 20 m.physical_address ≡ q * 2 ^ 20 = omega (arith, at) in
    let field : page_domain m.domain ≡ m.domain * 2 ^ 5 = omega (arith, domain) in
    let sum = fields-sum base q a m.domain room (omega (arith, small)) (omega arith) domain in
    let whole : section_entry m ≡ q * 2 ^ 20 + a * 2 ^ 10 + m.domain * 2 ^ 5 + base =
      rw (e, address, field) sum in
    let (type, high) =
      sum-fields (section_entry m) q a m.domain base whole room kind (omega arith) domain in
    (type, high ∙ sym at)
