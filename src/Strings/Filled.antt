-- ===== src/Strings/Filled.antt =====
-- `memset` of core/source/string.c, whole.
use star_struck.Base.{
  ℕ, ◌+◌, ◌-◌, ◌*◌, ◌/◌, ◌%◌, ◌^◌, ◌<◌, ◌≡◌, inl, inr, false, Bool-cases, ltb, leb, ◌==◌, ◌||◌,
  arith,
}
use star_struck.Strings.Memory.{Memory, set_memory}
use star_struck.Strings.Memset.{set_rest, set_to_16, set_aligned, memset}
use star_struck.Strings.Bytes.{IsBytes}
use star_struck.Strings.Fill.{
  Fills, fill, fill-fill, Fills-IsBytes, Fills-length, no_bytes, set_memory-Fills, set_rest-Fills,
  set_to_16-Fills,
}

set_aligned-Fills :
    (m : Memory) (p d n : ℕ)
    → IsBytes m
    → d < 2 ^ 8
    → p % 4 ≡ 0
    → Fills m p d n (set_aligned m p d n)
unfolding set_aligned
set_aligned-Fills m p d n b lt al = elim (Bool-cases (ltb n 0x101 || (p % 16 == 0))) [
  | inl e ↦ rw e (set_rest-Fills m p d (n / 4 * 4) n b lt (omega arith) (omega arith))
  | inr e ↦
      let cnt = 16 - p % 16 in
      let rest = n - 16 + p % 16 in
      let long : 0x100 < n = ground arith in
      let apart : p % 16 ≡ 0 → ⊥ = λ z. ground arith in
      let big : ltb n cnt ≡ false = ground arith in
      let g = set_to_16 m p d cnt in
      let first = set_to_16-Fills m p d cnt lt (omega (arith, al)) (omega (arith, apart)) in
      rw (e, big)
        (fill-fill m g (set_rest g (p / 16 * 16 + 16) d (rest / 16 * 16) rest) p d cnt rest
          (p / 16 * 16 + 16) n (omega arith) (omega (arith, long)) first
          (set_rest-Fills g (p / 16 * 16 + 16) d (rest / 16 * 16) rest
            (Fills-IsBytes m g p d cnt lt b first) lt (omega arith) (omega arith)))
]

-- `memset` of any memory of bytes, at any address and for any length, fills the range with the lowest
-- byte of the character, and leaves all other bytes as they were.
pub memset-fill :
    (m : Memory) (dest character length : ℕ)
    → IsBytes m
    → (q : ℕ) → memset m dest character length q ≡ fill m dest (character % 2 ^ 8) length q
unfolding memset
memset-fill m dest character length b =
    let d = character % 2 ^ 8 in
    let lt : d < 2 ^ 8 = omega arith in
    elim (Bool-cases (length == 0)) [
      | inl e ↦ rw e (Fills-length m m dest d 0 length (ground (arith, e)) (no_bytes m dest d))
      | inr e ↦ elim (Bool-cases (dest % 4 == 0)) [
        | inl z ↦ rw (e, z) (set_aligned-Fills m dest d length b lt (ground arith))
        | inr z ↦
            let cnt = 4 - dest % 4 in
            elim (Bool-cases (leb length cnt)) [
              | inl s ↦ rw (e, z, s) (set_memory-Fills m dest d length b lt)
              | inr s ↦
                  let g = set_memory m dest d cnt in
                  let first = set_memory-Fills m dest d cnt b lt in
                  rw (e, z, s)
                    (fill-fill m g (set_aligned g (dest / 4 * 4 + 4) d (length - cnt)) dest d cnt
                      (length - cnt) (dest / 4 * 4 + 4) length (ground arith) (ground arith) first
                      (set_aligned-Fills g (dest / 4 * 4 + 4) d (length - cnt)
                        (Fills-IsBytes m g dest d cnt lt b first) lt (omega arith)))
            ]
      ]
    ]
