-- ===== src/Strings/Compare.antt =====
-- The functions of core/source/string.c that only read. A loop that looks for the end of a string has one
-- round for each byte of the address space.
use star_struck.Base.{
  ℕ, zero, suc, ◌+◌, ◌-◌, ◌^◌, ℤ, pos, negsuc, Bool, true, false, leb, ◌==◌, ◌||◌, not,
  if◌then◌else◌, Run, ok, hang, ◌>>=◌,
}
use star_struck.Strings.Memory.{Memory}

abbrev pub all_bytes : ℕ
all_bytes = 2 ^ 32

-- The difference of two bytes as an `int`.
abbrev pub difference : ℕ → ℕ → ℤ
difference a b = if leb b a then pos (a - b) else negsuc (b - a - 1)

unfoldable pub strlen_from : ℕ → Memory → ℕ → ℕ → Run ℕ
strlen_from zero m s len = hang
strlen_from (suc fuel) m s len =
    let rest = strlen_from fuel m s (len + 1) in if m (s + len) == 0 then ok len else rest

unfoldable pub strlen : Memory → ℕ → Run ℕ
strlen m s = strlen_from all_bytes m s 0

-- `n` rounds are left at `len`.
unfoldable pub strnlen_from : ℕ → Memory → ℕ → ℕ → ℕ
strnlen_from zero m s len = len
strnlen_from (suc n) m s len =
    let rest = strnlen_from n m s (len + 1) in if m (s + len) == 0 then len else rest

unfoldable pub strnlen : Memory → ℕ → ℕ → ℕ
strnlen m s count = strnlen_from count m s 0

unfoldable pub memcmp_from : ℕ → Memory → ℕ → ℕ → ℕ → ℤ
memcmp_from zero m s1 s2 i = pos 0
memcmp_from (suc n) m s1 s2 i =
    let rest = memcmp_from n m s1 s2 (i + 1) in
    if m (s1 + i) == m (s2 + i) then rest else difference (m (s1 + i)) (m (s2 + i))

unfoldable pub memcmp : Memory → ℕ → ℕ → ℕ → ℤ
memcmp m s1 s2 len = memcmp_from len m s1 s2 0

unfoldable pub strcmp_from : ℕ → Memory → ℕ → ℕ → ℕ → Run ℤ
strcmp_from zero m s1 s2 i = hang
strcmp_from (suc fuel) m s1 s2 i =
    let rest = strcmp_from fuel m s1 s2 (i + 1) in
    if (m (s1 + i) == 0) || not (m (s1 + i) == m (s2 + i))
    then ok (difference (m (s1 + i)) (m (s2 + i)))
    else rest

unfoldable pub strcmp : Memory → ℕ → ℕ → Run ℤ
strcmp m s1 s2 = strcmp_from all_bytes m s1 s2 0

unfoldable pub strncmp_from : ℕ → Memory → ℕ → ℕ → ℕ → ℤ
strncmp_from zero m s1 s2 i = pos 0
strncmp_from (suc n) m s1 s2 i =
    let rest = strncmp_from n m s1 s2 (i + 1) in
    if (m (s1 + i) == 0) || not (m (s1 + i) == m (s2 + i))
    then difference (m (s1 + i)) (m (s2 + i))
    else rest

unfoldable pub strncmp : Memory → ℕ → ℕ → ℕ → ℤ
strncmp m s1 s2 n = strncmp_from n m s1 s2 0

unfoldable pub strchr_from : ℕ → Memory → ℕ → ℕ → ℕ → Run ℕ
strchr_from zero m s c i = hang
strchr_from (suc fuel) m s c i =
    let rest = strchr_from fuel m s c (i + 1) in
    if m (s + i) == 0 then ok 0 else if m (s + i) == c then ok (s + i) else rest

-- The result is an address, or NULL.
unfoldable pub strchr : Memory → ℕ → ℕ → Run ℕ
strchr m s c = strchr_from all_bytes m s c 0

-- Whether a character stands in the string at `p`: the inner loop of `strspn` and `strcspn`.
unfoldable pub is_in : ℕ → Memory → ℕ → ℕ → Run Bool
is_in zero m c p = hang
is_in (suc fuel) m c p =
    let rest = is_in fuel m c (p + 1) in
    if m p == 0 then ok false else if c == m p then ok true else rest

-- The length of the first part of `s1` of characters that are in `s2`, or are not.
unfoldable pub span_from : Bool → ℕ → Memory → ℕ → ℕ → ℕ → Run ℕ
span_from wanted zero m s1 s2 len = hang
span_from wanted (suc fuel) m s1 s2 len =
    let rest = span_from wanted fuel m s1 s2 (len + 1) in
    if m (s1 + len) == 0
    then ok len
    else is_in all_bytes m (m (s1 + len)) s2 >>= (λ (b : Bool).
      if b then (if wanted then rest else ok len) else (if wanted then ok len else rest))

unfoldable pub strspn : Memory → ℕ → ℕ → Run ℕ
strspn m s1 s2 = span_from true all_bytes m s1 s2 0

unfoldable pub strcspn : Memory → ℕ → ℕ → Run ℕ
strcspn m s1 s2 = span_from false all_bytes m s1 s2 0
